-- ===== src/Registry.antt =====
-- The registry crate: core/crates/aaf-registry/src.
pub mod CircuitBreaker
pub mod Breakers
pub mod Degradation
pub mod Store
pub mod Discovery
pub mod Registration
pub mod Version
