-- ===== src/Trust.antt =====
-- The trust crate: core/crates/aaf-trust/src.
pub mod Score
pub mod Autonomy
pub mod Promotion
pub mod Delegation
pub mod Registry
