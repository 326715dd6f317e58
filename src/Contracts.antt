-- ===== src/Contracts.antt =====
-- The contracts crate: core/crates/aaf-contracts/src.
pub mod Task
pub mod Trust
pub mod Policy
pub mod Capability
pub mod Intent
