-- ===== src/Policy.antt =====
-- The policy crate: core/crates/aaf-policy/src.
pub mod Context
pub mod Rules
pub mod Engine
pub mod Approval
pub mod Scope
