-- ===== src/Runtime.antt =====
-- The runtime crate: core/crates/aaf-runtime/src.
pub mod Budget
pub mod Node
pub mod Executor
pub mod Graph
