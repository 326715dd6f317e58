-- ===== src/Planner.antt =====
-- core/crates/aaf-planner: plans, their bounds, the cache, the rules and the planner.
pub mod Plan
pub mod Cache
pub mod FastPath
pub mod Composition
pub mod TopoSort
pub mod Planning
