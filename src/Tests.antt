-- ===== src/Tests.antt =====
-- The theorems at concrete inputs, one module per part of the program.
pub mod Samples
pub mod Contracts
pub mod Registry
pub mod Saga
pub mod Trust
pub mod Policy
pub mod Runtime
pub mod Graph
pub mod Planner
pub mod Services
pub mod Boundary
