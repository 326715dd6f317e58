-- ===== src/Saga.antt =====
-- The saga crate: core/crates/aaf-saga/src.
pub mod Definition
pub mod Recovery
pub mod Executor
