-- ===== src/Execution.antt =====
-- src/execution: the execution engine.
pub mod State
pub mod Engine
pub mod Polling
pub mod Planner
pub mod OrderManager
