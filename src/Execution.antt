-- ===== src/Execution.antt =====
-- The execution of a task: packages/types/task/execution-state.ts and the services of
-- apps/task-worker/services that keep a task's execution state.
pub mod Kind
pub mod State
pub mod Projection
pub mod Transitions
pub mod Machine
pub mod Shadow
pub mod RetryShadow
pub mod Cancellation
mod Examples
