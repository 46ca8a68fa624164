-- ===== src/Policy.antt =====
-- What the worker may do without a human: apps/task-worker/services/execution-policy.ts,
-- execution-confidence.ts, prompt-guard.ts, suggest-only-execution-gate.ts, and the overlay of the
-- execution mode in packages/services/config/execution.ts.
pub mod Mode
pub mod Confidence
pub mod PromptGuard
pub mod Decision
mod Examples
