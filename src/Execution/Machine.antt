-- ===== src/Execution/Machine.antt =====
-- The reducer of execution states: apps/task-worker/services/execution-state-machine.ts.
-- A handler takes the state first and then the event's fields, and `throw` is `err`.
pub mod Handlers
pub mod Legality
pub mod Stuck
pub mod Steps
pub mod Owners
pub mod Traces
use semantask.Execution.State.{
  ExecutionState, ExecutionEvent, policy_evaluate, policy_block, policy_approval_required,
  approval_granted, approval_rejected, lease_acquired, plan_ready, iteration_start, tool_started,
  tool_observed, tool_verified, step_completed, goal_achieved, clarification_required,
  clarification_resolved, block, error_occurred, retry_due, retry_budget_exhausted,
  cancel_requested, cancel_finalized,
}
use Handlers.{
  Reduced, on_policy_evaluate, on_policy_block, on_policy_approval_required, on_lease_acquired,
  on_approval_granted, on_approval_rejected, on_plan_ready, on_iteration_start, on_tool_started,
  on_tool_observed, on_tool_verified, on_step_completed, on_goal_achieved,
  on_clarification_required, on_clarification_resolved, on_block, on_error_occurred, on_retry_due,
  on_retry_budget_exhausted, on_cancel_requested, on_cancel_finalized,
}

unfoldable pub reduce_execution_state : ExecutionState → ExecutionEvent → Reduced
unfolding on_policy_evaluate on_policy_block on_policy_approval_required on_lease_acquired
    on_approval_granted on_approval_rejected on_plan_ready on_iteration_start on_tool_started
    on_tool_observed on_tool_verified on_step_completed on_goal_achieved on_clarification_required
    on_clarification_resolved on_block on_error_occurred on_retry_due on_retry_budget_exhausted
    on_cancel_requested on_cancel_finalized
reduce_execution_state state policy_evaluate = on_policy_evaluate state
reduce_execution_state state (policy_block reason decided_at) =
    on_policy_block state reason decided_at
reduce_execution_state state (policy_approval_required action_type requested_at expires_at) =
    on_policy_approval_required state action_type requested_at expires_at
reduce_execution_state state (lease_acquired run) = on_lease_acquired state run
reduce_execution_state state (approval_granted run) = on_approval_granted state run
reduce_execution_state state (approval_rejected reason finished_at) =
    on_approval_rejected state reason finished_at
reduce_execution_state state plan_ready = on_plan_ready state
reduce_execution_state state (iteration_start iteration) = on_iteration_start state iteration
reduce_execution_state state (tool_started step_id tool_name attempt idempotency_key) =
    on_tool_started state step_id tool_name attempt idempotency_key
reduce_execution_state state tool_observed = on_tool_observed state
reduce_execution_state state tool_verified = on_tool_verified state
reduce_execution_state state step_completed = on_step_completed state
reduce_execution_state state (goal_achieved finished_at run_id result) =
    on_goal_achieved state finished_at run_id result
reduce_execution_state state (clarification_required reason question pending_resolution) =
    on_clarification_required state reason question pending_resolution
reduce_execution_state state (clarification_resolved run iteration) =
    on_clarification_resolved state run iteration
reduce_execution_state state (block reason) = on_block state reason
reduce_execution_state state (error_occurred e) = on_error_occurred state e
reduce_execution_state state (retry_due queued_at) = on_retry_due state queued_at
reduce_execution_state state (retry_budget_exhausted last_error finished_at) =
    on_retry_budget_exhausted state last_error finished_at
reduce_execution_state state (cancel_requested initiated_by reason requested_at) =
    on_cancel_requested state initiated_by reason requested_at
reduce_execution_state state (cancel_finalized reason cancelled_at) =
    on_cancel_finalized state reason cancelled_at
