-- ===== src/Execution/Projection.antt =====
-- The legacy lifecycle and status of an execution state, and the check that they agree:
-- packages/types/task/execution-state.ts and apps/task-worker/services/state-projection.ts,
-- state-divergence-check.ts. Logging is left out.
pub mod Agreement
use semantask.Prelude.{Bool, true, false, Option, none, some, if◌then◌else◌}
use semantask.Execution.Kind.{ExecutionStateKind, TaskStatus, TaskLifecycleState, lifecycle_eq}
use semantask.Execution.State.{ExecutionState, kind}

unfoldable pub lifecycle_of_kind : ExecutionStateKind → TaskLifecycleState
lifecycle_of_kind ExecutionStateKind.queued = TaskLifecycleState.ready
lifecycle_of_kind ExecutionStateKind.policy_evaluating = TaskLifecycleState.ready
lifecycle_of_kind ExecutionStateKind.policy_blocked = TaskLifecycleState.failed
lifecycle_of_kind ExecutionStateKind.awaiting_approval = TaskLifecycleState.waiting_for_approval
lifecycle_of_kind ExecutionStateKind.planning = TaskLifecycleState.planning
lifecycle_of_kind ExecutionStateKind.ready_to_execute = TaskLifecycleState.executing
lifecycle_of_kind ExecutionStateKind.reasoning = TaskLifecycleState.executing
lifecycle_of_kind ExecutionStateKind.tool_executing = TaskLifecycleState.executing
lifecycle_of_kind ExecutionStateKind.observing = TaskLifecycleState.executing
lifecycle_of_kind ExecutionStateKind.verifying = TaskLifecycleState.executing
lifecycle_of_kind ExecutionStateKind.step_complete = TaskLifecycleState.executing
lifecycle_of_kind ExecutionStateKind.cancelling = TaskLifecycleState.executing
lifecycle_of_kind ExecutionStateKind.blocked = TaskLifecycleState.blocked
lifecycle_of_kind ExecutionStateKind.paused = TaskLifecycleState.paused
lifecycle_of_kind ExecutionStateKind.retry_scheduled = TaskLifecycleState.retry_scheduled
lifecycle_of_kind ExecutionStateKind.cancelled = TaskLifecycleState.failed
lifecycle_of_kind ExecutionStateKind.failed = TaskLifecycleState.failed
lifecycle_of_kind ExecutionStateKind.succeeded = TaskLifecycleState.completed

unfoldable pub derive_legacy_lifecycle_state : ExecutionState → TaskLifecycleState
unfolding lifecycle_of_kind
derive_legacy_lifecycle_state state = lifecycle_of_kind (kind state)

unfoldable pub status_of_kind : ExecutionStateKind → TaskStatus
status_of_kind ExecutionStateKind.queued = TaskStatus.pending
status_of_kind ExecutionStateKind.policy_evaluating = TaskStatus.pending
status_of_kind ExecutionStateKind.planning = TaskStatus.pending
status_of_kind ExecutionStateKind.ready_to_execute = TaskStatus.pending
status_of_kind ExecutionStateKind.reasoning = TaskStatus.executing
status_of_kind ExecutionStateKind.tool_executing = TaskStatus.executing
status_of_kind ExecutionStateKind.observing = TaskStatus.executing
status_of_kind ExecutionStateKind.verifying = TaskStatus.executing
status_of_kind ExecutionStateKind.step_complete = TaskStatus.executing
status_of_kind ExecutionStateKind.cancelling = TaskStatus.executing
status_of_kind ExecutionStateKind.awaiting_approval = TaskStatus.partial
status_of_kind ExecutionStateKind.blocked = TaskStatus.partial
status_of_kind ExecutionStateKind.retry_scheduled = TaskStatus.partial
status_of_kind ExecutionStateKind.paused = TaskStatus.waiting_for_input
status_of_kind ExecutionStateKind.policy_blocked = TaskStatus.failed
status_of_kind ExecutionStateKind.cancelled = TaskStatus.failed
status_of_kind ExecutionStateKind.failed = TaskStatus.failed
status_of_kind ExecutionStateKind.succeeded = TaskStatus.completed

unfoldable pub derive_legacy_task_status : ExecutionState → TaskStatus
unfolding status_of_kind
derive_legacy_task_status state = status_of_kind (kind state)

unfoldable pub task_lifecycle_matches_execution_projection :
    TaskLifecycleState → ExecutionState → Bool
task_lifecycle_matches_execution_projection lifecycle_state execution_state =
    lifecycle_eq (derive_legacy_lifecycle_state execution_state) lifecycle_state

pub record TaskStateDivergence : Type 0 where
  pub lifecycle_state : TaskLifecycleState
  pub execution_state_kind : ExecutionStateKind
  pub projected_lifecycle_state : TaskLifecycleState

-- `none` is a stored value that is no execution state, or no lifecycle state.
unfoldable pub detect_task_state_divergence :
    Option TaskLifecycleState → Option ExecutionState → Option TaskStateDivergence
unfolding task_lifecycle_matches_execution_projection
detect_task_state_divergence none _ = none
detect_task_state_divergence (some lifecycle) none = none
detect_task_state_divergence (some lifecycle) (some state) =
    if task_lifecycle_matches_execution_projection lifecycle state
    then none
    else some (record {
      lifecycle_state = lifecycle;
      execution_state_kind = kind state;
      projected_lifecycle_state = derive_legacy_lifecycle_state state;
    })

pub data ProjectionMode : Type 0 where
  off shadow enforce : ProjectionMode

pub record ProjectableTask : Type 0 where
  pub lifecycle_state : Option TaskLifecycleState
  pub status : Option TaskStatus
  pub execution_state : Option ExecutionState

abbrev project : ProjectableTask → ExecutionState → ProjectableTask
project task state = record task {
  lifecycle_state = some (derive_legacy_lifecycle_state state);
  status = some (derive_legacy_task_status state);
}

-- `treat_off_as_enforce` is `options?.treatOffAs === "enforce"`. Shadow mode only logs.
unfoldable pub apply_lifecycle_projection :
    ProjectionMode → (treat_off_as_enforce : Bool) → ProjectableTask → ProjectableTask
apply_lifecycle_projection ProjectionMode.off false task = task
apply_lifecycle_projection ProjectionMode.off true task = elim task.execution_state [
  | none ↦ task
  | some state ↦ project task state
]
apply_lifecycle_projection ProjectionMode.shadow _ task = task
apply_lifecycle_projection ProjectionMode.enforce _ task = elim task.execution_state [
  | none ↦ task
  | some state ↦ project task state
]
