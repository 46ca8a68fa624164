-- ===== src/Execution/Machine/Handlers.antt =====
-- The cases of `reduceExecutionState`, one function for each type of event:
-- apps/task-worker/services/execution-state-machine.ts.
use Prim.Native.String.{◌++◌}
use semantask.Prelude.{ℕ, leb, ◌&&◌, Option, none, some, present, String, if◌then◌else◌}
use semantask.Prelude.Value.{Value, truthy}
use semantask.Prelude.Result.{Result, ok, err}
use semantask.Execution.Kind.{
  ExecutionStateKind, TaskExecutionActionType, ExecutionActorType, kind_name,
}
use semantask.Execution.State.{
  ExecutionState, RunOwned, ExecutionResultSnapshot, ErrorInfo, queued, policy_evaluating,
  policy_blocked, awaiting_approval, planning, ready_to_execute, reasoning, tool_executing,
  observing, verifying, step_complete, blocked, paused, retry_scheduled, cancelling, cancelled,
  succeeded, failed, kind, owner, run_id_of,
}
use semantask.Execution.Transitions.{can_transition_execution_state}

-- The error's `name` is the class's; its message is built from the arguments.
pub record InvalidExecutionTransitionError : Type 0 where
  pub from : ExecutionStateKind
  pub event_type : String
  pub detail : Option String

pub error_message : InvalidExecutionTransitionError → String
error_message e =
    "Invalid execution transition from "
    ++ kind_name e.from
    ++ " on "
    ++ e.event_type
    ++ elim e.detail [ none ↦ "" | some detail ↦ ": " ++ detail ]

abbrev pub Reduced : Type 0
Reduced = Result InvalidExecutionTransitionError ExecutionState

abbrev pub invalid : ExecutionState → String → Option String → Reduced
invalid state event_type detail =
    err (record { from = kind state; event_type = event_type; detail = detail })

-- `assertExecutionTransition`, and the target if it holds.
unfoldable pub transition : ExecutionState → ExecutionState → String → Reduced
transition from to event_type =
    if can_transition_execution_state (kind from) (kind to)
    then ok to
    else invalid from event_type (some ("target " ++ kind_name (kind to) ++ " is not legal"))

-- A state that a case of the reducer refuses after `requireRunOwned`.
abbrev pub refuse_run : ExecutionState → String → Reduced
refuse_run state event_type = elim (owner state) [
  | none ↦ invalid state event_type (some "state is not run-owned")
  | some run ↦ invalid state event_type none
]

unfoldable pub on_policy_evaluate : ExecutionState → Reduced
on_policy_evaluate (queued queued_at) =
    transition (queued queued_at) (policy_evaluating queued_at) "POLICY_EVALUATE"
on_policy_evaluate state = invalid state "POLICY_EVALUATE" none

unfoldable pub on_policy_block : ExecutionState → String → String → Reduced
on_policy_block (policy_evaluating queued_at) reason decided_at =
    transition (policy_evaluating queued_at) (policy_blocked reason decided_at) "POLICY_BLOCKED"
on_policy_block state _ _ = invalid state "POLICY_BLOCKED" none

unfoldable pub on_policy_approval_required :
    ExecutionState → TaskExecutionActionType → String → Option String → Reduced
on_policy_approval_required (policy_evaluating queued_at) action_type requested_at expires_at =
    transition (policy_evaluating queued_at)
      (awaiting_approval action_type requested_at (present expires_at)) "POLICY_APPROVAL_REQUIRED"
on_policy_approval_required state _ _ _ = invalid state "POLICY_APPROVAL_REQUIRED" none

unfoldable pub on_lease_acquired : ExecutionState → RunOwned → Reduced
on_lease_acquired (policy_evaluating queued_at) run =
    transition (policy_evaluating queued_at) (planning run) "LEASE_ACQUIRED"
on_lease_acquired (awaiting_approval action_type requested_at expires_at) run =
    transition (awaiting_approval action_type requested_at expires_at) (planning run)
      "LEASE_ACQUIRED"
on_lease_acquired state _ = invalid state "LEASE_ACQUIRED" none

unfoldable pub on_approval_granted : ExecutionState → RunOwned → Reduced
on_approval_granted (awaiting_approval action_type requested_at expires_at) run =
    transition (awaiting_approval action_type requested_at expires_at) (planning run)
      "APPROVAL_GRANTED"
on_approval_granted state _ = invalid state "APPROVAL_GRANTED" none

unfoldable pub on_approval_rejected : ExecutionState → String → String → Reduced
on_approval_rejected (awaiting_approval action_type requested_at expires_at) reason finished_at =
    transition (awaiting_approval action_type requested_at expires_at)
      (failed finished_at reason reason none) "APPROVAL_REJECTED"
on_approval_rejected state _ _ = invalid state "APPROVAL_REJECTED" none

unfoldable pub on_plan_ready : ExecutionState → Reduced
on_plan_ready (planning run) = transition (planning run) (ready_to_execute run) "PLAN_READY"
on_plan_ready state = refuse_run state "PLAN_READY"

unfoldable pub on_iteration_start : ExecutionState → ℕ → Reduced
on_iteration_start (ready_to_execute run) iteration =
    transition (ready_to_execute run) (reasoning run iteration) "ITERATION_START"
on_iteration_start (step_complete run i step_id) iteration =
    transition (step_complete run i step_id) (reasoning run iteration) "ITERATION_START"
on_iteration_start (verifying run i step_id tool_name) iteration =
    transition (verifying run i step_id tool_name) (reasoning run iteration) "ITERATION_START"
on_iteration_start state _ = refuse_run state "ITERATION_START"

unfoldable pub on_tool_started : ExecutionState → String → String → ℕ → String → Reduced
on_tool_started (reasoning run iteration) step_id tool_name attempt idempotency_key =
    transition (reasoning run iteration)
      (tool_executing run iteration step_id tool_name attempt idempotency_key) "TOOL_STARTED"
on_tool_started state _ _ _ _ = refuse_run state "TOOL_STARTED"

unfoldable pub on_tool_observed : ExecutionState → Reduced
on_tool_observed (tool_executing run iteration step_id tool_name attempt idempotency_key) =
    transition (tool_executing run iteration step_id tool_name attempt idempotency_key)
      (observing run iteration step_id tool_name) "TOOL_OBSERVED"
on_tool_observed state = refuse_run state "TOOL_OBSERVED"

unfoldable pub on_tool_verified : ExecutionState → Reduced
on_tool_verified (observing run iteration step_id tool_name) =
    transition (observing run iteration step_id tool_name)
      (verifying run iteration step_id tool_name) "TOOL_VERIFIED"
on_tool_verified state = refuse_run state "TOOL_VERIFIED"

unfoldable pub on_step_completed : ExecutionState → Reduced
on_step_completed (verifying run iteration step_id tool_name) =
    transition (verifying run iteration step_id tool_name) (step_complete run iteration step_id)
      "STEP_COMPLETED"
on_step_completed state = refuse_run state "STEP_COMPLETED"

unfoldable pub on_goal_achieved :
    ExecutionState → String → String → ExecutionResultSnapshot → Reduced
on_goal_achieved (reasoning run iteration) finished_at run_id result =
    transition (reasoning run iteration) (succeeded finished_at run_id result) "GOAL_ACHIEVED"
on_goal_achieved (step_complete run iteration step_id) finished_at run_id result =
    transition (step_complete run iteration step_id) (succeeded finished_at run_id result)
      "GOAL_ACHIEVED"
on_goal_achieved state _ _ _ = invalid state "GOAL_ACHIEVED" none

unfoldable pub on_clarification_required : ExecutionState → String → String → Option Value → Reduced
on_clarification_required state reason question pending_resolution =
    transition state
      (paused reason
        (some (record { question = question; pending_resolution = truthy pending_resolution }))
        (present (run_id_of state)))
      "CLARIFICATION_REQUIRED"

unfoldable pub on_clarification_resolved : ExecutionState → RunOwned → ℕ → Reduced
on_clarification_resolved (paused reason pending run_id) run iteration = elim (present run_id) [
  | none ↦ invalid (paused reason pending run_id) "CLARIFICATION_RESOLVED" none
  | some _ ↦
      transition (paused reason pending run_id) (reasoning run iteration) "CLARIFICATION_RESOLVED"
]
on_clarification_resolved state _ _ = invalid state "CLARIFICATION_RESOLVED" none

unfoldable pub on_block : ExecutionState → String → Reduced
on_block state reason = transition state (blocked reason (present (run_id_of state))) "BLOCKED"

-- `event.retryable && event.retryCount <= event.maxRetries && event.nextRetryAt`
abbrev pub retry_at : ErrorInfo → Option String
retry_at e =
    if e.retryable && leb e.retry_count e.max_retries then present e.next_retry_at else none

unfoldable pub on_error_occurred : ExecutionState → ErrorInfo → Reduced
on_error_occurred state e = elim (retry_at e) [
  | some next_retry_at ↦
      transition state
        (retry_scheduled e.retry_count e.max_retries next_retry_at e.reason e.category)
        "ERROR_OCCURRED"
  | none ↦
      transition state
        (failed e.finished_at
          (if e.retryable then "Retry budget exhausted." else "Execution failed.") e.reason
          (present (run_id_of state)))
        "ERROR_OCCURRED"
]

unfoldable pub on_retry_due : ExecutionState → String → Reduced
on_retry_due (retry_scheduled n most at last category) queued_at =
    transition (retry_scheduled n most at last category) (queued queued_at) "RETRY_DUE"
on_retry_due state _ = invalid state "RETRY_DUE" none

unfoldable pub on_retry_budget_exhausted : ExecutionState → String → String → Reduced
on_retry_budget_exhausted (retry_scheduled n most at last category) last_error finished_at =
    transition (retry_scheduled n most at last category)
      (failed finished_at "Retry budget exhausted." last_error none) "RETRY_BUDGET_EXHAUSTED"
on_retry_budget_exhausted state _ _ = invalid state "RETRY_BUDGET_EXHAUSTED" none

unfoldable pub on_cancel_requested : ExecutionState → ExecutionActorType → String → String → Reduced
on_cancel_requested state initiated_by reason requested_at =
    transition state (cancelling initiated_by reason requested_at (present (run_id_of state)))
      "CANCEL_REQUESTED"

unfoldable pub on_cancel_finalized : ExecutionState → String → String → Reduced
on_cancel_finalized (cancelling initiated_by reason requested_at run_id) why cancelled_at =
    transition (cancelling initiated_by reason requested_at run_id) (cancelled why cancelled_at)
      "CANCEL_FINALIZED"
on_cancel_finalized state _ _ = invalid state "CANCEL_FINALIZED" none
