-- ===== src/Execution/State.antt =====
-- Execution states and events: packages/types/task/execution-state.ts. Dates and identifiers are
-- the texts that the code stores.
use semantask.Prelude.{ℕ, Bool, Option, some, String}
use semantask.Prelude.Value.{Value}
use semantask.Execution.Kind.{
  ExecutionStateKind, TaskExecutionActionType, ExecutionActorType, terminal_execution_states,
  run_owned_execution_states, has_kind, index,
}

pub record ExecutionResultSnapshot : Type 0 where
  pub confidence : ℕ
  pub summary : String
  pub evidence : Value

pub record RunOwned : Type 0 where
  pub run_id : String
  pub worker_id : String
  pub lease_expires_at : String

pub record PendingClarification : Type 0 where
  pub question : String
  pub pending_resolution : Option Value

pub data ExecutionState : Type 0 where
  queued : (queued_at : String) → ExecutionState
  policy_evaluating : (queued_at : String) → ExecutionState
  policy_blocked : (reason decided_at : String) → ExecutionState
  awaiting_approval :
      TaskExecutionActionType
      → (requested_at : String) → (expires_at : Option String) → ExecutionState
  planning : RunOwned → ExecutionState
  ready_to_execute : RunOwned → ExecutionState
  reasoning : RunOwned → (iteration : ℕ) → ExecutionState
  tool_executing :
      RunOwned
      → (iteration : ℕ) → (step_id tool_name : String) → (attempt : ℕ) → (idempotency_key : String)
      → ExecutionState
  observing : RunOwned → (iteration : ℕ) → (step_id tool_name : String) → ExecutionState
  verifying : RunOwned → (iteration : ℕ) → (step_id tool_name : String) → ExecutionState
  step_complete : RunOwned → (iteration : ℕ) → (step_id : String) → ExecutionState
  blocked : (reason : String) → (run_id : Option String) → ExecutionState
  paused :
      (reason : String)
      → (pending_clarification : Option PendingClarification) → (run_id : Option String)
      → ExecutionState
  retry_scheduled :
      (retry_count max_retries : ℕ) → (next_retry_at last_error category : String) → ExecutionState
  cancelling :
      ExecutionActorType
      → (reason requested_at : String) → (run_id : Option String) → ExecutionState
  cancelled : (reason cancelled_at : String) → ExecutionState
  succeeded : (finished_at run_id : String) → ExecutionResultSnapshot → ExecutionState
  failed : (finished_at reason last_error : String) → (run_id : Option String) → ExecutionState

pub record ErrorInfo : Type 0 where
  pub reason : String
  pub retryable : Bool
  pub category : String
  pub retry_count : ℕ
  pub max_retries : ℕ
  pub next_retry_at : Option String
  pub finished_at : String

pub data ExecutionEvent : Type 0 where
  policy_evaluate : ExecutionEvent
  policy_block : (reason decided_at : String) → ExecutionEvent
  policy_approval_required :
      TaskExecutionActionType
      → (requested_at : String) → (expires_at : Option String) → ExecutionEvent
  approval_granted : RunOwned → ExecutionEvent
  approval_rejected : (reason finished_at : String) → ExecutionEvent
  lease_acquired : RunOwned → ExecutionEvent
  plan_ready : ExecutionEvent
  iteration_start : (iteration : ℕ) → ExecutionEvent
  tool_started :
      (step_id tool_name : String) → (attempt : ℕ) → (idempotency_key : String) → ExecutionEvent
  tool_observed : ExecutionEvent
  tool_verified : ExecutionEvent
  step_completed : ExecutionEvent
  goal_achieved : (finished_at run_id : String) → ExecutionResultSnapshot → ExecutionEvent
  clarification_required :
      (reason question : String) → (pending_resolution : Option Value) → ExecutionEvent
  clarification_resolved : RunOwned → (iteration : ℕ) → ExecutionEvent
  block : (reason : String) → ExecutionEvent
  error_occurred : ErrorInfo → ExecutionEvent
  retry_due : (queued_at : String) → ExecutionEvent
  retry_budget_exhausted : (last_error finished_at : String) → ExecutionEvent
  cancel_requested : ExecutionActorType → (reason requested_at : String) → ExecutionEvent
  cancel_finalized : (reason cancelled_at : String) → ExecutionEvent

-- `state.kind`
abbrev pub kind : ExecutionState → ExecutionStateKind
kind (queued _) = ExecutionStateKind.queued
kind (policy_evaluating _) = ExecutionStateKind.policy_evaluating
kind (policy_blocked _ _) = ExecutionStateKind.policy_blocked
kind (awaiting_approval _ _ _) = ExecutionStateKind.awaiting_approval
kind (planning _) = ExecutionStateKind.planning
kind (ready_to_execute _) = ExecutionStateKind.ready_to_execute
kind (reasoning _ _) = ExecutionStateKind.reasoning
kind (tool_executing _ _ _ _ _ _) = ExecutionStateKind.tool_executing
kind (observing _ _ _ _) = ExecutionStateKind.observing
kind (verifying _ _ _ _) = ExecutionStateKind.verifying
kind (step_complete _ _ _) = ExecutionStateKind.step_complete
kind (blocked _ _) = ExecutionStateKind.blocked
kind (paused _ _ _) = ExecutionStateKind.paused
kind (retry_scheduled _ _ _ _ _) = ExecutionStateKind.retry_scheduled
kind (cancelling _ _ _ _) = ExecutionStateKind.cancelling
kind (cancelled _ _) = ExecutionStateKind.cancelled
kind (succeeded _ _ _) = ExecutionStateKind.succeeded
kind (failed _ _ _ _) = ExecutionStateKind.failed

-- `event.type`
abbrev pub event_name : ExecutionEvent → String
event_name policy_evaluate = "POLICY_EVALUATE"
event_name (policy_block _ _) = "POLICY_BLOCKED"
event_name (policy_approval_required _ _ _) = "POLICY_APPROVAL_REQUIRED"
event_name (approval_granted _) = "APPROVAL_GRANTED"
event_name (approval_rejected _ _) = "APPROVAL_REJECTED"
event_name (lease_acquired _) = "LEASE_ACQUIRED"
event_name plan_ready = "PLAN_READY"
event_name (iteration_start _) = "ITERATION_START"
event_name (tool_started _ _ _ _) = "TOOL_STARTED"
event_name tool_observed = "TOOL_OBSERVED"
event_name tool_verified = "TOOL_VERIFIED"
event_name step_completed = "STEP_COMPLETED"
event_name (goal_achieved _ _ _) = "GOAL_ACHIEVED"
event_name (clarification_required _ _ _) = "CLARIFICATION_REQUIRED"
event_name (clarification_resolved _ _) = "CLARIFICATION_RESOLVED"
event_name (block _) = "BLOCKED"
event_name (error_occurred _) = "ERROR_OCCURRED"
event_name (retry_due _) = "RETRY_DUE"
event_name (retry_budget_exhausted _ _) = "RETRY_BUDGET_EXHAUSTED"
event_name (cancel_requested _ _ _) = "CANCEL_REQUESTED"
event_name (cancel_finalized _ _) = "CANCEL_FINALIZED"

-- The fields `runId`, `workerId` and `leaseExpiresAt` of a state that has all three.
abbrev pub owner : ExecutionState → Option RunOwned
owner (planning r) = some r
owner (ready_to_execute r) = some r
owner (reasoning r _) = some r
owner (tool_executing r _ _ _ _ _) = some r
owner (observing r _ _ _) = some r
owner (verifying r _ _ _) = some r
owner (step_complete r _ _) = some r
owner _ = Option.none

-- `"runId" in state ? state.runId : undefined`
abbrev pub run_id_of : ExecutionState → Option String
run_id_of (planning r) = some r.run_id
run_id_of (ready_to_execute r) = some r.run_id
run_id_of (reasoning r _) = some r.run_id
run_id_of (tool_executing r _ _ _ _ _) = some r.run_id
run_id_of (observing r _ _ _) = some r.run_id
run_id_of (verifying r _ _ _) = some r.run_id
run_id_of (step_complete r _ _) = some r.run_id
run_id_of (blocked _ run_id) = run_id
run_id_of (paused _ _ run_id) = run_id
run_id_of (cancelling _ _ _ run_id) = run_id
run_id_of (succeeded _ run_id _) = some run_id
run_id_of (failed _ _ _ run_id) = run_id
run_id_of _ = Option.none

unfoldable pub is_terminal_execution_state : ExecutionState → Bool
unfolding index
is_terminal_execution_state state = has_kind terminal_execution_states (kind state)

unfoldable pub is_run_owned_execution_state : ExecutionState → Bool
unfolding index
is_run_owned_execution_state state = has_kind run_owned_execution_states (kind state)
