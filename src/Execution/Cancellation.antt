-- ===== src/Execution/Cancellation.antt =====
-- The cancellation of a task: apps/task-worker/services/task-cancellation.ts and the release in
-- task-lease.ts. A task is the stored document; `save` writes all of it, and logging is left out.
-- The present moment is an argument, as a number of milliseconds and as the text that the code
-- makes of it.
pub mod Outcome
use semantask.Prelude.{
  ℕ, ltb, Bool, true, false, not, ◌&&◌, ◌||◌, List, [], ◌∷◌, Option, none, some, is_some, or_else,
  is_present, String, if◌then◌else◌,
}
use semantask.Execution.Kind.{
  ExecutionStateKind, ExecutionActorType, TaskLifecycleState, TaskStatus, kind_eq, index,
}
use semantask.Execution.State.{
  ExecutionState, ExecutionEvent, cancel_requested, cancel_finalized, kind,
}
use semantask.Execution.Projection.{derive_legacy_lifecycle_state}
use semantask.Execution.Shadow.{
  ShadowHistoryEntry, shadow_history_limit, result_to, history_entry, resolve_current_shadow_state,
  reduce_shadow_execution_event, append_shadow_history,
}

pub record Moment : Type 0 where
  pub ms : ℕ
  pub text : String

-- `evidence` is `{ reason: "cancelled" }` wherever this file makes a result.
pub record TaskResult : Type 0 where
  pub success : Bool
  pub confidence : ℕ
  pub error : String

pub record Task : Type 0 where
  pub execution_state : Option ExecutionState
  pub state_history : Option (List ShadowHistoryEntry)
  pub lifecycle_state : TaskLifecycleState
  pub status : TaskStatus
  pub result : Option TaskResult
  pub progress : ℕ
  pub closed_at : Option ℕ
  pub cancel_requested_at : Option String
  pub cancel_reason : Option String
  pub cancel_requested_by_type : Option ExecutionActorType
  pub lease_owner : Option String
  pub lease_expires_at : Option ℕ

abbrev ends : TaskLifecycleState → Bool
ends TaskLifecycleState.completed = true
ends TaskLifecycleState.failed = true
ends _ = false

abbrev has_ended : TaskStatus → Bool
has_ended TaskStatus.completed = true
has_ended TaskStatus.failed = true
has_ended _ = false

unfoldable pub is_task_terminal : Task → Bool
is_task_terminal task = ends task.lifecycle_state || has_ended task.status

unfoldable pub is_task_cancellation_requested : Task → Bool
is_task_cancellation_requested task = is_some task.cancel_requested_at

unfoldable pub is_task_actively_leased : Task → ℕ → Bool
is_task_actively_leased task now =
    elim task.lease_owner [ none ↦ false | some owner ↦ is_present owner ]
    && elim task.lease_expires_at [ none ↦ false | some expires_at ↦ ltb now expires_at ]

unfoldable pub build_cancel_result : String → TaskResult
build_cancel_result reason = record { success = false; confidence = 0; error = reason }

-- The loop of `applyShadowCancellationEvents`, over the current state and the history.
fold_events :
    ExecutionState × Option (List ShadowHistoryEntry)
    → List ExecutionEvent
    → String
    → Option String
    → ExecutionState × Option (List ShadowHistoryEntry)
fold_events acc [] now worker_id = acc
fold_events (current, history) (e ∷ es) now worker_id =
    let r = reduce_shadow_execution_event current e now worker_id in
    fold_events
      (result_to r, some (append_shadow_history history (history_entry r) shadow_history_limit)) es
      now worker_id

unfoldable pub apply_shadow_cancellation_events :
    Task → List ExecutionEvent → (now : String) → (worker_id : Option String) → Task
unfolding fold_events
apply_shadow_cancellation_events task [] now worker_id = task
apply_shadow_cancellation_events task (e ∷ es) now worker_id =
    let (current, history) =
      fold_events (resolve_current_shadow_state task.execution_state now, task.state_history)
        (e ∷ es) now worker_id in
    record task {
      execution_state = some current;
      state_history = history;
      lifecycle_state = derive_legacy_lifecycle_state current;
    }

-- `releaseTaskLease(id, task.leaseOwner)`, or the unconditional update: either clears the lease of
-- the document that was just saved.
unfoldable pub clear_task_lease : Task → Task
clear_task_lease task = record task { lease_owner = none; lease_expires_at = none }

pub record CancelRequest : Type 0 where
  pub reason : String
  pub initiated_by : ExecutionActorType
  pub requested_at : String

-- The events that take a state to `cancelled`.
unfoldable pub cancellation_events : ExecutionState → CancelRequest → String → List ExecutionEvent
unfolding index
cancellation_events current request cancelled_at =
    let finalized = cancel_finalized request.reason cancelled_at ∷ [] in
    if kind_eq (kind current) ExecutionStateKind.cancelling
    then finalized
    else cancel_requested request.initiated_by request.reason request.requested_at ∷ finalized

unfoldable pub finalize_task_cancellation :
    Task → CancelRequest → Moment → (worker_id : Option String) → (release_lease : Bool) → Task
unfolding build_cancel_result
finalize_task_cancellation task request now worker_id release_lease =
    let events =
      cancellation_events (resolve_current_shadow_state task.execution_state now.text) request
        now.text in
    let shadowed = apply_shadow_cancellation_events task events now.text worker_id in
    let saved = record shadowed {
      status = TaskStatus.failed;
      lifecycle_state = TaskLifecycleState.failed;
      result = some (build_cancel_result request.reason);
      progress = 100;
      closed_at = some (or_else task.closed_at now.ms);
      cancel_requested_at = some (or_else task.cancel_requested_at request.requested_at);
      cancel_reason = some request.reason;
    } in
    if release_lease then clear_task_lease saved else saved

pub data CancelOutcome : Type 0 where
  finalized deferred noop : CancelOutcome

-- The flag that a request leaves on a task that has none yet.
abbrev flag_cancellation : Task → CancelRequest → Task
flag_cancellation task request = elim task.cancel_requested_at [
  | some _ ↦ task
  | none ↦ record task {
    cancel_requested_at = some request.requested_at;
    cancel_reason = some request.reason;
    cancel_requested_by_type = some request.initiated_by;
  }
]

-- A leased task: its runner will finalize, so only the request is applied.
unfoldable pub defer_task_cancellation : Task → CancelRequest → Moment → Option String → Task
unfolding index
defer_task_cancellation task request now worker_id =
    if kind_eq (kind (resolve_current_shadow_state task.execution_state now.text))
      ExecutionStateKind.cancelling
    then task
    else apply_shadow_cancellation_events task
        (cancel_requested request.initiated_by request.reason request.requested_at ∷ []) now.text
        worker_id

-- `none` is a task that is not found, which throws.
unfoldable pub process_task_cancellation :
    Option Task
    → CancelRequest
    → Moment
    → (worker_id : Option String) → Option (Task × CancelOutcome)
process_task_cancellation none request now worker_id = none
process_task_cancellation (some task) request now worker_id =
    let flagged = flag_cancellation task request in
    if is_task_terminal task
    then some (task, noop)
    else if is_task_actively_leased flagged now.ms
    then some (defer_task_cancellation flagged request now worker_id, deferred)
    else some (finalize_task_cancellation flagged request now worker_id true, finalized)
