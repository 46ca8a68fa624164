-- ===== src/Execution/RetryShadow.antt =====
-- The due retry in the execution state: apps/task-worker/services/retry-shadow.ts. Logging is left
-- out; `saved` says whether the write to the database succeeds.
use semantask.Prelude.{
  Bool, true, false, ◌&&◌, List, Option, none, some, String, ◌≡◌, refl, ap, if◌then◌else◌,
  Bool-cases, inl, inr,
}
use semantask.Execution.Kind.{TaskLifecycleState, lifecycle_index}
use semantask.Execution.State.{ExecutionState, retry_due, retry_scheduled, queued}
use semantask.Execution.Projection.{derive_legacy_lifecycle_state, detect_task_state_divergence}
use semantask.Execution.Machine.Handlers.{InvalidExecutionTransitionError}
use semantask.Execution.Machine.Steps.{is_waiting, due_moves, due_refused}
use semantask.Execution.Shadow.{
  ShadowHistoryEntry, ShadowTransitionResult, moved, refused, shadow_history_limit, shadow_result,
  resolve_current_shadow_state, reduce_shadow_execution_event, append_shadow_history,
}

-- The fields of a stored task that are read and written here.
pub record ShadowTask : Type 0 where
  pub execution_state : Option ExecutionState
  pub state_history : Option (List ShadowHistoryEntry)
  pub lifecycle_state : TaskLifecycleState

-- What is stored afterwards, and the returned value.
emit_result : ShadowTask → (saved : Bool) → ShadowTransitionResult → Option ShadowTask × Bool
emit_result task saved (refused from to entry error) = (some task, false)
emit_result task saved (moved from to entry) =
    if saved
    then (
      some (record {
        execution_state = some to;
        state_history = some (append_shadow_history task.state_history entry shadow_history_limit);
        lifecycle_state = derive_legacy_lifecycle_state to;
      }),
      true,
    )
    else (some task, false)

unfoldable pub emit_retry_due_shadow_state :
    (task : Option ShadowTask)
    → (queued_at now : String) → (worker_id : Option String) → (saved : Bool)
    → Option ShadowTask × Bool
unfolding emit_result
emit_retry_due_shadow_state none queued_at now worker_id saved = (none, false)
emit_retry_due_shadow_state (some task) queued_at now worker_id saved = emit_result task saved (
    reduce_shadow_execution_event (resolve_current_shadow_state task.execution_state now)
      (retry_due queued_at) now worker_id)

module _ (queued_at now : String) (worker_id : Option String) where
  -- What becomes of a state when the retry is due.
  data Due (s : ExecutionState) : Type 0 where
    queues :
        (entry : ShadowHistoryEntry)
        → is_waiting s ≡ true
        → reduce_shadow_execution_event s (retry_due queued_at) now worker_id
          ≡ moved s (queued queued_at) entry
        → Due s
    stays :
        (entry : ShadowHistoryEntry) (error : InvalidExecutionTransitionError)
        → is_waiting s ≡ false
        → reduce_shadow_execution_event s (retry_due queued_at) now worker_id
          ≡ refused s s entry error
        → Due s

  due : (s : ExecutionState) → Due s
  unfolding reduce_shadow_execution_event
  due (retry_scheduled n most a b c) = queues _ refl (
      ap (λ r. shadow_result r (retry_scheduled n most a b c) (retry_due queued_at) now worker_id)
        (due_moves n most a b c queued_at))
  due s = stays _ _ refl (
      ap (λ r. shadow_result r s (retry_due queued_at) now worker_id)
        (due_refused s queued_at refl))

-- A due retry is queued exactly when the stored state, or `queued` in its place, is a scheduled
-- retry and the write succeeds: the execution state is then `queued` at that time, the lifecycle
-- `ready`, and the two do not diverge. Otherwise the stored task stays as it was.
pub emit_retry_due_lem :
    (task : ShadowTask) (queued_at now : String) (worker_id : Option String) (saved : Bool)
    → let r = emit_retry_due_shadow_state (some task) queued_at now worker_id saved in
      (r.1 ≡ (is_waiting (resolve_current_shadow_state task.execution_state now) && saved))
      × (r.1 ≡ false → r.0 ≡ some task)
      × (r.1 ≡ true
          → (t : ShadowTask) × (r.0 ≡ some t)
            × (t.execution_state ≡ some (queued queued_at))
            × (t.lifecycle_state ≡ TaskLifecycleState.ready)
            × (detect_task_state_divergence (some t.lifecycle_state) t.execution_state ≡ none))
unfolding emit_retry_due_shadow_state detect_task_state_divergence derive_legacy_lifecycle_state
    lifecycle_index
emit_retry_due_lem task queued_at now worker_id saved =
    elim (due queued_at now worker_id (resolve_current_shadow_state task.execution_state now)) [
      | queues entry w h ↦ elim (Bool-cases saved) [
        | inl yes_saved ↦ rw (h, w, yes_saved) (refl, λ e. cc, λ e. (_, refl, refl, refl, refl))
        | inr not_saved ↦ rw (h, w, not_saved) (refl, λ e. refl, λ e. cc)
      ]
      | stays entry error w h ↦ rw (h, w) (refl, λ e. refl, λ e. cc)
    ]
