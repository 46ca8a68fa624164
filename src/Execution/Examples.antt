-- ===== src/Execution/Examples.antt =====
-- Runs of the reducer and of the services over it.
use semantask.Prelude.{
  ℕ, ◌≤◌, true, false, ◌≡◌, ◌≢◌, refl, ◌↔◌, List, [], ◌∷◌, none, some, Any, is_present,
}
use semantask.Prelude.Result.{ok}
use semantask.Execution.Kind.{
  ExecutionStateKind, ExecutionActorType, TaskLifecycleState, TaskStatus, index,
}
use semantask.Execution.State.{
  RunOwned, kind, policy_evaluate, lease_acquired, error_occurred, queued, policy_evaluating,
  planning, reasoning, retry_scheduled, blocked,
}
use semantask.Execution.Projection.{
  derive_legacy_lifecycle_state, detect_task_state_divergence, ProjectableTask,
}
use semantask.Execution.Projection.Agreement.{detect_iff}
use semantask.Execution.Transitions.{can_transition_execution_state}
use semantask.Execution.Machine.{reduce_execution_state}
use semantask.Execution.Machine.Handlers.{transition}
use semantask.Execution.Machine.Legality.{reduce-legal, legal_edge}
use semantask.Execution.Machine.Owners.{Grants, reduce-HasBudget}
use semantask.Execution.Machine.Traces.{
  Run, done, step, CanFinish, owned_needs_grant, active_needs_policy, can_finish,
}
use semantask.Execution.Shadow.{resolve_current_shadow_state}
use semantask.Execution.RetryShadow.{ShadowTask}
use semantask.Execution.Cancellation.{
  Moment, Task, CancelRequest, CancelOutcome, is_task_terminal, is_task_actively_leased,
  finalize_task_cancellation, process_task_cancellation,
}
use semantask.Execution.Cancellation.Outcome.{
  finalize_diverges_iff, process_task_cancellation_lem, Deferred, end_state,
}

abbrev run_1 : RunOwned
run_1 = record { run_id = "run-1"; worker_id = "worker"; lease_expires_at = "t9" }

evaluating : reduce_execution_state (queued "t0") policy_evaluate ≡ ok (policy_evaluating "t0")
unfolding reduce_execution_state transition index
evaluating = rw (legal_edge ExecutionStateKind.queued ExecutionStateKind.policy_evaluating refl)

leased :
    reduce_execution_state (policy_evaluating "t0") (lease_acquired run_1) ≡ ok (planning run_1)
unfolding reduce_execution_state transition index
leased = rw (legal_edge ExecutionStateKind.policy_evaluating ExecutionStateKind.planning refl)

reduce-legal_example :
    can_transition_execution_state ExecutionStateKind.queued ExecutionStateKind.policy_evaluating
    ≡ true
reduce-legal_example =
    reduce-legal (queued "t0") policy_evaluate (policy_evaluating "t0") evaluating

to_planning : Run (queued "t0") (policy_evaluate ∷ lease_acquired run_1 ∷ []) (planning run_1)
to_planning = step evaluating (step leased done)

owned_needs_grant_example : Any (Grants run_1) (policy_evaluate ∷ lease_acquired run_1 ∷ [])
owned_needs_grant_example =
    owned_needs_grant (queued "t0") (policy_evaluate ∷ lease_acquired run_1 ∷ []) (planning run_1)
      run_1 to_planning refl refl

active_needs_policy_example :
    Any (λ e. e ≡ policy_evaluate) (policy_evaluate ∷ lease_acquired run_1 ∷ [])
active_needs_policy_example =
    active_needs_policy "t0" (policy_evaluate ∷ lease_acquired run_1 ∷ []) (planning run_1)
      to_planning refl

can_finish_example : CanFinish (reasoning run_1 3)
can_finish_example = can_finish (reasoning run_1 3) (λ e. cc)

retrying :
    reduce_execution_state (reasoning run_1 1) (
      error_occurred (record {
        reason = "timeout";
        retryable = true;
        category = "network";
        retry_count = 1;
        max_retries = 2;
        next_retry_at = some "t5";
        finished_at = "t4";
      }))
    ≡ ok (retry_scheduled 1 2 "t5" "timeout" "network")
unfolding reduce_execution_state transition index
retrying = rw (legal_edge ExecutionStateKind.reasoning ExecutionStateKind.retry_scheduled refl)

reduce-HasBudget_example : (1 ≤ 2) × (is_present "t5" ≡ true)
reduce-HasBudget_example =
    reduce-HasBudget (reasoning run_1 1)
      (error_occurred (record {
        reason = "timeout";
        retryable = true;
        category = "network";
        retry_count = 1;
        max_retries = 2;
        next_retry_at = some "t5";
        finished_at = "t4";
      }))
      (retry_scheduled 1 2 "t5" "timeout" "network") retrying

abbrev projectable : ProjectableTask
projectable = record {
  lifecycle_state = some TaskLifecycleState.executing;
  status = none;
  execution_state = some (blocked "no key" none);
}

detect_iff_example :
    (detect_task_state_divergence (some TaskLifecycleState.failed) (some (blocked "no key" none))
      ≡ none)
    ↔ (TaskLifecycleState.failed ≡ derive_legacy_lifecycle_state (blocked "no key" none))
detect_iff_example = detect_iff TaskLifecycleState.failed (blocked "no key" none)

abbrev three : ℕ
three = 3

abbrev two_entries : List ℕ
two_entries = 1 ∷ 2 ∷ []

abbrev waiting_task : ShadowTask
waiting_task = record {
  execution_state = some (retry_scheduled 1 2 "t5" "timeout" "network");
  state_history = none;
  lifecycle_state = TaskLifecycleState.ready;
}

abbrev blocked_task : Task
blocked_task = record {
  execution_state = some (blocked "no key" none);
  state_history = none;
  lifecycle_state = TaskLifecycleState.blocked;
  status = TaskStatus.partial;
  result = none;
  progress = 40;
  closed_at = none;
  cancel_requested_at = none;
  cancel_reason = none;
  cancel_requested_by_type = none;
  lease_owner = some "worker";
  lease_expires_at = some 5;
}

abbrev request_1 : CancelRequest
request_1 = record { reason = "stop"; initiated_by = ExecutionActorType.user; requested_at = "t7" }

abbrev moment_1 : Moment
moment_1 = record { ms = 8; text = "t8" }

finalize_diverges_iff_example :
    let t = finalize_task_cancellation blocked_task request_1 moment_1 none true in
    (detect_task_state_divergence (some t.lifecycle_state) t.execution_state ≡ none) ↔ (
      (kind (resolve_current_shadow_state blocked_task.execution_state "t8")
        ≢ ExecutionStateKind.blocked)
      × (kind (resolve_current_shadow_state blocked_task.execution_state "t8")
          ≢ ExecutionStateKind.succeeded))
finalize_diverges_iff_example = finalize_diverges_iff blocked_task request_1 moment_1 none true

process_task_cancellation_lem_example :
    (process_task_cancellation none request_1 moment_1 none ≡ none)
    × (is_task_terminal blocked_task ≡ true
        → process_task_cancellation (some blocked_task) request_1 moment_1 none
          ≡ some (blocked_task, CancelOutcome.noop))
    × (is_task_terminal blocked_task ≡ false
        → is_task_actively_leased blocked_task 8 ≡ true
        → (t : Task) × (process_task_cancellation (some blocked_task) request_1 moment_1 none
            ≡ some (t, CancelOutcome.deferred))
          × Deferred blocked_task request_1 moment_1 t)
    × (is_task_terminal blocked_task ≡ false
        → is_task_actively_leased blocked_task 8 ≡ false
        → (t : Task) × (process_task_cancellation (some blocked_task) request_1 moment_1 none
            ≡ some (t, CancelOutcome.finalized))
          × (t.status ≡ TaskStatus.failed)
          × (t.lifecycle_state ≡ TaskLifecycleState.failed)
          × (t.progress ≡ 100)
          × (t.result ≡ some (record { success = false; confidence = 0; error = request_1.reason }))
          × (t.cancel_requested_at ≢ none)
          × (t.cancel_reason ≡ some request_1.reason)
          × (t.lease_owner ≡ none)
          × (t.execution_state
              ≡ some (
                  end_state
                    (resolve_current_shadow_state blocked_task.execution_state moment_1.text)
                    request_1
                    moment_1.text)))
process_task_cancellation_lem_example =
    process_task_cancellation_lem blocked_task request_1 moment_1 none
