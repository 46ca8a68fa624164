-- ===== src/Execution/Machine/Steps.antt =====
-- Single steps that the services over the reducer take.
use semantask.Prelude.{ℕ, Bool, true, false, ◌≡◌, refl, Option, none, String}
use semantask.Prelude.Result.{ok, err}
use semantask.Execution.Kind.{ExecutionStateKind, ExecutionActorType, index}
use semantask.Execution.State.{
  ExecutionState, kind, retry_due, retry_scheduled, queued, cancelling, cancelled, cancel_finalized,
}
use semantask.Execution.Machine.{reduce_execution_state}
use semantask.Execution.Machine.Handlers.{transition}
use semantask.Execution.Machine.Legality.{legal_edge}

abbrev pub is_waiting : ExecutionState → Bool
is_waiting (retry_scheduled _ _ _ _ _) = true
is_waiting _ = false

pub due_moves :
    (n most : ℕ) (a b c queued_at : String)
    → reduce_execution_state (retry_scheduled n most a b c) (retry_due queued_at)
      ≡ ok (queued queued_at)
unfolding reduce_execution_state transition index
due_moves n most a b c queued_at =
    rw (legal_edge ExecutionStateKind.retry_scheduled ExecutionStateKind.queued refl)

pub due_refused :
    (s : ExecutionState) (queued_at : String)
    → is_waiting s ≡ false
    → reduce_execution_state s (retry_due queued_at)
      ≡ err (record { from = kind s; event_type = "RETRY_DUE"; detail = none })
unfolding reduce_execution_state
due_refused (retry_scheduled _ _ _ _ _) queued_at w = cc
due_refused s queued_at w = refl

abbrev pub is_cancelling : ExecutionState → Bool
is_cancelling (cancelling _ _ _ _) = true
is_cancelling _ = false

pub cancel_moves :
    (i : ExecutionActorType) (a b reason cancelled_at : String) (run_id : Option String)
    → reduce_execution_state (cancelling i a b run_id) (cancel_finalized reason cancelled_at)
      ≡ ok (cancelled reason cancelled_at)
unfolding reduce_execution_state transition index
cancel_moves i a b reason cancelled_at run_id =
    rw (legal_edge ExecutionStateKind.cancelling ExecutionStateKind.cancelled refl)

pub cancel_finalized_refused :
    (s : ExecutionState) (reason cancelled_at : String)
    → is_cancelling s ≡ false
    → reduce_execution_state s (cancel_finalized reason cancelled_at)
      ≡ err (record { from = kind s; event_type = "CANCEL_FINALIZED"; detail = none })
unfolding reduce_execution_state
cancel_finalized_refused (cancelling _ _ _ _) reason cancelled_at w = cc
cancel_finalized_refused s reason cancelled_at w = refl
