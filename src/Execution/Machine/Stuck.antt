-- ===== src/Execution/Machine/Stuck.antt =====
-- Which states no event moves, and which states refuse a cancellation.
use semantask.Prelude.{
  String, Bool, true, false, not, ◌≡◌, refl, ◌↔◌, inl, inr, arith, none, some, Bool-cases, some_of,
  present, if◌then◌else◌, if-not,
}
use semantask.Prelude.Result.{ok, err, is_ok}
use semantask.Execution.Kind.{ExecutionStateKind, ExecutionActorType, index}
use semantask.Execution.State.{
  ExecutionState, ExecutionEvent, kind, policy_evaluate, cancel_requested, cancel_finalized,
  error_occurred, policy_blocked, blocked, cancelling, run_id_of,
}
use semantask.Execution.Transitions.{legal_execution_transitions}
use semantask.Execution.Transitions.Lookup.{links, can_transition-eq-links}
use semantask.Execution.Machine.{reduce_execution_state}
use semantask.Execution.Machine.Handlers.{Reduced}
use semantask.Execution.Machine.Handlers.{transition}
use semantask.Execution.Machine.Legality.{
  is_stuck, is_final, final_no_successor, legal_edge, illegal_edge, reduce-legal,
}

final_refuses :
    (s : ExecutionState) (e : ExecutionEvent)
    → is_final (kind s) ≡ true
    → is_ok (reduce_execution_state s e) ≡ false
final_refuses s e f = elim (Bool-cases (is_ok (reduce_execution_state s e))) [
  | inl h ↦ absurd (lands (reduce_execution_state s e) refl h)
  | inr h ↦ h
]
  where
    lands : (r : Reduced) → reduce_execution_state s e ≡ r → is_ok r ≡ true → ⊥
    lands (ok t) h _ = cc (reduce-legal s e t h, final_no_successor (kind s) (kind t) f)
    lands (err x) h g = cc

policy_blocked_refuses :
    (reason decided_at : String) (e : ExecutionEvent)
    → is_ok (reduce_execution_state (policy_blocked reason decided_at) e) ≡ false
unfolding reduce_execution_state transition index
policy_blocked_refuses reason decided_at policy_evaluate = refl
policy_blocked_refuses reason decided_at e = ground (
  arith,
  illegal_edge ExecutionStateKind.policy_blocked ExecutionStateKind.paused refl,
  illegal_edge ExecutionStateKind.policy_blocked ExecutionStateKind.blocked refl,
  illegal_edge ExecutionStateKind.policy_blocked ExecutionStateKind.retry_scheduled refl,
  illegal_edge ExecutionStateKind.policy_blocked ExecutionStateKind.failed refl,
  illegal_edge ExecutionStateKind.policy_blocked ExecutionStateKind.cancelling refl,
)

stuck_refuses :
    (s : ExecutionState) (e : ExecutionEvent)
    → is_stuck (kind s) ≡ true
    → is_ok (reduce_execution_state s e) ≡ false
stuck_refuses (policy_blocked reason decided_at) e h = policy_blocked_refuses reason decided_at e
stuck_refuses s e h = final_refuses s e h

abbrev pub cancel : ExecutionEvent
cancel = cancel_requested ExecutionActorType.user "" ""

-- An event that a state accepts, unless it is stuck.
abbrev pub move : ExecutionState → ExecutionEvent
move (cancelling _ _ _ _) = cancel_finalized "" ""
move (blocked _ _) = error_occurred (record {
  reason = "";
  retryable = false;
  category = "";
  retry_count = 0;
  max_retries = 0;
  next_retry_at = none;
  finished_at = "";
})
move _ = cancel

pub move-is_ok :
    (s : ExecutionState)
    → is_stuck (kind s) ≡ false
    → is_ok (reduce_execution_state s (move s)) ≡ true
unfolding reduce_execution_state transition index
move-is_ok (cancelling _ _ _ _) h =
    rw (legal_edge ExecutionStateKind.cancelling ExecutionStateKind.cancelled refl)
move-is_ok (blocked _ _) h =
    rw (legal_edge ExecutionStateKind.blocked ExecutionStateKind.failed refl)
move-is_ok (policy_blocked _ _) h = cc
move-is_ok s h = ground (arith, legal_edge (kind s) ExecutionStateKind.cancelling)

-- No event moves a state exactly when it succeeded, failed, was cancelled or was blocked by policy.
pub stuck_iff :
    (s : ExecutionState)
    → (is_stuck (kind s) ≡ true)
      ↔ ((e : ExecutionEvent) → is_ok (reduce_execution_state s e) ≡ false)
stuck_iff s = (
  λ h e. stuck_refuses s e h,
  λ all. elim (Bool-cases (is_stuck (kind s))) [
    | inl h ↦ h
    | inr h ↦ cc (all (move s), move-is_ok s h)
  ],
)

-- Kinds whose states refuse a request to cancel.
abbrev pub refuses_cancel : ExecutionStateKind → Bool
refuses_cancel ExecutionStateKind.blocked = true
refuses_cancel ExecutionStateKind.cancelling = true
refuses_cancel k = is_stuck k

refuses_cancel-links :
    (k : ExecutionStateKind)
    → some_of (links k ExecutionStateKind.cancelling) legal_execution_transitions
      ≡ not (refuses_cancel k)
unfolding index
refuses_cancel-links ExecutionStateKind.queued = refl
refuses_cancel-links _ = refl

-- What a refused request to cancel throws.
abbrev pub cancel_refusal : ExecutionState → Reduced
cancel_refusal s = err (record {
  from = kind s;
  event_type = "CANCEL_REQUESTED";
  detail = some "target cancelling is not legal";
})

-- A request to cancel is refused exactly when the state cannot move, is being cancelled already,
-- or is blocked; elsewhere the state becomes `cancelling` and keeps the request and its run.
pub cancel_requested_lem :
    (s : ExecutionState) (initiated_by : ExecutionActorType) (reason requested_at : String)
    → reduce_execution_state s (cancel_requested initiated_by reason requested_at) ≡ (
        if refuses_cancel (kind s)
        then cancel_refusal s
        else ok (cancelling initiated_by reason requested_at (present (run_id_of s))))
unfolding reduce_execution_state transition
cancel_requested_lem s initiated_by reason requested_at =
    rw (can_transition-eq-links (kind s) ExecutionStateKind.cancelling)
      (rw (refuses_cancel-links (kind s)) (if-not (refuses_cancel (kind s)) _ _))
