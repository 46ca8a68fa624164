-- ===== src/Execution/Machine/Traces.antt =====
-- Sequences of accepted events.
use semantask.Prelude.{
  Bool, true, false, List, [], ◌∷◌, ◌≡◌, refl, sym, ◌∙◌, ◌⊎◌, inl, inr, arith, Option, none, some,
  ◌≢◌, Any, here, there, some_of, String, present,
}
use semantask.Prelude.Result.{ok}
use semantask.Execution.Kind.{ExecutionStateKind, ExecutionActorType, index}
use semantask.Execution.State.{
  ExecutionState, ExecutionEvent, RunOwned, kind, owner, run_id_of, policy_evaluate, queued,
  cancelled, cancel_finalized, cancelling, blocked, policy_blocked, succeeded, failed,
}
use semantask.Execution.Transitions.{legal_execution_transitions}
use semantask.Execution.Transitions.Lookup.{links, can_transition-eq-links}
use semantask.Execution.Machine.{reduce_execution_state}
use semantask.Execution.Machine.Handlers.{transition}
use semantask.Execution.Machine.Legality.{reduce-legal, is_final, legal_edge}
use semantask.Execution.Machine.Steps.{cancel_moves}
use semantask.Execution.Machine.Owners.{Grants, owner-reduce}
use semantask.Execution.Machine.Stuck.{move, cancel, refuses_cancel, cancel_requested_lem}

-- `Run s es t`: the events are accepted one after another, from `s` to `t`.
pub data Run : ExecutionState → List ExecutionEvent → ExecutionState → Type 0 where
  done : {s : ExecutionState} → Run s [] s
  step :
      {s t u : ExecutionState} {e : ExecutionEvent} {es : List ExecutionEvent}
      → reduce_execution_state s e ≡ ok t
      → Run t es u
      → Run s (e ∷ es) u

owner-Run :
    {s : ExecutionState} {es : List ExecutionEvent} {t : ExecutionState} (r : RunOwned)
    → Run s es t
    → owner t ≡ some r
    → (owner s ≡ some r) ⊎ Any (Grants r) es
owner-Run r done o = inl o
owner-Run r (step {s} {t} {e} h run) o = elim (owner-Run r run o) [
  | inr later ↦ inr (there later)
  | inl now ↦ elim (owner-reduce s e t r h now) [ inl before ↦ inl before | inr g ↦ inr (here g) ]
]

-- A run that starts with no owner ends in a state owned by `r` only after an event that granted `r`.
pub owned_needs_grant :
    (s : ExecutionState) (es : List ExecutionEvent) (t : ExecutionState) (r : RunOwned)
    → Run s es t
    → owner s ≡ none
    → owner t ≡ some r
    → Any (Grants r) es
owned_needs_grant s es t r run free o = elim (owner-Run r run o) [ inl e ↦ cc | inr g ↦ g ]

-- Kinds that a queued execution reaches with no evaluation of the policy.
abbrev is_unevaluated : ExecutionStateKind → Bool
is_unevaluated ExecutionStateKind.queued = true
is_unevaluated ExecutionStateKind.cancelling = true
is_unevaluated ExecutionStateKind.cancelled = true
is_unevaluated ExecutionStateKind.failed = true
is_unevaluated _ = false

links_unevaluated :
    (a b : ExecutionStateKind)
    → is_unevaluated a ≡ true
    → some_of (links a b) legal_execution_transitions ≡ true
    → (is_unevaluated b ≡ true) ⊎ (b ≡ ExecutionStateKind.policy_evaluating)
unfolding index
links_unevaluated ExecutionStateKind.queued b h l = ground arith
links_unevaluated _ b h l = ground arith

evaluates :
    (s : ExecutionState) (e : ExecutionEvent) (t : ExecutionState)
    → reduce_execution_state s e ≡ ok t
    → kind t ≡ ExecutionStateKind.policy_evaluating
    → e ≡ policy_evaluate
unfolding reduce_execution_state transition
evaluates s policy_evaluate t h k = refl
evaluates s e t h k = ground arith

Run-evaluates :
    {s : ExecutionState} {es : List ExecutionEvent} {t : ExecutionState}
    → Run s es t
    → is_unevaluated (kind s) ≡ true
    → is_unevaluated (kind t) ≡ false
    → Any (λ e. e ≡ policy_evaluate) es
Run-evaluates done u v = cc
Run-evaluates (step {s} {t} {e} h run) u v =
    elim (links_unevaluated (kind s) (kind t) u
      (sym (can_transition-eq-links (kind s) (kind t)) ∙ reduce-legal s e t h)) [
        | inl w ↦ there (Run-evaluates run w v)
        | inr k ↦ here (evaluates s e t h k)
      ]

-- A queued execution gets anywhere but to its cancellation or failure only through an evaluation
-- of the policy; no tool starts without one.
pub active_needs_policy :
    (queued_at : String) (es : List ExecutionEvent) (t : ExecutionState)
    → Run (queued queued_at) es t
    → is_unevaluated (kind t) ≡ false
    → Any (λ e. e ≡ policy_evaluate) es
active_needs_policy queued_at es t run v = Run-evaluates run refl v

fails :
    (reason : String) (run_id : Option String)
    → reduce_execution_state (blocked reason run_id) (move (blocked reason run_id))
      ≡ ok (failed "" "Execution failed." "" (present run_id))
unfolding reduce_execution_state transition index
fails reason run_id = rw (legal_edge ExecutionStateKind.blocked ExecutionStateKind.failed refl)

-- The execution can be brought to an end: some events lead to success, failure or cancellation.
abbrev pub CanFinish : ExecutionState → Type 0
CanFinish s =
    (es : List ExecutionEvent) × (t : ExecutionState) × Run s es t × (is_final (kind t) ≡ true)

finish_cancelled : (s : ExecutionState) → refuses_cancel (kind s) ≡ false → CanFinish s
finish_cancelled s h = (
  cancel ∷ cancel_finalized "" "" ∷ [],
  cancelled "" "",
  step (cancel_requested_lem s ExecutionActorType.user "" "" ∙ (rw h))
      (step (cancel_moves ExecutionActorType.user "" "" "" "" (present (run_id_of s))) done),
  refl,
)

-- Every execution that the policy has not blocked can be brought to an end.
pub can_finish : (s : ExecutionState) → kind s ≢ ExecutionStateKind.policy_blocked → CanFinish s
can_finish (policy_blocked _ _) h = absurd (h refl)
can_finish (cancelling i a b run_id) h = (
  cancel_finalized "" "" ∷ [],
  cancelled "" "",
  step (cancel_moves i a b "" "" run_id) done,
  refl,
)
can_finish (blocked reason run_id) h = (
  move (blocked reason run_id) ∷ [],
  failed "" "Execution failed." "" (present run_id),
  step (fails reason run_id) done,
  refl,
)
can_finish (cancelled reason at) h = ([], cancelled reason at, done, refl)
can_finish (succeeded at run_id result) h = ([], succeeded at run_id result, done, refl)
can_finish (failed at reason last run_id) h = ([], failed at reason last run_id, done, refl)
can_finish s h = finish_cancelled s refl
