-- ===== src/Execution/Shadow/History.antt =====
-- The history keeps the last entries, and a refused event changes no state.
use semantask.Prelude.{
  ℕ, ◌+◌, min, ◌≡◌, ◌≢◌, refl, ◌⊎◌, inl, inr, ◌-◌, List, [], ◌∷◌, ◌++◌, Option, none, or_else,
  String, arith, length, take, length-append, length-drop, take-append-drop, true,
}
use semantask.Prelude.Result.{ok, err}
use semantask.Execution.State.{ExecutionState, ExecutionEvent, kind}
use semantask.Execution.Transitions.{can_transition_execution_state}
use semantask.Execution.Machine.{reduce_execution_state}
use semantask.Execution.Machine.Handlers.{Reduced}
use semantask.Execution.Machine.Legality.{reduce-legal}
use semantask.Execution.Shadow.{
  reduce_shadow_execution_event, append_shadow_history, result_to, history_entry, shadow_result,
}

-- What is kept is the end of the old history with the new entry behind it, as long as the limit
-- allows.
pub append_shadow_history_lem {ℓ} :
    {A : Type ℓ} (history : Option (List A)) (entry : A) (limit : ℕ)
    → (length (append_shadow_history history entry limit)
        ≡ min limit (length (or_else history []) + 1))
      × ((forgotten : List A) × (forgotten ++ append_shadow_history history entry limit
            ≡ or_else history [] ++ entry ∷ []))
unfolding append_shadow_history
append_shadow_history_lem history entry limit =
    let next = or_else history [] ++ entry ∷ [] in
    let over = length next - limit in
    (
      omega (arith, length-drop over next, length-append (or_else history []) (entry ∷ [])),
      (take over next, take-append-drop over next),
    )

-- Either the table allows the step and the entry records it with no error, or the state is left as
-- it was and the entry records an error; the entry runs from the current state to the result.
pub reduce_shadow_lem :
    (current : ExecutionState) (event : ExecutionEvent) (at : String) (worker_id : Option String)
    → let r = reduce_shadow_execution_event current event at worker_id in
      ((can_transition_execution_state (kind current) (kind (result_to r)) ≡ true)
          × ((history_entry r).shadow_error ≡ none)
        ⊎ (result_to r ≡ current) × ((history_entry r).shadow_error ≢ none))
      × ((history_entry r).from ≡ current)
      × ((history_entry r).to ≡ result_to r)
unfolding reduce_shadow_execution_event
reduce_shadow_lem current event at worker_id = split (reduce_execution_state current event) refl
  where
    split :
        (r : Reduced)
        → reduce_execution_state current event ≡ r
        → let s = shadow_result r current event at worker_id in
          ((can_transition_execution_state (kind current) (kind (result_to s)) ≡ true)
              × ((history_entry s).shadow_error ≡ none)
            ⊎ (result_to s ≡ current) × ((history_entry s).shadow_error ≢ none))
          × ((history_entry s).from ≡ current)
          × ((history_entry s).to ≡ result_to s)
    split (ok t) h = (inl (reduce-legal current event t h, refl), refl, refl)
    split (err x) h = (inr (refl, λ e. cc), refl, refl)
