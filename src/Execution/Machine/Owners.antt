-- ===== src/Execution/Machine/Owners.antt =====
-- Who owns a run: a run's identity, worker and lease pass unchanged from state to state.
use semantask.Prelude.{ℕ, ◌≤◌, ◌≡◌, ◌⊎◌, arith, some, is_present, true}
use semantask.Prelude.Result.{ok}
use semantask.Execution.State.{
  ExecutionState, ExecutionEvent, RunOwned, owner, policy_evaluate, lease_acquired,
  approval_granted, clarification_resolved, retry_scheduled,
}
use semantask.Execution.Machine.{reduce_execution_state}
use semantask.Execution.Machine.Handlers.{transition}

-- The event hands the run over to a worker.
pub data Grants (r : RunOwned) : ExecutionEvent → Type 0 where
  by_lease : Grants r (lease_acquired r)
  by_approval : Grants r (approval_granted r)
  by_clarification : (iteration : ℕ) → Grants r (clarification_resolved r iteration)

-- A state that a step leaves owned was owned before by the same run, or the event granted the run.
pub owner-reduce :
    (s : ExecutionState) (e : ExecutionEvent) (t : ExecutionState) (r : RunOwned)
    → reduce_execution_state s e ≡ ok t
    → owner t ≡ some r
    → (owner s ≡ some r) ⊎ Grants r e
unfolding reduce_execution_state transition
owner-reduce s policy_evaluate t r h o = grind (arith, by_lease, by_approval, by_clarification)
owner-reduce s e t r h o = grind (arith, by_lease, by_approval, by_clarification)

-- A retry that waits has budget left and a time at which it is due.
abbrev pub HasBudget : ExecutionState → Type 0
HasBudget (retry_scheduled retry_count max_retries next_retry_at _ _) =
    (retry_count ≤ max_retries) × (is_present next_retry_at ≡ true)
HasBudget _ = Unit

pub reduce-HasBudget :
    (s : ExecutionState) (e : ExecutionEvent) (t : ExecutionState)
    → reduce_execution_state s e ≡ ok t
    → HasBudget t
unfolding reduce_execution_state transition
reduce-HasBudget s policy_evaluate t h = ground arith
reduce-HasBudget s e t h = ground arith
