-- ===== src/Execution/Shadow.antt =====
-- The execution state that is written beside the legacy fields, and its bounded history:
-- apps/task-worker/services/execution-state-shadow.ts. Times are passed in.
pub mod History
use semantask.Prelude.{
  ℕ, ◌-◌, Bool, true, List, [], ◌∷◌, ◌++◌, Option, none, some, or_else, String, length, drop,
}
use semantask.Prelude.Result.{ok, err}
use semantask.Execution.State.{ExecutionState, ExecutionEvent, queued, is_terminal_execution_state}
use semantask.Execution.Machine.{reduce_execution_state}
use semantask.Execution.Machine.Handlers.{InvalidExecutionTransitionError, error_message, Reduced}

pub record ShadowError : Type 0 where
  pub name : String
  pub message : String

pub record ShadowHistoryEntry : Type 0 where
  pub from : ExecutionState
  pub to : ExecutionState
  pub event : ExecutionEvent
  pub at : String
  pub worker_id : Option String
  pub shadow_error : Option ShadowError

-- The result with `ok: true`, and that with `ok: false`, which also carries the error.
pub data ShadowTransitionResult : Type 0 where
  moved : (from to : ExecutionState) → ShadowHistoryEntry → ShadowTransitionResult
  refused :
      (from to : ExecutionState)
      → ShadowHistoryEntry
      → InvalidExecutionTransitionError
      → ShadowTransitionResult

abbrev pub result_to : ShadowTransitionResult → ExecutionState
result_to (moved from to entry) = to
result_to (refused from to entry error) = to

abbrev pub history_entry : ShadowTransitionResult → ShadowHistoryEntry
history_entry (moved from to entry) = entry
history_entry (refused from to entry error) = entry

abbrev pub shadow_history_limit : ℕ
shadow_history_limit = 100

unfoldable pub create_queued_shadow_state : String → ExecutionState
create_queued_shadow_state now = queued now

-- `none` is a stored value that is no execution state.
unfoldable pub resolve_current_shadow_state : Option ExecutionState → String → ExecutionState
unfolding create_queued_shadow_state
resolve_current_shadow_state value now = or_else value (create_queued_shadow_state now)

unfoldable pub should_reset_shadow_run_state : Option ExecutionState → Bool
should_reset_shadow_run_state none = true
should_reset_shadow_run_state (some state) = is_terminal_execution_state state

-- `try { reduceExecutionState(…) } catch`
pub shadow_result :
    Reduced → ExecutionState → ExecutionEvent → String → Option String → ShadowTransitionResult
shadow_result (ok to) current event at worker_id = moved current to (record {
  from = current;
  to = to;
  event = event;
  at = at;
  worker_id = worker_id;
  shadow_error = none;
})
shadow_result (err error) current event at worker_id =
    refused current current
      (record {
        from = current;
        to = current;
        event = event;
        at = at;
        worker_id = worker_id;
        shadow_error =
            some
              (record { name = "InvalidExecutionTransitionError"; message = error_message error });
      })
      error

unfoldable pub reduce_shadow_execution_event :
    ExecutionState
    → ExecutionEvent
    → (at : String) → (worker_id : Option String) → ShadowTransitionResult
unfolding shadow_result
reduce_shadow_execution_event current event at worker_id =
    shadow_result (reduce_execution_state current event) current event at worker_id

-- `none` is a stored history that is no array. `slice(Math.max(0, n))` drops by truncated `-`.
unfoldable pub append_shadow_history {ℓ} : {A : Type ℓ} → Option (List A) → A → ℕ → List A
append_shadow_history history entry limit =
    let next = or_else history [] ++ entry ∷ [] in drop (length next - limit) next
