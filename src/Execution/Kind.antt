-- ===== src/Execution/Kind.antt =====
-- The kinds of execution state and the legacy vocabularies:
-- packages/types/task/execution-state.ts and packages/types/task/task.ts.
use semantask.Prelude.{
  ℕ, Bool, true, List, [], ◌∷◌, String, ◌==◌, ==_iff, some_of, get_or, ◌≡◌, refl, sym, ap, ◌∙◌, ◌↔◌,
  arith,
}

pub data ExecutionStateKind : Type 0 where
  queued policy_evaluating policy_blocked awaiting_approval planning ready_to_execute reasoning
        tool_executing observing verifying step_complete blocked paused retry_scheduled cancelling
        cancelled succeeded failed :
      ExecutionStateKind

pub data TaskStatus : Type 0 where
  pending executing completed failed partial waiting_for_input : TaskStatus

pub data TaskLifecycleState : Type 0 where
  planning ready executing waiting_for_approval blocked retry_scheduled paused completed failed :
      TaskLifecycleState

pub data TaskExecutionActionType : Type 0 where
  create_github_issue schedule_meeting send_email none : TaskExecutionActionType

pub data ExecutionActorType : Type 0 where
  user agent system : ExecutionActorType

-- The place of a kind in the union. Kinds are compared by it where the code compares their names.
unfoldable pub index : ExecutionStateKind → ℕ
index ExecutionStateKind.queued = 0
index ExecutionStateKind.policy_evaluating = 1
index ExecutionStateKind.policy_blocked = 2
index ExecutionStateKind.awaiting_approval = 3
index ExecutionStateKind.planning = 4
index ExecutionStateKind.ready_to_execute = 5
index ExecutionStateKind.reasoning = 6
index ExecutionStateKind.tool_executing = 7
index ExecutionStateKind.observing = 8
index ExecutionStateKind.verifying = 9
index ExecutionStateKind.step_complete = 10
index ExecutionStateKind.blocked = 11
index ExecutionStateKind.paused = 12
index ExecutionStateKind.retry_scheduled = 13
index ExecutionStateKind.cancelling = 14
index ExecutionStateKind.cancelled = 15
index ExecutionStateKind.succeeded = 16
index ExecutionStateKind.failed = 17

-- `a === b` on kinds.
abbrev pub kind_eq : ExecutionStateKind → ExecutionStateKind → Bool
kind_eq a b = index a == index b

abbrev pub kind_name : ExecutionStateKind → String
kind_name ExecutionStateKind.queued = "queued"
kind_name ExecutionStateKind.policy_evaluating = "policy_evaluating"
kind_name ExecutionStateKind.policy_blocked = "policy_blocked"
kind_name ExecutionStateKind.awaiting_approval = "awaiting_approval"
kind_name ExecutionStateKind.planning = "planning"
kind_name ExecutionStateKind.ready_to_execute = "ready_to_execute"
kind_name ExecutionStateKind.reasoning = "reasoning"
kind_name ExecutionStateKind.tool_executing = "tool_executing"
kind_name ExecutionStateKind.observing = "observing"
kind_name ExecutionStateKind.verifying = "verifying"
kind_name ExecutionStateKind.step_complete = "step_complete"
kind_name ExecutionStateKind.blocked = "blocked"
kind_name ExecutionStateKind.paused = "paused"
kind_name ExecutionStateKind.retry_scheduled = "retry_scheduled"
kind_name ExecutionStateKind.cancelling = "cancelling"
kind_name ExecutionStateKind.cancelled = "cancelled"
kind_name ExecutionStateKind.succeeded = "succeeded"
kind_name ExecutionStateKind.failed = "failed"

unfoldable pub lifecycle_index : TaskLifecycleState → ℕ
lifecycle_index TaskLifecycleState.planning = 0
lifecycle_index TaskLifecycleState.ready = 1
lifecycle_index TaskLifecycleState.executing = 2
lifecycle_index TaskLifecycleState.waiting_for_approval = 3
lifecycle_index TaskLifecycleState.blocked = 4
lifecycle_index TaskLifecycleState.retry_scheduled = 5
lifecycle_index TaskLifecycleState.paused = 6
lifecycle_index TaskLifecycleState.completed = 7
lifecycle_index TaskLifecycleState.failed = 8

-- `a === b` on lifecycle states.
abbrev pub lifecycle_eq : TaskLifecycleState → TaskLifecycleState → Bool
lifecycle_eq a b = lifecycle_index a == lifecycle_index b

abbrev pub terminal_execution_states : List ExecutionStateKind
terminal_execution_states =
    ExecutionStateKind.succeeded ∷ ExecutionStateKind.failed ∷ ExecutionStateKind.cancelled ∷ []

abbrev pub run_owned_execution_states : List ExecutionStateKind
run_owned_execution_states =
    ExecutionStateKind.planning ∷ ExecutionStateKind.ready_to_execute ∷ ExecutionStateKind.reasoning
    ∷ ExecutionStateKind.tool_executing ∷ ExecutionStateKind.observing
    ∷ ExecutionStateKind.verifying ∷ ExecutionStateKind.step_complete ∷ []

-- `kinds.includes(kind)`
abbrev pub has_kind : List ExecutionStateKind → ExecutionStateKind → Bool
has_kind kinds kind = some_of (λ k. kind_eq k kind) kinds

-- The union's members in order: the set of apps/task-worker/services/execution-state-shadow.ts.
abbrev pub execution_state_kinds : List ExecutionStateKind
execution_state_kinds =
    ExecutionStateKind.queued ∷ ExecutionStateKind.policy_evaluating
    ∷ ExecutionStateKind.policy_blocked ∷ ExecutionStateKind.awaiting_approval
    ∷ ExecutionStateKind.planning ∷ ExecutionStateKind.ready_to_execute
    ∷ ExecutionStateKind.reasoning ∷ ExecutionStateKind.tool_executing
    ∷ ExecutionStateKind.observing ∷ ExecutionStateKind.verifying ∷ ExecutionStateKind.step_complete
    ∷ ExecutionStateKind.blocked ∷ ExecutionStateKind.paused ∷ ExecutionStateKind.retry_scheduled
    ∷ ExecutionStateKind.cancelling ∷ ExecutionStateKind.cancelled ∷ ExecutionStateKind.succeeded
    ∷ ExecutionStateKind.failed ∷ []

get_or-index :
    (k : ExecutionStateKind) → get_or execution_state_kinds (index k) ExecutionStateKind.queued ≡ k
unfolding index
get_or-index ExecutionStateKind.queued = refl
get_or-index _ = refl

pub kind_eq_iff : (a b : ExecutionStateKind) → (kind_eq a b ≡ true) ↔ (a ≡ b)
kind_eq_iff a b = (
  λ h.
      sym (get_or-index a)
      ∙ ap (λ n. get_or execution_state_kinds n ExecutionStateKind.queued)
          ((==_iff (index a) (index b)).0 h)
      ∙ get_or-index b,
  λ e. (==_iff (index a) (index b)).1 (ap index e),
)

pub lifecycle_eq_iff : (a b : TaskLifecycleState) → (lifecycle_eq a b ≡ true) ↔ (a ≡ b)
unfolding lifecycle_index
lifecycle_eq_iff TaskLifecycleState.planning b = ground arith
lifecycle_eq_iff _ b = ground arith
