-- ===== src/Execution/Transitions.antt =====
-- The table of legal transitions: apps/task-worker/services/execution-state-machine.ts.
pub mod Lookup
use mathlib.Core.List.{foldl}
use semantask.Prelude.{Bool, false, List, [], ◌∷◌, ◌++◌, Option, none, some, or_else, if◌then◌else◌}
use semantask.Execution.Kind.{
  ExecutionStateKind, queued, policy_evaluating, policy_blocked, awaiting_approval, planning,
  ready_to_execute, reasoning, tool_executing, observing, verifying, step_complete, blocked, paused,
  retry_scheduled, cancelling, cancelled, succeeded, failed, kind_eq, has_kind,
}

abbrev pub Edge : Type 0
Edge = ExecutionStateKind × ExecutionStateKind

abbrev pub legal_execution_transitions : List Edge
legal_execution_transitions =
    (queued, policy_evaluating)
    ∷ (queued, cancelling)
    ∷ (policy_evaluating, policy_blocked)
    ∷ (policy_evaluating, awaiting_approval)
    ∷ (policy_evaluating, planning)
    ∷ (policy_evaluating, cancelling)
    ∷ (awaiting_approval, planning)
    ∷ (awaiting_approval, failed)
    ∷ (awaiting_approval, blocked)
    ∷ (awaiting_approval, cancelling)
    ∷ (policy_blocked, queued)
    ∷ (policy_blocked, cancelled)
    ∷ (planning, ready_to_execute)
    ∷ (planning, blocked)
    ∷ (planning, failed)
    ∷ (planning, cancelling)
    ∷ (ready_to_execute, reasoning)
    ∷ (ready_to_execute, blocked)
    ∷ (ready_to_execute, cancelling)
    ∷ (reasoning, tool_executing)
    ∷ (reasoning, paused)
    ∷ (reasoning, retry_scheduled)
    ∷ (reasoning, succeeded)
    ∷ (reasoning, failed)
    ∷ (reasoning, cancelling)
    ∷ (tool_executing, observing)
    ∷ (tool_executing, paused)
    ∷ (tool_executing, retry_scheduled)
    ∷ (tool_executing, failed)
    ∷ (tool_executing, cancelling)
    ∷ (observing, verifying)
    ∷ (observing, retry_scheduled)
    ∷ (observing, failed)
    ∷ (observing, cancelling)
    ∷ (verifying, step_complete)
    ∷ (verifying, reasoning)
    ∷ (verifying, retry_scheduled)
    ∷ (verifying, failed)
    ∷ (verifying, cancelling)
    ∷ (step_complete, reasoning)
    ∷ (step_complete, succeeded)
    ∷ (step_complete, cancelling)
    ∷ (blocked, queued)
    ∷ (blocked, failed)
    ∷ (blocked, cancelled)
    ∷ (paused, reasoning)
    ∷ (paused, failed)
    ∷ (paused, cancelling)
    ∷ (retry_scheduled, queued)
    ∷ (retry_scheduled, failed)
    ∷ (retry_scheduled, cancelling)
    ∷ (cancelling, cancelled)
    ∷ (cancelling, failed)
    ∷ []

-- A map from kinds to the kinds that may follow.
abbrev pub TransitionMap : Type 0
TransitionMap = List (ExecutionStateKind × List ExecutionStateKind)

-- `map.get(from)`
pub get : ExecutionStateKind → TransitionMap → Option (List ExecutionStateKind)
get from [] = none
get from ((k, targets) ∷ m) = if kind_eq k from then some targets else get from m

-- `map.set(from, targets)`
pub put : ExecutionStateKind → List ExecutionStateKind → TransitionMap → TransitionMap
put from targets [] = (from, targets) ∷ []
put from targets ((k, old) ∷ m) =
    if kind_eq k from then (k, targets) ∷ m else (k, old) ∷ put from targets m

-- One round of the loop that builds the map; a set is the list of its elements.
pub add_edge : TransitionMap → Edge → TransitionMap
unfolding get put
add_edge m (from, to) = put from (or_else (get from m) [] ++ to ∷ []) m

pub transition_map : TransitionMap
transition_map = foldl add_edge [] legal_execution_transitions

-- `map.get(from)?.has(to) ?? false`
abbrev pub leads : TransitionMap → ExecutionStateKind → ExecutionStateKind → Bool
leads m from to = elim (get from m) [ none ↦ false | some targets ↦ has_kind targets to ]

pub can_transition_execution_state : ExecutionStateKind → ExecutionStateKind → Bool
can_transition_execution_state from to =
    if kind_eq from to then false else leads transition_map from to
