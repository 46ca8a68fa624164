-- ===== src/Execution/Machine/Legality.antt =====
-- The reducer follows the table of legal transitions, and where it stops.
use semantask.Prelude.{Bool, true, false, ◌≡◌, refl, ◌∙◌, arith, some_of}
use semantask.Prelude.Result.{ok}
use semantask.Execution.Kind.{ExecutionStateKind, index}
use semantask.Execution.State.{ExecutionState, ExecutionEvent, kind, policy_evaluate}
use semantask.Execution.Transitions.{can_transition_execution_state, legal_execution_transitions}
use semantask.Execution.Transitions.Lookup.{links, can_transition-eq-links}
use semantask.Execution.Machine.{reduce_execution_state}
use semantask.Execution.Machine.Handlers.{transition}

-- Whatever the event, a state that the reducer returns is one that the table allows next.
pub reduce-legal :
    (s : ExecutionState) (e : ExecutionEvent) (t : ExecutionState)
    → reduce_execution_state s e ≡ ok t
    → can_transition_execution_state (kind s) (kind t) ≡ true
unfolding reduce_execution_state transition
reduce-legal s policy_evaluate t h = ground arith
reduce-legal s e t h = ground arith

-- Kinds whose states no event moves.
abbrev pub is_stuck : ExecutionStateKind → Bool
is_stuck ExecutionStateKind.succeeded = true
is_stuck ExecutionStateKind.failed = true
is_stuck ExecutionStateKind.cancelled = true
is_stuck ExecutionStateKind.policy_blocked = true
is_stuck _ = false

-- Kinds from which the table has no edge.
abbrev pub is_final : ExecutionStateKind → Bool
is_final ExecutionStateKind.succeeded = true
is_final ExecutionStateKind.failed = true
is_final ExecutionStateKind.cancelled = true
is_final _ = false

links_final :
    (a b : ExecutionStateKind)
    → is_final a ≡ true
    → some_of (links a b) legal_execution_transitions ≡ false
unfolding index
links_final ExecutionStateKind.succeeded b h = refl
links_final ExecutionStateKind.failed b h = refl
links_final ExecutionStateKind.cancelled b h = refl
links_final _ b h = cc

pub final_no_successor :
    (a b : ExecutionStateKind) → is_final a ≡ true → can_transition_execution_state a b ≡ false
final_no_successor a b h = can_transition-eq-links a b ∙ links_final a b h

pub legal_edge :
    (a b : ExecutionStateKind)
    → some_of (links a b) legal_execution_transitions ≡ true
    → can_transition_execution_state a b ≡ true
legal_edge a b h = can_transition-eq-links a b ∙ h

pub illegal_edge :
    (a b : ExecutionStateKind)
    → some_of (links a b) legal_execution_transitions ≡ false
    → can_transition_execution_state a b ≡ false
illegal_edge a b h = can_transition-eq-links a b ∙ h
