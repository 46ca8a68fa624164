-- ===== src/Policy/Decision/Gate.antt =====
-- What the gate of the execution mode does to a decision.
use semantask.Prelude.{ℕ, ◌≤◌, Bool, true, false, some, ◌≡◌, ◌↔◌, ◌⊎◌, arith}
use semantask.Policy.Mode.{ExecutionMode, suggest_only, auto_execute}
use semantask.Policy.Decision.{
  ExecutionPolicyOutcome, auto, approval_required, blocked, ExecutionPolicyDecision,
  apply_execution_mode_gate,
}

-- The outcomes, the strictest last.
abbrev pub strictness : ExecutionPolicyOutcome → ℕ
strictness auto = 0
strictness approval_required = 1
strictness blocked = 2

-- The gate never makes a decision less strict; it keeps the outcome where the mode is not
-- enforced; where it is, `suggest_only` blocks, `require_approval` leaves nothing automatic and
-- keeps a stricter outcome, and `auto_execute` keeps the outcome. It records the mode.
pub gate_strictness :
    (decision : ExecutionPolicyDecision) (mode : ExecutionMode) (enforced : Bool)
    → let gated = apply_execution_mode_gate decision mode enforced in
      (strictness decision.outcome ≤ strictness gated.outcome)
      × (gated.outcome ≡ auto
          ↔ (decision.outcome ≡ auto) × ((enforced ≡ false) ⊎ (mode ≡ auto_execute)))
      × (gated.outcome ≡ blocked
          ↔ (decision.outcome ≡ blocked) ⊎ ((enforced ≡ true) × (mode ≡ suggest_only)))
      × (gated.execution_mode ≡ some mode)
      × (gated.execution_mode_enforced ≡ some enforced)
unfolding apply_execution_mode_gate
gate_strictness d mode enforced = ground arith
