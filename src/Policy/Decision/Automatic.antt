-- ===== src/Policy/Decision/Automatic.antt =====
-- When `evaluateExecutionPolicy` lets the worker act alone, and when it blocks.
use semantask.Prelude.{◌≤◌, true, false, List, [], ◌≡◌, ◌↔◌, ◌⊎◌, arith}
use semantask.Prelude.Result.{Result, ok, is_ok}
use semantask.Prelude.Value.{property_of}
use semantask.Execution.Kind.{send_email}
use semantask.Policy.Mode.{suggest_only, auto_execute, Environment}
use semantask.Policy.PromptGuard.{off, enforce}
use semantask.Policy.Decision.{auto, blocked, Reason, RequestedPayload, to_string_array}
use semantask.Policy.Decision.Gate.{gate_strictness}
use semantask.Policy.Decision.Evaluate.{
  confidence_of, threshold_of, mode_of, enforce_of, is_denied, collect_reasons, decide, is_guarded,
  guard_mode_of, guard_of, ungated_decision, evaluate_execution_policy,
}
use semantask.Policy.Decision.Reasons.{policy_requires, ParametersPass, collect-nil, collect-err}

decide-auto :
    (p : RequestedPayload) (r : Result (List Reason) (List Reason))
    → ((decide p r).outcome ≡ auto) ↔ (r ≡ ok [])
unfolding decide
decide-auto p r = ground arith

decide-blocked :
    (p : RequestedPayload) (r : Result (List Reason) (List Reason))
    → ((decide p r).outcome ≡ blocked) ↔ (is_ok r ≡ false)
unfolding decide
decide-blocked p r = ground arith

ungated-auto :
    (env : Environment) (p : RequestedPayload)
    → ((ungated_decision env p).outcome ≡ auto)
      ↔ (is_denied p ≡ false) × (collect_reasons env p ≡ ok [])
unfolding ungated_decision
ungated-auto env p = ground (arith, decide-auto p (collect_reasons env p))

ungated-blocked :
    (env : Environment) (p : RequestedPayload)
    → ((ungated_decision env p).outcome ≡ blocked)
      ↔ (is_denied p ≡ true) ⊎ (is_ok (collect_reasons env p) ≡ false)
unfolding ungated_decision
ungated-blocked env p = ground (arith, decide-blocked p (collect_reasons env p))

-- The worker acts alone exactly when the mode is `auto_execute` or not enforced, the deny list
-- does not name the action, neither the classifier nor the policy asks for an approval, the
-- confidence reaches the threshold, the parameters pass (an email has at least one and at most
-- five recipients, none of them external; a meeting has a participant, an issue a title), and
-- the guard over recipients passes, is off or does not look at the action.
pub acts_alone_iff :
    (env : Environment) (p : RequestedPayload)
    → ((evaluate_execution_policy env p).outcome ≡ auto)
      ↔ ((enforce_of p ≡ false) ⊎ (mode_of env p ≡ auto_execute))
        × (is_denied p ≡ false)
        × (p.needs_approval ≡ false)
        × (policy_requires p ≡ false)
        × (threshold_of p ≤ confidence_of p)
        × ParametersPass env p
        × ((is_guarded p.action_type ≡ false)
            ⊎ ((guard_mode_of p ≡ off) ⊎ ((guard_of p).ok ≡ true)))
unfolding evaluate_execution_policy
acts_alone_iff env p = ground (
  arith,
  collect-nil env p,
  ungated-auto env p,
  gate_strictness (ungated_decision env p) (mode_of env p) (enforce_of p),
)

-- The call is blocked exactly when the mode `suggest_only` is enforced, the deny list names the
-- action, an email has no recipient, or the guard over recipients is enforced and does not pass.
pub blocked_iff :
    (env : Environment) (p : RequestedPayload)
    → ((evaluate_execution_policy env p).outcome ≡ blocked)
      ↔ ((enforce_of p ≡ true) × (mode_of env p ≡ suggest_only))
        ⊎ ((is_denied p ≡ true)
            ⊎ (((p.action_type ≡ send_email)
                  × (to_string_array (property_of "to" p.parameters) ≡ []))
                ⊎ ((is_guarded p.action_type ≡ true)
                    × (guard_mode_of p ≡ enforce)
                    × ((guard_of p).ok ≡ false))))
unfolding evaluate_execution_policy
blocked_iff env p = ground (
  arith,
  collect-err env p,
  ungated-blocked env p,
  gate_strictness (ungated_decision env p) (mode_of env p) (enforce_of p),
)
