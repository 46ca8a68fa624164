-- ===== src/Policy/Decision/Reasons.antt =====
-- When a part of the evaluation adds no reason, and when it blocks.
use semantask.Prelude.{
  ◌≤◌, Bool, true, false, List, [], ◌∷◌, ◌++◌, length, Option, none, some, ◌≡◌, ◌≢◌, ◌↔◌, ◌⊎◌,
  arith,
}
use semantask.Prelude.Result.{Result, ok, err, is_ok, ◌>>=◌}
use semantask.Prelude.Text.{Text, has_text}
use semantask.Prelude.Value.{property_of}
use semantask.Execution.Kind.{
  TaskExecutionActionType, send_email, schedule_meeting, create_github_issue,
}
use semantask.Policy.Mode.{Environment}
use semantask.Policy.PromptGuard.{
  off, enforce, validate_tool_args_against_context, apply_prompt_guard_decision,
}
use semantask.Policy.Decision.{
  Reason, OrganizationPolicyOverlay, RequestedPayload, to_string_array,
  resolve_allowed_email_domains,
}
use semantask.Policy.Decision.Evaluate.{
  action_key, confidence_of, threshold_of, upstream_reasons, approval_reasons, confidence_reasons,
  recipients_reasons, has_external, participants_of, title_of, action_reasons, guard_mode_of,
  guard_of, is_guarded, guard_reasons, collect_reasons,
}

-- The organization asks for an approval of the action.
abbrev pub policy_requires : RequestedPayload → Bool
policy_requires payload = elim payload.org_policy [
  | none ↦ false
  | some policy ↦ has_text (action_key payload.action_type) policy.require_approval_for
]

-- The parameters of the action, as the policy wants them for a run without a human.
abbrev pub ParametersPass : Environment → RequestedPayload → Type 0
ParametersPass env payload =
    let recipients = to_string_array (property_of "to" payload.parameters) in
    elim payload.action_type [
      | send_email ↦
          (recipients ≢ [])
          × (length recipients ≤ 5)
          × (has_external (resolve_allowed_email_domains env payload.org_policy) recipients ≡ false)
      | schedule_meeting ↦ participants_of payload ≢ []
      | create_github_issue ↦ title_of payload ≢ []
      | TaskExecutionActionType.none ↦ Unit
    ]

append-nil {ℓ} : {A : Type ℓ} (xs ys : List A) → (xs ++ ys ≡ []) ↔ (xs ≡ []) × (ys ≡ [])
append-nil [] ys = ground arith
append-nil (x ∷ xs) ys = ground arith

upstream-nil : (p : RequestedPayload) → (upstream_reasons p ≡ []) ↔ (p.needs_approval ≡ false)
unfolding upstream_reasons
upstream-nil p = ground arith

approval-nil : (p : RequestedPayload) → (approval_reasons p ≡ []) ↔ (policy_requires p ≡ false)
unfolding approval_reasons
approval-nil p = ground arith

confidence-nil :
    (p : RequestedPayload) → (confidence_reasons p ≡ []) ↔ (threshold_of p ≤ confidence_of p)
unfolding confidence_reasons
confidence-nil p = ground arith

recipients-nil :
    (env : Environment) (policy : Option OrganizationPolicyOverlay) (rs : List Text)
    → (recipients_reasons env policy rs ≡ [])
      ↔ (length rs ≤ 5) × (has_external (resolve_allowed_email_domains env policy) rs ≡ false)
unfolding recipients_reasons
recipients-nil env policy rs = ground arith

action-nil :
    (env : Environment) (p : RequestedPayload)
    → (action_reasons env p ≡ ok []) ↔ ParametersPass env p
unfolding action_reasons
action-nil env p =
    ground
      (arith, recipients-nil env p.org_policy (to_string_array (property_of "to" p.parameters)))

guard-nil :
    (p : RequestedPayload)
    → (guard_reasons p ≡ ok [])
      ↔ (is_guarded p.action_type ≡ false) ⊎ ((guard_mode_of p ≡ off) ⊎ ((guard_of p).ok ≡ true))
unfolding guard_reasons apply_prompt_guard_decision validate_tool_args_against_context
guard-nil p = ground arith

join-nil :
    (u a c : List Reason) (x y : Result (List Reason) (List Reason))
    → ((x >>= λ l. y >>= λ r. ok (u ++ (a ++ (c ++ (l ++ r))))) ≡ ok [])
      ↔ (u ≡ []) × (a ≡ []) × (c ≡ []) × (x ≡ ok []) × (y ≡ ok [])
join-nil u a c (err e) y = ground arith
join-nil u a c (ok l) (err e) = ground arith
join-nil u a c (ok l) (ok r) = ground (
  arith,
  append-nil u (a ++ (c ++ (l ++ r))),
  append-nil a (c ++ (l ++ r)),
  append-nil c (l ++ r),
  append-nil l r,
)

-- No reason at all is collected exactly when every part adds none.
pub collect-nil :
    (env : Environment) (p : RequestedPayload)
    → (collect_reasons env p ≡ ok [])
      ↔ (p.needs_approval ≡ false)
        × (policy_requires p ≡ false)
        × (threshold_of p ≤ confidence_of p)
        × ParametersPass env p
        × ((is_guarded p.action_type ≡ false)
            ⊎ ((guard_mode_of p ≡ off) ⊎ ((guard_of p).ok ≡ true)))
unfolding collect_reasons
collect-nil env p = ground (
  arith,
  join-nil (upstream_reasons p) (approval_reasons p) (confidence_reasons p) (action_reasons env p)
      (guard_reasons p),
  upstream-nil p,
  approval-nil p,
  confidence-nil p,
  action-nil env p,
  guard-nil p,
)

-- A call is blocked for its parameters exactly when an email has no recipient, or when the guard
-- is enforced and does not pass.
pub collect-err :
    (env : Environment) (p : RequestedPayload)
    → (is_ok (collect_reasons env p) ≡ false)
      ↔ ((p.action_type ≡ send_email) × (to_string_array (property_of "to" p.parameters) ≡ []))
        ⊎ ((is_guarded p.action_type ≡ true)
            × (guard_mode_of p ≡ enforce)
            × ((guard_of p).ok ≡ false))
unfolding collect_reasons action_reasons guard_reasons apply_prompt_guard_decision
collect-err env p = ground arith
