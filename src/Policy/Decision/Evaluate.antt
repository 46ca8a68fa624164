-- ===== src/Policy/Decision/Evaluate.antt =====
-- `evaluateExecutionPolicy` of apps/task-worker/services/execution-policy.ts, in the parts that it
-- runs one after the other: a part gives the reasons that it adds, or blocks.
use semantask.Prelude.{
  ℕ, ltb, Bool, true, false, not, ◌&&◌, ◌||◌, List, [], ◌∷◌, ◌++◌, map, length, some_of, Option,
  none, some, or_else, is_some, if◌then◌else◌,
}
use semantask.Prelude.Text.{Text, codes, trim, has_code, has_text, has_part, is_filled}
use semantask.Prelude.Value.{text, property_of}
use semantask.Execution.Kind.{
  TaskExecutionActionType, send_email, schedule_meeting, create_github_issue,
}
use semantask.Policy.Mode.{
  ExecutionMode, suggest_only, Environment, get_effective_execution_mode, is_execution_mode_enforce,
}
use semantask.Policy.Confidence.{Stored, lookup, resolve_confidence_threshold}
use semantask.Policy.PromptGuard.{
  PromptGuardMode, off, monitor, enforce, resolve_prompt_guard_mode, PromptGuardValidation,
  validate_tool_args_against_context, apply_prompt_guard_decision,
}
use semantask.Prelude.Result.{Result, ok, err, ◌>>=◌}
use semantask.Policy.Decision.{
  ExecutionPolicyOutcome, auto, approval_required, blocked, ExecutionRiskLevel, low, medium, high,
  Reason, mode_suggest_only, denied, upstream_needs_approval, policy_requires_approval,
  low_confidence, no_valid_recipients, outside_allowed_domains, too_many_recipients,
  no_participants, no_title, guard_failed, guard_monitor, passed, OrganizationPolicyOverlay,
  RequestedPayload, ExecutionPolicyDecision, to_string_array, email_domain,
  resolve_allowed_email_domains, resolve_semantic_type, apply_execution_mode_gate,
}

abbrev policy_version : Option OrganizationPolicyOverlay → Option ℕ
policy_version none = none
policy_version (some policy) = some policy.version

-- `String(actionType).toLowerCase()`
abbrev pub action_key : TaskExecutionActionType → Text
action_key create_github_issue = codes "create_github_issue"
action_key schedule_meeting = codes "schedule_meeting"
action_key send_email = codes "send_email"
action_key TaskExecutionActionType.none = codes "none"

abbrev pub confidence_of : RequestedPayload → ℕ
confidence_of payload = or_else payload.confidence 5000

abbrev pub thresholds_of : RequestedPayload → Option (List (Text × Stored))
thresholds_of payload = elim payload.org_policy [
  | none ↦ none
  | some policy ↦ policy.confidence_thresholds
]

unfoldable pub threshold_of : RequestedPayload → ℕ
threshold_of payload =
    resolve_confidence_threshold (resolve_semantic_type payload) (thresholds_of payload)

unfoldable pub mode_of : Environment → RequestedPayload → ExecutionMode
mode_of env payload =
    get_effective_execution_mode env payload.organization_id
      (elim payload.org_policy [ none ↦ none | some policy ↦ policy.execution_mode ])

abbrev pub enforce_of : RequestedPayload → Bool
enforce_of payload = or_else payload.execution_mode_enforce is_execution_mode_enforce

-- The deny list names the action.
unfoldable pub is_denied : RequestedPayload → Bool
is_denied payload = elim payload.org_policy [
  | none ↦ false
  | some policy ↦ has_text (action_key payload.action_type) policy.tool_deny_list
]

unfoldable pub upstream_reasons : RequestedPayload → List Reason
upstream_reasons payload = if payload.needs_approval then upstream_needs_approval ∷ [] else []

unfoldable pub approval_reasons : RequestedPayload → List Reason
approval_reasons payload = elim payload.org_policy [
  | none ↦ []
  | some policy ↦
      if has_text (action_key payload.action_type) policy.require_approval_for
      then policy_requires_approval payload.action_type policy.version ∷ []
      else []
]

abbrev intent_label : RequestedPayload → Text
intent_label payload = or_else (resolve_semantic_type payload) (codes "unknown")

-- The version of the policy where the threshold counts as the policy's.
unfoldable pub confidence_source : RequestedPayload → Option ℕ
confidence_source payload = elim payload.org_policy [
  | none ↦ none
  | some policy ↦ elim policy.confidence_thresholds [
    | none ↦ none
    | some thresholds ↦
        if is_some (lookup (intent_label payload) thresholds)
          || not (is_filled (or_else (resolve_semantic_type payload) []))
        then some policy.version
        else none
  ]
]

unfoldable pub confidence_reasons : RequestedPayload → List Reason
confidence_reasons payload =
    if ltb (confidence_of payload) (threshold_of payload)
    then low_confidence (intent_label payload) (confidence_of payload) (threshold_of payload)
        (confidence_source payload)
      ∷ []
    else []

-- A recipient without an `@` does not count as external.
unfoldable pub is_external : (allowed_domains : List Text) → Text → Bool
is_external allowed_domains recipient =
    has_code b'@' recipient && not (has_text (email_domain recipient) allowed_domains)

-- No list of domains allows all of them.
unfoldable pub has_external : (allowed_domains recipients : List Text) → Bool
has_external [] recipients = false
has_external (d ∷ ds) recipients = some_of (is_external (d ∷ ds)) recipients

unfoldable pub recipients_reasons :
    Environment → Option OrganizationPolicyOverlay → (recipients : List Text) → List Reason
recipients_reasons env policy recipients =
    (if has_external (resolve_allowed_email_domains env policy) recipients
      then outside_allowed_domains (elim policy [
        | none ↦ none
        | some p ↦ elim p.allowed_email_domains [ [] ↦ none | d ∷ ds ↦ some p.version ]
      ])
        ∷ []
      else [])
    ++ (if ltb 5 (length recipients) then too_many_recipients ∷ [] else [])

abbrev pub participants_of : RequestedPayload → List Text
participants_of payload =
    to_string_array (property_of "participants" payload.parameters)
    ++ to_string_array (property_of "attendees" payload.parameters)

abbrev pub title_of : RequestedPayload → Text
title_of payload = elim (property_of "title" payload.parameters) [ some (text s) ↦ trim s | _ ↦ [] ]

-- The tests of the action; the error is the reason of a call that is blocked.
unfoldable pub action_reasons : Environment → RequestedPayload → Result (List Reason) (List Reason)
action_reasons env payload = elim payload.action_type [
  | send_email ↦ elim (to_string_array (property_of "to" payload.parameters)) [
    | [] ↦ err (no_valid_recipients ∷ [])
    | r ∷ rs ↦ ok (recipients_reasons env payload.org_policy (r ∷ rs))
  ]
  | schedule_meeting ↦
      ok (elim (participants_of payload) [ [] ↦ no_participants ∷ [] | p ∷ ps ↦ [] ])
  | create_github_issue ↦ ok (elim (title_of payload) [ [] ↦ no_title ∷ [] | c ∷ s ↦ [] ])
  | TaskExecutionActionType.none ↦ ok []
]

abbrev pub guard_mode_of : RequestedPayload → PromptGuardMode
guard_mode_of payload =
    resolve_prompt_guard_mode
      (elim payload.org_policy [ none ↦ none | some policy ↦ policy.prompt_guard_mode ])

abbrev pub guard_of : RequestedPayload → PromptGuardValidation
guard_of payload = validate_tool_args_against_context (record {
  tool = payload.action_type;
  params = payload.parameters;
  participant_emails = payload.participant_emails;
  contact_emails = payload.contact_emails;
})

abbrev pub is_guarded : TaskExecutionActionType → Bool
is_guarded send_email = true
is_guarded schedule_meeting = true
is_guarded _ = false

abbrev pub guard_outcome :
    PromptGuardMode → PromptGuardValidation → Result (List Reason) (List Reason)
guard_outcome off validation = ok []
guard_outcome monitor validation =
    ok (if validation.ok then [] else map guard_monitor validation.reasons)
guard_outcome enforce validation =
    if not validation.ok && not (apply_prompt_guard_decision validation enforce)
    then err (map guard_failed validation.reasons)
    else ok []

unfoldable pub guard_reasons : RequestedPayload → Result (List Reason) (List Reason)
guard_reasons payload =
    if is_guarded payload.action_type
    then guard_outcome (guard_mode_of payload) (guard_of payload)
    else ok []

-- All reasons, in the order in which the code adds them.
unfoldable pub collect_reasons : Environment → RequestedPayload → Result (List Reason) (List Reason)
collect_reasons env payload = action_reasons env payload >>= λ by_action.
    guard_reasons payload >>= λ by_guard. ok (
      upstream_reasons payload
      ++ (approval_reasons payload ++ (confidence_reasons payload ++ (by_action ++ by_guard))))

-- The texts that make a reason a high risk. The label of an intent is part of its reason's text.
unfoldable pub is_high_risk : Reason → Bool
is_high_risk (outside_allowed_domains v) = true
is_high_risk no_valid_recipients = true
is_high_risk (low_confidence label c t v) =
    has_part (codes "outside allowed domains") label
    || has_part (codes "no valid recipients") label
    || has_part (codes "No executable action") label
is_high_risk _ = false

-- A decision before the gate.
abbrev pub decision_of :
    RequestedPayload
    → ExecutionPolicyOutcome
    → ExecutionRiskLevel
    → List Reason
    → ExecutionPolicyDecision
decision_of payload outcome risk_level reasons = record {
  outcome = outcome;
  risk_level = risk_level;
  reasons = reasons;
  semantic_type = resolve_semantic_type payload;
  confidence = confidence_of payload;
  threshold = threshold_of payload;
  org_policy_version = policy_version payload.org_policy;
  execution_mode = none;
  execution_mode_enforced = none;
}

-- The decision on the reasons: what blocked, none, or some that ask for an approval.
unfoldable pub decide :
    RequestedPayload → Result (List Reason) (List Reason) → ExecutionPolicyDecision
decide payload (err reasons) = decision_of payload blocked high reasons
decide payload (ok []) =
    decision_of payload auto low
      (passed (intent_label payload) (confidence_of payload) (threshold_of payload) ∷ [])
decide payload (ok (r ∷ rs)) =
    decision_of payload approval_required (if some_of is_high_risk (r ∷ rs) then high else medium)
      (r ∷ rs)

abbrev pub is_suggest_only : ExecutionMode → Bool
is_suggest_only suggest_only = true
is_suggest_only _ = false

abbrev pub denied_reasons : RequestedPayload → List Reason
denied_reasons payload = elim payload.org_policy [
  | none ↦ []
  | some policy ↦ denied payload.action_type policy.version ∷ []
]

-- The decision that the gate gets: the deny list before the reasons.
unfoldable pub ungated_decision : Environment → RequestedPayload → ExecutionPolicyDecision
ungated_decision env payload =
    if is_denied payload
    then decision_of payload blocked high (denied_reasons payload)
    else decide payload (collect_reasons env payload)

-- The mode that is enforced comes first.
unfoldable pub evaluate_execution_policy : Environment → RequestedPayload → ExecutionPolicyDecision
evaluate_execution_policy env payload =
    let mode = mode_of env payload in
    if enforce_of payload && is_suggest_only mode
    then record (decision_of payload blocked high (mode_suggest_only ∷ [])) {
      execution_mode = some mode;
      execution_mode_enforced = some true;
    }
    else apply_execution_mode_gate (ungated_decision env payload) mode (enforce_of payload)
