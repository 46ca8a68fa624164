-- ===== src/Policy/Examples.antt =====
-- The theorems on the policy at concrete requests.
use semantask.Prelude.{◌≤◌, true, false, [], ◌∷◌, none, some, ◌≡◌, ◌↔◌, ◌⊎◌}
use semantask.Prelude.Text.{codes}
use semantask.Prelude.Value.{text, Record, no_properties, property, property_of}
use semantask.Execution.Kind.{send_email}
use semantask.Policy.Mode.{suggest_only, auto_execute, Environment, SuggestOnlyFlags}
use semantask.Policy.PromptGuard.{off, enforce, ToolArgsContext}
use semantask.Policy.Decision.{
  auto, blocked, low, RequestedPayload, ExecutionPolicyDecision, to_string_array, passed,
}
use semantask.Policy.Decision.Evaluate.{
  confidence_of, threshold_of, mode_of, enforce_of, is_denied, is_guarded, guard_mode_of, guard_of,
  evaluate_execution_policy,
}
use semantask.Policy.Decision.Reasons.{policy_requires, ParametersPass}
use semantask.Policy.Decision.Automatic.{acts_alone_iff, blocked_iff}

abbrev environment : Environment
environment = record {
  grandfather_auto_tenants = codes "org-1" ∷ [];
  default_execution_mode = none;
  allowed_email_domains = codes "acme.io" ∷ [];
}

abbrev parameters : Record
parameters = property "to" (text (codes "Ada@acme.io")) no_properties

abbrev payload : RequestedPayload
payload = record {
  action_type = send_email;
  parameters = parameters;
  confidence = some 9000;
  needs_approval = false;
  semantic_type = some (codes "task");
  participant_emails = codes "ada@acme.io" ∷ [];
  contact_emails = [];
  organization_id = some (codes "org-1");
  org_policy = none;
  execution_mode_enforce = none;
}

acts_alone_iff_example :
    ((evaluate_execution_policy environment payload).outcome ≡ auto)
    ↔ ((enforce_of payload ≡ false) ⊎ (mode_of environment payload ≡ auto_execute))
      × (is_denied payload ≡ false)
      × (payload.needs_approval ≡ false)
      × (policy_requires payload ≡ false)
      × (threshold_of payload ≤ confidence_of payload)
      × ParametersPass environment payload
      × ((is_guarded payload.action_type ≡ false)
          ⊎ ((guard_mode_of payload ≡ off) ⊎ ((guard_of payload).ok ≡ true)))
acts_alone_iff_example = acts_alone_iff environment payload

blocked_iff_example :
    ((evaluate_execution_policy environment payload).outcome ≡ blocked)
    ↔ ((enforce_of payload ≡ true) × (mode_of environment payload ≡ suggest_only))
      ⊎ ((is_denied payload ≡ true)
          ⊎ (((payload.action_type ≡ send_email)
                × (to_string_array (property_of "to" payload.parameters) ≡ []))
              ⊎ ((is_guarded payload.action_type ≡ true)
                  × (guard_mode_of payload ≡ enforce)
                  × ((guard_of payload).ok ≡ false))))
blocked_iff_example = blocked_iff environment payload

abbrev decision : ExecutionPolicyDecision
decision = record {
  outcome = auto;
  risk_level = low;
  reasons = passed (codes "task") 9000 7000 ∷ [];
  semantic_type = some (codes "task");
  confidence = 9000;
  threshold = 7000;
  org_policy_version = none;
  execution_mode = none;
  execution_mode_enforced = none;
}

abbrev call : ToolArgsContext
call = record {
  tool = send_email;
  params = parameters;
  participant_emails = [];
  contact_emails = codes "bob@acme.io" ∷ [];
}

abbrev flags : SuggestOnlyFlags
flags = record { human_approved_execution = true; explicit_manager_request = true }
