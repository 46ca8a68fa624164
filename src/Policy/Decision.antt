-- ===== src/Policy/Decision.antt =====
-- The policy decision: apps/task-worker/services/execution-policy.ts. A reason is a value of
-- `Reason` that holds what the code writes into the text.
pub mod Gate
pub mod Evaluate
pub mod Reasons
pub mod Automatic
use semantask.Prelude.{
  ℕ, ◌<◌, ltb, Bool, true, false, not, ◌&&◌, ◌||◌, List, [], ◌∷◌, ◌++◌, map, length, some_of, keep,
  Option, none, some, or_else, is_some, if◌then◌else◌,
}
use semantask.Prelude.Text.{
  Text, codes, trim, lower, has_code, has_text, has_part, after_last, is_filled,
}
use semantask.Prelude.Value.{Value, text, list, Record, no_properties, property_of, texts_of}
use semantask.Execution.Kind.{
  TaskExecutionActionType, send_email, schedule_meeting, create_github_issue,
}
use semantask.Policy.Mode.{
  ExecutionMode, suggest_only, require_approval, auto_execute, Environment,
  get_effective_execution_mode,
}
use semantask.Policy.Confidence.{Stored, lookup, resolve_confidence_threshold}
use semantask.Policy.PromptGuard.{
  PromptGuardMode, off, monitor, enforce, resolve_prompt_guard_mode, GuardReason, ToolArgsContext,
  validate_tool_args_against_context, apply_prompt_guard_decision,
}

pub data ExecutionPolicyOutcome : Type 0 where
  auto approval_required blocked : ExecutionPolicyOutcome

pub data ExecutionRiskLevel : Type 0 where
  low medium high : ExecutionRiskLevel

-- The texts of the reasons: the version of the policy and the numbers stand for their print.
pub data Reason : Type 0 where
  mode_suggest_only mode_require_approval : Reason
  denied : (action : TaskExecutionActionType) (version : ℕ) → Reason
  upstream_needs_approval : Reason
  policy_requires_approval : (action : TaskExecutionActionType) (version : ℕ) → Reason
  low_confidence : (label : Text) (confidence threshold : ℕ) (policy_version : Option ℕ) → Reason
  no_valid_recipients : Reason
  outside_allowed_domains : (policy_version : Option ℕ) → Reason
  too_many_recipients no_participants no_title : Reason
  guard_failed guard_monitor : GuardReason → Reason
  passed : (label : Text) (confidence threshold : ℕ) → Reason

pub record OrganizationPolicyOverlay : Type 0 where
  pub version : ℕ
  pub confidence_thresholds : Option (List (Text × Stored))
  pub allowed_email_domains : List Text
  pub require_approval_for : List Text
  pub tool_deny_list : List Text
  pub prompt_guard_mode : Option PromptGuardMode
  pub execution_mode : Option ExecutionMode

-- `parameters`, `participantEmails` and `contactEmails` are read as empty where they are missing.
pub record RequestedPayload : Type 0 where
  pub action_type : TaskExecutionActionType
  pub parameters : Record
  pub confidence : Option ℕ
  pub needs_approval : Bool
  pub semantic_type : Option Text
  pub participant_emails : List Text
  pub contact_emails : List Text
  pub organization_id : Option Text
  pub org_policy : Option OrganizationPolicyOverlay
  pub execution_mode_enforce : Option Bool

pub record ExecutionPolicyDecision : Type 0 where
  pub outcome : ExecutionPolicyOutcome
  pub risk_level : ExecutionRiskLevel
  pub reasons : List Reason
  pub semantic_type : Option Text
  pub confidence : ℕ
  pub threshold : ℕ
  pub org_policy_version : Option ℕ
  pub execution_mode : Option ExecutionMode
  pub execution_mode_enforced : Option Bool

-- `toStringArray`: the elements keep the white space at their ends, a single text does not.
unfoldable pub to_string_array : Option Value → List Text
to_string_array (some (list xs)) = keep (λ s. is_filled (trim s)) (texts_of xs)
to_string_array (some (text s)) = if is_filled (trim s) then trim s ∷ [] else []
to_string_array _ = []

-- The text behind the last `@`, and the empty text without one.
unfoldable pub email_domain : Text → Text
email_domain email = lower (or_else (after_last b'@' email) [])

unfoldable pub resolve_allowed_email_domains :
    Environment → Option OrganizationPolicyOverlay → List Text
resolve_allowed_email_domains env none = env.allowed_email_domains
resolve_allowed_email_domains env (some policy) = elim policy.allowed_email_domains [
  | [] ↦ env.allowed_email_domains
  | d ∷ ds ↦ map lower (d ∷ ds)
]

abbrev text_of : Option Value → Option Text
text_of (some (text s)) = some s
text_of _ = none

-- A text of the parameters counts where the payload gives no type.
unfoldable pub resolve_semantic_type : RequestedPayload → Option Text
resolve_semantic_type payload = elim payload.semantic_type [
  | some (c ∷ s) ↦ some (c ∷ s)
  | _ ↦ text_of (property_of "semanticType" payload.parameters)
]

-- The gate of the workspace's execution mode.
unfoldable pub apply_execution_mode_gate :
    ExecutionPolicyDecision → ExecutionMode → (enforced : Bool) → ExecutionPolicyDecision
apply_execution_mode_gate decision mode enforced =
    let with_mode = record decision {
      execution_mode = some mode;
      execution_mode_enforced = some enforced;
    } in
    if not enforced then with_mode else elim mode [
      | suggest_only ↦ record with_mode {
        outcome = blocked;
        risk_level = high;
        reasons = mode_suggest_only ∷ [];
      }
      | require_approval ↦ elim decision.outcome [
        | auto ↦ record with_mode {
          outcome = approval_required;
          risk_level = elim decision.risk_level [ low ↦ medium | r ↦ r ];
          reasons = decision.reasons ++ (mode_require_approval ∷ []);
        }
        | _ ↦ with_mode
      ]
      | auto_execute ↦ with_mode
    ]
