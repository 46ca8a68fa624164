-- ===== src/Workspace/Policy.antt =====
-- The stored policy of an organization, its reading and its versioned write:
-- packages/services/organization-policy.service.ts, packages/db/models/OrganizationPolicy.ts. The
-- collection has at most one document of an organization. What other writers make of it between the
-- read and the write of an attempt is a parameter; `none` for a missing or null value.
use semantask.Prelude.{
  ℕ, leb, Bool, true, false, ◌&&◌, Option, none, some, String, List, [], ◌∷◌, map, present,
  if◌then◌else◌,
}
use semantask.Prelude.Text.{Text, lower, trim, is_filled}
use semantask.Prelude.Result.{Result, ok, err}
use semantask.Policy.Mode.{ExecutionMode}
use semantask.Policy.Confidence.{Stored, finite, one}
use semantask.Policy.PromptGuard.{PromptGuardMode}
use semantask.Workspace.{ServiceError, validation_error}

pub record OrganizationPolicy : Type 0 where
  pub organization_id : String
  pub version : ℕ
  pub confidence_thresholds : Option (List (Text × Stored))
  pub allowed_email_domains : Option (List Text)
  pub require_approval_for : Option (List Text)
  pub tool_deny_list : Option (List Text)
  pub default_tool_grants : Option (List Text)
  pub prompt_guard_mode : Option PromptGuardMode
  pub execution_mode : Option ExecutionMode
  pub execution_mode_updated_at : Option ℕ
  pub execution_mode_updated_by : Option String

pub record ResolvedOrganizationPolicy : Type 0 where
  pub organization_id : String
  pub version : ℕ
  pub confidence_thresholds : Option (List (Text × Stored))
  pub allowed_email_domains : Option (List Text)
  pub require_approval_for : List Text
  pub tool_deny_list : List Text
  pub default_tool_grants : List Text
  pub prompt_guard_mode : Option PromptGuardMode
  pub execution_mode : Option ExecutionMode

abbrev pub Policies : Type 0
Policies = String → Option OrganizationPolicy

abbrev lower_all : Option (List Text) → List Text
lower_all none = []
lower_all (some ts) = map lower ts

-- An empty list of domains counts as none.
abbrev domains_of : Option (List Text) → Option (List Text)
domains_of none = none
domains_of (some []) = none
domains_of (some (t ∷ ts)) = some (map lower (t ∷ ts))

abbrev no_policy : String → ResolvedOrganizationPolicy
no_policy id = record {
  organization_id = id;
  version = 0;
  confidence_thresholds = none;
  allowed_email_domains = none;
  require_approval_for = [];
  tool_deny_list = [];
  default_tool_grants = [];
  prompt_guard_mode = none;
  execution_mode = none;
}

abbrev resolve_document : String → OrganizationPolicy → ResolvedOrganizationPolicy
resolve_document id doc = record {
  organization_id = id;
  version = doc.version;
  confidence_thresholds = doc.confidence_thresholds;
  allowed_email_domains = domains_of doc.allowed_email_domains;
  require_approval_for = lower_all doc.require_approval_for;
  tool_deny_list = lower_all doc.tool_deny_list;
  default_tool_grants = lower_all doc.default_tool_grants;
  prompt_guard_mode = doc.prompt_guard_mode;
  execution_mode = doc.execution_mode;
}

module _ (object_id : String → Option String) where
  unfoldable pub get_organization_policy :
      Policies → (organization_id : String) → Option OrganizationPolicy
  get_organization_policy policies organization_id = elim (object_id organization_id) [
    | none ↦ none
    | some o ↦ policies o
  ]

  unfoldable pub resolve_organization_policy :
      Policies → (organization_id : Option String) → Option ResolvedOrganizationPolicy
  unfolding get_organization_policy
  resolve_organization_policy policies organization_id = elim (present organization_id) [
    | none ↦ none
    | some id ↦ elim (get_organization_policy policies id) [
      | none ↦ some (no_policy id)
      | some doc ↦ some (resolve_document id doc)
    ]
  ]

-- The entries, trimmed and in lower case, without the empty ones.
unfoldable pub string_entries : List Text → List Text
string_entries [] = []
string_entries (t ∷ ts) =
    let rest = string_entries ts in
    if is_filled (lower (trim t)) then lower (trim t) ∷ rest else rest

unfoldable pub as_string_array : Option (List Text) → Option (List Text)
unfolding string_entries
as_string_array none = none
as_string_array (some ts) = some (string_entries ts)

abbrev pub in_unit_interval : Stored → Bool
in_unit_interval (finite scaled) = leb scaled one
in_unit_interval _ = false

abbrev all_in_unit_interval : List (Text × Stored) → Bool
all_in_unit_interval [] = true
all_in_unit_interval (entry ∷ rest) = in_unit_interval entry.1 && all_in_unit_interval rest

unfoldable pub normalize_confidence_thresholds :
    Option (List (Text × Stored)) → Result ServiceError (Option (List (Text × Stored)))
normalize_confidence_thresholds none = ok none
normalize_confidence_thresholds (some entries) =
    if all_in_unit_interval entries
    then ok (some entries)
    else err (validation_error "confidenceThresholds must be finite numbers in [0, 1]")
