-- ===== src/Workspace/PolicyWrite.antt =====
-- `upsertOrganizationPolicy` of packages/services/organization-policy.service.ts: a compare and swap
-- on the version, in at most five attempts. A time is that of its attempt.
use semantask.Prelude.{
  ℕ, zero, suc, ◌==◌, Bool, true, false, not, Option, none, some, or_else, String, List, [],
  if◌then◌else◌,
}
use semantask.Prelude.Text.{Text}
use semantask.Prelude.Result.{Result, ok, err, ◌>>=◌}
use semantask.Policy.Mode.{ExecutionMode, suggest_only, require_approval, auto_execute}
use semantask.Policy.Confidence.{Stored}
use semantask.Policy.PromptGuard.{PromptGuardMode}
use semantask.Workspace.{ServiceError, failed, Directory, assert_can_manage_members, found, denied}
use semantask.Workspace.Policy.{
  OrganizationPolicy, as_string_array, normalize_confidence_thresholds,
}

-- A field that is missing stays, one that is null becomes null. The modes are those of the types,
-- so the tests that they are known are left out.
pub record UpsertOrganizationPolicyInput : Type 0 where
  pub organization_id : String
  pub actor_user_id : String
  pub confidence_thresholds : Option (Option (List (Text × Stored)))
  pub allowed_email_domains : Option (Option (List Text))
  pub require_approval_for : Option (Option (List Text))
  pub tool_deny_list : Option (Option (List Text))
  pub default_tool_grants : Option (Option (List Text))
  pub prompt_guard_mode : Option (Option PromptGuardMode)
  pub execution_mode : Option (Option ExecutionMode)

abbrev mode_eq : ExecutionMode → ExecutionMode → Bool
mode_eq suggest_only suggest_only = true
mode_eq require_approval require_approval = true
mode_eq auto_execute auto_execute = true
mode_eq _ _ = false

abbrev same_mode : Option ExecutionMode → Option ExecutionMode → Bool
same_mode none none = true
same_mode (some a) (some b) = mode_eq a b
same_mode _ _ = false

-- `previousMode !== input.executionMode`, where there is one.
abbrev pub mode_changed : (previous : Option ExecutionMode) → Option (Option ExecutionMode) → Bool
mode_changed previous none = false
mode_changed previous (some mode) = not (same_mode previous mode)

-- `asStringArray(list) ?? []`
abbrev list_or_empty : Option (List Text) → Option (List Text)
list_or_empty ts = some (or_else (as_string_array ts) [])

abbrev set_field {ℓ} : {A : Type ℓ} → Option A → A → A
set_field none old = old
set_field (some new) old = new

abbrev map_field {ℓ κ} : {A : Type ℓ} {B : Type κ} → (A → B) → Option A → Option B
map_field f none = none
map_field f (some a) = some (f a)

abbrev pub mode_of : Option OrganizationPolicy → Option ExecutionMode
mode_of none = none
mode_of (some doc) = doc.execution_mode

abbrev pub thresholds_field :
    Option (Option (List (Text × Stored)))
    → Result ServiceError (Option (Option (List (Text × Stored))))
thresholds_field none = ok none
thresholds_field (some value) = normalize_confidence_thresholds value >>= λ t. ok (some t)

-- The update: `$set` and `$inc`.
unfoldable pub updated_policy :
    UpsertOrganizationPolicyInput
    → (thresholds : Option (Option (List (Text × Stored)))) → (actor : Option String)
    → (changed : Bool) → (now : ℕ) → OrganizationPolicy
    → OrganizationPolicy
updated_policy input thresholds actor changed now doc = record doc {
  version = suc doc.version;
  confidence_thresholds = set_field thresholds doc.confidence_thresholds;
  allowed_email_domains =
      set_field (map_field as_string_array input.allowed_email_domains) doc.allowed_email_domains;
  require_approval_for =
      set_field (map_field list_or_empty input.require_approval_for) doc.require_approval_for;
  tool_deny_list = set_field (map_field list_or_empty input.tool_deny_list) doc.tool_deny_list;
  default_tool_grants =
      set_field (map_field list_or_empty input.default_tool_grants) doc.default_tool_grants;
  prompt_guard_mode = set_field input.prompt_guard_mode doc.prompt_guard_mode;
  execution_mode = set_field input.execution_mode doc.execution_mode;
  execution_mode_updated_at = if changed then some now else doc.execution_mode_updated_at;
  execution_mode_updated_by = elim actor [
    | none ↦ doc.execution_mode_updated_by
    | some user ↦ if changed then some user else doc.execution_mode_updated_by
  ];
}

-- What an insertion starts from; `$inc` makes its version 1.
abbrev pub empty_policy : (organization_id : String) → OrganizationPolicy
empty_policy organization_id = record {
  organization_id = organization_id;
  version = 0;
  confidence_thresholds = none;
  allowed_email_domains = none;
  require_approval_for = none;
  tool_deny_list = none;
  default_tool_grants = none;
  prompt_guard_mode = none;
  execution_mode = none;
  execution_mode_updated_at = none;
  execution_mode_updated_by = none;
}

-- `findOneAndUpdate`: the version is in the filter only where a document was read, and a document is
-- inserted only where none was.
unfoldable pub compare_and_swap :
    (organization_id : String)
    → (previous stored : Option OrganizationPolicy) → (OrganizationPolicy → OrganizationPolicy)
    → Option OrganizationPolicy
compare_and_swap o none none change = some (change (empty_policy o))
compare_and_swap o none (some doc) change = some (change doc)
compare_and_swap o (some previous) none change = none
compare_and_swap o (some previous) (some doc) change =
    if doc.version == previous.version then some (change doc) else none

abbrev pub max_attempts : ℕ
max_attempts = 5

module _ (others : (attempt : ℕ) → Option OrganizationPolicy → Option OrganizationPolicy)
    (clock : (attempt : ℕ) → ℕ) where
  -- The stored document afterwards and the answer. `attempts` are left, `attempt` were made.
  unfoldable pub upsert_loop :
      (o : String)
      → (actor : Option String) → UpsertOrganizationPolicyInput
      → (attempts attempt : ℕ) → Option OrganizationPolicy
      → Option OrganizationPolicy × Result ServiceError OrganizationPolicy
  unfolding compare_and_swap updated_policy
  upsert_loop o actor input zero attempt previous =
      (previous, err (failed "Failed to upsert organization policy after concurrent retries"))
  upsert_loop o actor input (suc attempts) attempt previous =
      let retry = upsert_loop o actor input attempts (suc attempt) (others attempt previous) in
      elim (thresholds_field input.confidence_thresholds) [
        | err e ↦ (previous, err e)
        | ok thresholds ↦
            elim (compare_and_swap o previous (others attempt previous) (
              updated_policy input thresholds actor
                (mode_changed (mode_of previous) input.execution_mode) (clock attempt))) [
                  | none ↦ retry
                  | some doc ↦ (some doc, ok doc)
                ]
      ]

  unfoldable pub upsert_organization_policy :
      (object_id : String → Option String)
      → Directory
      → Option OrganizationPolicy
      → UpsertOrganizationPolicyInput
      → Option OrganizationPolicy × Result ServiceError OrganizationPolicy
  unfolding upsert_loop
  upsert_organization_policy object_id dir stored input =
      elim (assert_can_manage_members object_id dir input.organization_id input.actor_user_id
        >>= λ membership. found (object_id input.organization_id) denied) [
          | err e ↦ (stored, err e)
          | ok o ↦ upsert_loop o (object_id input.actor_user_id) input max_attempts 0 stored
        ]
