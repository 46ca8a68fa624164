-- ===== src/Workspace/PolicyExamples.antt =====
-- The theorems on the stored policies at concrete organizations.
use semantask.Prelude.{
  List, ℕ, zero, ◌+◌, true, false, not, ◌&&◌, Option, none, some, String, str_eq, [], ◌∷◌,
  is_present, some_of, if◌then◌else◌, ◌≡◌, refl,
}
use semantask.Prelude.Text.{codes, lower, trim, trim_start, has_text}
use semantask.Prelude.Result.{ok, is_ok}
use semantask.Policy.Mode.{suggest_only, Environment, get_effective_execution_mode}
use semantask.Workspace.{
  owner, active, Organization, Directory, get_membership, assert_membership,
  assert_can_manage_members, get_organization_by_id,
}
use semantask.Workspace.Policy.{
  OrganizationPolicy, Policies, get_organization_policy, as_string_array, string_entries,
}
use semantask.Workspace.PolicyWrite.{
  UpsertOrganizationPolicyInput, mode_of, updated_policy, empty_policy, compare_and_swap,
  upsert_loop, upsert_organization_policy,
}
use semantask.Workspace.PolicyVersions.{Written, upsert-Written}
use semantask.Workspace.Grandfather.{
  GrandfatherApplyResult, applied, already_explicit, grandfather_row, grandfather_skip_status,
  swap_auto_execute, persist_loop, persist_rows, unique_organization_ids,
  apply_grandfather_auto_execute,
}
use semantask.Workspace.GrandfatherModes.{
  quiet, grandfathered, names, all_known, apply_grandfather_lem, grandfather-effective,
}

abbrev ids : String → Option String
ids s = if is_present s then some s else none

abbrev org : String → Organization
org id = record {
  id = id;
  name = codes "Acme";
  slug = codes "acme";
  status = active;
  created_by = "u1";
}

abbrev dir : Directory
dir = record {
  organizations = org "o1" ∷ org "o2" ∷ [];
  memberships = record { organization_id = "o1"; user_id = "u1"; role = owner } ∷ [];
}

abbrev input : UpsertOrganizationPolicyInput
input = record {
  organization_id = "o1";
  actor_user_id = "u1";
  confidence_thresholds = none;
  allowed_email_domains = none;
  require_approval_for = none;
  tool_deny_list = some (some (codes " Send_Email " ∷ codes " " ∷ []));
  default_tool_grants = none;
  prompt_guard_mode = none;
  execution_mode = some (some suggest_only);
}

-- Another writer comes between the read and the write of the first attempt.
abbrev others : ℕ → Option OrganizationPolicy → Option OrganizationPolicy
others zero (some d) = some (record d { version = 7 })
others attempt d = d

abbrev stored : OrganizationPolicy
stored = record (empty_policy "o1") { version = 3 }

abbrev second_write : OrganizationPolicy
second_write = record (empty_policy "o1") {
  version = 8;
  tool_deny_list = some (codes "send_email" ∷ []);
  execution_mode = some suggest_only;
  execution_mode_updated_at = some 21;
  execution_mode_updated_by = some "u1";
}

abbrev clock : ℕ → ℕ
clock attempt = 20 + attempt

upserted :
    upsert_organization_policy others clock ids dir (some stored) input
    ≡ (some second_write, ok second_write)
unfolding upsert_organization_policy upsert_loop compare_and_swap updated_policy as_string_array
    string_entries lower trim trim_start assert_can_manage_members assert_membership get_membership
upserted = refl

upsert-Written_example :
    (is_ok (assert_can_manage_members ids dir "o1" "u1") ≡ true)
    × (some second_write ≡ some second_write)
    × ((o : String) × (ids "o1" ≡ some o) × Written others clock o (some "u1") input second_write)
upsert-Written_example =
    upsert-Written others clock ids dir input (some stored) (some second_write) second_write
      upserted

manager : is_ok (assert_can_manage_members ids dir "o1" "u1") ≡ true
unfolding assert_can_manage_members assert_membership get_membership
manager = refl

abbrev policies : Policies
policies o =
    if str_eq o "o2"
    then some (record (empty_policy "o2") { version = 2; execution_mode = some suggest_only })
    else none

abbrev done : GrandfatherApplyResult
done = record {
  ok = true;
  dry_run = false;
  rows =
      record { organization_id = "o1"; status = applied; previous_mode = none }
      ∷ record {
        organization_id = "o2";
        status = already_explicit;
        previous_mode = some suggest_only;
      }
      ∷ [];
}

applied_rows :
    (apply_grandfather_auto_execute ids quiet 50 dir policies
      ("o1" ∷ "" ∷ "o2" ∷ "o1" ∷ [])
      false).1
    ≡ ok done
unfolding apply_grandfather_auto_execute persist_rows grandfather_row unique_organization_ids
    persist_loop swap_auto_execute grandfather_skip_status get_organization_by_id
    get_organization_policy
applied_rows = refl

abbrev env : Environment
env = record {
  grandfather_auto_tenants = codes "o1" ∷ [];
  default_execution_mode = none;
  allowed_email_domains = [];
}

listed : has_text (codes "o1") env.grandfather_auto_tenants ≡ true
unfolding has_text
listed = refl

grandfather-effective_example :
    get_effective_execution_mode
      (record env { grandfather_auto_tenants = [] })
      (some (codes "o1"))
      (mode_of (
        (apply_grandfather_auto_execute ids quiet 50 dir policies
            ("o1" ∷ "" ∷ "o2" ∷ "o1" ∷ [])
            false).0
          "o1"))
    ≡ get_effective_execution_mode env (some (codes "o1")) (mode_of (policies "o1"))
grandfather-effective_example =
    grandfather-effective ids dir policies 50 ("o1" ∷ "" ∷ "o2" ∷ "o1" ∷ []) done applied_rows refl
      "o1" refl env (codes "o1") refl listed

abbrev named : List String
named = "o1" ∷ "" ∷ "o2" ∷ "o1" ∷ []

apply_grandfather_lem_example :
    let (after, answer) = apply_grandfather_auto_execute ids quiet 50 dir policies named false in
    ((result : GrandfatherApplyResult) × (answer ≡ ok result)
      × (result.ok ≡ all_known ids dir named))
    × ((all_known ids dir named && not false) ≡ false → after ≡ policies)
    × ((all_known ids dir named && not false) ≡ true
        → (o : String)
        → mode_of (after o)
          ≡ grandfathered
              (some_of (λ id. is_present id && names ids o id) named)
              (mode_of (policies o)))
apply_grandfather_lem_example = apply_grandfather_lem ids dir policies 50 named false
