-- ===== src/Access/Examples.antt =====
-- The theorems on access and grants at concrete users.
use semantask.Prelude.{
  Bool, true, false, not, ◌&&◌, ◌||◌, Option, none, some, String, [], ◌∷◌, is_present, is_some,
  if◌then◌else◌, ◌≡◌, ◌↔◌, ◌⊎◌, refl,
}
use semantask.Prelude.Text.{Text, codes, has_text}
use semantask.Prelude.Result.{ok, is_ok}
use semantask.Workspace.{
  owner, member, active, Organization, get_membership, get_organization_by_id,
  assert_organization_active,
}
use semantask.Workspace.Policy.{Policies, resolve_organization_policy}
use semantask.Workspace.PolicyWrite.{empty_policy}
use semantask.Access.Conversation.{
  ConversationAccessRecord, Records, can_admin_bypass, load_conversation_for_access,
  assert_org_conversation_access, can_access_conversation,
}
use semantask.Access.Suggestion.{
  WorkSuggestionAccessTarget, can_access_work_suggestion, manages, can_mutate_work_suggestion,
}
use semantask.Access.Rules.{
  IsInsider, Bypasses, Manages, can_access_conversation_lem, unlabelled_lem,
}
use semantask.Access.Grants.{
  ToolGrant, has_tool_grant, assert_tool_grant, list_granted_tool_names, deny_list, default_grants,
}
use semantask.Access.GrantStore.{GrantKey, GrantToolInput, write_grant, grant_tool, revoke_tool}
use semantask.Access.Granted.{list-assert}
use semantask.Access.GrantView.{view, key_of, IsValid}
use semantask.Access.GrantRuns.{Run, start, granted, revoked, insert, remove, run-view}
use semantask.Access.GrantReads.{reaches, run-has_tool_grant}

abbrev ids : String → Option String
ids s = if is_present s then some s else none

abbrev acme : Organization
acme = record {
  id = "o1";
  name = codes "Acme";
  slug = codes "acme";
  status = active;
  created_by = "u1";
}

abbrev records : Records
records = record {
  directory = record {
    organizations = acme ∷ [];
    memberships =
        record { organization_id = "o1"; user_id = "u1"; role = owner }
        ∷ record { organization_id = "o1"; user_id = "u2"; role = member }
        ∷ [];
  };
  conversations =
      λ id. some (record { id = id; participants = "u2" ∷ []; organization_id = some "o1" });
  tasks = λ id. none;
}

abbrev conversation : ConversationAccessRecord
conversation = record { id = "c1"; participants = "u2" ∷ []; organization_id = some "o1" }

can_access_conversation_lem_example :
    (can_access_conversation ids records "u2" "c1" none ≡ true)
    ↔ (id : String) × (c : ConversationAccessRecord) × (is_some (ids "u2") ≡ true)
      × (ids "c1" ≡ some id)
      × (records.conversations id ≡ some c)
      × (IsInsider ids records "u2" c ⊎ Bypasses ids none "u2" c)
can_access_conversation_lem_example = can_access_conversation_lem ids records "u2" "c1" none

abbrev labelled : WorkSuggestionAccessTarget
labelled = record { conversation_id = "c1"; organization_id = some "o1" }

owner_mutates : can_mutate_work_suggestion ids records "u1" labelled none ≡ true
unfolding can_mutate_work_suggestion manages can_access_conversation assert_org_conversation_access
    load_conversation_for_access can_admin_bypass get_membership assert_organization_active
    get_organization_by_id
owner_mutates = refl

abbrev unlabelled : WorkSuggestionAccessTarget
unlabelled = record { conversation_id = "c1"; organization_id = none }

loaded : load_conversation_for_access ids records "c1" ≡ some conversation
unfolding load_conversation_for_access
loaded = refl

owner_outside : can_access_conversation ids records "u1" "c1" none ≡ false
unfolding can_access_conversation assert_org_conversation_access load_conversation_for_access
    can_admin_bypass get_membership assert_organization_active get_organization_by_id
owner_outside = refl

unlabelled_lem_example :
    (can_access_work_suggestion ids records "u1" unlabelled none ≡ false)
    × (can_mutate_work_suggestion ids records "u1" unlabelled none ≡ true
        ↔ Manages ids records.directory "o1" "u1")
unlabelled_lem_example =
    unlabelled_lem ids records "u1" unlabelled none conversation "o1" refl loaded refl owner_outside

abbrev policies : Policies
policies o = some (record (empty_policy o) { tool_deny_list = some (codes "send_email" ∷ []) })

abbrev meeting : Text
meeting = codes "schedule_meeting"

abbrev input : GrantToolInput
input = record {
  user_id = "u2";
  tool_name = meeting;
  granted_by = "u1";
  conversation_id = some "c1";
  organization_id = some "o1";
}

abbrev grant : ToolGrant
grant = record {
  id = "g1";
  user_id = "u2";
  conversation_id = some "c1";
  organization_id = some "o1";
  tool_name = meeting;
  granted_by = "u1";
  revoked_at = none;
}

abbrev revoked_one : ToolGrant
revoked_one = record grant { revoked_at = some 9 }

granted_meeting : grant_tool ids [] [] input "g1" ≡ ok (grant ∷ [], grant)
unfolding grant_tool write_grant
granted_meeting = refl

revoked_meeting : revoke_tool ids (grant ∷ []) "g1" 9 ≡ ok (revoked_one ∷ [], revoked_one)
unfolding revoke_tool
revoked_meeting = refl

granted_again :
    grant_tool ids (revoked_one ∷ []) (revoked_one ∷ []) input "g2" ≡ ok (grant ∷ [], grant)
unfolding grant_tool write_grant
granted_again = refl

high_risk :
    has_text meeting (codes "send_email" ∷ meeting ∷ codes "create_github_issue" ∷ []) ≡ true
unfolding has_text
high_risk = refl

list-assert_example :
    has_text meeting
      (list_granted_tool_names ids policies none (grant ∷ []) "u2" (some "c1") (some "o1"))
    ≡ is_ok (assert_tool_grant ids policies none (grant ∷ []) "u2" meeting (some "c1") (some "o1"))
list-assert_example =
    list-assert ids policies none (grant ∷ []) "u2" meeting (some "c1") (some "o1") high_risk

-- The set after the grant, its revocation and the second grant.
abbrev set : GrantKey → Bool
set = insert (key_of grant) (remove (key_of grant) (insert (key_of grant) (λ k. false)))

run : Run ids (grant ∷ []) set
run =
    granted
      (revoked (granted start input "g1" "u2" refl refl granted_meeting) "g1" "g1" 9 refl refl
        revoked_meeting)
      input "g2" "u2" refl refl granted_again

run-view_example : IsValid (grant ∷ []) × (view (grant ∷ []) ≡ set)
run-view_example = run-view ids run

run-has_tool_grant_example :
    let policy = resolve_organization_policy ids policies (some "o1") in
    has_tool_grant ids policies (grant ∷ []) "u2" meeting (some "c1") (some "o1") ≡ (
      not (has_text meeting (deny_list policy))
      && (has_text meeting (default_grants policy)
          || reaches set "u2" meeting (some "c1") (some "o1")))
run-has_tool_grant_example =
    run-has_tool_grant ids policies run "u2" "u2" meeting (some "c1") (some "o1") high_risk refl
