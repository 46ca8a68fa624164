-- ===== src/Access/GrantReads.antt =====
-- What `hasToolGrant` answers after any grants and revocations.
use semantask.Prelude.{
  Bool, true, not, ◌&&◌, ◌||◌, Option, none, some, String, List, some_of, is_some, ◌≡◌, refl, arith,
  ap, ◌∙◌,
}
use semantask.Prelude.Collection.{some_of-cong, some_of-or, some_of-and}
use semantask.Access.Grants.{ToolGrant}
use semantask.Access.GrantStore.{GrantKey, is_active_for}
use semantask.Access.GrantView.{view}
use semantask.Access.Grants.{
  id_of, is_high_risk_tool_name, has_tool_grant, deny_list, default_grants, in_reach,
}
use semantask.Access.Granted.{matches, has_tool_grant_lem}
use semantask.Prelude.Text.{Text, has_text}
use semantask.Workspace.Policy.{Policies, resolve_organization_policy}
use semantask.Access.GrantRuns.{Run, run-view}

abbrev scope_key :
    (user : String) → (name : Text) → (conversation organization : Option String) → GrantKey
scope_key user name c o = record {
  user_id = user;
  tool_name = name;
  conversation_id = c;
  organization_id = o;
}

-- A set that holds the user's global key, the one of the conversation or that of the organization.
abbrev pub reaches :
    (GrantKey → Bool)
    → (user : String) → (name : Text) → (conversation organization : Option String) → Bool
reaches set user name c o =
    set (scope_key user name none none)
    || ((is_some c && set (scope_key user name c o))
        || (is_some o && set (scope_key user name none o)))

matches-reaches :
    (grants : List ToolGrant) (user : String) (name : Text) (c o : Option String)
    → some_of (matches user name c o) grants ≡ reaches (view grants) user name c o
unfolding in_reach
matches-reaches grants user name c o =
    let a = is_active_for (scope_key user name none none) in
    let b = is_active_for (scope_key user name c o) in
    let d = is_active_for (scope_key user name none o) in
    rw
      (
        some_of-cong (matches user name c o)
            (λ g. a g || ((is_some c && b g) || (is_some o && d g))) grants (λ g. ground arith),
        some_of-or a (λ g. (is_some c && b g) || (is_some o && d g)) grants,
        some_of-or (λ g. is_some c && b g) (λ g. is_some o && d g) grants,
        some_of-and (is_some c) b grants,
        some_of-and (is_some o) d grants,
      )
      refl

-- After any calls that succeed, a valid user has a tool of high risk exactly where the organization
-- does not deny it, and it is a default of the organization, or an input of a grant asked for it,
-- for everything, for the conversation or for the organization, and it was not revoked since.
pub run-has_tool_grant :
    (object_id : String → Option String) (policies : Policies)
    → {grants : List ToolGrant} {set : GrantKey → Bool} → Run object_id grants set
    → (user_id user : String) (name : Text) (conversation_id organization_id : Option String)
    → is_high_risk_tool_name name ≡ true
    → object_id user_id ≡ some user
    → let policy = resolve_organization_policy object_id policies organization_id in
      has_tool_grant object_id policies grants user_id name conversation_id organization_id ≡ (
        not (has_text name (deny_list policy))
        && (has_text name (default_grants policy)
            || reaches set user name
                (id_of object_id conversation_id)
                (id_of object_id organization_id)))
run-has_tool_grant object_id policies {grants} {set} r user_id user name c o h u =
    let (v, e) = run-view object_id r in
    let policy = resolve_organization_policy object_id policies o in
    has_tool_grant_lem object_id policies grants user_id name c o h
    ∙ ground (
      arith,
      matches-reaches grants user name (id_of object_id c) (id_of object_id o),
      ap (λ s. reaches s user name (id_of object_id c) (id_of object_id o)) e,
    )
