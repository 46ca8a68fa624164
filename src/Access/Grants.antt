-- ===== src/Access/Grants.antt =====
-- Grants of the tools of high risk: packages/services/tool-grant.service.ts, with the documents of
-- packages/db/models/ToolGrant.ts. The collection is the list of its documents, and `policies` what
-- packages/services/organization-policy.service.ts stores; `object_id` is the id that a text
-- denotes, where it is valid. The warnings of the log are left out.
use semantask.Prelude.{
  ℕ, Bool, true, false, not, ◌&&◌, ◌||◌, Option, none, some, String, str_eq, List, [], ◌∷◌, ◌++◌,
  map, keep, some_of, is_some, present, if◌then◌else◌,
}
use semantask.Prelude.Text.{Text, codes, text_eq, has_text, lower, trim}
use semantask.Prelude.Result.{Result, ok, ◌>>◌, guard}
use semantask.Workspace.{ServiceError, authorization_error, forbidden}
use semantask.Workspace.Policy.{Policies, ResolvedOrganizationPolicy, resolve_organization_policy}

pub data ToolRbacMode : Type 0 where
  off enforce : ToolRbacMode

-- `raw` is the value of `TASK_TOOL_RBAC`, where it is set.
unfoldable pub get_tool_rbac_mode : (raw : Option Text) → ToolRbacMode
get_tool_rbac_mode none = enforce
get_tool_rbac_mode (some raw) = if text_eq (lower (trim raw)) (codes "off") then off else enforce

abbrev pub high_risk_tools : List Text
high_risk_tools = codes "send_email" ∷ codes "schedule_meeting" ∷ codes "create_github_issue" ∷ []

abbrev pub is_high_risk_tool_name : Text → Bool
is_high_risk_tool_name value = has_text value high_risk_tools

-- `conversation_id` and `organization_id` are the scope; both are `none` in a global grant.
pub record ToolGrant : Type 0 where
  pub id : String
  pub user_id : String
  pub conversation_id : Option String
  pub organization_id : Option String
  pub tool_name : Text
  pub granted_by : String
  pub revoked_at : Option ℕ

abbrev pub option_eq : Option String → Option String → Bool
option_eq none none = true
option_eq (some a) (some b) = str_eq a b
option_eq _ _ = false

abbrev pub has_scope : (conversation organization : Option String) → ToolGrant → Bool
has_scope c o g = option_eq g.conversation_id c && option_eq g.organization_id o

abbrev pub is_active : ToolGrant → Bool
is_active g = not (is_some g.revoked_at)

-- `orClauses`: the global scope, the conversation's and the organization's.
unfoldable pub in_reach : (conversation organization : Option String) → ToolGrant → Bool
in_reach c o g =
    has_scope none none g || ((is_some c && has_scope c o g) || (is_some o && has_scope none o g))

-- The id that an optional text denotes; missing, null, empty and invalid ones denote none.
abbrev pub id_of : (String → Option String) → Option String → Option String
id_of object_id none = none
id_of object_id (some text) = object_id text

abbrev pub deny_list : Option ResolvedOrganizationPolicy → List Text
deny_list none = []
deny_list (some policy) = policy.tool_deny_list

abbrev pub default_grants : Option ResolvedOrganizationPolicy → List Text
default_grants none = []
default_grants (some policy) = policy.default_tool_grants

module _ (object_id : String → Option String) (policies : Policies) where
  unfoldable pub has_tool_grant :
      List ToolGrant
      → (user_id : String) → (tool_name : Text) → (conversation_id organization_id : Option String)
      → Bool
  has_tool_grant grants user_id tool_name conversation_id organization_id =
      let policy = resolve_organization_policy object_id policies organization_id in
      if not (is_high_risk_tool_name tool_name) then true else elim (object_id user_id) [
        | none ↦ false
        | some user ↦
            if has_text (lower tool_name) (deny_list policy)
            then false
            else if has_text (lower tool_name) (default_grants policy)
            then true
            else some_of
                (λ g.
                  str_eq g.user_id user
                  && (text_eq g.tool_name tool_name
                      && (is_active g
                          && in_reach (id_of object_id conversation_id)
                              (id_of object_id organization_id) g)))
                grants
      ]

  unfoldable pub assert_tool_grant :
      (rbac : Option Text)
      → List ToolGrant
      → (user_id : String) → (tool_name : Text) → (conversation_id organization_id : Option String)
      → Result ServiceError (Unit {0})
  assert_tool_grant rbac grants user_id tool_name conversation_id organization_id =
      guard
        (not (
          is_some (present organization_id)
          && (is_high_risk_tool_name tool_name
              && has_text (lower tool_name)
                  (deny_list (resolve_organization_policy object_id policies organization_id)))))
        (authorization_error forbidden "Tool is denied by organization policy.")
      >> elim (get_tool_rbac_mode rbac) [
        | off ↦ ok tt
        | enforce ↦
            if not (is_high_risk_tool_name tool_name)
            then ok tt
            else guard (has_tool_grant grants user_id tool_name conversation_id organization_id)
                (authorization_error forbidden "Tool grant required.")
      ]

  -- The names in a mode. They may be repeated: the code puts them into a set.
  abbrev pub names_in_mode :
      ToolRbacMode
      → List ToolGrant
      → (user_id : String) → (conversation_id organization_id : Option String) → List Text
  names_in_mode off grants user_id conversation_id organization_id =
      let policy = resolve_organization_policy object_id policies organization_id in
      keep (λ name. not (has_text (lower name) (deny_list policy))) high_risk_tools
  names_in_mode enforce grants user_id conversation_id organization_id =
      let policy = resolve_organization_policy object_id policies organization_id in
      elim (object_id user_id) [
        | none ↦ []
        | some user ↦
            keep (λ name. not (has_text (lower name) (deny_list policy)))
              (default_grants policy
                ++ map (λ (g : ToolGrant). g.tool_name)
                    (keep
                      (λ g.
                        str_eq g.user_id user
                        && (is_active g
                            && in_reach (id_of object_id conversation_id)
                                (id_of object_id organization_id) g))
                      grants))
      ]

  unfoldable pub list_granted_tool_names :
      (rbac : Option Text)
      → List ToolGrant
      → (user_id : String) → (conversation_id organization_id : Option String) → List Text
  unfolding get_tool_rbac_mode
  list_granted_tool_names rbac grants user_id conversation_id organization_id =
      names_in_mode (get_tool_rbac_mode rbac) grants user_id conversation_id organization_id
