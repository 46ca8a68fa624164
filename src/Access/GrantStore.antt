-- ===== src/Access/GrantStore.antt =====
-- Granting and revoking: `grantTool` and `revokeTool` of packages/services/tool-grant.service.ts,
-- with the unique index of packages/db/models/ToolGrant.ts. A call reads the collection and may write
-- to what other calls have made of it.
use semantask.Prelude.{
  ℕ, Bool, not, ◌&&◌, Option, none, some, or_else, String, str_eq, List, [], ◌∷◌, ◌++◌, is_some,
  present, if◌then◌else◌,
}
use semantask.Prelude.Text.{Text, text_eq}
use semantask.Prelude.Collection.{find_first, update_first}
use semantask.Prelude.Result.{Result, ok, ◌>>=◌}
use semantask.Workspace.{ServiceError, authorization_error, forbidden, not_found, found}
use semantask.Access.Grants.{ToolGrant, has_scope, is_active}

-- The key of the unique index over the grants that are not revoked.
pub record GrantKey : Type 0 where
  pub user_id : String
  pub tool_name : Text
  pub conversation_id : Option String
  pub organization_id : Option String

abbrev pub has_key : GrantKey → ToolGrant → Bool
has_key key g =
    str_eq g.user_id key.user_id
    && (text_eq g.tool_name key.tool_name && has_scope key.conversation_id key.organization_id g)

abbrev pub is_active_for : GrantKey → ToolGrant → Bool
is_active_for key g = has_key key g && is_active g

abbrev pub is_revoked_for : GrantKey → ToolGrant → Bool
is_revoked_for key g = has_key key g && is_some g.revoked_at

pub record GrantToolInput : Type 0 where
  pub user_id : String
  pub tool_name : Text
  pub granted_by : String
  pub conversation_id : Option String
  pub organization_id : Option String

-- The duplicate key error of the database, with what the code then looks for.
abbrev raced : GrantKey → List ToolGrant → Result ServiceError (List ToolGrant × ToolGrant)
raced key stored =
    found (find_first (is_active_for key) stored) (authorization_error forbidden "E11000") >>= λ g.
    ok (stored, g)

-- Another active grant of the key, which the unique index refuses.
abbrev pub clashes : GrantKey → (id : String) → List ToolGrant → Bool
clashes key id stored =
    is_some (find_first (λ g. is_active_for key g && not (str_eq g.id id)) stored)

-- `revoked.save()`
abbrev pub reactivated : (granted_by : String) → ToolGrant → ToolGrant
reactivated granted_by g = record g { revoked_at = none; granted_by = granted_by }

abbrev pub new_grant : GrantKey → (granted_by new_id : String) → ToolGrant
new_grant key granted_by new_id = record {
  id = new_id;
  user_id = key.user_id;
  conversation_id = key.conversation_id;
  organization_id = key.organization_id;
  tool_name = key.tool_name;
  granted_by = granted_by;
  revoked_at = none;
}

-- The three ways of `grantTool`, on the ids of the input: `read` is what the two searches see.
unfoldable pub write_grant :
    (read stored : List ToolGrant)
    → GrantKey
    → (granted_by new_id : String) → Result ServiceError (List ToolGrant × ToolGrant)
write_grant read stored key granted_by new_id = elim (find_first (is_active_for key) read) [
  | some existing ↦ ok (stored, existing)
  | none ↦ elim (find_first (is_revoked_for key) read) [
    | some revoked ↦
        if clashes key revoked.id stored
        then raced key stored
        else ok (
          update_first (λ g. str_eq g.id revoked.id) (reactivated granted_by) stored,
          reactivated granted_by revoked,
        )
    | none ↦
        if is_some (find_first (is_active_for key) stored)
        then raced key stored
        else ok (stored ++ (new_grant key granted_by new_id ∷ []), new_grant key granted_by new_id)
  ]
]

-- A scope that is missing, null or empty is none; any other must be valid.
abbrev pub scope_id :
    (String → Option String)
    → Option String
    → (message : String) → Result ServiceError (Option String)
scope_id object_id text message = elim (present text) [
  | none ↦ ok none
  | some t ↦ found (object_id t) (authorization_error forbidden message) >>= λ id. ok (some id)
]

unfoldable pub grant_tool :
    (object_id : String → Option String)
    → (read stored : List ToolGrant) → GrantToolInput
    → (new_id : String) → Result ServiceError (List ToolGrant × ToolGrant)
unfolding write_grant
grant_tool object_id read stored input new_id =
    found (object_id input.user_id) (authorization_error forbidden "Invalid user id") >>= λ user.
    found (object_id input.granted_by) (authorization_error forbidden "Invalid user id") >>= λ by.
    scope_id object_id input.conversation_id "Invalid conversation id" >>= λ conversation.
    scope_id object_id input.organization_id "Invalid organization id" >>= λ organization.
    write_grant read stored
      (record {
        user_id = user;
        tool_name = input.tool_name;
        conversation_id = conversation;
        organization_id = organization;
      })
      by new_id

abbrev pub revoked_grant : (now : ℕ) → ToolGrant → ToolGrant
revoked_grant now g = record g { revoked_at = some (or_else g.revoked_at now) }

-- `revokeTool`: a grant that is revoked keeps its time.
unfoldable pub revoke_tool :
    (object_id : String → Option String)
    → List ToolGrant
    → (grant_id : String) → (now : ℕ) → Result ServiceError (List ToolGrant × ToolGrant)
revoke_tool object_id grants grant_id now =
    found (object_id grant_id) (authorization_error not_found "Grant not found") >>= λ id.
    found (find_first (λ g. str_eq g.id id) grants)
      (authorization_error not_found "Grant not found")
    >>= λ grant.
        ok (update_first (λ g. str_eq g.id id) (revoked_grant now) grants, revoked_grant now grant)
