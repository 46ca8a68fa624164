-- ===== src/Workspace/Invites.antt =====
-- Invitations to an organization: packages/services/organization-invite.service.ts. The token and
-- the id of a new invitation and the user with an email are parameters; the lists of invitations
-- and the answer's name of the organization are left out.
use semantask.Prelude.{
  ℕ, suc, ◌+◌, leb, ltb, ◌==◌, Bool, true, false, not, ◌&&◌, Option, none, some, or_else, String,
  str_eq, List, [], ◌∷◌, ◌++◌, length, drop, take, some_of, is_some,
}
use semantask.Prelude.Text.{Text, text_eq, lower, trim, is_filled, is_space}
use semantask.Prelude.Collection.{find_first, update_first}
use semantask.Prelude.Result.{Result, ok, ◌>>=◌, ◌>>◌, guard}
use semantask.Workspace.{
  not_found, ServiceError, authorization_error, validation_error, conflict_error,
  OrganizationMemberRole, member, Directory, is_owner_role, is_membership_of, found, denied,
  assert_can_manage_members, assert_organization_active,
}
use semantask.Workspace.Quota.{Quotas, assert_member_quota_available}

pub data OrganizationInvitationStatus : Type 0 where
  pending accepted revoked expired : OrganizationInvitationStatus

-- The role is `admin` or `member`; the two are named as those of a member.
pub record OrganizationInvitation : Type 0 where
  pub id : String
  pub organization_id : String
  pub email : Text
  pub role : OrganizationMemberRole
  pub token : Text
  pub status : OrganizationInvitationStatus
  pub invited_by : String
  pub expires_at : ℕ
  pub accepted_at : Option ℕ
  pub accepted_by_user_id : Option String

pub record Registry : Type 0 where
  pub directory : Directory
  pub quotas : Quotas
  pub invitations : List OrganizationInvitation

-- 14 days.
abbrev pub invite_ttl_ms : ℕ
invite_ttl_ms = 1209600000

abbrev pub max_email_length : ℕ
max_email_length = 254

abbrev pub normalized_email : Text → Text
normalized_email email = lower (trim email)

-- `indexOf` and `lastIndexOf` of one character.
unfoldable pub index_of : ℕ → Text → Option ℕ
index_of c [] = none
index_of c (d ∷ s) =
    let rest = index_of c s in
    elim (d == c) [ true ↦ some 0 | false ↦ elim rest [ none ↦ none | some i ↦ some (suc i) ] ]

unfoldable pub last_index_of : ℕ → Text → Option ℕ
last_index_of c [] = none
last_index_of c (d ∷ s) = elim (last_index_of c s) [
  | some i ↦ some (suc i)
  | none ↦ elim (d == c) [ true ↦ some 0 | false ↦ none ]
]

-- The domain behind the `@`.
unfoldable pub is_valid_domain : Text → Bool
unfolding last_index_of
is_valid_domain domain = elim (last_index_of b'.' domain) [
  | none ↦ false
  | some last_dot ↦
      ltb 0 last_dot
      && (not (suc last_dot == length domain)
          && (is_filled (take last_dot domain) && is_filled (drop (suc last_dot) domain)))
]

unfoldable pub is_valid_email : Text → Bool
unfolding is_valid_domain index_of last_index_of
is_valid_email email =
    is_filled email
    && (leb (length email) max_email_length
        && (not (some_of is_space email) && elim (index_of b'@' email) [
          | none ↦ false
          | some at ↦
              ltb 0 at
              && (elim (last_index_of b'@' email) [ none ↦ false | some last ↦ last == at ]
                  && is_valid_domain (drop (suc at) email))
        ]))

abbrev is_pending : OrganizationInvitationStatus → Bool
is_pending pending = true
is_pending _ = false

-- The filter of a pending invitation of the organization to the email that has not expired.
abbrev is_open_invite : (o : String) → (email : Text) → (now : ℕ) → OrganizationInvitation → Bool
is_open_invite o email now i =
    str_eq i.organization_id o
    && (text_eq i.email email && (is_pending i.status && ltb now i.expires_at))

abbrev pub has_token : Text → OrganizationInvitation → Bool
has_token token i = text_eq i.token token

abbrev has_id : (id o : String) → OrganizationInvitation → Bool
has_id id o i = str_eq i.id id && str_eq i.organization_id o

module _ (object_id : String → Option String) where
  unfoldable pub create_organization_invitation :
      Registry
      → (user_with : Text → Option String) → (organization_id actor_user_id : String)
      → (email : Text) → (role : Option OrganizationMemberRole) → (token : Text) → (new_id : String)
      → (now : ℕ) → Result ServiceError (Registry × OrganizationInvitation)
  create_organization_invitation reg user_with organization_id actor raw_email role token new_id
        now =
      assert_can_manage_members object_id reg.directory organization_id actor >>= λ m.
      assert_organization_active object_id reg.directory organization_id >>= λ org.
      assert_member_quota_available object_id reg.directory reg.quotas organization_id
      >> let email = normalized_email raw_email in
        guard (is_valid_email email) (validation_error "Valid email is required")
        >> guard (not (is_owner_role (or_else role member)))
            (validation_error "Invite role must be admin or member")
        >> found (object_id organization_id) denied
        >>= λ o. found (object_id actor) denied >>= λ actor_id.
            guard
              (elim (user_with email) [
                | none ↦ true
                | some user ↦
                    not (is_some (find_first (is_membership_of o user) reg.directory.memberships))
              ])
              (conflict_error "User is already a member of this organization")
            >> guard (not (is_some (find_first (is_open_invite o email now) reg.invitations)))
                (conflict_error "A pending invitation already exists for this email")
            >> let invite : OrganizationInvitation = record {
              id = new_id;
              organization_id = o;
              email = email;
              role = or_else role member;
              token = token;
              status = pending;
              invited_by = actor_id;
              expires_at = now + invite_ttl_ms;
              accepted_at = none;
              accepted_by_user_id = none;
            } in
              ok (record reg { invitations = reg.invitations ++ (invite ∷ []) }, invite)

  -- The pending invitation of the organization with an id, for a member who manages.
  abbrev pending_invite :
      Registry
      → (organization_id invitation_id : String) → (refusal : String)
      → Result ServiceError (OrganizationInvitation → Bool)
  pending_invite reg organization_id invitation_id refusal =
      found (object_id invitation_id) (validation_error "Invalid invitation id") >>= λ id.
      found (object_id organization_id) denied >>= λ o.
      found (find_first (has_id id o) reg.invitations)
        (authorization_error not_found "Invitation not found")
      >>= λ invite. guard (is_pending invite.status) (validation_error refusal) >> ok (has_id id o)

  unfoldable pub revoke_organization_invitation :
      Registry → (organization_id actor invitation_id : String) → Result ServiceError Registry
  revoke_organization_invitation reg organization_id actor invitation_id =
      assert_can_manage_members object_id reg.directory organization_id actor >>= λ m.
      pending_invite reg organization_id invitation_id "Only pending invitations can be revoked"
      >>= λ here. ok (record reg {
        invitations = update_first here (λ i. record i { status = revoked }) reg.invitations;
      })

  unfoldable pub resend_organization_invitation :
      Registry
      → (organization_id actor invitation_id : String) → (token : Text) → (now : ℕ)
      → Result ServiceError Registry
  resend_organization_invitation reg organization_id actor invitation_id token now =
      assert_can_manage_members object_id reg.directory organization_id actor >>= λ m.
      assert_organization_active object_id reg.directory organization_id >>= λ org.
      pending_invite reg organization_id invitation_id "Only pending invitations can be resent"
      >>= λ here. ok (record reg {
        invitations =
            update_first here (λ i. record i { token = token; expires_at = now + invite_ttl_ms })
              reg.invitations;
      })
