-- ===== src/Workspace/Accept.antt =====
-- `acceptOrganizationInvitation` and `getOrganizationInvitationByToken` of
-- packages/services/organization-invite.service.ts. A call that throws may have written before.
use semantask.Prelude.{ℕ, leb, not, Option, none, some, String, [], ◌∷◌, ◌++◌, if◌then◌else◌}
use semantask.Prelude.Text.{Text, text_eq, trim, is_filled}
use semantask.Prelude.Collection.{find_first, update_first}
use semantask.Prelude.Result.{Result, ok, err, ◌>>=◌, ◌>>◌, guard}
use semantask.Workspace.{
  forbidden, not_found, ServiceError, authorization_error, validation_error, Membership, Directory,
  is_membership_of, assert_organization_active,
}
use semantask.Workspace.Quota.{assert_member_quota_available}
use semantask.Workspace.Invites.{
  pending, accepted, revoked, expired, OrganizationInvitation, Registry, normalized_email,
  has_token,
}

abbrev pub set_invite :
    Registry → (token : Text) → (OrganizationInvitation → OrganizationInvitation) → Registry
set_invite reg token change = record reg {
  invitations = update_first (has_token token) change reg.invitations;
}

-- The membership that an invitation gives, unless the user has one.
abbrev pub join : Directory → (organization_id user_id : String) → Membership → Directory
join dir o user membership = elim (find_first (is_membership_of o user) dir.memberships) [
  | some existing ↦ dir
  | none ↦ record dir { memberships = dir.memberships ++ (membership ∷ []) }
]

module _ (object_id : String → Option String) where
  -- A pending invitation that has not expired.
  unfoldable pub accept_pending :
      Registry
      → (token : Text) → OrganizationInvitation
      → (user : String) → (email : Text) → (now : ℕ) → Registry × Result ServiceError String
  accept_pending reg token invite user email now =
      let allowed : Result ServiceError (Unit {0}) =
        guard (text_eq (normalized_email invite.email) email) (
          authorization_error forbidden
            "Sign in with the invited email address to accept this invitation")
        >> assert_organization_active object_id reg.directory invite.organization_id
        >>= λ org.
            assert_member_quota_available object_id reg.directory reg.quotas
              invite.organization_id in
      elim allowed [
        | err e ↦ (reg, err e)
        | ok _ ↦
            let membership : Membership = record {
              organization_id = invite.organization_id;
              user_id = user;
              role = invite.role;
            } in
            (
              set_invite
                  (record reg {
                    directory = join reg.directory invite.organization_id user membership;
                  })
                  token
                  (λ i. record i {
                    status = accepted;
                    accepted_at = some now;
                    accepted_by_user_id = some user;
                  }),
              ok invite.organization_id,
            )
      ]

  abbrev expire : Registry → (token : Text) → Registry × Result ServiceError String
  expire reg token = (
    set_invite reg token (λ i. record i { status = expired }),
    err (validation_error "This invitation has expired"),
  )

  unfoldable pub accept_organization_invitation :
      Registry
      → (token : Text) → (user_id : String) → (user_email : Text) → (now : ℕ)
      → Registry × Result ServiceError String
  unfolding accept_pending
  accept_organization_invitation reg raw_token user_id user_email now =
      let email = normalized_email user_email in
      let token = trim raw_token in
      if not (is_filled email)
      then (reg, err (validation_error "Authenticated user email is required"))
      else elim (object_id user_id) [
        | none ↦ (reg, err (validation_error "Invalid user"))
        | some user ↦ elim (find_first (has_token token) reg.invitations) [
          | none ↦ (reg, err (authorization_error not_found "Invitation not found"))
          | some invite ↦ elim invite.status [
            | accepted ↦ (reg, ok invite.organization_id)
            | revoked ↦ (reg, err (validation_error "This invitation was revoked"))
            | expired ↦ expire reg token
            | pending ↦
                if leb invite.expires_at now
                then expire reg token
                else accept_pending reg token invite user email now
          ]
        ]
      ]

  -- A pending invitation whose time is over is marked and shown as expired.
  unfoldable pub get_organization_invitation_by_token :
      Registry → (token : Text) → (now : ℕ) → Registry × Option OrganizationInvitation
  get_organization_invitation_by_token reg raw_token now =
      let token = trim raw_token in
      if not (is_filled token)
      then (reg, none)
      else elim (find_first (has_token token) reg.invitations) [
        | none ↦ (reg, none)
        | some invite ↦ elim invite.status [
          | pending ↦
              if leb invite.expires_at now
              then (
                set_invite reg token (λ i. record i { status = expired }),
                some (record invite { status = expired }),
              )
              else (reg, some invite)
          | _ ↦ (reg, some invite)
        ]
      ]
