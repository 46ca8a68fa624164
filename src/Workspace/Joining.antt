-- ===== src/Workspace/Joining.antt =====
-- Who becomes a member by an invitation.
use semantask.Prelude.{
  ℕ, ◌<◌, true, Option, none, some, String, [], ◌∷◌, ◌++◌, ◌≡◌, ◌∙◌, ◌⊎◌, inl, inr, refl, arith,
  eq_refl, is_some, Option-cases,
}
use semantask.Prelude.Text.{Text, text_eq, trim, is_filled}
use semantask.Prelude.Collection.{find_first, find_first-append, find_first-update_first}
use semantask.Prelude.Result.{ok, is_ok}
use semantask.Workspace.{
  Membership, Directory, is_membership_of, get_membership, assert_organization_active,
}
use semantask.Workspace.Quota.{assert_member_quota_available}
use semantask.Workspace.Invites.{
  pending, accepted, OrganizationInvitation, Registry, normalized_email, has_token,
}
use semantask.Workspace.Accept.{set_invite, join, accept_pending, accept_organization_invitation}

abbrev pub new_member : OrganizationInvitation → (user : String) → Membership
new_member invite user = record {
  organization_id = invite.organization_id;
  user_id = user;
  role = invite.role;
}

module _ (object_id : String → Option String) where
  -- The invitation lets the user in.
  abbrev pub LetsIn :
      Registry → OrganizationInvitation → (user_id : String) → (email : Text) → (now : ℕ) → Type 0
  LetsIn reg invite user_id email now =
      (invite.status ≡ pending)
      × (now < invite.expires_at)
      × (text_eq (normalized_email invite.email) (normalized_email email) ≡ true)
      × (is_ok (assert_organization_active object_id reg.directory invite.organization_id) ≡ true)
      × (is_ok (
            assert_member_quota_available object_id reg.directory reg.quotas invite.organization_id)
          ≡ true)

  -- Nobody is let in, or the token's invitation lets the user in.
  abbrev Joins :
      Registry
      → (token : Text) → (user_id : String) → (email : Text) → (now : ℕ) → Directory
      → Type 0
  Joins reg token user_id email now dir =
      (dir ≡ reg.directory)
      ⊎ ((invite : OrganizationInvitation) × (user : String) × (find_first (has_token (trim token))
              reg.invitations
            ≡ some invite)
          × (object_id user_id ≡ some user)
          × LetsIn reg invite user_id email now
          × (find_first (is_membership_of invite.organization_id user) reg.directory.memberships
              ≡ none)
          × (dir ≡ record reg.directory {
            memberships = reg.directory.memberships ++ (new_member invite user ∷ []);
          }))

  accept_pending-joins :
      (reg : Registry) (token : Text) (invite : OrganizationInvitation) (user : String)
      → (email : Text) (now : ℕ)
      → let dir = (accept_pending object_id reg token invite user email now).0.directory in
        (dir ≡ reg.directory)
        ⊎ ((text_eq (normalized_email invite.email) email ≡ true)
            × (is_ok (assert_organization_active object_id reg.directory invite.organization_id)
                ≡ true)
            × (is_ok (
                  assert_member_quota_available object_id reg.directory reg.quotas
                    invite.organization_id)
                ≡ true)
            × (find_first (is_membership_of invite.organization_id user) reg.directory.memberships
                ≡ none)
            × (dir ≡ record reg.directory {
              memberships = reg.directory.memberships ++ (new_member invite user ∷ []);
            }))
  unfolding accept_pending
  accept_pending-joins reg token invite user email now = ground arith

  -- The directory changes only in the call for a pending invitation.
  accept-pending :
      (reg : Registry) (token : Text) (user_id : String) (email : Text) (now : ℕ)
      → (user : String) (invite : OrganizationInvitation) → object_id user_id ≡ some user
      → find_first (has_token (trim token)) reg.invitations ≡ some invite
      → let dir =
          (accept_organization_invitation object_id reg token user_id email now).0.directory in
        (dir ≡ reg.directory)
        ⊎ ((invite.status ≡ pending)
            × (now < invite.expires_at)
            × (dir
                ≡ (accept_pending object_id reg
                    (trim token)
                    invite
                    user
                    (normalized_email email)
                    now).0.directory))
  unfolding accept_organization_invitation
  accept-pending reg token user_id email now user invite e f = ground arith

  pub accept-Joins :
      (reg : Registry) (token : Text) (user_id : String) (email : Text) (now : ℕ)
      → Joins reg token user_id email now
          (accept_organization_invitation object_id reg token user_id email now).0.directory
  unfolding accept_organization_invitation
  accept-Joins reg token user_id email now = elim (Option-cases (object_id user_id)) [
    | inl e ↦ inl (ground arith)
    | inr (user, e) ↦ elim (Option-cases (find_first (has_token (trim token)) reg.invitations)) [
      | inl f ↦ inl (ground arith)
      | inr (invite, f) ↦ elim (accept-pending reg token user_id email now user invite e f) [
        | inl same ↦ inl same
        | inr (p, l, d) ↦
            elim (accept_pending-joins reg (trim token) invite user (normalized_email email) now) [
              | inl same ↦ inl (d ∙ same)
              | inr (t, a, q, n, j) ↦ inr (invite, user, f, e, (p, l, t, a, q), n, d ∙ j)
            ]
      ]
    ]
  ]

  -- The conditions of the acceptance, as hypotheses on an invitation that is found.
  accept-LetsIn :
      (reg : Registry) (token : Text) (user_id : String) (email : Text) (now : ℕ)
      → (user : String) (invite : OrganizationInvitation)
      → is_filled (normalized_email email) ≡ true
      → object_id user_id ≡ some user
      → find_first (has_token (trim token)) reg.invitations ≡ some invite
      → LetsIn reg invite user_id email now
      → accept_organization_invitation object_id reg token user_id email now ≡ (
        set_invite
            (record reg {
              directory = join reg.directory invite.organization_id user (new_member invite user);
            })
            (trim token)
            (λ i. record i {
              status = accepted;
              accepted_at = some now;
              accepted_by_user_id = some user;
            }),
        ok invite.organization_id,
      )
  unfolding accept_organization_invitation accept_pending
  accept-LetsIn reg token user_id email now user invite m e f (p, l, t, a, q) = ground arith

  join-member :
      (dir : Directory) (o user : String) (m : Membership)
      → m.organization_id ≡ o
      → m.user_id ≡ user
      → (k : Membership) × (find_first (is_membership_of o user) (join dir o user m).memberships
          ≡ some k)
  join-member dir o user m a b =
      elim (Option-cases (find_first (is_membership_of o user) dir.memberships)) [
        | inl e ↦ (
          m,
          ground (
            arith,
            eq_refl o,
            eq_refl user,
            find_first-append (is_membership_of o user) dir.memberships m e,
          ),
        )
        | inr (k, e) ↦ (k, ground arith)
      ]

  get-membership :
      (dir : Directory) (o user_id user : String)
      → object_id o ≡ some o
      → object_id user_id ≡ some user
      → get_membership object_id dir o user_id
        ≡ find_first (is_membership_of o user) dir.memberships
  unfolding get_membership
  get-membership dir o user_id user e f = ground arith

  accept-accepted :
      (reg : Registry) (token : Text) (invite : OrganizationInvitation)
      → find_first (has_token (trim token)) reg.invitations ≡ some invite
      → invite.status ≡ accepted
      → (user_id : String) (email : Text) (now : ℕ) → is_filled (normalized_email email) ≡ true
      → is_some (object_id user_id) ≡ true
      → accept_organization_invitation object_id reg token user_id email now
        ≡ (reg, ok invite.organization_id)
  unfolding accept_organization_invitation
  accept-accepted reg token invite f a user_id email now m u = ground arith

  -- With a filled email and a valid id, a pending invitation that lets the user in makes the user a
  -- member of the organization; its token then answers with the organization to any user with an
  -- email and a valid id, and changes nothing.
  pub accept-joins :
      (reg : Registry) (token : Text) (user_id : String) (email : Text) (now : ℕ)
      → (user : String) (invite : OrganizationInvitation)
      → is_filled (normalized_email email) ≡ true
      → object_id user_id ≡ some user
      → object_id invite.organization_id ≡ some invite.organization_id
      → find_first (has_token (trim token)) reg.invitations ≡ some invite
      → LetsIn reg invite user_id email now
      → let (after, result) =
          accept_organization_invitation object_id reg token user_id email now in
        (result ≡ ok invite.organization_id)
        × ((m : Membership) × (get_membership object_id after.directory invite.organization_id
                user_id
              ≡ some m))
        × ((other_id : String) (other_email : Text) (later : ℕ)
            → is_filled (normalized_email other_email) ≡ true
            → is_some (object_id other_id) ≡ true
            → accept_organization_invitation object_id after token other_id other_email later
              ≡ (after, ok invite.organization_id))
  accept-joins reg token user_id email now user invite m e o f l =
      let change : OrganizationInvitation → OrganizationInvitation = λ i. record i {
        status = accepted;
        accepted_at = some now;
        accepted_by_user_id = some user;
      } in
      let (k, j) =
        join-member reg.directory invite.organization_id user (new_member invite user) refl refl in
      rw (accept-LetsIn reg token user_id email now user invite m e f l) (
        refl,
        (
          k,
          get-membership (join reg.directory invite.organization_id user (new_member invite user))
                invite.organization_id user_id user o e
              ∙ j,
        ),
        accept-accepted
            (set_invite
              (record reg {
                directory = join reg.directory invite.organization_id user (new_member invite user);
              })
              (trim token) change)
            token (change invite)
            (ground (
              arith,
              find_first-update_first (has_token (trim token)) change reg.invitations (λ x h. h),
            ))
            refl,
      )
