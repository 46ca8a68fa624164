-- ===== src/Workspace/MemberLimit.antt =====
-- Acceptances and the limit of members.
use semantask.Prelude.{
  ℕ, suc, ◌+◌, ◌<◌, ◌≤◌, true, false, Option, some, String, str_eq, List, [], ◌∷◌, ◌++◌, ◌≡◌, ◌∙◌,
  ap, inl, inr, arith, eq_iff, Option-cases,
}
use semantask.Prelude.Text.{Text, trim}
use semantask.Prelude.Collection.{find_first, count, count-append}
use semantask.Prelude.Result.{is_ok}
use semantask.Workspace.{Membership, Directory}
use semantask.Workspace.Quota.{
  Quotas, limit_of, get_organization_quota, member_count, below_limit,
  assert_member_quota_available,
}
use semantask.Workspace.Invites.{OrganizationInvitation, Registry, has_token}
use semantask.Workspace.Accept.{accept_organization_invitation}
use semantask.Workspace.Joining.{new_member, accept-Joins}

module _ (object_id : String → Option String) where
  quota-below :
      (dir : Directory) (quotas : Quotas) (o x : String) (limit : ℕ)
      → object_id o ≡ some x
      → object_id x ≡ some x
      → is_ok (assert_member_quota_available object_id dir quotas x) ≡ true
      → limit_of object_id (get_organization_quota object_id quotas o) (λ q. q.max_members)
        ≡ some (suc limit)
      → count (λ (m : Membership). str_eq m.organization_id x) dir.memberships < suc limit
  unfolding assert_member_quota_available get_organization_quota below_limit
  quota-below dir quotas o x limit e f w q = ground arith

  new-count :
      (ms : List Membership) (m : Membership) (x : String)
      → count (λ (k : Membership). str_eq k.organization_id x) (ms ++ (m ∷ []))
        ≡ count (λ (k : Membership). str_eq k.organization_id x) ms
          + elim (str_eq m.organization_id x) [ true ↦ 1 | false ↦ 0 ]
  new-count ms m x = count-append (λ k. str_eq k.organization_id x) ms m

  -- Where every stored id is as `ObjectId` writes it, an acceptance keeps the members of every
  -- organization within its limit.
  pub accept-within_limit :
      (reg : Registry) (token : Text) (user_id : String) (email : Text) (now : ℕ)
      → (o : String) (limit : ℕ)
      → ((invite : OrganizationInvitation)
          → find_first (has_token (trim token)) reg.invitations ≡ some invite
          → object_id invite.organization_id ≡ some invite.organization_id)
      → limit_of object_id (get_organization_quota object_id reg.quotas o) (λ q. q.max_members)
        ≡ some (suc limit)
      → member_count object_id reg.directory o ≤ suc limit
      → member_count object_id
          (accept_organization_invitation object_id reg token user_id email now).0.directory
          o
        ≤ suc limit
  accept-within_limit reg token user_id email now o limit c q h =
      elim (accept-Joins object_id reg token user_id email now) [
        | inl same ↦ rw same h
        | inr (invite, user, f, e, (p, l, t, a, w), n, d) ↦
            rw d (elim (Option-cases (object_id o)) [
              | inl g ↦ ground arith
              | inr (x, g) ↦ ground (
                arith,
                eq_iff invite.organization_id x,
                new-count reg.directory.memberships (new_member invite user) x,
                c invite f,
                λ (s : x ≡ invite.organization_id).
                    quota-below reg.directory reg.quotas o invite.organization_id limit
                      (g ∙ ap some s) (c invite f) w q,
              )
            ])
      ]
