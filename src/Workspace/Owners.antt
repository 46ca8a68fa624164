-- ===== src/Workspace/Owners.antt =====
-- Who owns an organization, over the operations on members.
use semantask.Prelude.{
  Bool, false, ◌&&◌, Option, some, String, str_eq, List, [], ◌∷◌, ◌++◌, keep, ◌≡◌, refl, arith,
}
use semantask.Prelude.Collection.{
  find_first, update_first, delete_first, keep-append, keep-delete_first, keep-update_first,
}
use semantask.Prelude.Result.{ok}
use semantask.Workspace.{
  OrganizationMemberRole, Membership, Directory, is_owner_role, is_membership_of, get_membership,
  assert_membership,
}
use semantask.Workspace.Members.{
  add_organization_member, remove_organization_member, update_organization_member_role,
  leave_organization,
}

abbrev pub is_owner_of : (organization_id : String) → Membership → Bool
is_owner_of organization_id m = str_eq m.organization_id organization_id && is_owner_role m.role

-- The memberships of the organization's owners.
abbrev pub owners_of : Directory → (organization_id : String) → List Membership
owners_of dir organization_id = keep (is_owner_of organization_id) dir.memberships

-- The same organizations, each with the same owners.
abbrev pub KeepsOwners : Directory → Directory → Type 0
KeepsOwners dir dir' =
    (dir'.organizations ≡ dir.organizations)
    × ((org : String) → owners_of dir' org ≡ owners_of dir org)

not_owner : (o : String) (m : Membership) → is_owner_role m.role ≡ false → is_owner_of o m ≡ false
not_owner o m h = ground arith

delete-owners :
    (o u : String) (ms : List Membership) (org : String) {t : Membership}
    → find_first (is_membership_of o u) ms ≡ some t
    → is_owner_role t.role ≡ false
    → keep (is_owner_of org) (delete_first (is_membership_of o u) ms) ≡ keep (is_owner_of org) ms
delete-owners o u ms org {t} f h =
    keep-delete_first (is_membership_of o u) (is_owner_of org) ms f (not_owner org t h)

role-owners :
    (o u : String) (r : OrganizationMemberRole) (ms : List Membership) (org : String)
    → {t : Membership} → find_first (is_membership_of o u) ms ≡ some t
    → is_owner_role t.role ≡ false
    → is_owner_role r ≡ false
    → keep (is_owner_of org) (update_first (is_membership_of o u) (λ m. record m { role = r }) ms)
      ≡ keep (is_owner_of org) ms
role-owners o u r ms org {t} f h n =
    keep-update_first (is_membership_of o u) (is_owner_of org) (λ m. record m { role = r }) ms f
      (not_owner org t h) (not_owner org (record t { role = r }) n)

append-nil : (ms : List Membership) → ms ++ [] ≡ ms
append-nil [] = refl
append-nil (m ∷ ms) = ground (arith, append-nil ms)

new-owners :
    (ms : List Membership) (m : Membership) (org : String)
    → is_owner_role m.role ≡ false
    → keep (is_owner_of org) (ms ++ (m ∷ [])) ≡ keep (is_owner_of org) ms
new-owners ms m org h =
    rw (keep-append (is_owner_of org) ms (m ∷ []))
      (ground (arith, not_owner org m h, append-nil (keep (is_owner_of org) ms)))

module _ (object_id : String → Option String) where
  pub add-owners :
      (dir : Directory) (o actor user : String) (role : Option OrganizationMemberRole)
      → (dir' : Directory) (m : Membership)
      → add_organization_member object_id dir o actor user role ≡ ok (dir', m)
      → KeepsOwners dir dir'
  unfolding add_organization_member
  add-owners dir o actor user role dir' m h = (
    ground arith,
    λ org. ground (arith, λ (r : is_owner_role m.role ≡ false). new-owners dir.memberships m org r),
  )

  pub remove-owners :
      (dir : Directory) (o actor user : String)
      → (dir' : Directory) → remove_organization_member object_id dir o actor user ≡ ok dir'
      → KeepsOwners dir dir'
  unfolding remove_organization_member
  remove-owners dir o actor user dir' h = (ground arith, λ org. grind (arith, delete-owners))

  pub role-owners_lem :
      (dir : Directory) (o actor user : String) (role : OrganizationMemberRole)
      → (dir' : Directory)
      → update_organization_member_role object_id dir o actor user role ≡ ok dir'
      → KeepsOwners dir dir'
  unfolding update_organization_member_role
  role-owners_lem dir o actor user role dir' h = (ground arith, λ org. grind (arith, role-owners))

  pub leave-owners :
      (dir : Directory) (o actor : String)
      → (dir' : Directory) → leave_organization object_id dir o actor ≡ ok dir'
      → KeepsOwners dir dir'
  unfolding leave_organization assert_membership get_membership
  leave-owners dir o actor dir' h = (ground arith, λ org. grind (arith, delete-owners))
