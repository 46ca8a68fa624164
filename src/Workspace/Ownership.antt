-- ===== src/Workspace/Ownership.antt =====
-- Over any sequence of calls an organization has one owner, who is its creator.
use semantask.Prelude.{
  Bool, true, false, ◌||◌, Option, String, str_eq, List, [], ◌∷◌, not, ◌∙◌, ◌++◌, keep, some_of,
  All, ◌≡◌, refl, arith, eq_refl, eq_iff,
}
use semantask.Prelude.Text.{Text}
use semantask.Prelude.Collection.{update_first, keep-append}
use semantask.Prelude.Result.{ok}
use semantask.Workspace.{
  OrganizationMemberRole, owner, OrganizationStatus, Organization, Membership, Directory,
}
use semantask.Workspace.Members.{
  create_organization, update_organization, add_organization_member, remove_organization_member,
  update_organization_member_role, leave_organization, change_organization,
}
use semantask.Workspace.Owners.{
  is_owner_of, KeepsOwners, add-owners, remove-owners, role-owners_lem, leave-owners,
}

abbrev is_fresh : Directory → (id : String) → Bool
is_fresh dir id = not (
    some_of (λ m. str_eq m.organization_id id) dir.memberships
    || some_of (λ org. str_eq org.id id) dir.organizations)

-- The membership of the creator.
abbrev pub owner_membership : Organization → Membership
owner_membership org = record { organization_id = org.id; user_id = org.created_by; role = owner }

-- The creator is the one owner.
abbrev HasOwner : List Membership → Organization → Type 0
HasOwner ms org = keep (is_owner_of org.id) ms ≡ (owner_membership org ∷ [])

abbrev pub IsOwned : Directory → Type 0
IsOwned dir = All (HasOwner dir.memberships) dir.organizations

HasOwner-map :
    (ms ms' : List Membership) (orgs : List Organization)
    → ((org : String) → keep (is_owner_of org) ms' ≡ keep (is_owner_of org) ms)
    → All (HasOwner ms) orgs
    → All (HasOwner ms') orgs
HasOwner-map ms ms' [] e h = tt
HasOwner-map ms ms' (org ∷ orgs) e h = (e org.id ∙ h.0, HasOwner-map ms ms' orgs e h.1)

no_owner_yet :
    (ms : List Membership) (id : String)
    → some_of (λ m. str_eq m.organization_id id) ms ≡ false
    → keep (is_owner_of id) ms ≡ []
no_owner_yet [] id h = refl
no_owner_yet (m ∷ ms) id h = ground (arith, no_owner_yet ms id)

create-HasOwner :
    (ms : List Membership) (org : Organization) (orgs : List Organization)
    → some_of (λ m. str_eq m.organization_id org.id) ms ≡ false
    → some_of (λ k. str_eq k.id org.id) orgs ≡ false
    → All (HasOwner ms) orgs
    → All (HasOwner (ms ++ (owner_membership org ∷ []))) (orgs ++ (org ∷ []))
create-HasOwner ms org [] f g h = (
  rw (keep-append (is_owner_of org.id) ms (owner_membership org ∷ []), no_owner_yet ms org.id f)
      (ground (arith, eq_refl org.id)),
  tt,
)
create-HasOwner ms org (k ∷ orgs) f g h = (
  rw (keep-append (is_owner_of k.id) ms (owner_membership org ∷ []), h.0)
      (ground (arith, eq_iff k.id org.id, eq_iff org.id k.id)),
  create-HasOwner ms org orgs f (ground arith) h.1,
)

update-HasOwner :
    (ms : List Membership) (p : Organization → Bool) (name : Option Text)
    → (status : Option OrganizationStatus) (orgs : List Organization) → All (HasOwner ms) orgs
    → All (HasOwner ms) (update_first p (change_organization name status) orgs)
update-HasOwner ms p name status [] h = tt
update-HasOwner ms p name status (org ∷ orgs) h =
    ground (arith, update-HasOwner ms p name status orgs)

kept : (dir dir' : Directory) → KeepsOwners dir dir' → IsOwned dir → IsOwned dir'
kept dir dir' (o, e) w = rw o (HasOwner-map dir.memberships dir'.memberships dir.organizations e w)

module _ (object_id : String → Option String) where
  -- One call that succeeds.
  pub data Step : Directory → Directory → Type 0 where
    created :
        {dir dir' : Directory} {org : Organization}
        → (name : Text) (slug : Option Text) (user id : String) → is_fresh dir id ≡ true
        → create_organization object_id dir name slug user id ≡ ok (dir', org)
        → Step dir dir'
    updated :
        {dir dir' : Directory}
        → (o actor : String) (name : Option Text) (status : Option OrganizationStatus)
        → update_organization object_id dir o actor name status ≡ ok dir'
        → Step dir dir'
    added :
        {dir dir' : Directory} {m : Membership}
        → (o actor user : String) (role : Option OrganizationMemberRole)
        → add_organization_member object_id dir o actor user role ≡ ok (dir', m)
        → Step dir dir'
    removed :
        {dir dir' : Directory}
        → (o actor user : String) → remove_organization_member object_id dir o actor user ≡ ok dir'
        → Step dir dir'
    changed :
        {dir dir' : Directory}
        → (o actor user : String) (role : OrganizationMemberRole)
        → update_organization_member_role object_id dir o actor user role ≡ ok dir'
        → Step dir dir'
    left :
        {dir dir' : Directory}
        → (o actor : String) → leave_organization object_id dir o actor ≡ ok dir'
        → Step dir dir'

  -- What any number of calls makes of no organizations at all.
  pub data Reachable : Directory → Type 0 where
    start : Reachable (record { organizations = []; memberships = [] })
    next : {dir dir' : Directory} → Reachable dir → Step dir dir' → Reachable dir'

  create-appends :
      (dir : Directory) (name : Text) (slug : Option Text) (user id : String)
      → (dir' : Directory) (org : Organization)
      → create_organization object_id dir name slug user id ≡ ok (dir', org)
      → (org.id ≡ id)
        × (dir'.organizations ≡ dir.organizations ++ (org ∷ []))
        × (dir'.memberships ≡ dir.memberships ++ (owner_membership org ∷ []))
  unfolding create_organization
  create-appends dir name slug user id dir' org h = ground arith

  create-IsOwned :
      (dir : Directory) (name : Text) (slug : Option Text) (user id : String)
      → (dir' : Directory) (org : Organization) → is_fresh dir id ≡ true
      → create_organization object_id dir name slug user id ≡ ok (dir', org)
      → IsOwned dir
      → IsOwned dir'
  create-IsOwned dir name slug user id dir' org f h w =
      let (i, o, m) = create-appends dir name slug user id dir' org h in
      rw (o, m)
        (create-HasOwner dir.memberships org dir.organizations (rw i (ground arith))
          (rw i (ground arith)) w)

  update-IsOwned :
      (dir : Directory) (o actor : String) (name : Option Text) (status : Option OrganizationStatus)
      → (dir' : Directory) → update_organization object_id dir o actor name status ≡ ok dir'
      → IsOwned dir
      → IsOwned dir'
  unfolding update_organization
  update-IsOwned dir o actor name status dir' h w = grind (arith, update-HasOwner)

  Step-IsOwned : (dir dir' : Directory) → Step dir dir' → IsOwned dir → IsOwned dir'
  Step-IsOwned dir dir' (created {org} name slug user id f h) w =
      create-IsOwned dir name slug user id dir' org f h w
  Step-IsOwned dir dir' (updated o actor name status h) w =
      update-IsOwned dir o actor name status dir' h w
  Step-IsOwned dir dir' (added {m} o actor user role h) w =
      kept dir dir' (add-owners object_id dir o actor user role dir' m h) w
  Step-IsOwned dir dir' (removed o actor user h) w =
      kept dir dir' (remove-owners object_id dir o actor user dir' h) w
  Step-IsOwned dir dir' (changed o actor user role h) w =
      kept dir dir' (role-owners_lem object_id dir o actor user role dir' h) w
  Step-IsOwned dir dir' (left o actor h) w =
      kept dir dir' (leave-owners object_id dir o actor dir' h) w

  -- After any calls, each made to succeed and with ids that the database never gave before, the one
  -- owner of every organization is the user who created it.
  pub reachable-IsOwned : {dir : Directory} → Reachable dir → IsOwned dir
  reachable-IsOwned start = tt
  reachable-IsOwned (next {dir} {dir'} r s) = Step-IsOwned dir dir' s (reachable-IsOwned r)
