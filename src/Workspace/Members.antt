-- ===== src/Workspace/Members.antt =====
-- The operations of packages/services/organization.service.ts on organizations and their members.
-- Connecting to the database, the sessions of a transaction and the resolution of user names are
-- left out; `new_id` is the id that the database gives to a new document. The characters of a name
-- are its UTF-16 units. A role is one of the type's, so the tests that it is one are left out.
use semantask.Prelude.{
  leb, Bool, true, not, ◌&&◌, Option, none, some, or_else, String, str_eq, [], ◌∷◌, ◌++◌, length,
  present, if◌then◌else◌, is_some,
}
use semantask.Prelude.Text.{Text, text_eq, lower, trim, is_filled}
use semantask.Prelude.Collection.{find_first, update_first, delete_first}
use semantask.Prelude.Result.{Result, ok, ◌>>=◌, ◌>>◌, guard}
use semantask.Workspace.{
  forbidden, not_found, ServiceError, authorization_error, validation_error, failed,
  OrganizationMemberRole, owner, member, OrganizationStatus, active, Organization, Membership,
  Directory, is_owner_role, is_membership_of, found, denied, assert_membership,
  assert_can_manage_members, assert_organization_active,
}
use semantask.Workspace.Slug.{is_slug, slugify}

abbrev valid_name : Text → Bool
valid_name name = leb 1 (length name) && leb (length name) 120

-- The slug that is asked for, or the name's.
abbrev slug_or_name : (slug : Option Text) → (name : Text) → Text
slug_or_name none name = slugify name
slug_or_name (some slug) name = let s = lower (trim slug) in if is_filled s then s else slugify name

-- The two documents are written in one transaction; the schema bounds a slug by 64 characters.
abbrev create_pair :
    Directory → (name slug : Text) → (creator new_id : String) → Directory × Organization
create_pair dir name slug creator new_id =
    let org : Organization = record {
      id = new_id;
      name = name;
      slug = slug;
      status = active;
      created_by = creator;
    } in
    let membership : Membership = record {
      organization_id = new_id;
      user_id = creator;
      role = owner;
    } in
    (
      record {
        organizations = dir.organizations ++ (org ∷ []);
        memberships = dir.memberships ++ (membership ∷ []);
      },
      org,
    )

abbrev pub change_organization :
    (name : Option Text) → Option OrganizationStatus → Organization → Organization
change_organization name status org = record org {
  name = or_else name org.name;
  status = or_else status org.status;
}

module _ (object_id : String → Option String) where
  unfoldable pub create_organization :
      Directory
      → (name : Text) → (slug : Option Text) → (created_by new_id : String)
      → Result ServiceError (Directory × Organization)
  create_organization dir raw_name slug created_by new_id =
      found (object_id created_by) (authorization_error forbidden "Invalid user") >>= λ creator.
      let name = trim raw_name in
      let slug = slug_or_name slug name in
      guard (valid_name name) (validation_error "Organization name must be 1–120 characters")
      >> guard (is_slug slug && leb 2 (length slug)) (validation_error "Invalid organization slug")
      >> guard (not (is_some (find_first (λ org. text_eq org.slug slug) dir.organizations)))
          (validation_error "Organization slug already taken")
      >> guard (leb (length slug) 64) (failed "slug is longer than the maximum allowed length")
      >> ok (create_pair dir name slug creator new_id)

  unfoldable pub update_organization :
      Directory
      → (organization_id actor_user_id : String) → (name : Option Text)
      → (status : Option OrganizationStatus) → Result ServiceError Directory
  update_organization dir organization_id actor_user_id name status =
      assert_can_manage_members object_id dir organization_id actor_user_id >>= λ membership.
      guard (not (is_some status && not (is_owner_role membership.role)))
        (authorization_error forbidden "Only owners can change organization status")
      >> guard (elim name [ none ↦ true | some n ↦ valid_name (trim n) ])
          (validation_error "Organization name must be 1–120 characters")
      >> found (object_id organization_id) denied
      >>= λ id.
          found (find_first (λ org. str_eq org.id id) dir.organizations)
            (authorization_error not_found "Organization not found")
          >>= λ org. ok (record dir {
            organizations =
                update_first (λ org. str_eq org.id id)
                  (change_organization (elim name [ none ↦ none | some n ↦ some (trim n) ]) status)
                  dir.organizations;
          })

  unfoldable pub add_organization_member :
      Directory
      → (organization_id actor_user_id user_id : String) → (role : Option OrganizationMemberRole)
      → Result ServiceError (Directory × Membership)
  add_organization_member dir organization_id actor_user_id user_id role =
      assert_can_manage_members object_id dir organization_id actor_user_id >>= λ actor.
      assert_organization_active object_id dir organization_id >>= λ org.
      found (object_id user_id) (authorization_error forbidden "Invalid user") >>= λ user.
      guard (not (is_owner_role (or_else role member)))
        (validation_error "Cannot add another owner; transfer ownership separately")
      >> found (object_id organization_id) denied
      >>= λ id. elim (find_first (is_membership_of id user) dir.memberships) [
        | some existing ↦ ok (dir, existing)
        | none ↦
            let membership : Membership = record {
              organization_id = id;
              user_id = user;
              role = or_else role member;
            } in
            ok (record dir { memberships = dir.memberships ++ (membership ∷ []) }, membership)
      ]

  unfoldable pub remove_organization_member :
      Directory → (organization_id actor_user_id user_id : String) → Result ServiceError Directory
  remove_organization_member dir organization_id actor_user_id user_id =
      assert_can_manage_members object_id dir organization_id actor_user_id >>= λ actor.
      found (object_id user_id) (authorization_error forbidden "Invalid user") >>= λ user.
      found (object_id organization_id) denied >>= λ id.
      found (find_first (is_membership_of id user) dir.memberships)
        (authorization_error not_found "Membership not found")
      >>= λ target.
          guard (not (is_owner_role target.role))
            (validation_error "Cannot remove the organization owner")
          >> ok
              (record dir { memberships = delete_first (is_membership_of id user) dir.memberships })

  unfoldable pub update_organization_member_role :
      Directory
      → (organization_id actor_user_id user_id : String) → (role : OrganizationMemberRole)
      → Result ServiceError Directory
  update_organization_member_role dir organization_id actor_user_id user_id role =
      assert_can_manage_members object_id dir organization_id actor_user_id >>= λ actor.
      found (object_id user_id) (authorization_error forbidden "Invalid user") >>= λ user.
      guard (not (is_owner_role role)) (validation_error "Role must be admin or member")
      >> found (object_id organization_id) denied
      >>= λ id.
          found (find_first (is_membership_of id user) dir.memberships)
            (authorization_error not_found "Membership not found")
          >>= λ target.
              guard (not (is_owner_role target.role))
                (validation_error "Cannot change the organization owner role")
              >> ok (record dir {
                memberships =
                    update_first (is_membership_of id user) (λ m. record m { role = role })
                      dir.memberships;
              })

  unfoldable pub leave_organization :
      Directory → (organization_id actor_user_id : String) → Result ServiceError Directory
  leave_organization dir organization_id actor_user_id =
      assert_membership object_id dir organization_id actor_user_id >>= λ membership.
      guard (not (is_owner_role membership.role))
        (validation_error "Owners cannot leave without transferring ownership")
      >> found (object_id organization_id) denied
      >>= λ id. found (object_id actor_user_id) denied >>= λ user.
          ok (record dir { memberships = delete_first (is_membership_of id user) dir.memberships })

  -- `raw` is the trimmed header; one that is missing or empty stands for the personal workspace.
  unfoldable pub resolve_organization_id_for_user :
      Directory → (user_id : String) → (raw : Option String) → Result ServiceError (Option String)
  resolve_organization_id_for_user dir user_id raw = elim (present raw) [
    | none ↦ ok none
    | some header ↦
        found (object_id header) (authorization_error forbidden "Invalid organization context")
        >>= λ id. assert_membership object_id dir header user_id >>= λ membership.
            assert_organization_active object_id dir header >>= λ org. ok (some header)
  ]
