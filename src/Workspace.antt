-- ===== src/Workspace.antt =====
-- Organizations and their members: packages/services/organization.service.ts, with the documents of
-- packages/db/models/Organization.ts and OrganizationMembership.ts. A collection is the list of its
-- documents; `object_id` is the id that a text denotes, as `ObjectId` writes it, where it is valid.
-- A document stands for its own id where the code finds it and then changes or deletes it.
use semantask.Prelude.{
  ℕ, leb, Bool, true, false, not, ◌&&◌, Option, none, some, String, str_eq, List, is_present,
  if◌then◌else◌,
}
use semantask.Prelude.Text.{Text}
use semantask.Prelude.Collection.{find_first}
use semantask.Prelude.Result.{Result, ok, err, ◌>>=◌, ◌>>◌, guard}
pub mod Slug
pub mod Policy
pub mod PolicyWrite
pub mod PolicyVersions
pub mod Grandfather
pub mod GrandfatherModes
pub mod Quota
pub mod Invites
pub mod Accept
pub mod Joining
pub mod MemberLimit
pub mod Members
pub mod Owners
pub mod Ownership
mod Examples
mod PolicyExamples

pub data AuthorizationCode : Type 0 where
  forbidden not_found : AuthorizationCode

-- What the services throw, with its message; a quota error has its count and its limit.
pub data ServiceError : Type 0 where
  authorization_error : AuthorizationCode → (message : String) → ServiceError
  validation_error conflict_error failed : (message : String) → ServiceError
  quota_exceeded : (count limit : ℕ) → ServiceError

pub data OrganizationMemberRole : Type 0 where
  owner admin member : OrganizationMemberRole

pub data OrganizationStatus : Type 0 where
  active suspended : OrganizationStatus

pub record Organization : Type 0 where
  pub id : String
  pub name : Text
  pub slug : Text
  pub status : OrganizationStatus
  pub created_by : String

pub record Membership : Type 0 where
  pub organization_id : String
  pub user_id : String
  pub role : OrganizationMemberRole

pub record Directory : Type 0 where
  pub organizations : List Organization
  pub memberships : List Membership

abbrev pub can_manage_members : OrganizationMemberRole → Bool
can_manage_members owner = true
can_manage_members admin = true
can_manage_members member = false

abbrev pub is_owner_role : OrganizationMemberRole → Bool
is_owner_role owner = true
is_owner_role admin = false
is_owner_role member = false

-- The filter `{ organizationId, userId }`.
abbrev pub is_membership_of : (organization_id user_id : String) → Membership → Bool
is_membership_of organization_id user_id m =
    str_eq m.organization_id organization_id && str_eq m.user_id user_id

abbrev pub found {ℓ κ} : {E : Type ℓ} {A : Type κ} → Option A → E → Result E A
found none e = err e
found (some a) e = ok a

abbrev pub denied : ServiceError
denied = authorization_error forbidden "Forbidden"

abbrev pub is_suspended : OrganizationStatus → Bool
is_suspended active = false
is_suspended suspended = true

module _ (object_id : String → Option String) where
  unfoldable pub get_membership : Directory → (organization_id user_id : String) → Option Membership
  get_membership dir organization_id user_id = elim (object_id organization_id) [
    | none ↦ none
    | some o ↦ elim (object_id user_id) [
      | none ↦ none
      | some u ↦ find_first (is_membership_of o u) dir.memberships
    ]
  ]

  unfoldable pub assert_membership :
      Directory → (organization_id user_id : String) → Result ServiceError Membership
  assert_membership dir organization_id user_id =
      found (get_membership dir organization_id user_id) denied

  unfoldable pub assert_can_manage_members :
      Directory → (organization_id user_id : String) → Result ServiceError Membership
  assert_can_manage_members dir organization_id user_id =
      assert_membership dir organization_id user_id >>= λ membership.
      guard (can_manage_members membership.role) denied >> ok membership

  unfoldable pub get_organization_by_id :
      Directory → (organization_id : String) → Option Organization
  get_organization_by_id dir organization_id = elim (object_id organization_id) [
    | none ↦ none
    | some o ↦ find_first (λ org. str_eq org.id o) dir.organizations
  ]

  unfoldable pub assert_organization_active :
      Directory → (organization_id : String) → Result ServiceError Organization
  assert_organization_active dir organization_id =
      found (get_organization_by_id dir organization_id)
        (authorization_error not_found "Organization not found")
      >>= λ org.
          guard (not (is_suspended org.status))
            (authorization_error forbidden "Organization is suspended")
          >> ok org
