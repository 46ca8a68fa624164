-- ===== src/Workspace/Examples.antt =====
-- The theorems on organizations at a concrete organization.
use semantask.Prelude.{
  ℕ, true, false, Option, none, some, String, [], ◌∷◌, is_present, if◌then◌else◌, ◌≡◌, ◌≤◌, refl,
  or_else, sym, ap, ◌∙◌, arith, is_some,
}
use semantask.Prelude.Text.{Text, codes, lower, trim, trim_start, is_filled}
use semantask.Prelude.Collection.{find_first}
use semantask.Prelude.Result.{ok}
use semantask.Workspace.{
  owner, admin, member, active, Organization, Membership, Directory, get_membership,
  assert_membership, assert_can_manage_members, get_organization_by_id, assert_organization_active,
}
use semantask.Workspace.Slug.{
  dashes, strip_start, strip_end, slug_words, slugify, is_slug, is_slug_from, slugify-is_slug,
}
use semantask.Workspace.Members.{create_organization, add_organization_member}
use semantask.Workspace.Ownership.{IsOwned, start, next, created, added, reachable-IsOwned}
use semantask.Workspace.Quota.{
  OrganizationQuota, below_limit, get_organization_quota, limit_of, member_count,
  assert_member_quota_available,
}
use semantask.Workspace.Invites.{
  pending, OrganizationInvitation, Registry, normalized_email, has_token,
}
use semantask.Workspace.Accept.{accept_organization_invitation}
use semantask.Workspace.Joining.{LetsIn, accept-joins}
use semantask.Workspace.MemberLimit.{accept-within_limit}

-- Every text but the empty one is an id.
abbrev ids : String → Option String
ids s = if is_present s then some s else none

abbrev acme : Organization
acme = record {
  id = "o1";
  name = codes "Acme Inc";
  slug = codes "acme-inc";
  status = active;
  created_by = "u1";
}

abbrev first_owner : Membership
first_owner = record { organization_id = "o1"; user_id = "u1"; role = owner }

abbrev second_member : Membership
second_member = record { organization_id = "o1"; user_id = "u2"; role = admin }

abbrev nobody : Directory
nobody = record { organizations = []; memberships = [] }

abbrev one : Directory
one = record { organizations = acme ∷ []; memberships = first_owner ∷ [] }

abbrev two : Directory
two = record { organizations = acme ∷ []; memberships = first_owner ∷ second_member ∷ [] }

created_acme : create_organization ids nobody (codes " Acme Inc ") none "u1" "o1" ≡ ok (one, acme)
unfolding create_organization slugify slug_words dashes strip_start strip_end lower trim trim_start
    is_slug is_slug_from
created_acme = refl

added_admin : add_organization_member ids one "o1" "u1" "u2" (some admin) ≡ ok (two, second_member)
unfolding add_organization_member assert_can_manage_members assert_membership get_membership
    assert_organization_active get_organization_by_id
added_admin = refl

reachable-IsOwned_example : IsOwned two
reachable-IsOwned_example = reachable-IsOwned ids (
    next (next start (created (codes " Acme Inc ") none "u1" "o1" refl created_acme))
      (added "o1" "u1" "u2" (some admin) added_admin))

valid_slug : is_slug (codes "acme-inc") ≡ true
unfolding is_slug is_slug_from
valid_slug = refl

slugify-is_slug_example : slugify (codes "acme-inc") ≡ codes "acme-inc"
slugify-is_slug_example = slugify-is_slug (codes "acme-inc") valid_slug

-- 63 letters and one more word.
abbrev long_name : Text
long_name = codes "aaaaaaaaaaaaaaaaaaaaaaaaaaaaaaaaaaaaaaaaaaaaaaaaaaaaaaaaaaaaaaa b"

long_name-refused : is_slug (slugify long_name) ≡ false
unfolding slugify slug_words dashes strip_start strip_end lower trim trim_start is_slug is_slug_from
long_name-refused = refl

abbrev invite : OrganizationInvitation
invite = record {
  id = "i1";
  organization_id = "o1";
  email = codes "bo@x.io";
  role = member;
  token = codes "t1";
  status = pending;
  invited_by = "u1";
  expires_at = 500;
  accepted_at = none;
  accepted_by_user_id = none;
}

abbrev quota : OrganizationQuota
quota = record {
  organization_id = "o1";
  max_tasks_per_day = none;
  max_tokens_per_month = none;
  max_members = some 3;
}

abbrev registry : Registry
registry = record { directory = two; quotas = quota ∷ []; invitations = invite ∷ [] }

filled : is_filled (normalized_email (codes "Bo@x.io")) ≡ true
unfolding lower trim trim_start
filled = refl

found_invite : find_first (has_token (trim (codes " t1"))) registry.invitations ≡ some invite
unfolding trim trim_start
found_invite = refl

lets_in : LetsIn ids registry invite "u3" (codes "Bo@x.io") 100
unfolding lower trim trim_start assert_organization_active get_organization_by_id
    assert_member_quota_available below_limit get_organization_quota
lets_in = (refl, ground arith, refl, refl, refl)

accept-joins_example :
    let (after, result) =
      accept_organization_invitation ids registry (codes " t1") "u3" (codes "Bo@x.io") 100 in
    (result ≡ ok "o1")
    × ((m : Membership) × (get_membership ids after.directory "o1" "u3" ≡ some m))
    × ((other_id : String) (other_email : Text) (later : ℕ)
        → is_filled (normalized_email other_email) ≡ true
        → is_some (ids other_id) ≡ true
        → accept_organization_invitation ids after (codes " t1") other_id other_email later
          ≡ (after, ok "o1"))
accept-joins_example =
    accept-joins ids registry (codes " t1") "u3" (codes "Bo@x.io") 100 "u3" invite filled refl refl
      found_invite lets_in

only_invite :
    (i : OrganizationInvitation)
    → find_first (has_token (trim (codes " t1"))) registry.invitations ≡ some i
    → ids i.organization_id ≡ some i.organization_id
unfolding trim trim_start
only_invite i h = rw (ap (λ o. or_else o invite) (sym h ∙ found_invite)) refl

limited :
    limit_of ids (get_organization_quota ids registry.quotas "o1") (λ q. q.max_members) ≡ some 3
unfolding get_organization_quota
limited = refl

accept-within_limit_example :
    member_count ids
      (accept_organization_invitation ids registry
        (codes " t1")
        "u3"
        (codes "Bo@x.io")
        100).0.directory
      "o1"
    ≤ 3
accept-within_limit_example =
    accept-within_limit ids registry (codes " t1") "u3" (codes "Bo@x.io") 100 "o1" 2 only_invite
      limited (ground arith)
