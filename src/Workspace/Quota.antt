-- ===== src/Workspace/Quota.antt =====
-- The limits of an organization: packages/services/organization-quota.service.ts. A limit that is
-- missing, null or 0 is none. What the database counts of tasks and tokens, and the message that is
-- enqueued for the billing, are parameters.
use semantask.Prelude.{
  ℕ, leb, Bool, true, false, not, Option, none, some, String, str_eq, List, [], ◌∷◌, ◌++◌, zero,
  suc, present,
}
use semantask.Prelude.Collection.{find_first, update_first, count}
use semantask.Prelude.Result.{Result, ok, ◌>>=◌, ◌>>◌, guard}
use semantask.Workspace.{
  ServiceError, validation_error, failed, quota_exceeded, found, Membership, Directory,
}

pub record OrganizationQuota : Type 0 where
  pub organization_id : String
  pub max_tasks_per_day : Option ℕ
  pub max_tokens_per_month : Option ℕ
  pub max_members : Option ℕ

abbrev pub Quotas : Type 0
Quotas = List OrganizationQuota

-- `count >= max` throws, unless `max` is none or 0.
unfoldable pub below_limit : (used : ℕ) → (limit : Option ℕ) → Result ServiceError (Unit {0})
below_limit used none = ok tt
below_limit used (some zero) = ok tt
below_limit used (some (suc n)) = guard (not (leb (suc n) used)) (quota_exceeded used (suc n))

-- A change of one limit: missing leaves it, null removes it.
abbrev set_limit : Option (Option ℕ) → Option ℕ → Option ℕ
set_limit none old = old
set_limit (some new) old = new

abbrev is_zero_limit : Option (Option ℕ) → Bool
is_zero_limit (some (some zero)) = true
is_zero_limit _ = false

abbrev unlimited : (organization_id : String) → OrganizationQuota
unlimited organization_id = record {
  organization_id = organization_id;
  max_tasks_per_day = none;
  max_tokens_per_month = none;
  max_members = none;
}

module _ (object_id : String → Option String) where
  unfoldable pub get_organization_quota :
      Quotas → (organization_id : String) → Option OrganizationQuota
  get_organization_quota quotas organization_id = elim (object_id organization_id) [
    | none ↦ none
    | some o ↦ find_first (λ q. str_eq q.organization_id o) quotas
  ]

  -- The schema refuses a limit of members of 0; an upsert makes the document where there is none.
  unfoldable pub upsert_organization_quota :
      Quotas
      → (organization_id : String) → (tasks tokens members : Option (Option ℕ))
      → Result ServiceError Quotas
  upsert_organization_quota quotas organization_id tasks tokens members =
      found (object_id organization_id) (validation_error "Invalid organizationId") >>= λ o.
      guard (not (is_zero_limit members)) (failed "maxMembers is less than minimum allowed value")
      >> let change : OrganizationQuota → OrganizationQuota = λ q. record q {
        max_tasks_per_day = set_limit tasks q.max_tasks_per_day;
        max_tokens_per_month = set_limit tokens q.max_tokens_per_month;
        max_members = set_limit members q.max_members;
      } in
        elim (find_first (λ q. str_eq q.organization_id o) quotas) [
          | some q ↦ ok (update_first (λ q. str_eq q.organization_id o) change quotas)
          | none ↦ ok (quotas ++ (change (unlimited o) ∷ []))
        ]

  abbrev pub limit_of : Option OrganizationQuota → (OrganizationQuota → Option ℕ) → Option ℕ
  limit_of none field = none
  limit_of (some quota) field = field quota

  abbrev pub member_count : Directory → (organization_id : String) → ℕ
  member_count dir organization_id = elim (object_id organization_id) [
    | none ↦ 0
    | some o ↦ count (λ (m : Membership). str_eq m.organization_id o) dir.memberships
  ]

  unfoldable pub assert_member_quota_available :
      Directory → Quotas → (organization_id : String) → Result ServiceError (Unit {0})
  unfolding below_limit
  assert_member_quota_available dir quotas organization_id =
      below_limit (member_count dir organization_id)
        (limit_of (get_organization_quota quotas organization_id) (λ q. q.max_members))

  -- `tasks` since the start of the day, `tokens` since the start of the month; the message is
  -- enqueued where the call throws.
  unfoldable pub assert_execution_quotas :
      Quotas
      → (tasks tokens : String → ℕ) → (organization_id : Option String)
      → Result ServiceError (Unit {0})
  unfolding below_limit
  assert_execution_quotas quotas tasks tokens organization_id = elim (present organization_id) [
    | none ↦ ok tt
    | some id ↦
        let quota = get_organization_quota quotas id in
        below_limit (tasks id) (limit_of quota (λ q. q.max_tasks_per_day))
        >> below_limit (tokens id) (limit_of quota (λ q. q.max_tokens_per_month))
  ]
