-- ===== src/Workspace/PolicyVersions.antt =====
-- What a versioned write of a policy does beside other writers.
use semantask.Prelude.{
  ℕ, zero, suc, Bool, ◌+◌, ◌<◌, ==_iff, true, Option, none, some, or_else, String, List, ◌≡◌, ◌≢◌,
  inl, inr, refl, sym, arith, Option-cases, is_some,
}
use semantask.Prelude.Text.{Text}
use semantask.Prelude.Result.{ok, is_ok, Result-cases}
use semantask.Policy.Confidence.{Stored}
use semantask.Workspace.{Directory, assert_can_manage_members}
use semantask.Workspace.Policy.{OrganizationPolicy}
use semantask.Workspace.PolicyWrite.{
  UpsertOrganizationPolicyInput, mode_of, mode_changed, thresholds_field, updated_policy,
  empty_policy, compare_and_swap, upsert_loop, upsert_organization_policy, max_attempts,
}

compare_and_swap-base :
    (o : String) (read stored : Option OrganizationPolicy)
    → (change : OrganizationPolicy → OrganizationPolicy) (doc : OrganizationPolicy)
    → compare_and_swap o read stored change ≡ some doc
    → (doc ≡ change (or_else stored (empty_policy o)))
      × ((p : OrganizationPolicy)
          → read ≡ some p
          → (stored ≢ none) × ((or_else stored (empty_policy o)).version ≡ p.version))
unfolding compare_and_swap
compare_and_swap-base o none none change doc h = ground arith
compare_and_swap-base o none (some s) change doc h = ground arith
compare_and_swap-base o (some p) none change doc h = ground arith
compare_and_swap-base o (some p) (some s) change doc h = ground arith

zero_plus : (k : ℕ) → 0 + k ≡ k
zero_plus k = ground arith

ℕ-step : (a k : ℕ) → a + suc k ≡ suc a + k
ℕ-step a k = ground arith

-- Where nothing comes between, the swap succeeds.
compare_and_swap-quiet :
    (o : String) (read : Option OrganizationPolicy)
    → (change : OrganizationPolicy → OrganizationPolicy)
    → is_some (compare_and_swap o read read change) ≡ true
unfolding compare_and_swap
compare_and_swap-quiet o none change = refl
compare_and_swap-quiet o (some p) change = ground (arith, ==_iff p.version p.version)

module _ (others : (attempt : ℕ) → Option OrganizationPolicy → Option OrganizationPolicy)
    (clock : (attempt : ℕ) → ℕ) where
  version-updated_policy :
      (input : UpsertOrganizationPolicyInput)
      → (thresholds : Option (Option (List (Text × Stored)))) → (actor : Option String)
      → (changed : Bool) → (now : ℕ) → (doc : OrganizationPolicy)
      → (updated_policy input thresholds actor changed now doc).version ≡ suc doc.version
  unfolding updated_policy
  version-updated_policy input thresholds actor changed now doc = refl

  -- In some attempt the document became the update of what stood in the collection, with the next
  -- version; it was of the version that was read, unless nothing was read.
  abbrev pub Written :
      (o : String)
      → (actor : Option String) → UpsertOrganizationPolicyInput
      → OrganizationPolicy
      → Type 0
  Written o actor input doc =
      (attempt : ℕ) × (read : Option OrganizationPolicy) × (thresholds : Option
        (Option (List (Text × Stored))))
      × (thresholds_field input.confidence_thresholds ≡ ok thresholds)
      × let base = or_else (others attempt read) (empty_policy o) in
        (doc
          ≡ updated_policy input thresholds actor (mode_changed (mode_of read) input.execution_mode)
              (clock attempt) base)
        × (doc.version ≡ suc base.version)
        × ((p : OrganizationPolicy)
            → read ≡ some p
            → (others attempt read ≢ none) × (base.version ≡ p.version))

  upsert_loop-Written :
      (o : String) (actor : Option String) (input : UpsertOrganizationPolicyInput)
      → (attempts attempt : ℕ) (read after : Option OrganizationPolicy) (doc : OrganizationPolicy)
      → upsert_loop others clock o actor input attempts attempt read ≡ (after, ok doc)
      → (after ≡ some doc) × Written o actor input doc
  unfolding upsert_loop
  upsert_loop-Written o actor input zero attempt read after doc h = ground arith
  upsert_loop-Written o actor input (suc attempts) attempt read after doc h =
      elim (Result-cases (thresholds_field input.confidence_thresholds)) [
        | inl (e, t) ↦ ground arith
        | inr (ts, t) ↦
            let changed = mode_changed (mode_of read) input.execution_mode in
            let change = updated_policy input ts actor changed (clock attempt) in
            elim (Option-cases (compare_and_swap o read (others attempt read) change)) [
              | inl n ↦
                  upsert_loop-Written o actor input attempts (suc attempt) (others attempt read)
                    after doc (ground arith)
              | inr (d, w) ↦
                  let (b, v) = compare_and_swap-base o read (others attempt read) change d w in
                  let base = or_else (others attempt read) (empty_policy o) in
                  let next = version-updated_policy input ts actor changed (clock attempt) base in
                  let same : doc ≡ change base = ground arith in
                  (ground arith, (attempt, read, ts, t, (same, rw same next, v)))
            ]
      ]

  -- A write that succeeds was made by a manager and stores the update of what stood in the collection
  -- at that moment, with the next version, and only where that was of the version that was read; the
  -- first write of an organization reads none.
  pub upsert-Written :
      (object_id : String → Option String) (dir : Directory)
      → (input : UpsertOrganizationPolicyInput) (stored after : Option OrganizationPolicy)
      → (doc : OrganizationPolicy)
      → upsert_organization_policy others clock object_id dir stored input ≡ (after, ok doc)
      → (is_ok (assert_can_manage_members object_id dir input.organization_id input.actor_user_id)
          ≡ true)
        × (after ≡ some doc)
        × ((o : String) × (object_id input.organization_id ≡ some o)
            × Written o (object_id input.actor_user_id) input doc)
  unfolding upsert_organization_policy
  upsert-Written object_id dir input stored after doc h =
      elim (Result-cases
        (assert_can_manage_members object_id dir input.organization_id input.actor_user_id)) [
          | inl (e, a) ↦ ground arith
          | inr (m, a) ↦ elim (Option-cases (object_id input.organization_id)) [
            | inl n ↦ ground arith
            | inr (o, i) ↦
                let (k, w) =
                  upsert_loop-Written o (object_id input.actor_user_id) input max_attempts 0 stored
                    after doc (ground arith) in
                (ground arith, k, (o, i, w))
          ]
        ]

  upsert_loop-quiet :
      (o : String) (actor : Option String) (input : UpsertOrganizationPolicyInput)
      → (ts : Option (Option (List (Text × Stored))))
      → thresholds_field input.confidence_thresholds ≡ ok ts
      → (attempts attempt k : ℕ) (read : Option OrganizationPolicy) → k < attempts
      → ((d : Option OrganizationPolicy) → others (attempt + k) d ≡ d)
      → is_ok (upsert_loop others clock o actor input attempts attempt read).1 ≡ true
  unfolding upsert_loop
  upsert_loop-quiet o actor input ts t zero attempt k read l q = ground arith
  upsert_loop-quiet o actor input ts t (suc attempts) attempt zero read l q =
      let changed = mode_changed (mode_of read) input.execution_mode in
      ground (
        arith,
        q read,
        compare_and_swap-quiet o read (updated_policy input ts actor changed (clock attempt)),
      )
  upsert_loop-quiet o actor input ts t (suc attempts) attempt (suc k) read l q = ground (
    arith,
    upsert_loop-quiet o actor input ts t attempts (suc attempt) k (others attempt read)
        (ground arith) (λ d. rw (sym (ℕ-step attempt k)) (q d)),
  )

  -- A manager's write of a known organization and of valid thresholds succeeds where no other writer
  -- comes between the read and the write of one of its five attempts.
  pub upsert-quiet :
      (object_id : String → Option String) (dir : Directory)
      → (input : UpsertOrganizationPolicyInput) (stored : Option OrganizationPolicy)
      → (ts : Option (Option (List (Text × Stored)))) (o : String) (k : ℕ)
      → is_ok (assert_can_manage_members object_id dir input.organization_id input.actor_user_id)
        ≡ true
      → object_id input.organization_id ≡ some o
      → thresholds_field input.confidence_thresholds ≡ ok ts
      → k < max_attempts
      → ((d : Option OrganizationPolicy) → others k d ≡ d)
      → is_ok (upsert_organization_policy others clock object_id dir stored input).1 ≡ true
  unfolding upsert_organization_policy
  upsert-quiet object_id dir input stored ts o k m i t l q = ground (
    arith,
    upsert_loop-quiet o (object_id input.actor_user_id) input ts t max_attempts 0 k stored l
        (λ d. rw (zero_plus k) (q d)),
  )
