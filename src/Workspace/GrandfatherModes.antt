-- ===== src/Workspace/GrandfatherModes.antt =====
-- The modes that `applyGrandfatherAutoExecute` leaves.
use semantask.Prelude.{
  ℕ, suc, ==_iff, Bool, true, false, not, ◌&&◌, ◌||◌, Option, none, some, or_else, String, str_eq,
  List, [], ◌∷◌, includes, some_of, is_some, is_present, All, if◌then◌else◌, ◌≡◌, inl, inr, refl,
  arith, Option-cases, eq_iff,
}
use semantask.Prelude.Text.{Text, has_text, is_filled}
use semantask.Prelude.Collection.{find_first-some_of}
use semantask.Prelude.Result.{ok, is_ok, Result-cases}
use semantask.Policy.Mode.{ExecutionMode, auto_execute, Environment, get_effective_execution_mode}
use semantask.Workspace.{Organization, Directory, get_organization_by_id}
use semantask.Workspace.Policy.{OrganizationPolicy, Policies, get_organization_policy}
use semantask.Workspace.PolicyWrite.{mode_of, empty_policy, max_attempts}
use semantask.Workspace.Grandfather.{
  GrandfatherApplyRow, GrandfatherApplyResult, auto_executed, swap_auto_execute, persist_loop,
  is_would_apply, persist_rows, set_policy, unique_organization_ids, grandfather_row, rows_of,
  all_good, apply_grandfather_auto_execute, grandfather_skip_status,
}

-- Nobody writes between a read and a write.
abbrev pub quiet :
    (id : String) → (attempt : ℕ) → Option OrganizationPolicy → Option OrganizationPolicy
quiet id attempt doc = doc

-- The document afterwards: one with a mode stays.
abbrev after_apply :
    (o : String) → (now : ℕ) → Option OrganizationPolicy → Option OrganizationPolicy
after_apply o now doc = elim (mode_of doc) [
  | some mode ↦ doc
  | none ↦ some (auto_executed now (or_else doc (empty_policy o)))
]

persist_loop-quiet :
    (id o : String) (now attempts attempt : ℕ) (doc : Option OrganizationPolicy)
    → ((persist_loop (quiet id) now o (suc attempts) attempt doc).0 ≡ after_apply o now doc)
      × (is_ok (persist_loop (quiet id) now o (suc attempts) attempt doc).1 ≡ true)
unfolding persist_loop swap_auto_execute
persist_loop-quiet id o now attempts attempt none = ground arith
persist_loop-quiet id o now attempts attempt (some doc) =
    ground (arith, ==_iff doc.version doc.version)

-- The mode of an organization afterwards.
abbrev pub grandfathered : (listed : Bool) → Option ExecutionMode → Option ExecutionMode
grandfathered listed (some mode) = some mode
grandfathered listed none = if listed then some auto_execute else none

module _ (object_id : String → Option String) where
  abbrev pub names : (o : String) → (id : String) → Bool
  names o id = elim (object_id id) [ none ↦ false | some k ↦ str_eq o k ]

  abbrev listed_row : (o : String) → GrandfatherApplyRow → Bool
  listed_row o row = is_would_apply row.status && names o row.organization_id

  persist_rows-quiet :
      (now : ℕ) (rows : List GrandfatherApplyRow) (policies : Policies)
      → All (λ row. is_some (object_id row.organization_id) ≡ true) rows
      → (o : String)
      → mode_of ((persist_rows object_id quiet now rows policies).0 o)
        ≡ grandfathered (some_of (listed_row o) rows) (mode_of (policies o))
  unfolding persist_rows
  persist_rows-quiet now [] policies v o = ground arith
  persist_rows-quiet now (row ∷ rows) policies v o =
      elim (Option-cases (object_id row.organization_id)) [
        | inl e ↦ ground arith
        | inr (x, e) ↦
            let written =
              persist_loop (quiet row.organization_id) now x max_attempts 0 (policies x) in
            ground (
              arith,
              persist_loop-quiet row.organization_id x now 4 0 (policies x),
              persist_rows-quiet now rows policies v.1 o,
              persist_rows-quiet now rows (set_policy policies x written.0) v.1 o,
              eq_iff o x,
            )
      ]

  persist_rows-ok :
      (now : ℕ) (rows : List GrandfatherApplyRow) (policies : Policies)
      → is_ok (persist_rows object_id quiet now rows policies).1 ≡ true
  unfolding persist_rows
  persist_rows-ok now [] policies = refl
  persist_rows-ok now (row ∷ rows) policies = elim (Option-cases (object_id row.organization_id)) [
    | inl e ↦ ground arith
    | inr (x, e) ↦
        let written = persist_loop (quiet row.organization_id) now x max_attempts 0 (policies x) in
        ground (
          arith,
          persist_loop-quiet row.organization_id x now 4 0 (policies x),
          persist_rows-ok now rows policies,
          persist_rows-ok now rows (set_policy policies x written.0),
        )
  ]

some_of-includes :
    (p : String → Bool) (id : String) (seen : List String)
    → includes id seen ≡ true
    → p id ≡ true
    → some_of p seen ≡ true
some_of-includes p id [] h e = ground arith
some_of-includes p id (s ∷ seen) h e = ground (arith, eq_iff s id, some_of-includes p id seen)

-- Leaving out the empty ids and the repeated ones loses no other.
unique-some_of :
    (p : String → Bool) (seen ids : List String)
    → (some_of p (unique_organization_ids seen ids) || some_of p seen)
      ≡ (some_of (λ id. is_present id && p id) ids || some_of p seen)
unfolding unique_organization_ids
unique-some_of p seen [] = refl
unique-some_of p seen (id ∷ ids) =
    ground (
      arith,
      unique-some_of p seen ids,
      unique-some_of p (id ∷ seen) ids,
      some_of-includes p id seen,
    )

module _ (object_id : String → Option String) (dir : Directory) (policies : Policies) where
  good-valid :
      (ids : List String)
      → all_good (rows_of object_id dir policies ids) ≡ true
      → All
          (λ row. is_some (object_id row.organization_id) ≡ true)
          (rows_of object_id dir policies ids)
  unfolding grandfather_row
  good-valid [] h = tt
  good-valid (id ∷ ids) h = ground (arith, good-valid ids)

  good-listed :
      (o : String) (ids : List String)
      → all_good (rows_of object_id dir policies ids) ≡ true
      → mode_of (policies o) ≡ none
      → some_of (listed_row object_id o) (rows_of object_id dir policies ids)
        ≡ some_of (names object_id o) ids
  unfolding grandfather_row get_organization_policy
  good-listed o [] h m = refl
  good-listed o (id ∷ ids) h m = elim (Option-cases (object_id id)) [
    | inl e ↦ ground arith
    | inr (x, e) ↦ ground (arith, eq_iff o x, good-listed o ids)
  ]

  apply-answer :
      (now : ℕ) (ids : List String) (dry_run : Bool)
      → let (after, answer) =
          apply_grandfather_auto_execute object_id quiet now dir policies ids dry_run in
        (is_ok answer ≡ true)
        × ((result : GrandfatherApplyResult)
            → answer ≡ ok result
            → ((result.ok && not dry_run) ≡ false → after ≡ policies)
              × ((result.ok && not dry_run) ≡ true
                  → (o : String)
                  → mode_of (after o)
                    ≡ grandfathered
                        (some_of (λ id. is_present id && names object_id o id) ids)
                        (mode_of (policies o))))
  unfolding apply_grandfather_auto_execute
  apply-answer now ids dry_run = (
    ground (
      arith,
      persist_rows-ok object_id now
          (rows_of object_id dir policies (unique_organization_ids [] ids)) policies,
    ),
    λ result h. (
      λ k. ground arith,
      λ k o.
          let unique = unique_organization_ids [] ids in
          let rows = rows_of object_id dir policies unique in
          let good : all_good rows ≡ true = ground arith in
          ground (
            arith,
            persist_rows-quiet object_id now rows policies (good-valid unique good) o,
            good-listed o unique good,
            unique-some_of (names object_id o) [] ids,
          ),
    ),
  )

module _ (object_id : String → Option String) (dir : Directory) where
  -- The id is valid and that of a stored organization.
  abbrev pub is_known : (id : String) → Bool
  is_known id = elim (object_id id) [
    | none ↦ false
    | some o ↦ some_of (λ (org : Organization). str_eq org.id o) dir.organizations
  ]

  abbrev pub all_known : List String → Bool
  all_known ids = not (some_of (λ id. is_present id && not (is_known id)) ids)

  rows-known :
      (policies : Policies) (ids : List String)
      → all_good (rows_of object_id dir policies ids) ≡ not (some_of (λ id. not (is_known id)) ids)
  unfolding grandfather_row grandfather_skip_status get_organization_by_id
  rows-known policies [] = refl
  rows-known policies (id ∷ ids) = elim (Option-cases (object_id id)) [
    | inl n ↦ ground arith
    | inr (o, e) ↦ ground (
      arith,
      rows-known policies ids,
      find_first-some_of (λ (org : Organization). str_eq org.id o) dir.organizations,
    )
  ]

  good-known :
      (policies : Policies) (ids : List String)
      → all_good (rows_of object_id dir policies (unique_organization_ids [] ids)) ≡ all_known ids
  good-known policies ids = ground (
    arith,
    rows-known policies (unique_organization_ids [] ids),
    unique-some_of (λ id. not (is_known id)) [] ids,
  )

  apply-ok :
      (policies : Policies) (now : ℕ) (ids : List String) (dry_run : Bool)
      (result : GrandfatherApplyResult)
      → (apply_grandfather_auto_execute object_id quiet now dir policies ids dry_run).1 ≡ ok result
      → result.ok ≡ all_known ids
  unfolding apply_grandfather_auto_execute
  apply-ok policies now ids dry_run result h = ground (arith, good-known policies ids)

  -- Where nobody writes in between, the call ends with an answer, which is good exactly when every id
  -- that is not empty is valid and that of a stored organization. If one is not, or the run is dry,
  -- nothing is written. Otherwise every organization that is named and has no mode has
  -- `auto_execute`, and the mode of every other stays.
  pub apply_grandfather_lem :
      (policies : Policies) (now : ℕ) (ids : List String) (dry_run : Bool)
      → let (after, answer) =
          apply_grandfather_auto_execute object_id quiet now dir policies ids dry_run in
        ((result : GrandfatherApplyResult) × (answer ≡ ok result) × (result.ok ≡ all_known ids))
        × ((all_known ids && not dry_run) ≡ false → after ≡ policies)
        × ((all_known ids && not dry_run) ≡ true
            → (o : String)
            → mode_of (after o)
              ≡ grandfathered
                  (some_of (λ id. is_present id && names object_id o id) ids)
                  (mode_of (policies o)))
  apply_grandfather_lem policies now ids dry_run =
      let (after, answer) =
        apply_grandfather_auto_execute object_id quiet now dir policies ids dry_run in
      let (fine, told) = apply-answer object_id dir policies now ids dry_run in
      elim (Result-cases answer) [
        | inl (e, n) ↦ absurd (ground arith)
        | inr (result, n) ↦
            let good = apply-ok policies now ids dry_run result n in
            let (idle, done) = told result n in
            ((result, n, good), λ k. idle (ground arith), λ k o. done (ground arith) o)
      ]

cleared_list :
    (env : Environment) (organization_id : Text) (mode : Option ExecutionMode)
    → is_filled organization_id ≡ true
    → has_text organization_id env.grandfather_auto_tenants ≡ true
    → get_effective_execution_mode
        (record env { grandfather_auto_tenants = [] })
        (some organization_id)
        (grandfathered true mode)
      ≡ get_effective_execution_mode env (some organization_id) mode
unfolding get_effective_execution_mode
cleared_list env organization_id none f l = ground arith
cleared_list env organization_id (some mode) f l = refl

-- Where nobody writes in between, after a run that is not dry and has no bad id, the list of the
-- environment can be cleared: an organization that is in it and was named keeps its effective mode.
pub grandfather-effective :
    (object_id : String → Option String) (dir : Directory) (policies : Policies)
    → (now : ℕ) (ids : List String) (result : GrandfatherApplyResult)
    → (apply_grandfather_auto_execute object_id quiet now dir policies ids false).1 ≡ ok result
    → result.ok ≡ true
    → (o : String) → some_of (λ id. is_present id && names object_id o id) ids ≡ true
    → (env : Environment) (organization_id : Text) → is_filled organization_id ≡ true
    → has_text organization_id env.grandfather_auto_tenants ≡ true
    → get_effective_execution_mode
        (record env { grandfather_auto_tenants = [] })
        (some organization_id)
        (mode_of ((apply_grandfather_auto_execute object_id quiet now dir policies ids false).0 o))
      ≡ get_effective_execution_mode env (some organization_id) (mode_of (policies o))
grandfather-effective object_id dir policies now ids result h k o n env t f l =
    rw (((apply-answer object_id dir policies now ids false).1 result h).1 (ground arith) o, n)
      (cleared_list env t (mode_of (policies o)) f l)
