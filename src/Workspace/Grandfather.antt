-- ===== src/Workspace/Grandfather.antt =====
-- `applyGrandfatherAutoExecute` of packages/services/organization-policy.service.ts. The ids are
-- given trimmed. What other writers make of a document between the read and the write of an attempt
-- is a parameter.
use semantask.Prelude.{
  ℕ, zero, suc, ◌==◌, Bool, true, false, not, ◌&&◌, Option, none, some, String, str_eq, List, [],
  ◌∷◌, includes, is_present, if◌then◌else◌,
}
use semantask.Prelude.Result.{Result, ok, err}
use semantask.Policy.Mode.{ExecutionMode, suggest_only, require_approval, auto_execute}
use semantask.Workspace.{ServiceError, failed, Directory, get_organization_by_id}
use semantask.Workspace.Policy.{OrganizationPolicy, Policies, get_organization_policy}
use semantask.Workspace.PolicyWrite.{mode_of, empty_policy, max_attempts}

pub data GrandfatherApplyStatus : Type 0 where
  applied would_apply already_auto_execute already_explicit invalid_id missing_org :
      GrandfatherApplyStatus

pub record GrandfatherApplyRow : Type 0 where
  pub organization_id : String
  pub status : GrandfatherApplyStatus
  pub previous_mode : Option ExecutionMode

pub record GrandfatherApplyResult : Type 0 where
  pub ok : Bool
  pub dry_run : Bool
  pub rows : List GrandfatherApplyRow

-- The ids, without the empty ones and those seen before.
unfoldable pub unique_organization_ids : (seen : List String) → List String → List String
unique_organization_ids seen [] = []
unique_organization_ids seen (id ∷ ids) = elim (is_present id && not (includes id seen)) [
  | true ↦ id ∷ unique_organization_ids (id ∷ seen) ids
  | false ↦ unique_organization_ids seen ids
]

unfoldable pub grandfather_skip_status : ExecutionMode → GrandfatherApplyStatus
grandfather_skip_status auto_execute = already_auto_execute
grandfather_skip_status suggest_only = already_explicit
grandfather_skip_status require_approval = already_explicit

abbrev pub auto_executed : (now : ℕ) → OrganizationPolicy → OrganizationPolicy
auto_executed now doc = record doc {
  version = suc doc.version;
  execution_mode = some auto_execute;
  execution_mode_updated_at = some now;
}

-- `findOneAndUpdate` with the mode null in the filter. Where nothing was read and a document with a
-- mode came between, the insertion hits the unique index.
unfoldable pub swap_auto_execute :
    (organization_id : String)
    → (previous stored : Option OrganizationPolicy) → (now : ℕ) → Option OrganizationPolicy
swap_auto_execute o none none now = some (auto_executed now (empty_policy o))
swap_auto_execute o none (some doc) now = elim doc.execution_mode [
  | none ↦ some (auto_executed now doc)
  | some mode ↦ none
]
swap_auto_execute o (some previous) none now = none
swap_auto_execute o (some previous) (some doc) now = elim doc.execution_mode [
  | none ↦ if doc.version == previous.version then some (auto_executed now doc) else none
  | some mode ↦ none
]

module _ (others : (attempt : ℕ) → Option OrganizationPolicy → Option OrganizationPolicy)
    (now : ℕ) where
  unfoldable pub persist_loop :
      (o : String)
      → (attempts attempt : ℕ) → Option OrganizationPolicy
      → Option OrganizationPolicy × Result ServiceError GrandfatherApplyStatus
  unfolding swap_auto_execute grandfather_skip_status
  persist_loop o zero attempt previous =
      (previous, err (failed "Failed to persist grandfather auto_execute"))
  persist_loop o (suc attempts) attempt previous =
      let retry = persist_loop o attempts (suc attempt) (others attempt previous) in
      elim (mode_of previous) [
        | some mode ↦ (previous, ok (grandfather_skip_status mode))
        | none ↦ elim (swap_auto_execute o previous (others attempt previous) now) [
          | none ↦ retry
          | some doc ↦ (some doc, ok applied)
        ]
      ]

abbrev pub is_would_apply : GrandfatherApplyStatus → Bool
is_would_apply would_apply = true
is_would_apply _ = false

abbrev pub is_bad : GrandfatherApplyStatus → Bool
is_bad invalid_id = true
is_bad missing_org = true
is_bad _ = false

abbrev pub all_good : List GrandfatherApplyRow → Bool
all_good [] = true
all_good (row ∷ rows) = not (is_bad row.status) && all_good rows

abbrev pub set_policy : Policies → String → Option OrganizationPolicy → Policies
set_policy policies o doc = λ k. if str_eq k o then doc else policies k

module _ (object_id : String → Option String) where
  unfoldable pub grandfather_row :
      Directory → Policies → (organization_id : String) → GrandfatherApplyRow
  unfolding grandfather_skip_status
  grandfather_row dir policies id = elim (object_id id) [
    | none ↦ record { organization_id = id; status = invalid_id; previous_mode = none }
    | some o ↦ elim (get_organization_by_id object_id dir id) [
      | none ↦ record { organization_id = id; status = missing_org; previous_mode = none }
      | some org ↦ elim (mode_of (get_organization_policy object_id policies id)) [
        | none ↦ record { organization_id = id; status = would_apply; previous_mode = none }
        | some mode ↦ record {
          organization_id = id;
          status = grandfather_skip_status mode;
          previous_mode = some mode;
        }
      ]
    ]
  ]

  abbrev pub rows_of : Directory → Policies → List String → List GrandfatherApplyRow
  rows_of dir policies [] = []
  rows_of dir policies (id ∷ ids) = grandfather_row dir policies id ∷ rows_of dir policies ids

  -- The second loop: the writes made before one fails remain.
  unfoldable pub persist_rows :
      (others : (id : String)
        → (attempt : ℕ) → Option OrganizationPolicy
        → Option OrganizationPolicy)
      → (now : ℕ) → List GrandfatherApplyRow
      → Policies
      → Policies × Result ServiceError (List GrandfatherApplyRow)
  unfolding persist_loop
  persist_rows others now [] policies = (policies, ok [])
  persist_rows others now (row ∷ rows) policies = elim (object_id row.organization_id) [
    | none ↦ (policies, ok (row ∷ rows))
    | some o ↦
        let written = persist_loop (others row.organization_id) now o max_attempts 0 (policies o) in
        let next =
          if is_would_apply row.status then set_policy policies o written.0 else policies in
        let rest = persist_rows others now rows next in
        elim (is_would_apply row.status) [
          | false ↦ (rest.0, elim rest.1 [ err e ↦ err e | ok done ↦ ok (row ∷ done) ])
          | true ↦ elim written.1 [
            | err e ↦ (next, err e)
            | ok status ↦ (
              rest.0,
              elim rest.1 [ err e ↦ err e | ok done ↦ ok (record row { status = status } ∷ done) ],
            )
          ]
        ]
  ]

  unfoldable pub apply_grandfather_auto_execute :
      (others : (id : String)
        → (attempt : ℕ) → Option OrganizationPolicy
        → Option OrganizationPolicy)
      → (now : ℕ) → Directory
      → Policies
      → (organization_ids : List String) → (dry_run : Bool)
      → Policies × Result ServiceError GrandfatherApplyResult
  unfolding persist_rows grandfather_row unique_organization_ids
  apply_grandfather_auto_execute others now dir policies ids dry_run =
      let rows = rows_of dir policies (unique_organization_ids [] ids) in
      if not (all_good rows && not dry_run)
      then (policies, ok (record { ok = all_good rows; dry_run = dry_run; rows = rows }))
      else let done = persist_rows others now rows policies in
        (
          done.0,
          elim done.1 [
            | err e ↦ err e
            | ok rows' ↦ ok (record { ok = true; dry_run = false; rows = rows' })
          ],
        )
