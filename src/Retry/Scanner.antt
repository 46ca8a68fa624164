-- ===== src/Retry/Scanner.antt =====
-- The scanner of due retries: apps/task-worker/services/retry-scheduler.ts. The task's collection is
-- a list, whose order stands for the choice of the database among tasks due at the same time. Whether
-- the database has transactions, what becomes of the enqueuing for a task, and whether the database
-- takes the reversal of its claim, whose failure is only logged, are parameters. The payload, the log
-- and the shadow state (Execution.RetryShadow) are left out.
use semantask.Prelude.{
  ℕ, zero, suc, ltb, leb, ◌==◌, Bool, true, false, ◌&&◌, Option, none, some, or_else, String,
  str_eq, List, [], ◌∷◌, ◌++◌, some_of, if◌then◌else◌,
}
use semantask.Prelude.Collection.{update_first}
use semantask.Execution.Kind.{TaskLifecycleState, lifecycle_index}

pub record RetryCandidate : Type 0 where
  pub id : String
  pub lifecycle_state : TaskLifecycleState
  pub next_retry_at : Option ℕ
  pub lease_owner : Option String
  pub lease_expires_at : Option ℕ
  pub last_retry_at : Option ℕ
  pub retry_count : ℕ

-- The dedupe key of an event and that of an action are made of the task's id and the count of its
-- retries; `events` holds the keys of the outbox.
pub record RetryStore : Type 0 where
  pub tasks : List RetryCandidate
  pub events : List (String × ℕ)

-- What becomes of the enqueuing: it works, it fails before the event is stored, or after.
pub data Enqueuing : Type 0 where
  works fails_before fails_after : Enqueuing

abbrev pub is_retry_scheduled : TaskLifecycleState → Bool
is_retry_scheduled state =
    lifecycle_index state == lifecycle_index TaskLifecycleState.retry_scheduled

abbrev pub is_ready : TaskLifecycleState → Bool
is_ready state = lifecycle_index state == lifecycle_index TaskLifecycleState.ready

abbrev pub is_free : (now : ℕ) → RetryCandidate → Bool
is_free now t = elim t.lease_owner [
  | none ↦ true
  | some owner ↦ elim t.lease_expires_at [ none ↦ false | some at ↦ ltb at now ]
]

-- `RETRY_CANDIDATE_FILTER`
unfoldable pub is_retry_candidate : (now : ℕ) → RetryCandidate → Bool
is_retry_candidate now t =
    is_retry_scheduled t.lifecycle_state
    && (elim t.next_retry_at [ none ↦ false | some at ↦ leb at now ] && is_free now t)

abbrev retry_time : RetryCandidate → ℕ
retry_time t = or_else t.next_retry_at 0

-- The candidate that has been due for longest.
unfoldable pub oldest_candidate : (now : ℕ) → List RetryCandidate → Option RetryCandidate
unfolding is_retry_candidate
oldest_candidate now [] = none
oldest_candidate now (t ∷ ts) =
    let rest = oldest_candidate now ts in
    if is_retry_candidate now t
    then elim rest [
      | none ↦ some t
      | some r ↦ if ltb (retry_time r) (retry_time t) then some r else some t
    ]
    else rest

abbrev pub has_id : (id : String) → RetryCandidate → Bool
has_id id t = str_eq t.id id

abbrev pub claimed : (now : ℕ) → RetryCandidate → RetryCandidate
claimed now t = record t { lifecycle_state = TaskLifecycleState.ready; last_retry_at = some now }

-- `revertRetryClaim` finds the task by its id, if it is still ready.
abbrev pub reverted : RetryCandidate → RetryCandidate
reverted t =
    if is_ready t.lifecycle_state
    then record t { lifecycle_state = TaskLifecycleState.retry_scheduled }
    else t

abbrev pub has_key : (id : String) → (retry_count : ℕ) → String × ℕ → Bool
has_key id retry_count key = str_eq key.0 id && key.1 == retry_count

-- `enqueueRetryForCandidate`: the keys afterwards, and whether it returned. The outbox refuses a key
-- that it has.
unfoldable pub enqueue_retry_for_candidate :
    (Enqueuing) → List (String × ℕ) → RetryCandidate → List (String × ℕ) × Bool
enqueue_retry_for_candidate outcome events t =
    if some_of (has_key t.id t.retry_count) events then (events, false) else elim outcome [
      | works ↦ (events ++ ((t.id, t.retry_count) ∷ []), true)
      | fails_before ↦ (events, false)
      | fails_after ↦ (events ++ ((t.id, t.retry_count) ∷ []), false)
    ]

-- What a call made: `none` where it threw, or else the number of events.
module _ (transactions : Bool) (outcome : (id : String) → Enqueuing)
    (reverts : (id : String) → Bool) (now : ℕ) where
  unfoldable pub promote_and_enqueue_retry : RetryStore → RetryStore × Option ℕ
  unfolding oldest_candidate enqueue_retry_for_candidate
  promote_and_enqueue_retry store = elim (oldest_candidate now store.tasks) [
    | none ↦ (store, some 0)
    | some c ↦
        let tasks = update_first (has_id c.id) (claimed now) store.tasks in
        let enqueued = enqueue_retry_for_candidate (outcome c.id) store.events c in
        if enqueued.1
        then (record store { tasks = tasks; events = enqueued.0 }, some 1)
        else if transactions
        then (store, none)
        else (
          record store {
            tasks = if reverts c.id then update_first (has_id c.id) reverted tasks else tasks;
            events = enqueued.0;
          },
          none,
        )
  ]

  -- `batch` are left to claim, `total` were enqueued.
  unfoldable pub scan_loop : (batch total : ℕ) → RetryStore → RetryStore × Option ℕ
  unfolding promote_and_enqueue_retry
  scan_loop zero total store = (store, some total)
  scan_loop (suc batch) total store =
      let promoted = promote_and_enqueue_retry store in
      let rest = scan_loop batch (suc total) promoted.0 in
      elim promoted.1 [
        | none ↦ (promoted.0, none)
        | some zero ↦ (promoted.0, some total)
        | some (suc n) ↦ rest
      ]

  unfoldable pub run_retry_scanner_once : (batch_size : ℕ) → RetryStore → RetryStore × Option ℕ
  unfolding scan_loop
  run_retry_scanner_once batch_size store = scan_loop batch_size 0 store
