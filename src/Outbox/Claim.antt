-- ===== src/Outbox/Claim.antt =====
-- `buildOutboxClaimFilter` and `claimOutboxEvents`.
pub mod Kept
pub mod Due
pub mod Exclusive
use semantask.Prelude.{
  ℕ, zero, suc, ◌+◌, ◌-◌, ◌*◌, ◌%◌, leb, ltb, Bool, true, false, not, ◌&&◌, ◌||◌, ◌==◌, List, [],
  ◌∷◌, length, Option, none, some, String, str_eq, if◌then◌else◌, ℤ, pos, negsuc, increment,
  remainder, is_nat,
}
use semantask.Outbox.{
  OutboxEvent, OutboxStatus, pending, processing, failed, update_event, by_cutoff,
}

pub record OutboxPartitionConfig : Type 0 where
  pub count : ℕ
  pub id : ℕ

-- The `$or` of the filter.
unfoldable pub is_claimable : (now stale_processing_cutoff : ℕ) → OutboxEvent → Bool
is_claimable now cutoff e = elim e.status [
  | pending ↦ leb e.available_at now
  | failed ↦ leb e.available_at now
  | processing ↦ by_cutoff cutoff e.locked_at
  | _ ↦ false
]

-- The collection is partitioned by the database's hash of an event's id.
module _ (hashed_index_key : String → ℤ) where
  unfoldable pub is_in_partition : OutboxPartitionConfig → OutboxEvent → Bool
  is_in_partition partition e =
      leb partition.count 1
      || is_nat (remainder (hashed_index_key e.id) partition.count) partition.id

  -- `buildOutboxClaimFilter`
  unfoldable pub outbox_claim_filter :
      (now stale_processing_cutoff : ℕ) → OutboxPartitionConfig → OutboxEvent → Bool
  outbox_claim_filter now cutoff partition e =
      is_claimable now cutoff e && is_in_partition partition e

-- The first of the matching events that were created first. The database may take any of those
-- with the same time; the order of the list stands for its choice.
unfoldable pub oldest : (OutboxEvent → Bool) → List OutboxEvent → Option OutboxEvent
oldest matches [] = none
oldest matches (e ∷ es) =
    let rest = oldest matches es in
    if matches e
    then elim rest [
      | none ↦ some e
      | some f ↦ if ltb f.created_at e.created_at then some f else some e
    ]
    else rest

unfoldable pub claim_event : (worker_id : String) → (now : ℕ) → OutboxEvent → OutboxEvent
claim_event worker_id now e = record e {
  status = processing;
  locked_by = some worker_id;
  locked_at = some now;
  attempts = increment e.attempts;
  updated_at = now;
}

-- The loop of `findOneAndUpdate`: each step claims the oldest event that the filter wants, and
-- stops where there is none. `clock` is the time at the step that has so many left behind it.
unfoldable pub claim_loop :
    (OutboxEvent → Bool)
    → (worker_id : String) → (clock : ℕ → ℕ) → (limit : ℕ) → List OutboxEvent
    → List OutboxEvent × List OutboxEvent
claim_loop filter worker_id clock zero events = (events, [])
claim_loop filter worker_id clock (suc limit) events = elim (oldest filter events) [
  | none ↦ (events, [])
  | some e ↦
      let (end, more) =
        claim_loop filter worker_id clock limit
          (update_event filter (claim_event worker_id (clock limit)) e.id events) in
      (end, claim_event worker_id (clock limit) e ∷ more)
]

abbrev pub stale_ms : ℕ
stale_ms = 5 * 60 * 1000

-- The events afterwards and those that were claimed.
unfoldable pub claim_outbox_events :
    (hashed_index_key : String → ℤ)
    → OutboxPartitionConfig
    → (worker_id : String) → (now : ℕ) → (clock : ℕ → ℕ) → (limit : ℕ) → List OutboxEvent
    → List OutboxEvent × List OutboxEvent
claim_outbox_events hashed_index_key partition worker_id now clock limit events =
    claim_loop (outbox_claim_filter hashed_index_key now (now - stale_ms) partition) worker_id clock
      limit events
