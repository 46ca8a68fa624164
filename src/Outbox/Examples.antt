-- ===== src/Outbox/Examples.antt =====
-- The theorems on the outbox at concrete events.
use semantask.Prelude.{
  ℕ, ◌-◌, ◌≤◌, ◌<◌, false, List, [], ◌∷◌, length, none, some, String, ℤ, pos, negsuc, All, here,
  str_eq, Bool-cases, inl, inr, sym, eq_iff, ◌+◌, there, ◌≡◌, refl, arith,
}
use semantask.Prelude.Result.{Result, ok}
use semantask.Prelude.Text.{codes}
use semantask.Prelude.Value.{no_properties}
use semantask.Outbox.{OutboxEvent, message_created, pending, processing, failed, dead_letter}
use semantask.Outbox.Claim.{
  OutboxPartitionConfig, outbox_claim_filter, stale_ms, claim_outbox_events,
}
use semantask.Outbox.Claim.Due.{ClaimedFrom, wanted_of, claim_outbox_events_lem}
use semantask.Outbox.Claim.Kept.{Stored, is_of}
use semantask.Prelude.Collection.{count}
use semantask.Outbox.Claim.Exclusive.{ClaimCall, claim_calls, locked-claim_calls}
use semantask.Outbox.Worker.{ProcessedMarkers, execution_lease_busy, other_error, settle_failure}
use semantask.Outbox.Worker.Once.{settle_failure_lem}

abbrev event : OutboxEvent
event = record {
  id = "e1";
  topic = message_created;
  dedupe_key = "k1";
  payload = no_properties;
  status = pending;
  attempts = pos 0;
  available_at = 100;
  locked_by = none;
  locked_at = none;
  processed_at = none;
  dead_lettered_at = none;
  last_error = none;
  created_at = 100;
  updated_at = 100;
}

abbrev locked : OutboxEvent
locked = record event {
  id = "e2";
  status = processing;
  locked_by = some "worker-1";
  locked_at = some 900000;
  attempts = pos 1;
}

abbrev events : List OutboxEvent
events = event ∷ locked ∷ []

-- A hash as the database may give it.
abbrev hash : String → ℤ
hash s = negsuc 2

abbrev whole : OutboxPartitionConfig
whole = record { count = 1; id = 0 }

abbrev clock : ℕ → ℕ
clock i = 1000000

unique : (id : String) → count (is_of id) events ≤ 1
unique id = elim (Bool-cases (str_eq "e1" id)) [
  | inl e ↦ rw (sym ((eq_iff "e1" id).0 e)) (ground arith)
  | inr e ↦ ground arith
]

claim_outbox_events_lem_example :
    let (end, cs) = claim_outbox_events hash whole "worker-2" 1000000 clock 10 events in
    let wanted = outbox_claim_filter hash 1000000 (1000000 - stale_ms) whole in
    All (ClaimedFrom wanted "worker-2" 1000000 events) cs
    × (length cs ≤ 10)
    × (length cs < 10 → All (λ f. wanted f ≡ false) end)
    × All (λ c. Stored c end) cs
    × ((id : String)
        → count (wanted_of wanted id) end + count (is_of id) cs
          ≡ count (wanted_of wanted id) events)
claim_outbox_events_lem_example =
    claim_outbox_events_lem hash whole "worker-2" 1000000 clock 10 events (omega arith)
      (λ i. omega arith) unique

abbrev calls : List ClaimCall
calls =
    record { partition = whole; worker_id = "worker-2"; now = 1000000; clock = clock; limit = 10 }
    ∷ []

locked-claim_calls_example : Stored locked (claim_calls hash calls events)
locked-claim_calls_example =
    locked-claim_calls hash locked 900000 calls events refl refl (omega arith, tt)
      (there (here refl))

abbrev markers : ProcessedMarkers
markers = record { keys = []; get_fails = false; set_fails = false }

abbrev done : Result String (Unit {0})
done = ok tt

settle_failure_lem_example :
    let thrown = settle_failure 5 0 0 "e2" 1 (other_error (codes "no")) 1000000 (locked ∷ []) in
    let busy =
      settle_failure 5 0 0 "e2" 1 (execution_lease_busy (codes "no")) 1000000 (locked ∷ []) in
    (5 ≤ 1
      → (f : OutboxEvent) × (thrown ≡ f ∷ []) × (f.status ≡ dead_letter) × (f.locked_by ≡ none))
    × (1 < 5
        → (f : OutboxEvent) × (thrown ≡ f ∷ [])
          × (f.status ≡ failed)
          × (f.attempts ≡ pos 1)
          × (1000250 ≤ f.available_at))
    × ((f : OutboxEvent) × (busy ≡ f ∷ []) × (f.status ≡ failed) × (f.attempts ≡ pos 0))
settle_failure_lem_example = settle_failure_lem 5 0 0 0 (codes "no") 1000000 locked [] refl
