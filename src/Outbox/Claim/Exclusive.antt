-- ===== src/Outbox/Claim/Exclusive.antt =====
-- An event that a worker holds is not taken from it before its lock is stale.
use semantask.Prelude.{ℕ, ◌-◌, ◌<◌, false, List, [], ◌∷◌, some, String, ℤ, ◌≡◌, arith, All}
use semantask.Outbox.{OutboxEvent, processing}
use semantask.Outbox.Claim.{
  OutboxPartitionConfig, is_claimable, outbox_claim_filter, stale_ms, claim_outbox_events,
}
use semantask.Outbox.Claim.Kept.{Stored, kept-loop}

-- A call of some worker.
pub record ClaimCall : Type 0 where
  pub partition : OutboxPartitionConfig
  pub worker_id : String
  pub now : ℕ
  pub clock : ℕ → ℕ
  pub limit : ℕ

unfoldable pub claim_calls : (String → ℤ) → List ClaimCall → List OutboxEvent → List OutboxEvent
claim_calls hash [] es = es
claim_calls hash (c ∷ calls) es =
    claim_calls hash calls
      (claim_outbox_events hash c.partition c.worker_id c.now c.clock c.limit es).0

locked-filter :
    (hash : String → ℤ) (p : OutboxPartitionConfig) (now at : ℕ) (e : OutboxEvent)
    → e.status ≡ processing
    → e.locked_at ≡ some at
    → now - stale_ms < at
    → outbox_claim_filter hash now (now - stale_ms) p e ≡ false
unfolding outbox_claim_filter is_claimable
locked-filter hash p now at e s l lt = ground arith

-- While an event's lock is younger than five minutes, no calls, of whatever workers and
-- partitions and in whatever order, change the event: it stays stored as it is.
pub locked-claim_calls :
    (hash : String → ℤ) (e : OutboxEvent) (at : ℕ) (calls : List ClaimCall) (es : List OutboxEvent)
    → e.status ≡ processing
    → e.locked_at ≡ some at
    → All (λ c. c.now - stale_ms < at) calls
    → Stored e es
    → Stored e (claim_calls hash calls es)
unfolding claim_calls claim_outbox_events
locked-claim_calls hash e at [] es s l young k = k
locked-claim_calls hash e at (c ∷ calls) es s l (young, rest) k =
    locked-claim_calls hash e at calls
      (claim_outbox_events hash c.partition c.worker_id c.now c.clock c.limit es).0 s l rest
      (kept-loop (outbox_claim_filter hash c.now (c.now - stale_ms) c.partition) c.worker_id c.clock
        c.limit e es (locked-filter hash c.partition c.now at e s l young) k)
