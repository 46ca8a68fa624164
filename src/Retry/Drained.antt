-- ===== src/Retry/Drained.antt =====
-- What a scan that returns has done.
use semantask.Prelude.{
  ℕ, zero, suc, ◌+◌, ◌≤◌, ◌<◌, Bool, false, Option, none, some, String, List, [], ◌∷◌, length,
  length-append, some_of, ◌≡◌, ◌⊎◌, inl, inr, refl, arith, Option-cases,
}
use semantask.Prelude.Collection.{count}
use semantask.Retry.Scanner.{
  RetryCandidate, RetryStore, Enqueuing, is_retry_candidate, oldest_candidate,
  enqueue_retry_for_candidate, promote_and_enqueue_retry, scan_loop, run_retry_scanner_once,
}

none_due :
    (now : ℕ) (ts : List RetryCandidate)
    → oldest_candidate now ts ≡ none
    → some_of (is_retry_candidate now) ts ≡ false
unfolding oldest_candidate
none_due now [] h = refl
none_due now (t ∷ ts) h = ground (arith, none_due now ts)

module _ (transactions : Bool) (outcome : (id : String) → Enqueuing)
    (reverts : (id : String) → Bool) (now : ℕ) where
  abbrev Promoted : RetryStore → RetryStore → Option ℕ → Type 0
  Promoted store next none = Unit
  Promoted store next (some zero) = (oldest_candidate now store.tasks ≡ none) × (next ≡ store)
  Promoted store next (some (suc n)) = (n ≡ 0) × (length next.events ≡ length store.events + 1)

  promoted :
      (store : RetryStore)
      → let (next, count) = promote_and_enqueue_retry transactions outcome reverts now store in
        Promoted store next count
  unfolding promote_and_enqueue_retry enqueue_retry_for_candidate
  promoted store = elim (Option-cases (oldest_candidate now store.tasks)) [
    | inl n ↦ ground arith
    | inr (c, e) ↦ ground (arith, length-append store.events ((c.id, c.retry_count) ∷ []))
  ]

  loop-drains :
      (batch total : ℕ) (store after : RetryStore) (n : ℕ)
      → scan_loop transactions outcome reverts now batch total store ≡ (after, some n)
      → (total ≤ n)
        × (n ≤ total + batch)
        × (length after.events + total ≡ length store.events + n)
        × (n < total + batch → oldest_candidate now after.tasks ≡ none)
  unfolding scan_loop
  loop-drains zero total store after n h = ground arith
  loop-drains (suc batch) total store after n h =
      let next = promote_and_enqueue_retry transactions outcome reverts now store in
      ground (arith, promoted store, loop-drains batch (suc total) next.0 after n)

  -- A scan that returns stored as many events as it says; that is the whole batch, or at most that
  -- and no task is left that is due.
  pub scan-drains :
      (batch_size : ℕ) (store after : RetryStore) (n : ℕ)
      → run_retry_scanner_once transactions outcome reverts now batch_size store ≡ (after, some n)
      → (length after.events ≡ length store.events + n)
        × (n ≡ batch_size
            ⊎ (n ≤ batch_size) × (some_of (is_retry_candidate now) after.tasks ≡ false))
  unfolding run_retry_scanner_once
  scan-drains batch_size store after n h =
      ground (arith, loop-drains batch_size 0 store after n h, none_due now after.tasks)
