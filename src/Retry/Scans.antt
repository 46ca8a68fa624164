-- ===== src/Retry/Scans.antt =====
-- What the scanner makes of the due tasks, whatever fails.
use semantask.Prelude.{
  ℕ, zero, suc, ◌≤◌, ltb, ==_iff, Bool, true, false, not, ◌&&◌, ◌||◌, none, some, or_else, String,
  str_eq, List, [], ◌∷◌, some_of, some_of-append, ◌≡◌, inl, inr, refl, ap, ◌∙◌, sym, arith,
  Option-cases, Bool-cases, eq_iff, eq_refl,
}
use semantask.Prelude.Collection.{
  find_first, update_first, count, find_first-update_first, find_first-update_other, count_pos,
  count-update_first_same,
}
use semantask.Retry.Scanner.{
  RetryCandidate, RetryStore, Enqueuing, is_retry_scheduled, is_ready, is_retry_candidate,
  oldest_candidate, has_id, claimed, reverted, has_key, enqueue_retry_for_candidate,
  promote_and_enqueue_retry, scan_loop, run_retry_scanner_once,
}

abbrev pub IsUnique : List RetryCandidate → Type 0
IsUnique tasks = (id : String) → count (has_id id) tasks ≤ 1

oldest-is_candidate :
    (now : ℕ) (ts : List RetryCandidate) (c : RetryCandidate)
    → oldest_candidate now ts ≡ some c
    → is_retry_candidate now c ≡ true
unfolding oldest_candidate
oldest-is_candidate now [] c h = ground arith
oldest-is_candidate now (t ∷ ts) c h = elim (Option-cases (oldest_candidate now ts)) [
  | inl n ↦ ground arith
  | inr (r, e) ↦ ground (arith, oldest-is_candidate now ts r e, ap (is_retry_candidate now))
]

oldest-find :
    (now : ℕ) (ts : List RetryCandidate) (c : RetryCandidate)
    → count (has_id c.id) ts ≤ 1
    → oldest_candidate now ts ≡ some c
    → find_first (has_id c.id) ts ≡ some c
unfolding oldest_candidate
oldest-find now [] c u h = ground arith
oldest-find now (t ∷ ts) c u h = elim (Option-cases (oldest_candidate now ts)) [
  | inl n ↦ ground (arith, eq_refl c.id)
  | inr (r, e) ↦
      elim (Bool-cases (
        is_retry_candidate now t
        && not (ltb (or_else r.next_retry_at 0) (or_else t.next_retry_at 0)))) [
          | inl k ↦ ground (arith, eq_refl c.id)
          | inr k ↦
              let same : oldest_candidate now ts ≡ some c = ground arith in
              ground (arith, oldest-find now ts c, count_pos (has_id c.id) ts c)
        ]
]

-- The task is due to be retried, or ready with the event of its retry.
abbrev pub waits : List (String × ℕ) → RetryCandidate → Bool
waits events t =
    is_retry_scheduled t.lifecycle_state
    || (is_ready t.lifecycle_state && some_of (has_key t.id t.retry_count) events)

abbrev pub waits_at : RetryStore → (id : String) → Bool
waits_at store id = elim (find_first (has_id id) store.tasks) [
  | none ↦ false
  | some t ↦ waits store.events t
]

lookup_other :
    (ts : List RetryCandidate) (f : RetryCandidate → RetryCandidate) (k id : String)
    → ((t : RetryCandidate) → (f t).id ≡ t.id)
    → str_eq k id ≡ false
    → find_first (has_id id) (update_first (has_id k) f ts) ≡ find_first (has_id id) ts
lookup_other ts f k id h n =
    find_first-update_other (has_id k) (has_id id) f ts
      λ t e. ground (arith, eq_iff t.id k, eq_iff t.id id, eq_iff k id, eq_iff (f t).id id, h t)

lookup_self :
    (ts : List RetryCandidate) (f : RetryCandidate → RetryCandidate) (k : String)
    (t : RetryCandidate)
    → ((t : RetryCandidate) → (f t).id ≡ t.id)
    → find_first (has_id k) ts ≡ some t
    → find_first (has_id k) (update_first (has_id k) f ts) ≡ some (f t)
lookup_self ts f k t h e =
    ground (arith, find_first-update_first (has_id k) f ts (λ x p. ap (λ i. str_eq i k) (h x) ∙ p))

candidate-scheduled :
    (now : ℕ) (c : RetryCandidate)
    → is_retry_candidate now c ≡ true
    → is_retry_scheduled c.lifecycle_state ≡ true
unfolding is_retry_candidate
candidate-scheduled now c h = ground arith

-- The keys only grow; a call that returned stored the task's key.
enqueue-keys :
    (outcome : Enqueuing) (events : List (String × ℕ)) (t : RetryCandidate)
    → ((id : String) (n : ℕ)
        → some_of (has_key id n) events ≡ true
        → some_of (has_key id n) (enqueue_retry_for_candidate outcome events t).0 ≡ true)
      × ((enqueue_retry_for_candidate outcome events t).1 ≡ true
          → some_of (has_key t.id t.retry_count) (enqueue_retry_for_candidate outcome events t).0
            ≡ true)
unfolding enqueue_retry_for_candidate
enqueue-keys outcome events t = (
  λ id n h. ground (arith, some_of-append (has_key id n) events ((t.id, t.retry_count) ∷ [])),
  λ h. ground (
    arith,
    eq_refl t.id,
    ==_iff t.retry_count t.retry_count,
    some_of-append (has_key t.id t.retry_count) events ((t.id, t.retry_count) ∷ []),
  ),
)

update-IsUnique :
    (ts : List RetryCandidate) (f : RetryCandidate → RetryCandidate) (k : String)
    → ((t : RetryCandidate) → (f t).id ≡ t.id)
    → IsUnique ts
    → IsUnique (update_first (has_id k) f ts)
update-IsUnique ts f k h u id =
    rw (count-update_first_same (has_id k) (has_id id) f ts (λ t. ap (λ i. str_eq i id) (h t)))
      (u id)

reverted-id : (t : RetryCandidate) → (reverted t).id ≡ t.id
reverted-id t = ground arith

module _ (transactions : Bool) (outcome : (id : String) → Enqueuing)
    (reverts : (id : String) → Bool) (now : ℕ) where
  abbrev Keeps : RetryStore → RetryStore → Type 0
  Keeps store store' =
      IsUnique store'.tasks
      × ((id : String)
          → (transactions || reverts id) ≡ true
          → waits_at store id ≡ true
          → waits_at store' id ≡ true)

  promote-claim :
      (store : RetryStore) (c : RetryCandidate)
      → oldest_candidate now store.tasks ≡ some c
      → IsUnique store.tasks
      → Keeps store (promote_and_enqueue_retry transactions outcome reverts now store).0
  unfolding promote_and_enqueue_retry
  promote-claim store c o u =
      let f = oldest-find now store.tasks c (u c.id) o in
      let k = oldest-is_candidate now store.tasks c o in
      let (grow, key) = enqueue-keys (outcome c.id) store.events c in
      let once = update-IsUnique store.tasks (claimed now) c.id (λ t. refl) u in
      let tasks = update_first (has_id c.id) (claimed now) store.tasks in
      (
        ground (arith, u, once, update-IsUnique tasks reverted c.id reverted-id once),
        λ id r w. elim (Bool-cases (str_eq c.id id)) [
          | inl s ↦ rw (sym ((eq_iff c.id id).0 s)) (
              ground (
                arith,
                candidate-scheduled now c k,
                ap (λ i. transactions || reverts i) ((eq_iff c.id id).0 s) ∙ r,
                key,
                lookup_self store.tasks (claimed now) c.id c (λ t. refl) f,
                lookup_self tasks reverted c.id (claimed now c) reverted-id
                    (lookup_self store.tasks (claimed now) c.id c (λ t. refl) f),
              ))
          | inr s ↦ elim (Option-cases (find_first (has_id id) store.tasks)) [
            | inl n ↦ ground arith
            | inr (t, e) ↦ ground (
              arith,
              grow t.id t.retry_count,
              lookup_other store.tasks (claimed now) c.id id (λ t. refl) s,
              lookup_other tasks reverted c.id id reverted-id s,
            )
          ]
        ],
      )

  promote-none :
      (store : RetryStore)
      → oldest_candidate now store.tasks ≡ none
      → promote_and_enqueue_retry transactions outcome reverts now store ≡ (store, some 0)
  unfolding promote_and_enqueue_retry
  promote-none store n = ground arith

  promote-Keeps :
      (store : RetryStore)
      → IsUnique store.tasks
      → Keeps store (promote_and_enqueue_retry transactions outcome reverts now store).0
  promote-Keeps store u = elim (Option-cases (oldest_candidate now store.tasks)) [
    | inl n ↦ rw (promote-none store n) (u, λ id r w. w)
    | inr (c, e) ↦ promote-claim store c e u
  ]

  scan_loop-Keeps :
      (batch total : ℕ) (store : RetryStore)
      → IsUnique store.tasks
      → Keeps store (scan_loop transactions outcome reverts now batch total store).0
  unfolding scan_loop
  scan_loop-Keeps zero total store u = (u, λ id r w. w)
  scan_loop-Keeps (suc batch) total store u =
      let next = promote_and_enqueue_retry transactions outcome reverts now store in
      let (v, k) = promote-Keeps store u in
      let (x, y) = scan_loop-Keeps batch (suc total) next.0 v in
      (ground (arith, v, x), λ id r w. ground (arith, k id r w, y id r))

  -- No retry is lost, whatever the enqueuing does, with transactions, or without them where the
  -- database takes the reversal of the task's claim: a task that was due to be retried is so after the
  -- scan, or is ready and its event is stored.
  pub scan-waits :
      (batch_size : ℕ) (store : RetryStore) (id : String) (t : RetryCandidate)
      → IsUnique store.tasks
      → find_first (has_id id) store.tasks ≡ some t
      → is_retry_scheduled t.lifecycle_state ≡ true
      → (transactions || reverts id) ≡ true
      → waits_at (run_retry_scanner_once transactions outcome reverts now batch_size store).0 id
        ≡ true
  unfolding run_retry_scanner_once
  scan-waits batch_size store id t u f s r =
      let (v, k) = scan_loop-Keeps batch_size 0 store u in k id r (ground arith)
