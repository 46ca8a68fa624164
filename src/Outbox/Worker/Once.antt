-- ===== src/Outbox/Worker/Once.antt =====
-- How often an event is handled, and what becomes of one whose handler failed.
use semantask.Prelude.{
  ℕ, suc, ◌+◌, ◌*◌, ◌^◌, ◌≤◌, ◌<◌, min, leb, true, false, List, ◌∷◌, none, some, String, includes,
  ◌≡◌, ◌↔◌, ◌⊎◌, refl, arith, eq_refl, pos, decrement, ap, le→leb,
}
use semantask.Prelude.Result.{Result, err, is_ok}
use semantask.Prelude.Text.{Text}
use native.Mathlib.Nat.{one-le-pow, pow-le-pow_right}
use semantask.Outbox.{
  OutboxEvent, failed, dead_letter, always, update_event, fail_event, defer_event,
  dead_letter_event, mark_outbox_event_failed, mark_outbox_event_deferred,
  mark_outbox_event_dead_letter,
}
use semantask.Outbox.Worker.{
  ProcessedMarkers, set_marker, complete_run, handle_run, process_outbox_event_once,
  compute_retry_delay, execution_lease_busy, other_error, settle_failure,
}

includes-cons : (k : String) (ks : List String) → includes k (k ∷ ks) ≡ true
includes-cons k ks = rw (eq_refl k) refl

-- The event is completed only where its marker stood or its handler came to an end; a handler
-- that fails writes no marker, and its error is the run's. Where the handler succeeded and the
-- marker was written, a later run with those markers completes the event and does not handle it
-- again.
pub process_outbox_event_once_lem :
    {E : Type 0} (e : E) (store : ProcessedMarkers) (key : String)
    (handle complete : Result E (Unit {0}))
    → let run = process_outbox_event_once e (some store) key handle complete in
      (run.completed ≡ true → (includes key store.keys ≡ true) ⊎ (is_ok handle ≡ true))
      × (run.handled ≡ true ↔ (store.get_fails ≡ false) × (includes key store.keys ≡ false))
      × (run.handled ≡ true
          → (x : E) → handle ≡ err x
          → (run.keys ≡ store.keys) × (run.completed ≡ false) × (run.result ≡ err x))
      × (run.handled ≡ true
          → is_ok handle ≡ true
          → store.set_fails ≡ false
          → let next = record store { keys = run.keys } in
            let again = process_outbox_event_once e (some next) key handle complete in
            (again.handled ≡ false) × (again.completed ≡ true))
unfolding process_outbox_event_once handle_run complete_run set_marker
process_outbox_event_once_lem e store key handle complete = (
  ground arith,
  ground arith,
  λ r x h. ground arith,
  λ r h s. ground (arith, includes-cons key store.keys),
)

power_le : (n : ℕ) → n ≤ 8 → (1 ≤ 2 ^ n) × (2 ^ n ≤ 256)
power_le n h = (one-le-pow n 2 (omega arith), pow-le-pow_right (omega arith) h)

-- A retry waits for at least a quarter of a second; without jitter it waits 2^n seconds after n
-- attempts, and 256 at most; with jitter it is never more than twice as long.
pub compute_retry_delay_lem :
    (n span drawn : ℕ)
    → span ≤ 1000 * 2 ^ min n 8
    → drawn ≤ 2 * span
    → (250 ≤ compute_retry_delay n span drawn)
      × (compute_retry_delay n span drawn ≤ 2 * (1000 * 2 ^ min n 8))
      × (compute_retry_delay n span drawn ≤ 512000)
      × (compute_retry_delay n 0 0 ≡ 1000 * 2 ^ min n 8)
unfolding compute_retry_delay
compute_retry_delay_lem n span drawn h d = let p = power_le (min n 8) (omega arith) in ground arith

update-first :
    (g : OutboxEvent → OutboxEvent) (e : OutboxEvent) (es : List OutboxEvent)
    → update_event always g e.id (e ∷ es) ≡ g e ∷ es
unfolding update_event
update-first g e es = rw (eq_refl e.id) refl

lt→not-leb : (a b : ℕ) → b < a → leb a b ≡ false
lt→not-leb a b h = ground arith

-- A handler that failed costs the event its attempt: below the limit it is due again after a
-- delay of at least a quarter of a second, at the limit it is dead-lettered and not due again. A
-- busy lease costs it nothing: the attempt is given back, whatever their number.
pub settle_failure_lem :
    (limit span drawn n : ℕ) (message : Text) (now : ℕ) (e : OutboxEvent) (es : List OutboxEvent)
    → e.attempts ≡ pos (suc n)
    → let thrown =
        settle_failure limit span drawn e.id (suc n) (other_error message) now (e ∷ es) in
      let busy =
        settle_failure limit span drawn e.id (suc n) (execution_lease_busy message) now (e ∷ es) in
      (limit ≤ suc n
        → (f : OutboxEvent) × (thrown ≡ f ∷ es) × (f.status ≡ dead_letter) × (f.locked_by ≡ none))
      × (suc n < limit
          → (f : OutboxEvent) × (thrown ≡ f ∷ es)
            × (f.status ≡ failed)
            × (f.attempts ≡ pos (suc n))
            × (now + 250 ≤ f.available_at))
      × ((f : OutboxEvent) × (busy ≡ f ∷ es) × (f.status ≡ failed) × (f.attempts ≡ pos n))
unfolding settle_failure mark_outbox_event_failed mark_outbox_event_deferred
    mark_outbox_event_dead_letter update_event fail_event defer_event dead_letter_event
    compute_retry_delay
settle_failure_lem limit span drawn n message now e es a = (
  λ h. (
    dead_letter_event message now e,
    rw (le→leb limit (suc n) h) (update-first (dead_letter_event message now) e es),
    refl,
    refl,
  ),
  λ h. (
    fail_event message now (compute_retry_delay (suc n) span drawn) e,
    rw (lt→not-leb limit (suc n) h)
        (update-first (fail_event message now (compute_retry_delay (suc n) span drawn)) e es),
    refl,
    a,
    omega arith,
  ),
  (
    defer_event message now (compute_retry_delay 0 span drawn) e,
    update-first (defer_event message now (compute_retry_delay 0 span drawn)) e es,
    refl,
    ap decrement a,
  ),
)
