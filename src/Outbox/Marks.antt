-- ===== src/Outbox/Marks.antt =====
-- What happens to claimed events, and what the clean-ups leave.
use semantask.Prelude.{
  ℕ, ◌+◌, ◌-◌, ◌*◌, Bool, true, false, not, ◌&&◌, List, [], ◌∷◌, map, length, keep, some_of, none,
  String, str_eq, decrement-increment, ◌≡◌, refl, ap, ◌∙◌, arith, here, there, Bool-cases, inl, inr,
  if◌then◌else◌,
}
use semantask.Prelude.Text.{Text}
use semantask.Outbox.{
  OutboxEvent, failed, update_event, defer_event, requeue_event, is_held,
  release_claimed_outbox_event, is_dead_lettered_message, requeue_dead_lettered_message_events,
  is_terminal_status, outbox_archival_filter, archive_terminal_outbox_events,
}
use semantask.Outbox.Claim.{claim_event}
use semantask.Outbox.Claim.Kept.{Stored, kept-update}

unmatched-update :
    (m : OutboxEvent → Bool) (g : OutboxEvent → OutboxEvent) (id : String) (es : List OutboxEvent)
    → some_of (λ e. str_eq e.id id && m e) es ≡ false
    → update_event m g id es ≡ es
unfolding update_event
unmatched-update m g id [] h = refl
unmatched-update m g id (e ∷ es) h = elim (Bool-cases (str_eq e.id id && m e)) [
  | inl hit ↦ absurd (ground arith)
  | inr other ↦ rw other (ap (λ r. e ∷ r) (unmatched-update m g id es (ground arith)))
]

-- A release changes nothing where it says so, and leaves every event alone that has another id
-- or that the worker does not hold, so also one that was completed or that another worker
-- claimed meanwhile. The event that a worker claimed and releases is due at once, is held by
-- nobody, and has as many attempts as before the claim.
pub release_lem :
    (id w : String) (reason : Text) (now : ℕ) (es : List OutboxEvent)
    → let (after, changed) = release_claimed_outbox_event id w reason now es in
      (changed ≡ false → after ≡ es)
      × ((f : OutboxEvent) → Stored f es → (str_eq f.id id && is_held w f) ≡ false → Stored f after)
      × ((e : OutboxEvent) (t : ℕ)
          → let r = defer_event reason now 0 (claim_event w t e) in
            (r.status ≡ failed)
            × (r.available_at ≡ now)
            × (r.locked_by ≡ none)
            × (r.attempts ≡ e.attempts))
unfolding release_claimed_outbox_event defer_event claim_event
release_lem id w reason now es = (
  unmatched-update (is_held w) (defer_event reason now 0) id es,
  λ f k h. kept-update (is_held w) (defer_event reason now 0) id f es h k,
  λ e t. (refl, omega arith, refl, decrement-increment e.attempts),
)

keep-hit :
    (p : OutboxEvent → Bool) (e : OutboxEvent) (es : List OutboxEvent)
    → p e ≡ true
    → keep p (e ∷ es) ≡ e ∷ keep p es
keep-hit p e es h = ground arith

keep-miss :
    (p : OutboxEvent → Bool) (e : OutboxEvent) (es : List OutboxEvent)
    → p e ≡ false
    → keep p (e ∷ es) ≡ keep p es
keep-miss p e es h = ground arith

unmatched-requeue :
    (now : ℕ) (e : OutboxEvent)
    → is_dead_lettered_message (if is_dead_lettered_message e then requeue_event now e else e)
      ≡ false
unfolding requeue_event
unmatched-requeue now e = ground arith

keep-requeued :
    (now : ℕ) (es : List OutboxEvent)
    → length (
        keep is_dead_lettered_message
          (map (λ e. if is_dead_lettered_message e then requeue_event now e else e) es))
      ≡ 0
keep-requeued now [] = refl
keep-requeued now (e ∷ es) =
    ap length (
      keep-miss is_dead_lettered_message
        (if is_dead_lettered_message e then requeue_event now e else e)
        (map (λ f. if is_dead_lettered_message f then requeue_event now f else f) es)
        (unmatched-requeue now e))
    ∙ keep-requeued now es

stored-map :
    (m : OutboxEvent → Bool) (g : OutboxEvent → OutboxEvent) (f : OutboxEvent)
    (es : List OutboxEvent)
    → m f ≡ false
    → Stored f es
    → Stored f (map (λ e. if m e then g e else e) es)
stored-map m g f [] h k = elim k [ ]
stored-map m g f (e ∷ es) h (here same) = here (rw same (rw h refl))
stored-map m g f (e ∷ es) h (there k) = there (stored-map m g f es h k)

-- A dry run changes nothing and counts what a run would requeue. A run leaves the other events
-- alone, and after it no message is dead-lettered: to run it again requeues nothing.
pub requeue_lem :
    (now later : ℕ) (es : List OutboxEvent)
    → let dry = requeue_dead_lettered_message_events true now es in
      let run = requeue_dead_lettered_message_events false now es in
      let again = requeue_dead_lettered_message_events false later run.0 in
      (dry.0 ≡ es)
      × (dry.1.matched ≡ run.1.requeued)
      × (dry.1.requeued ≡ 0)
      × ((f : OutboxEvent) → Stored f es → is_dead_lettered_message f ≡ false → Stored f run.0)
      × (again.1.requeued ≡ 0)
unfolding requeue_dead_lettered_message_events
requeue_lem now later es = (
  refl,
  refl,
  refl,
  λ f k h. stored-map is_dead_lettered_message (requeue_event now) f es h k,
  keep-requeued now es,
)

kept-keep :
    (p : OutboxEvent → Bool) (e : OutboxEvent) (es : List OutboxEvent)
    → p e ≡ true
    → Stored e es
    → Stored e (keep p es)
kept-keep p e [] h k = elim k [ ]
kept-keep p e (f ∷ es) h (here same) = rw (keep-hit p f es (ap p same ∙ h)) (here same)
kept-keep p e (f ∷ es) h (there k) = elim (Bool-cases (p f)) [
  | inl hit ↦ rw (keep-hit p f es hit) (there (kept-keep p e es h k))
  | inr miss ↦ rw (keep-miss p f es miss) (kept-keep p e es h k)
]

keep-lengths :
    (p : OutboxEvent → Bool) (es : List OutboxEvent)
    → length (keep (λ e. not (p e)) es) + length (keep p es) ≡ length es
keep-lengths p [] = refl
keep-lengths p (e ∷ es) = elim (Bool-cases (p e)) [
  | inl hit ↦ omega (
    arith,
    keep-lengths p es,
    ap length (keep-hit p e es hit),
    ap length (keep-miss (λ f. not (p f)) e es (ap not hit)),
  )
  | inr miss ↦ omega (
    arith,
    keep-lengths p es,
    ap length (keep-miss p e es miss),
    ap length (keep-hit (λ f. not (p f)) e es (ap not miss)),
  )
]

-- The archival deletes as many events as it says, and none that is not completed or
-- dead-lettered; an event that the filter does not match stays.
pub archive_lem :
    (days now : ℕ) (es : List OutboxEvent)
    → let (left, deleted) = archive_terminal_outbox_events days now es in
      (length left + deleted ≡ length es)
      × ((e : OutboxEvent) → Stored e es → is_terminal_status e.status ≡ false → Stored e left)
      × ((e : OutboxEvent)
          → Stored e es
          → outbox_archival_filter (now - days * 24 * 60 * 60 * 1000) e ≡ false
          → Stored e left)
unfolding archive_terminal_outbox_events outbox_archival_filter
archive_lem days now es =
    let cutoff = now - days * 24 * 60 * 60 * 1000 in
    (
      keep-lengths (outbox_archival_filter cutoff) es,
      λ e k h. kept-keep (λ f. not (outbox_archival_filter cutoff f)) e es (rw h refl) k,
      λ e k h. kept-keep (λ f. not (outbox_archival_filter cutoff f)) e es (rw h refl) k,
    )
