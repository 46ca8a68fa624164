-- ===== src/Outbox/Claim/Due.antt =====
-- What a call of `claimOutboxEvents` claims.
use semantask.Prelude.{
  ℕ, zero, suc, ◌-◌, ◌≤◌, ◌<◌, ltb, Bool, true, false, ◌&&◌, List, [], ◌∷◌, length, none, some,
  String, str_eq, ℤ, ◌≡◌, refl, sym, arith, All, here, there, Bool-cases, Option-cases, ap, ◌+◌,
  eq_refl, eq_iff, if◌then◌else◌, inl, inr, ◌⊎◌,
}
use semantask.Outbox.{OutboxEvent, update_event}
use semantask.Outbox.Claim.Kept.{Stored, kept-loop, claimed-stored, is_of, count-update_event}
use semantask.Prelude.Collection.{count}
use semantask.Outbox.Claim.{
  OutboxPartitionConfig, is_claimable, outbox_claim_filter, oldest, claim_event, claim_loop,
  stale_ms, claim_outbox_events,
}

-- No matching event was created before `e`.
abbrev pub IsOldest : (OutboxEvent → Bool) → OutboxEvent → List OutboxEvent → Type 0
IsOldest matches e es = All (λ f. matches f ≡ true → e.created_at ≤ f.created_at) es

older-IsOldest :
    (m : OutboxEvent → Bool) (e f : OutboxEvent) (es : List OutboxEvent)
    → e.created_at ≤ f.created_at
    → IsOldest m f es
    → IsOldest m e es
older-IsOldest m e f [] h a = tt
older-IsOldest m e f (g ∷ es) h (a, rest) =
    (λ t. omega (arith, h, a t), older-IsOldest m e f es h rest)

none-IsOldest :
    (m : OutboxEvent → Bool) (e : OutboxEvent) (es : List OutboxEvent)
    → All (λ f. m f ≡ false) es
    → IsOldest m e es
none-IsOldest m e [] h = tt
none-IsOldest m e (g ∷ es) (h, rest) = (λ t. cc, none-IsOldest m e es rest)

none-step :
    (m : OutboxEvent → Bool) (f : OutboxEvent) (es : List OutboxEvent)
    → oldest m (f ∷ es) ≡ none
    → (m f ≡ false) × (oldest m es ≡ none)
unfolding oldest
none-step m f es h = ground arith

-- How the event that is oldest in a list with one more comes about.
data Step (m : OutboxEvent → Bool) (f : OutboxEvent) (es : List OutboxEvent) (e : OutboxEvent)
    : Type 0 where
  passed : m f ≡ false → oldest m es ≡ some e → Step m f es e
  only : m f ≡ true → f ≡ e → oldest m es ≡ none → Step m f es e
  before : m f ≡ true → oldest m es ≡ some e → e.created_at < f.created_at → Step m f es e
  first :
      (g : OutboxEvent)
      → m f ≡ true
      → f ≡ e
      → oldest m es ≡ some g
      → f.created_at ≤ g.created_at
      → Step m f es e

some-Step :
    (m : OutboxEvent → Bool) (f : OutboxEvent) (es : List OutboxEvent) (e : OutboxEvent)
    → oldest m (f ∷ es) ≡ some e
    → Step m f es e
unfolding oldest
some-Step m f es e h = elim (Bool-cases (m f)) [
  | inr miss ↦ passed miss (ground arith)
  | inl hit ↦ elim (Option-cases (oldest m es)) [
    | inl n ↦ only hit (ground arith) n
    | inr (g, s) ↦ elim (Bool-cases (ltb g.created_at f.created_at)) [
      | inl b ↦ before hit (ground arith) (ground arith)
      | inr b ↦ first g hit (ground arith) s (ground arith)
    ]
  ]
]

oldest-none :
    (m : OutboxEvent → Bool) (es : List OutboxEvent)
    → oldest m es ≡ none
    → All (λ f. m f ≡ false) es
oldest-none m [] h = tt
oldest-none m (e ∷ es) h = let (miss, rest) = none-step m e es h in (miss, oldest-none m es rest)

oldest-some :
    (m : OutboxEvent → Bool) (es : List OutboxEvent) (e : OutboxEvent)
    → oldest m es ≡ some e
    → Stored e es × (m e ≡ true) × IsOldest m e es
unfolding oldest
oldest-some m [] e h = cc
oldest-some m (f ∷ es) e h = elim (some-Step m f es e h) [
  | passed miss s ↦ let (at, t, o) = oldest-some m es e s in (there at, t, (λ x. cc, o))
  | only t same n ↦ (
    here same,
    rw (← same) t,
    (λ x. rw same (omega arith), none-IsOldest m e es (oldest-none m es n)),
  )
  | before t s lt ↦ let (at, t2, o) = oldest-some m es e s in (there at, t2, (λ x. omega arith, o))
  | first g t same s le ↦
      let (at, t2, o) = oldest-some m es g s in
      (
        here same,
        rw (← same) t,
        (λ x. rw same (omega arith), older-IsOldest m e g es (rw (← same) le) o),
      )
]

Stored-cases :
    (e f : OutboxEvent) (es : List OutboxEvent) → Stored e (f ∷ es) → (f ≡ e) ⊎ Stored e es
Stored-cases e f es (here same) = inl same
Stored-cases e f es (there k) = inr k

stored-update :
    (m : OutboxEvent → Bool) (g : OutboxEvent → OutboxEvent) (id : String) (e : OutboxEvent)
    (es : List OutboxEvent)
    → ((f : OutboxEvent) → m (g f) ≡ false)
    → m e ≡ true
    → Stored e (update_event m g id es)
    → Stored e es
unfolding update_event
stored-update m g id e [] fresh t k = k
stored-update m g id e (f ∷ es) fresh t k = elim (Bool-cases (str_eq f.id id && m f)) [
  | inr other ↦ elim (Stored-cases e f _ (rw other at k)) [
    | inl same ↦ here same
    | inr rest ↦ there (stored-update m g id e es fresh t rest)
  ]
  | inl hit ↦ elim (Stored-cases e (g f) es (rw hit at k)) [
    | inl same ↦ let new = fresh f in cc
    | inr rest ↦ there rest
  ]
]

-- The claimed event is one that was stored and that the filter wanted.
pub data ClaimedFrom (m : OutboxEvent → Bool) (w : String) (now : ℕ) (es : List OutboxEvent)
    (c : OutboxEvent) : Type 0 where
  from :
      (e : OutboxEvent) (t : ℕ)
      → Stored e es
      → m e ≡ true
      → now ≤ t
      → c ≡ claim_event w t e
      → ClaimedFrom m w now es c

from-ClaimedFrom :
    (m : OutboxEvent → Bool) (w : String) (now : ℕ) (g : OutboxEvent → OutboxEvent) (id : String)
    (es cs : List OutboxEvent)
    → ((f : OutboxEvent) → m (g f) ≡ false)
    → All (ClaimedFrom m w now (update_event m g id es)) cs
    → All (ClaimedFrom m w now es) cs
from-ClaimedFrom m w now g id es [] fresh a = tt
from-ClaimedFrom m w now g id es (c ∷ cs) fresh (from e t k h le same, rest) = (
  from e t (stored-update m g id e es fresh h k) h le same,
  from-ClaimedFrom m w now g id es cs fresh rest,
)

-- The events of an id that the filter wants, and those of an id.
abbrev pub wanted_of : (OutboxEvent → Bool) → (id : String) → OutboxEvent → Bool
wanted_of m id e = str_eq e.id id && m e

-- A claim takes one of the wanted events of its id, and none of another.
count-claimed :
    (m : OutboxEvent → Bool) (g : OutboxEvent → OutboxEvent) (e : OutboxEvent) (id : String)
    (es : List OutboxEvent)
    → ((f : OutboxEvent) → m (g f) ≡ false)
    → m e ≡ true
    → Stored e es
    → count (wanted_of m id) (update_event m g e.id es) + (if str_eq e.id id then 1 else 0)
      ≡ count (wanted_of m id) es
unfolding update_event
count-claimed m g e id [] fresh t k = elim k [ ]
count-claimed m g e id (f ∷ es) fresh t (here same) =
    ground (arith, fresh f, eq_refl e.id, ap (λ (x : OutboxEvent). x.id) same, ap m same)
count-claimed m g e id (f ∷ es) fresh t (there k) =
    ground
      (arith, fresh f, eq_iff f.id e.id, ap (λ i. str_eq i id), count-claimed m g e id es fresh t k)

claim-id : (w : String) (t : ℕ) (f : OutboxEvent) → (claim_event w t f).id ≡ f.id
unfolding claim_event
claim-id w t f = refl

count-claim :
    (w : String) (t : ℕ) (e : OutboxEvent) (id : String) (cs : List OutboxEvent)
    → count (is_of id) (claim_event w t e ∷ cs)
      ≡ (if str_eq e.id id then 1 else 0) + count (is_of id) cs
unfolding claim_event
count-claim w t e id cs = ground arith

-- What a loop with the filter makes of the events.
pub record LoopClaims (m : OutboxEvent → Bool) (w : String) (now limit : ℕ)
    (es end cs : List OutboxEvent) : Type 0 where
  pub wanted : All (ClaimedFrom m w now es) cs
  pub bounded : length cs ≤ limit
  pub exhausted : length cs < limit → All (λ f. m f ≡ false) end
  pub written : All (λ c. Stored c end) cs
  pub counted :
      (id : String) → count (wanted_of m id) end + count (is_of id) cs ≡ count (wanted_of m id) es

claim_loop-LoopClaims :
    (m : OutboxEvent → Bool) (w : String) (now : ℕ) (clock : ℕ → ℕ) (limit : ℕ)
    (es : List OutboxEvent)
    → ((t : ℕ) (f : OutboxEvent) → now ≤ t → m (claim_event w t f) ≡ false)
    → ((i : ℕ) → now ≤ clock i)
    → ((id : String) → count (is_of id) es ≤ 1)
    → let (end, cs) = claim_loop m w clock limit es in LoopClaims m w now limit es end cs
unfolding claim_loop
claim_loop-LoopClaims m w now clock zero es fresh later unique = record {
  wanted = tt;
  bounded = omega arith;
  exhausted = λ h. absurd (omega arith);
  written = tt;
  counted = λ id. omega arith;
}
claim_loop-LoopClaims m w now clock (suc limit) es fresh later unique =
    elim (Option-cases (oldest m es)) [
      | inl n ↦
          rw (n, claim_loop)
            (record {
              wanted = tt;
              bounded = omega arith;
              exhausted = λ h. oldest-none m es n;
              written = tt;
              counted = λ id. omega arith;
            })
      | inr (e, s) ↦
          let next = update_event m (claim_event w (clock limit)) e.id es in
          let ih = claim_loop-LoopClaims m w now clock limit next fresh later (λ id.
            rw
              (count-update_event m (claim_event w (clock limit)) e.id id es
                (λ f. claim-id w (clock limit) f))
              (unique id)) in
          let (k, h, o) = oldest-some m es e s in
          rw (s, claim_loop)
            (record {
              wanted = (
                from e (clock limit) k h (later limit) refl,
                from-ClaimedFrom m w now (claim_event w (clock limit)) e.id es _
                    (λ f. fresh (clock limit) f (later limit)) ih.wanted,
              );
              bounded = omega (arith, ih.bounded);
              exhausted = λ h. ih.exhausted (omega arith);
              written = (
                kept-loop m w clock limit (claim_event w (clock limit) e) next
                    (fresh (clock limit) e (later limit))
                    (claimed-stored m (claim_event w (clock limit)) e es h (unique e.id) k),
                ih.written,
              );
              counted = λ id. omega (
                arith,
                count-claim w (clock limit) e id (claim_loop m w clock limit next).1,
                count-claimed m (claim_event w (clock limit)) e id es
                    (λ f. fresh (clock limit) f (later limit)) h k,
                ih.counted id,
              );
            })
    ]

fresh-outbox_claim_filter :
    (hash : String → ℤ) (p : OutboxPartitionConfig) (w : String) (now t : ℕ) (f : OutboxEvent)
    → 0 < now
    → now ≤ t
    → outbox_claim_filter hash now (now - stale_ms) p (claim_event w t f) ≡ false
unfolding outbox_claim_filter is_claimable claim_event
fresh-outbox_claim_filter hash p w now t f h le = ground arith

-- Where no id stands twice and the clock does not go back, a call claims at most `limit` events, each
-- of which was stored before the call, was wanted by the filter, is claimed by the worker with one
-- more attempt, and stands so in the collection afterwards. Of every id as many events are claimed as
-- the filter then wants fewer, so that no event is claimed twice. A call that claims fewer than
-- `limit` leaves nothing behind that the filter wants.
pub claim_outbox_events_lem :
    (hash : String → ℤ) (p : OutboxPartitionConfig) (w : String) (now : ℕ) (clock : ℕ → ℕ)
    (limit : ℕ) (es : List OutboxEvent)
    → 0 < now
    → ((i : ℕ) → now ≤ clock i)
    → ((id : String) → count (is_of id) es ≤ 1)
    → let (end, cs) = claim_outbox_events hash p w now clock limit es in
      let wanted = outbox_claim_filter hash now (now - stale_ms) p in
      All (ClaimedFrom wanted w now es) cs
      × (length cs ≤ limit)
      × (length cs < limit → All (λ f. wanted f ≡ false) end)
      × All (λ c. Stored c end) cs
      × ((id : String)
          → count (wanted_of wanted id) end + count (is_of id) cs ≡ count (wanted_of wanted id) es)
unfolding claim_outbox_events
claim_outbox_events_lem hash p w now clock limit es h later unique =
    let wanted = outbox_claim_filter hash now (now - stale_ms) p in
    let c =
      claim_loop-LoopClaims wanted w now clock limit es
        (λ t f le. fresh-outbox_claim_filter hash p w now t f h le) later unique in
    (c.wanted, c.bounded, c.exhausted, c.written, c.counted)

-- A call with a limit of one or more claims first the event that was created first among those
-- that the filter wants; it claims none only where there is none, and changes nothing then.
pub claim-IsOldest_first :
    (hash : String → ℤ) (p : OutboxPartitionConfig) (w : String) (now : ℕ) (clock : ℕ → ℕ)
    (limit : ℕ) (es : List OutboxEvent)
    → let (end, cs) = claim_outbox_events hash p w now clock (suc limit) es in
      let wanted = outbox_claim_filter hash now (now - stale_ms) p in
      (cs ≡ [] → All (λ f. wanted f ≡ false) es × (end ≡ es))
      × ((c : OutboxEvent) (more : List OutboxEvent)
          → cs ≡ c ∷ more
          → (e : OutboxEvent) × (c ≡ claim_event w (clock limit) e)
            × Stored e es
            × (wanted e ≡ true)
            × IsOldest wanted e es)
unfolding claim_outbox_events claim_loop
claim-IsOldest_first hash p w now clock limit es =
    let wanted = outbox_claim_filter hash now (now - stale_ms) p in
    elim (Option-cases (oldest wanted es)) [
      | inl n ↦
          rw (n, claim_outbox_events, claim_loop)
            (λ h. (oldest-none wanted es n, refl), λ c more h. absurd (ground arith))
      | inr (e, s) ↦
          rw (s, claim_outbox_events, claim_loop)
            (
              λ h. absurd (ground arith),
              λ c more h.
                  let (k, t2, o) = oldest-some wanted es e s in (e, sym (ground arith), k, t2, o),
            )
    ]
