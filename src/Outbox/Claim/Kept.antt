-- ===== src/Outbox/Claim/Kept.antt =====
-- Events that a claim does not take stay as they are.
use semantask.Prelude.{
  ℕ, zero, suc, Bool, true, false, ◌&&◌, List, [], ◌∷◌, String, str_eq, ◌≡◌, ap, ◌∙◌, refl, eq_refl,
  arith, Any, here, there, Bool-cases, Option-cases, inl, inr, ◌≤◌,
}
use semantask.Prelude.Collection.{count}
use semantask.Outbox.{OutboxEvent, update_event}
use semantask.Outbox.Claim.{oldest, claim_event, claim_loop}

-- The event stands in the collection.
abbrev pub Stored : OutboxEvent → List OutboxEvent → Type 0
Stored e es = Any (λ f. f ≡ e) es

pub kept-update :
    (m : OutboxEvent → Bool) (g : OutboxEvent → OutboxEvent) (id : String) (e : OutboxEvent)
    (es : List OutboxEvent)
    → (str_eq e.id id && m e) ≡ false
    → Stored e es
    → Stored e (update_event m g id es)
unfolding update_event
kept-update m g id e [] skip k = elim k [ ]
kept-update m g id e (f ∷ es) skip (here same) =
    rw (ap (λ x. str_eq x.id id && m x) same ∙ skip) (here same)
kept-update m g id e (f ∷ es) skip (there k) = elim (Bool-cases (str_eq f.id id && m f)) [
  | inl hit ↦ rw hit (there k)
  | inr other ↦ rw other (there (kept-update m g id e es skip k))
]

not-both : (a b : Bool) → b ≡ false → (a && b) ≡ false
not-both a b h = ground arith

pub kept-loop :
    (m : OutboxEvent → Bool) (w : String) (clock : ℕ → ℕ) (limit : ℕ) (e : OutboxEvent)
    (es : List OutboxEvent)
    → m e ≡ false
    → Stored e es
    → Stored e (claim_loop m w clock limit es).0
unfolding claim_loop
kept-loop m w clock zero e es skip k = k
kept-loop m w clock (suc limit) e es skip k = elim (Option-cases (oldest m es)) [
  | inl n ↦ rw (n, claim_loop) k
  | inr (f, s) ↦
      rw (s, claim_loop)
        (kept-loop m w clock limit e (update_event m (claim_event w (clock limit)) f.id es) skip (
          kept-update m (claim_event w (clock limit)) f.id e es
            (not-both (str_eq e.id f.id) (m e) skip) k))
]

abbrev pub is_of : (id : String) → OutboxEvent → Bool
is_of id e = str_eq e.id id

pub stored-count :
    (e : OutboxEvent) (es : List OutboxEvent) → Stored e es → 1 ≤ count (is_of e.id) es
stored-count e [] k = elim k [ ]
stored-count e (f ∷ es) (here same) =
    ground (arith, eq_refl e.id, ap (λ (x : OutboxEvent). x.id) same)
stored-count e (f ∷ es) (there k) = ground (arith, stored-count e es k)

pub count-update_event :
    (m : OutboxEvent → Bool) (g : OutboxEvent → OutboxEvent) (k id : String) (es : List OutboxEvent)
    → ((f : OutboxEvent) → (g f).id ≡ f.id)
    → count (is_of id) (update_event m g k es) ≡ count (is_of id) es
unfolding update_event
count-update_event m g k id [] h = refl
count-update_event m g k id (f ∷ es) h = ground (arith, h f, count-update_event m g k id es h)

-- The event that a claim takes stands in the collection as it was changed.
pub claimed-stored :
    (m : OutboxEvent → Bool) (g : OutboxEvent → OutboxEvent) (e : OutboxEvent)
    (es : List OutboxEvent)
    → m e ≡ true
    → count (is_of e.id) (es) ≤ 1
    → Stored e es
    → Stored (g e) (update_event m g e.id es)
unfolding update_event
claimed-stored m g e [] t u k = elim k [ ]
claimed-stored m g e (f ∷ es) t u (here same) = rw same (rw (eq_refl e.id) (rw t (here refl)))
claimed-stored m g e (f ∷ es) t u (there k) = elim (Bool-cases (str_eq f.id e.id && m f)) [
  | inl hit ↦ absurd (ground (arith, stored-count e es k))
  | inr other ↦ rw other (there (claimed-stored m g e es t (ground arith) k))
]
