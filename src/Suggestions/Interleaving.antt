-- ===== src/Suggestions/Interleaving.antt =====
-- Any number of calls that accept and dismiss one suggestion, taking turns in any order.
use semantask.Prelude.{ℕ, zero, suc, ◌+◌, true, List, [], ◌∷◌, ◌≡◌, refl, ap, ◌∙◌, arith, All}
use semantask.Suggestions.{Store, Call, advance, turn, run}
use semantask.Suggestions.Rules.{held, call_ok, store_ok, advance_self, advance_other}

abbrev pub all_held : List Call → ℕ
all_held [] = 0
all_held (c ∷ calls) = held c + all_held calls

-- What holds at any time, beside m holders among other calls.
abbrev pub Sound : (m : ℕ) → Store × List Call → Type 0
Sound m (store, calls) =
    (store_ok store (m + all_held calls) ≡ true) × All (λ c. call_ok store c ≡ true) calls

All-other :
    (s : Store) (c : Call) (n : ℕ) (calls : List Call)
    → store_ok s (n + all_held calls + held c) ≡ true
    → call_ok s c ≡ true
    → All (λ q. call_ok s q ≡ true) calls
    → All (λ q. call_ok (advance s c).0 q ≡ true) calls
All-other s c n [] h k a = tt
All-other s c n (q ∷ calls) h k a = (
  advance_other s c q (n + all_held calls) (ground arith) k a.0,
  All-other s c (n + held q) calls (ground arith) k a.1,
)

-- A turn keeps it, and what any other call relies on.
turn-Sound :
    (i : ℕ) (s : Store) (calls : List Call) (m : ℕ)
    → Sound m (s, calls)
    → Sound m (turn i s calls)
      × ((q : Call) (n : ℕ)
          → m ≡ n + held q
          → call_ok s q ≡ true
          → call_ok (turn i s calls).0 q ≡ true)
unfolding turn
turn-Sound i s [] m h = (h, λ q n e k. k)
turn-Sound zero s (c ∷ calls) m h =
    let (so, co) =
      advance_self s c (m + all_held calls) (ap (store_ok s) (omega arith) ∙ h.0) h.1.0 in
    (
      (
        ap (store_ok (advance s c).0) (omega arith) ∙ so,
        (co, All-other s c m calls (ap (store_ok s) (omega arith) ∙ h.0) h.1.0 h.1.1),
      ),
      λ q n e k.
          advance_other s c q (n + all_held calls) (ap (store_ok s) (omega (arith, e)) ∙ h.0) h.1.0
            k,
    )
turn-Sound (suc i) s (c ∷ calls) m h =
    let (rest, others) =
      turn-Sound i s calls (m + held c) (ap (store_ok s) (omega arith) ∙ h.0, h.1.1) in
    (
      (ap (store_ok (turn i s calls).0) (omega arith) ∙ rest.0, (others c m refl h.1.0, rest.1)),
      λ q n e k. others q (n + held c) (omega (arith, e)) k,
    )

pub run-Sound :
    (turns : List ℕ) (s : Store) (calls : List Call)
    → Sound 0 (s, calls)
    → Sound 0 (run turns s calls)
unfolding run
run-Sound [] s calls h = h
run-Sound (i ∷ turns) s calls h =
    let next = turn i s calls in run-Sound turns next.0 next.1 (turn-Sound i s calls 0 h).0
