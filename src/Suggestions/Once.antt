-- ===== src/Suggestions/Once.antt =====
-- The two events of a suggestion are stored once, and a call whose event is there throws.
use semantask.Prelude.{
  ℕ, zero, suc, ◌+◌, ◌≤◌, true, false, List, [], ◌∷◌, All, if◌then◌else◌, ◌≡◌, inl, inr, refl,
  arith, leb, Bool-cases, ==_iff,
}
use semantask.Suggestions.{
  Store, Call, accept_loading, accept_done, threw, load_for_accept, create_or_reuse, swap_converted,
  reload_for_accept, check_orphan, delete_task, load_for_dismiss, swap_dismissed,
  reload_for_dismiss, advance, turn, run,
}
use semantask.Suggestions.Outcome.{begins, follow, IsFresh, Answer, run-Answer}

-- The acceptances that were answered.
abbrev is_answered : Call → ℕ
is_answered (accept_done t) = 1
is_answered _ = 0

abbrev pub answered : List Call → ℕ
answered [] = 0
answered (c ∷ calls) = is_answered c + answered calls

abbrev stored : Store → ℕ
stored s = if s.accepted_event then 1 else 0

advance-answered :
    (s : Store) (c : Call)
    → is_answered (advance s c).1 + stored s ≡ is_answered c + stored (advance s c).0
unfolding advance load_for_accept create_or_reuse swap_converted reload_for_accept check_orphan
    delete_task load_for_dismiss swap_dismissed reload_for_dismiss
advance-answered s c = ground arith

turn-answered :
    (i : ℕ) (s : Store) (calls : List Call)
    → answered (turn i s calls).1 + stored s ≡ answered calls + stored (turn i s calls).0
unfolding turn
turn-answered i s [] = omega arith
turn-answered zero s (c ∷ calls) = omega (arith, advance-answered s c)
turn-answered (suc i) s (c ∷ calls) = omega (arith, turn-answered i s calls)

run-answered :
    (turns : List ℕ) (s : Store) (calls : List Call)
    → answered (run turns s calls).1 + stored s ≡ answered calls + stored (run turns s calls).0
unfolding run
run-answered [] s calls = omega arith
run-answered (i ∷ turns) s calls =
    let next = turn i s calls in
    omega (arith, turn-answered i s calls, run-answered turns next.0 next.1)

begins-answered : (calls : List Call) → All (λ c. begins c ≡ true) calls → answered calls ≡ 0
begins-answered [] b = refl
begins-answered (c ∷ calls) (b, bs) = ground (arith, begins-answered calls bs)

not_stored : (s : Store) → s.accepted_event ≡ false → stored s ≡ 0
not_stored s h = ground arith

stored_le : (s : Store) → stored s ≤ 1
stored_le s = ground arith

one_answer :
    (s : Store) (c : Call) → Answer s c → 1 ≤ is_answered c → ((t : ℕ) × Answer s (accept_done t))
one_answer s (accept_done t) a h = (t, a)
one_answer s c a h = absurd (omega (arith, h))

some_answer :
    (s : Store) (calls : List Call)
    → All (Answer s) calls
    → 1 ≤ answered calls
    → ((t : ℕ) × Answer s (accept_done t))
some_answer s [] a h = absurd (omega (arith, h))
some_answer s (c ∷ calls) (a, rest) h = elim (Bool-cases (leb 1 (is_answered c))) [
  | inl k ↦ one_answer s c a (ground arith)
  | inr k ↦ some_answer s calls rest (ground arith)
]

throws :
    (s : Store) (t : ℕ) → Answer s (accept_done t) → follow (s ∷ s ∷ s ∷ []) accept_loading ≡ threw
unfolding follow advance load_for_accept
throws s t h = ground (arith, h.0, h.1, h.2, h.3, ==_iff t t)

-- When calls that take turns on a fresh suggestion have answered an acceptance, they have answered
-- no other, and an acceptance that comes after them throws: it is answered neither with the task
-- nor with a refusal.
pub accept_once :
    (turns : List ℕ) (s : Store) (calls : List Call)
    → IsFresh s
    → s.accepted_event ≡ false
    → All (λ c. begins c ≡ true) calls
    → 1 ≤ answered (run turns s calls).1
    → let after = (run turns s calls).0 in
      (answered (run turns s calls).1 ≡ 1)
      × (follow (after ∷ after ∷ after ∷ []) accept_loading ≡ threw)
accept_once turns s calls f e b h =
    let (t, a) =
      some_answer (run turns s calls).0 (run turns s calls).1 (run-Answer turns s calls f b) h in
    (
      omega (
        arith,
        run-answered turns s calls,
        begins-answered calls b,
        stored_le (run turns s calls).0,
        h,
        not_stored s e,
      ),
      throws (run turns s calls).0 t a,
    )
