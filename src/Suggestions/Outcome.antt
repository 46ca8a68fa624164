-- ===== src/Suggestions/Outcome.antt =====
-- How calls that accept and dismiss one suggestion end.
use semantask.Prelude.{
  ℕ, ◌+◌, Bool, true, false, ◌&&◌, none, some, List, [], ◌∷◌, if◌then◌else◌, ◌≡◌, refl, arith, All,
}
use semantask.Suggestions.{
  proposed, dismissed, converted, Store, Call, accept_loading, accept_creating, finding, announcing,
  swapping, reloading, checking, deleting, accept_done, dismiss_loading, dismiss_swapping,
  dismiss_announcing, dismiss_reloading, dismiss_done, refused, threw, is_converted, is_task,
  advance, run,
}
use semantask.Suggestions.Rules.{call_ok, store_ok}
use semantask.Suggestions.Interleaving.{all_held, Sound, run-Sound}

-- A suggestion that nobody has acted on, and calls that begin.
abbrev pub IsFresh : Store → Type 0
IsFresh s = (s.status ≡ proposed) × (s.converted_task_id ≡ none) × (s.task ≡ none)

abbrev pub begins : Call → Bool
begins accept_loading = true
begins dismiss_loading = true
begins _ = false

abbrev pub has_ended : Call → Bool
has_ended (accept_done t) = true
has_ended dismiss_done = true
has_ended refused = true
has_ended threw = true
has_ended _ = false

begins-ok :
    (s : Store) (calls : List Call)
    → All (λ c. begins c ≡ true) calls
    → (all_held calls ≡ 0) × All (λ c. call_ok s c ≡ true) calls
begins-ok s [] b = (refl, tt)
begins-ok s (c ∷ calls) (b, bs) =
    let (h, k) = begins-ok s calls bs in (ground arith, (ground arith, k))

start-Sound :
    (s : Store) (calls : List Call)
    → IsFresh s
    → All (λ c. begins c ≡ true) calls
    → Sound 0 (s, calls)
start-Sound s calls (f, g, k) b = let (h, a) = begins-ok s calls b in (ground arith, a)

-- What the end of a call says of the suggestion.
abbrev pub Answer : Store → Call → Type 0
Answer s (accept_done t) =
    (s.status ≡ converted)
    × (s.converted_task_id ≡ some t)
    × (s.task ≡ some t)
    × (s.accepted_event ≡ true)
Answer s dismiss_done = (s.status ≡ dismissed) × (s.dismissed_event ≡ true)
Answer s _ = Unit

linked_task :
    (s : Store) (n : ℕ) (t : ℕ)
    → store_ok s n ≡ true
    → (is_converted s.status && is_task t s.converted_task_id) ≡ true
    → (s.status ≡ converted) × (s.converted_task_id ≡ some t) × (s.task ≡ some t)
linked_task s n t h k = ground arith

answer : (s : Store) (n : ℕ) (c : Call) → store_ok s n ≡ true → call_ok s c ≡ true → Answer s c
answer s n accept_loading h k = tt
answer s n accept_creating h k = tt
answer s n (finding t) h k = tt
answer s n (announcing t) h k = tt
answer s n (swapping t created) h k = tt
answer s n (reloading t created) h k = tt
answer s n (checking t) h k = tt
answer s n (deleting t) h k = tt
answer s n (accept_done t) h k =
    let (a, b, d) = linked_task s n t h (ground arith) in (a, b, d, ground arith)
answer s n dismiss_loading h k = tt
answer s n dismiss_swapping h k = tt
answer s n dismiss_announcing h k = tt
answer s n dismiss_reloading h k = tt
answer s n dismiss_done h k = (ground arith, ground arith)
answer s n refused h k = tt
answer s n threw h k = tt

answers :
    (s : Store) (n : ℕ) (calls : List Call)
    → store_ok s n ≡ true
    → All (λ c. call_ok s c ≡ true) calls
    → All (Answer s) calls
answers s n [] h a = tt
answers s n (c ∷ calls) h (k, a) = (answer s n c h k, answers s n calls h a)

-- However the calls take turns on a fresh suggestion, an acceptance that has ended leaves it
-- converted and linked to the task of its answer, which is there, and a dismissal leaves it
-- dismissed, each with its event stored.
pub run-Answer :
    (turns : List ℕ) (s : Store) (calls : List Call)
    → IsFresh s
    → All (λ c. begins c ≡ true) calls
    → All (Answer (run turns s calls).0) (run turns s calls).1
run-Answer turns s calls f b =
    let (h, a) = run-Sound turns s calls (start-Sound s calls f b) in
    answers (run turns s calls).0 (0 + all_held (run turns s calls).1) (run turns s calls).1 h a

ended-held : (calls : List Call) → All (λ c. has_ended c ≡ true) calls → all_held calls ≡ 0
ended-held [] e = refl
ended-held (c ∷ calls) (e, es) = ground (arith, ended-held calls es)

-- When all calls have ended, there is a task exactly if the suggestion was converted, and then it is
-- the one that the suggestion is linked to: no call leaves a task behind.
pub no_orphan :
    (turns : List ℕ) (s : Store) (calls : List Call)
    → IsFresh s
    → All (λ c. begins c ≡ true) calls
    → let (after, ends) = run turns s calls in
      All (λ c. has_ended c ≡ true) ends
      → after.task ≡ (if is_converted after.status then after.converted_task_id else none)
no_orphan turns s calls f b e =
    let (h, a) = run-Sound turns s calls (start-Sound s calls f b) in
    ground (arith, ended-held (run turns s calls).1 e)

-- A call alone, with what the others leave before each of its steps.
unfoldable pub follow : List Store → Call → Call
unfolding advance
follow [] c = c
follow (s ∷ stores) c = follow stores (advance s c).1
