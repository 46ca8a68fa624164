-- ===== src/RateLimit/Window.antt =====
-- The fixed window of the local limiter.
use semantask.Prelude.{
  ℕ, suc, ◌+◌, ◌-◌, ◌≤◌, ◌<◌, min, leb, true, false, List, [], ◌∷◌, length, All, Option, none, some,
  if◌then◌else◌, ◌≡◌, refl, arith, Bool-cases, inl, inr, ap, ◌∙◌, leb→le, le→leb,
}
use semantask.RateLimit.{Bucket, Limits, limit_bucket}

-- How many of the calls at these times are let through, one after the other.
unfoldable pub let_through : Limits → Bucket → List ℕ → ℕ
let_through limits b [] = 0
let_through limits b (now ∷ times) =
    let (next, result) = limit_bucket limits (some b) now in
    let rest = let_through limits next times in if result.success then suc rest else rest

counted :
    (limits : Limits) (b : Bucket) (now : ℕ)
    → now < b.reset_at
    → (limit_bucket limits (some b) now).0 ≡ record b { count = suc b.count }
unfolding limit_bucket
counted limits b now h = ground arith

let-counted :
    (limits : Limits) (b : Bucket) (now : ℕ)
    → now < b.reset_at
    → (limit_bucket limits (some b) now).1.success ≡ leb (suc b.count) limits.max_calls
unfolding limit_bucket
let-counted limits b now h = ground arith

not-leb→lt : (a b : ℕ) → leb a b ≡ false → b < a
not-leb→lt a b h = ground arith

window :
    (limits : Limits) (b : Bucket) (times : List ℕ)
    → All (λ t. t < b.reset_at) times
    → let_through limits b times ≡ min (length times) (limits.max_calls - b.count)
unfolding let_through
window limits b [] h = omega arith
window limits b (now ∷ times) (young, rest) =
    let ih =
      ap (λ z. let_through limits z times) (counted limits b now young)
      ∙ window limits (record b { count = suc b.count }) times rest in
    elim (Bool-cases (leb (suc b.count) limits.max_calls)) [
      | inl y ↦
          rw (let-counted limits b now young)
            (rw y (omega (arith, ih, leb→le (suc b.count) limits.max_calls y)))
      | inr y ↦
          rw (let-counted limits b now young)
            (rw y (omega (arith, ih, not-leb→lt (suc b.count) limits.max_calls y)))
    ]

-- There is no window that is still open.
abbrev pub HasEnded : Option Bucket → (now : ℕ) → Type 0
HasEnded none now = Unit
HasEnded (some b) now = b.reset_at ≤ now

-- Of any calls for a key within one window of the local limiter, the first `max_calls` are let
-- through and no other, the call that opens the window included.
pub window_lem :
    (limits : Limits) (found : Option Bucket) (opened : ℕ) (times : List ℕ)
    → HasEnded found opened
    → 1 ≤ limits.max_calls
    → All (λ t. t < opened + limits.window_ms) times
    → let (bucket, result) = limit_bucket limits found opened in
      (result.success ≡ true)
      × (suc (let_through limits bucket times) ≡ min (suc (length times)) limits.max_calls)
unfolding limit_bucket
window_lem limits none opened times fresh h young = (
  refl,
  omega (
    arith,
    window limits (record { count = 1; reset_at = opened + limits.window_ms }) times young,
  ),
)
window_lem limits (some b) opened times fresh h young =
    let done = le→leb b.reset_at opened fresh in
    rw done (
      refl,
      omega (
        arith,
        window limits (record { count = 1; reset_at = opened + limits.window_ms }) times young,
      ),
    )
