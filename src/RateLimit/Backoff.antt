-- ===== src/RateLimit/Backoff.antt =====
-- `enforceAuthRateLimit`, and what a denial means for the calls after it.
use semantask.Prelude.{
  ℕ, suc, ◌+◌, ◌-◌, ◌*◌, ◌≤◌, ◌<◌, max, leb, ltb, Bool, true, false, not, ◌&&◌, Option, none, some,
  or_else, String, if◌then◌else◌, ◌≡◌, refl, arith, eq_refl, Option-cases, inl, inr,
}
use native.Mathlib.Nat.{one-le-pow}
use semantask.RateLimit.{
  RateLimitResult, Limits, LimiterState, hybrid_limit, still, cleanup_local_backoff,
  get_block_until, violations_of, block_seconds, register_backoff_violation, compute_retry_seconds,
}

pub data DenialReason : Type 0 where
  temporarily_blocked rate_limited : DenialReason

-- The endpoint is the caller's; `none` is a call that is allowed.
pub record Denial : Type 0 where
  pub reason : DenialReason
  pub retry_after_seconds : ℕ

-- What the remote store answers for each key.
pub record Remote : Type 0 where
  pub limit : String → Option RateLimitResult
  pub block : String → Option ℕ
  pub violations : String → Option ℕ

-- The key of the identifier, where there is one: its test, its block and its violation.
abbrev limit_id :
    Limits → Remote → LimiterState → Option String → (now : ℕ) → LimiterState × RateLimitResult
limit_id limits remote state none now = (state, record { success = true; remaining = 0; reset = 0 })
limit_id limits remote state (some key) now = hybrid_limit limits (remote.limit key) state key now

abbrev block_until_id : Remote → LimiterState → Option String → (now : ℕ) → ℕ
block_until_id remote state none now = 0
block_until_id remote state (some key) now =
    or_else (get_block_until (remote.block key) state key now) 0

-- One target of the backoff: the state and the end of its block, 0 for a key that was not denied.
abbrev violate :
    Remote → LimiterState → (denied : Bool) → Option String → (now : ℕ) → LimiterState × ℕ
violate remote state false key now = (state, 0)
violate remote state true none now = (state, 0)
violate remote state true (some key) now =
    register_backoff_violation (remote.violations key) state key now

unfoldable pub enforce_auth_rate_limit :
    Limits
    → Remote
    → LimiterState
    → (ip_key : String) → (id_key : Option String) → (enable_backoff : Bool) → (now : ℕ)
    → LimiterState × Option Denial
enforce_auth_rate_limit limits remote state ip_key id_key enable_backoff now =
    let active_block_until =
      max (or_else (get_block_until (remote.block ip_key) state ip_key now) 0)
        (block_until_id remote state id_key now) in
    if ltb now active_block_until
    then (
      state,
      some (record {
        reason = temporarily_blocked;
        retry_after_seconds = compute_retry_seconds active_block_until 0 now;
      }),
    )
    else let (by_ip, ip_result) = hybrid_limit limits (remote.limit ip_key) state ip_key now in
      let (by_id, id_result) = limit_id limits remote by_ip id_key now in
      if ip_result.success && id_result.success
      then (by_id, none)
      else let (one, ip_until) =
          violate remote by_id (enable_backoff && not ip_result.success) (some ip_key) now in
        let (two, id_until) =
          violate remote one (enable_backoff && not id_result.success) id_key now in
        (
          two,
          some (record {
            reason = rate_limited;
            retry_after_seconds =
                compute_retry_seconds (max ip_until id_until) (max ip_result.reset id_result.reset)
                  now;
          }),
        )

block_seconds_bounds : (n : ℕ) → (30 ≤ block_seconds n) × (block_seconds n ≤ 900)
unfolding block_seconds
block_seconds_bounds n = omega (arith, one-le-pow (n - 1) 2 (omega arith))

not-leb : (a b : ℕ) → b < a → leb a b ≡ false
not-leb a b h = ground arith

still-later : (t : ℕ) (o : Option ℕ) (u : ℕ) → still t o ≡ some u → t < u
still-later t o u h = ground arith

still-some : (t u : ℕ) → t < u → still t (some u) ≡ some u
still-some t u h = rw (not-leb u t h) refl

blocked-after :
    (remote : Option ℕ) (state : LimiterState) (key : String) (now t : ℕ)
    → let (after, until) = register_backoff_violation none state key now in
      now ≤ t → t < until → (u : ℕ) × (get_block_until remote after key t ≡ some u) × (t < u)
unfolding get_block_until register_backoff_violation cleanup_local_backoff
blocked-after remote state key now t h lt = elim (Option-cases (still t remote)) [
  | inr (u, e) ↦ (u, rw (e, get_block_until) refl, still-later t remote u e)
  | inl e ↦
      let next = suc (violations_of (cleanup_local_backoff (state.backoff key) now)) in
      let until = now + block_seconds next * 1000 in
      (
        until,
        rw (e, get_block_until)
            (rw (eq_refl key) (
              rw (not-leb (now + 900000) t (omega (arith, (block_seconds_bounds next).1)))
                (still-some t until lt))),
        lt,
      )
]

active-block :
    (o : Option ℕ) (other t u : ℕ) → o ≡ some u → t < u → ltb t (max (or_else o 0) other) ≡ true
active-block o other t u e lt = ground arith

retry-positive : (a b now : ℕ) → 1 ≤ compute_retry_seconds a b now
unfolding compute_retry_seconds
retry-positive a b now = ground arith

blocked-enforce :
    (limits : Limits) (remote : Remote) (state : LimiterState) (key : String) (id : Option String)
    (backoff : Bool) (t u : ℕ)
    → get_block_until (remote.block key) state key t ≡ some u
    → t < u
    → let (after, denial) = enforce_auth_rate_limit limits remote state key id backoff t in
      (after ≡ state)
      × ((d : Denial) × (denial ≡ some d)
          × (d.reason ≡ temporarily_blocked)
          × (1 ≤ d.retry_after_seconds))
unfolding enforce_auth_rate_limit
blocked-enforce limits remote state key id backoff t u e lt =
    let until =
      max (or_else (get_block_until (remote.block key) state key t) 0)
        (block_until_id remote state id t) in
    rw
      (
        active-block (get_block_until (remote.block key) state key t)
            (block_until_id remote state id t) t u e lt,
        enforce_auth_rate_limit,
      )
      (
        refl,
        (
          record {
            reason = temporarily_blocked;
            retry_after_seconds = compute_retry_seconds until 0 t;
          },
          refl,
          refl,
          retry-positive until 0 t,
        ),
      )

-- A violation that is counted by the process blocks its key, of an endpoint and an address, for at
-- least 30 seconds and at most 15 minutes. Until then every call under the key is denied as blocked,
-- whatever the limits, the identifier and the remote store, with a wait of at least a second; it costs
-- nothing of a limit and does not lengthen the block.
pub violation_blocks :
    (limits : Limits) (remote : Remote) (state : LimiterState) (key : String) (id : Option String)
    (backoff : Bool) (now t : ℕ)
    → let (after, until) = register_backoff_violation none state key now in
      (now + 30000 ≤ until)
      × (until ≤ now + 900000)
      × (now ≤ t
          → t < until
          → let (then_, denial) = enforce_auth_rate_limit limits remote after key id backoff t in
            (then_ ≡ after)
            × ((d : Denial) × (denial ≡ some d)
                × (d.reason ≡ temporarily_blocked)
                × (1 ≤ d.retry_after_seconds)))
unfolding register_backoff_violation
violation_blocks limits remote state key id backoff now t =
    let next = suc (violations_of (cleanup_local_backoff (state.backoff key) now)) in
    (
      omega (arith, (block_seconds_bounds next).0),
      omega (arith, (block_seconds_bounds next).1),
      λ h lt.
          let (u, e, later) = blocked-after (remote.block key) state key now t h lt in
          blocked-enforce limits remote (register_backoff_violation none state key now).0 key id
            backoff t u e later,
    )
