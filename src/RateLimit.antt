-- ===== src/RateLimit.antt =====
-- The limits on requests to the authentication: apps/web/lib/utils/rateLimiter.ts. The maps of the
-- process are functions of a key. The remote store is a parameter: what it answers for a key, or
-- `none` where there is no client, no answer or an error. A call reads one time.
pub mod Window
pub mod Backoff
mod Examples
use semantask.Prelude.{
  ℕ, zero, suc, ◌+◌, ◌-◌, ◌*◌, ◌/◌, ◌^◌, min, max, leb, ltb, ◌==◌, Bool, true, false, not, ◌&&◌,
  ◌||◌, Option, none, some, or_else, String, str_eq, if◌then◌else◌,
}

pub record RateLimitResult : Type 0 where
  pub success : Bool
  pub remaining : ℕ
  pub reset : ℕ

pub record Bucket : Type 0 where
  pub count : ℕ
  pub reset_at : ℕ

pub record LocalBackoffState : Type 0 where
  pub violations : ℕ
  pub block_until : ℕ
  pub expire_at : ℕ

-- A limiter's window and its greatest number of calls.
pub record Limits : Type 0 where
  pub window_ms : ℕ
  pub max_calls : ℕ

abbrev pub write {ℓ} : {A : Type ℓ} → (String → A) → String → A → String → A
write m key a k = if str_eq k key then a else m k

-- `InMemoryRateLimiter.limit`: the bucket of the key afterwards, and the result.
unfoldable pub limit_bucket : Limits → Option Bucket → (now : ℕ) → Bucket × RateLimitResult
limit_bucket limits none now = (
  record { count = 1; reset_at = now + limits.window_ms },
  record { success = true; remaining = limits.max_calls - 1; reset = now + limits.window_ms },
)
limit_bucket limits (some b) now =
    if leb b.reset_at now
    then (
      record { count = 1; reset_at = now + limits.window_ms },
      record { success = true; remaining = limits.max_calls - 1; reset = now + limits.window_ms },
    )
    else (
      record b { count = suc b.count },
      record {
        success = leb (suc b.count) limits.max_calls;
        remaining = limits.max_calls - suc b.count;
        reset = b.reset_at;
      },
    )

-- What the process keeps.
pub record LimiterState : Type 0 where
  pub buckets : String → Option Bucket
  pub backoff : String → Option LocalBackoffState

-- `HybridRateLimiter.limit`: the answer of the remote limiter, or the local one without it.
unfoldable pub hybrid_limit :
    Limits
    → (remote : Option RateLimitResult) → LimiterState
    → (key : String) → (now : ℕ) → LimiterState × RateLimitResult
hybrid_limit limits (some result) state key now = (state, result)
hybrid_limit limits none state key now =
    let (bucket, result) = limit_bucket limits (state.buckets key) now in
    (record state { buckets = write state.buckets key (some bucket) }, result)

abbrev pub still : (now : ℕ) → Option ℕ → Option ℕ
still now none = none
still now (some until) = if leb until now then none else some until

-- The state of the key, without one that has expired.
unfoldable pub cleanup_local_backoff :
    Option LocalBackoffState → (now : ℕ) → Option LocalBackoffState
cleanup_local_backoff none now = none
cleanup_local_backoff (some s) now = if leb s.expire_at now then none else some s

abbrev pub block_of : Option LocalBackoffState → Option ℕ
block_of none = none
block_of (some s) = some s.block_until

-- `getBlockUntil`; `remote` is the number that the remote store holds.
unfoldable pub get_block_until :
    (remote : Option ℕ) → LimiterState → (key : String) → (now : ℕ) → Option ℕ
get_block_until remote state key now = elim (still now remote) [
  | some until ↦ some until
  | none ↦ still now (block_of (cleanup_local_backoff (state.backoff key) now))
]

abbrev pub violations_of : Option LocalBackoffState → ℕ
violations_of none = 0
violations_of (some s) = s.violations

-- The block after so many violations, in seconds: 30, doubled each time, up to 900.
unfoldable pub block_seconds : (violations : ℕ) → ℕ
block_seconds violations = min (30 * 2 ^ (violations - 1)) 900

-- `registerBackoffViolation`; `remote` is the number of violations that the remote store counts,
-- whose own writes are not the process's.
unfoldable pub register_backoff_violation :
    (remote : Option ℕ) → LimiterState → (key : String) → (now : ℕ) → LimiterState × ℕ
register_backoff_violation (some violations) state key now =
    (state, now + block_seconds violations * 1000)
register_backoff_violation none state key now =
    let next = suc (violations_of (cleanup_local_backoff (state.backoff key) now)) in
    let until = now + block_seconds next * 1000 in
    (
      record state {
        backoff =
            write state.backoff key
              (some (record { violations = next; block_until = until; expire_at = now + 900000 }));
      },
      until,
    )

-- `computeRetrySeconds`, where 0 stands for a time that is missing.
unfoldable pub compute_retry_seconds : (block_until reset_at now : ℕ) → ℕ
compute_retry_seconds block_until reset_at now =
    let until = max block_until reset_at in
    if until == 0 then 60 else max 1 ((until - now + 999) / 1000)
