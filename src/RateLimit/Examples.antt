-- ===== src/RateLimit/Examples.antt =====
-- The theorems on the limits at concrete calls.
use semantask.Prelude.{ℕ, suc, ◌≤◌, ◌<◌, true, List, [], ◌∷◌, none, some, ◌≡◌, arith}
use semantask.RateLimit.{Bucket, Limits, LimiterState, limit_bucket, register_backoff_violation}
use semantask.RateLimit.Window.{let_through, window_lem}
use semantask.RateLimit.Backoff.{
  Denial, temporarily_blocked, Remote, enforce_auth_rate_limit, violation_blocks,
}

abbrev login : Limits
login = record { window_ms = 60000; max_calls = 5 }

abbrev old_bucket : Bucket
old_bucket = record { count = 9; reset_at = 1000 }

abbrev times : List ℕ
times = 2000 ∷ 3000 ∷ 4000 ∷ 5000 ∷ 6000 ∷ []

window_lem_example :
    let (bucket, result) = limit_bucket login (some old_bucket) 1000 in
    (result.success ≡ true) × (suc (let_through login bucket times) ≡ 5)
window_lem_example =
    window_lem login (some old_bucket) 1000 times (omega arith) (omega arith)
      (omega arith, (omega arith, (omega arith, (omega arith, (omega arith, tt)))))

abbrev remote : Remote
remote = record { limit = λ k. none; block = λ k. none; violations = λ k. none }

abbrev empty : LimiterState
empty = record { buckets = λ k. none; backoff = λ k. none }

violation_blocks_example :
    let (after, until) = register_backoff_violation none empty "auth:login:ip:1.2.3.4" 1000 in
    (31000 ≤ until)
    × (until ≤ 901000)
    × (1000 ≤ 2000
        → 2000 < until
        → let (then_, denial) =
            enforce_auth_rate_limit login remote after "auth:login:ip:1.2.3.4" none true 2000 in
          (then_ ≡ after)
          × ((d : Denial) × (denial ≡ some d)
              × (d.reason ≡ temporarily_blocked)
              × (1 ≤ d.retry_after_seconds)))
violation_blocks_example =
    violation_blocks login remote empty "auth:login:ip:1.2.3.4" none true 1000 2000
