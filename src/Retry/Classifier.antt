-- ===== src/Retry/Classifier.antt =====
-- `classifyExecutionError` of apps/task-worker/services/retry-classifier.ts.
use semantask.Prelude.{
  ℕ, ◌*◌, ◌/◌, ◌^◌, ◌≤◌, min, Bool, true, false, not, ◌&&◌, ◌||◌, List, [], ◌∷◌, take, some_of,
  if◌then◌else◌, arith, Bool-cases, inl, inr,
}
use native.Mathlib.Nat.{mul-le-mul, min-le_left, div-le_of_le-mul}
use semantask.Prelude.Text.{Text, codes, lower, starts, has_part}

pub data RetryCategory : Type 0 where
  transient_llm tool_timeout network validation permanent_tool_rejection : RetryCategory

pub record RetryDecision : Type 0 where
  pub retryable : Bool
  pub category : RetryCategory
  pub delay_ms : ℕ
  pub reason : Text

-- The configuration of the worker.
pub record BackoffConfig : Type 0 where
  pub retry_base_backoff_ms : ℕ
  pub retry_max_backoff_ms : ℕ

-- `jitter` is the random factor in ten thousandths, from 5000 to 9999.
unfoldable pub compute_backoff_delay : BackoffConfig → (attempt jitter : ℕ) → ℕ
compute_backoff_delay config attempt jitter =
    min config.retry_max_backoff_ms (config.retry_base_backoff_ms * 2 ^ attempt) * jitter / 10000

-- `lower.includes(...) || ...`
unfoldable pub names_any : List Text → Text → Bool
names_any parts lowered = some_of (λ p. has_part p lowered) parts

abbrev pub llm_words : List Text
llm_words = codes "rate limit" ∷ codes "overloaded" ∷ []

abbrev pub timeout_words : List Text
timeout_words =
    codes "abort"
    ∷ codes "timeout"
    ∷ codes "timed out"
    ∷ codes "lease_heartbeat_lost"
    ∷ codes "lease heartbeat"
    ∷ []

abbrev pub network_words : List Text
network_words =
    codes "econnreset"
    ∷ codes "econnrefused"
    ∷ codes "network"
    ∷ codes "fetch failed"
    ∷ codes "socket hang up"
    ∷ []

abbrev pub validation_words : List Text
validation_words =
    codes "validation"
    ∷ codes "invalid parameter"
    ∷ codes "zod"
    ∷ codes "parse"
    ∷ codes "schema"
    ∷ []

abbrev pub rejection_words : List Text
rejection_words =
    codes "rejected"
    ∷ codes "forbidden"
    ∷ codes "unauthorized"
    ∷ codes "not allowed"
    ∷ codes "policy"
    ∷ []

-- The category, by the first list of words that matches; `network` where none does.
unfoldable pub category_of : (message : Text) → RetryCategory
category_of message =
    let lowered = lower message in
    if starts message (codes "LLM_ERROR:") || names_any llm_words lowered
    then transient_llm
    else if names_any timeout_words lowered
    then tool_timeout
    else if names_any network_words lowered
    then network
    else if names_any validation_words lowered
    then validation
    else if names_any rejection_words lowered
        || (has_part (codes "status 4") lowered && not (has_part (codes "429") lowered))
    then permanent_tool_rejection
    else network

abbrev pub is_retryable : RetryCategory → Bool
is_retryable validation = false
is_retryable permanent_tool_rejection = false
is_retryable _ = true

unfoldable pub classify_execution_error :
    BackoffConfig → (jitter : ℕ) → (message : Text) → (attempt : ℕ) → RetryDecision
classify_execution_error config jitter message attempt =
    let category = category_of message in
    record {
      retryable = is_retryable category;
      category = category;
      delay_ms = if is_retryable category then compute_backoff_delay config attempt jitter else 0;
      reason = take 500 message;
    }

pub compute_backoff_delay_le :
    (config : BackoffConfig) (attempt jitter : ℕ)
    → jitter ≤ 10000
    → compute_backoff_delay config attempt jitter ≤ config.retry_max_backoff_ms
unfolding compute_backoff_delay
compute_backoff_delay_le config attempt jitter h = div-le_of_le-mul 10000 (
    omega (
      arith,
      mul-le-mul
          (min-le_left config.retry_max_backoff_ms (config.retry_base_backoff_ms * 2 ^ attempt)) h,
    ))

pub classify_delay_le :
    (config : BackoffConfig) (jitter : ℕ) (message : Text) (attempt : ℕ)
    → jitter ≤ 10000
    → (classify_execution_error config jitter message attempt).delay_ms
      ≤ config.retry_max_backoff_ms
unfolding classify_execution_error
classify_delay_le config jitter message attempt h =
    elim (Bool-cases (is_retryable (category_of message))) [
      | inl r ↦ rw r (compute_backoff_delay_le config attempt jitter h)
      | inr r ↦ rw r (omega arith)
    ]
