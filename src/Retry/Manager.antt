-- ===== src/Retry/Manager.antt =====
-- `RetryManager.execute` of apps/task-worker/services/retry-manager.ts. The operation is a
-- function of the number of the attempt and of the retries so far; waiting is left out.
pub mod Attempts
use semantask.Prelude.{
  ℕ, zero, suc, ◌-◌, min, ltb, Bool, true, false, ◌&&◌, List, [], ◌∷◌, length, get_or, Option, none,
  some, if◌then◌else◌,
}
use semantask.Prelude.Result.{Result, ok, err}

abbrev pub default_backoff : List ℕ
default_backoff = 1000 ∷ 2000 ∷ 5000 ∷ []

unfoldable pub get_delay_ms : (backoff_schedule : List ℕ) → (retry_count : ℕ) → ℕ
get_delay_ms schedule zero = 0
get_delay_ms schedule (suc n) = get_or schedule (min n (length schedule - 1)) 0

-- What the callback of a retry is told; the reason is made of the error.
pub record RetryAttemptDetails (E : Type 0) : Type 0 where
  pub attempt : ℕ
  pub retry_count : ℕ
  pub max_retries : ℕ
  pub delay_ms : ℕ
  pub error : E

abbrev pub details :
    {E : Type 0}
    → (schedule : List ℕ) → (max_retries attempt retry_count : ℕ) → E
    → RetryAttemptDetails E
details schedule max_retries attempt retry_count e = record {
  attempt = attempt;
  retry_count = retry_count;
  max_retries = max_retries;
  delay_ms = get_delay_ms schedule retry_count;
  error = e;
}

module _ {E A : Type 0} where
  -- The loop. `none` is a run that the fuel did not suffice for.
  unfoldable pub execute_loop :
      (schedule : List ℕ)
      → (operation : ℕ → ℕ → Result E A) → (should_retry : E → Bool)
      → (max_retries fuel attempt retry_count : ℕ)
      → Option (Result E A × List (RetryAttemptDetails E))
  execute_loop schedule operation should_retry max_retries zero attempt retry_count = none
  execute_loop schedule operation should_retry max_retries (suc fuel) attempt retry_count =
      elim (operation (suc attempt) retry_count) [
        | ok a ↦ some (ok a, [])
        | err e ↦
            let rest =
              execute_loop schedule operation should_retry max_retries fuel (suc attempt)
                (suc retry_count) in
            if ltb retry_count max_retries && should_retry e
            then elim rest [
              | none ↦ none
              | some (r, log) ↦
                  some (r, details schedule max_retries (suc attempt) (suc retry_count) e ∷ log)
            ]
            else some (err e, [])
      ]

  -- The result and the retries. The fuel is one more than the retries that are left.
  unfoldable pub execute :
      (schedule : List ℕ)
      → (operation : ℕ → ℕ → Result E A) → (should_retry : E → Bool) → (max_retries retry_count : ℕ)
      → Option (Result E A × List (RetryAttemptDetails E))
  execute schedule operation should_retry max_retries retry_count =
      execute_loop schedule operation should_retry max_retries (suc (max_retries - retry_count)) 0
        retry_count
