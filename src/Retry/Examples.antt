-- ===== src/Retry/Examples.antt =====
-- The theorems on retries at concrete failures.
use semantask.Prelude.{ℕ, ltb, Bool, true, List, none, some, String, if◌then◌else◌, ◌≡◌}
use semantask.Prelude.Result.{Result, ok, err}
use semantask.Execution.Kind.{TaskLifecycleState, TaskStatus}
use semantask.Retry.Classifier.{BackoffConfig}
use semantask.Retry.Manager.{default_backoff, RetryAttemptDetails, execute}
use semantask.Retry.Manager.Attempts.{Attempted, execute_lem}
use semantask.Retry.Schedule.{RetryTask}

-- Succeeds at the third attempt.
abbrev flaky : ℕ → ℕ → Result String ℕ
flaky attempt n = if ltb attempt 3 then err "timeout" else ok attempt

abbrev every_error : String → Bool
every_error e = true

execute_lem_example :
    (r : Result String ℕ) × (log : List (RetryAttemptDetails String)) × (execute default_backoff
        flaky every_error 2 0
      ≡ some (r, log))
    × Attempted default_backoff flaky every_error 2 0 0 r log
execute_lem_example = execute_lem default_backoff flaky every_error 2 0

abbrev config : BackoffConfig
config = record { retry_base_backoff_ms = 1000; retry_max_backoff_ms = 60000 }

abbrev task : RetryTask
task = record {
  lifecycle_state = TaskLifecycleState.executing;
  status = TaskStatus.executing;
  retry_count = some 1;
  max_retries = none;
  next_retry_at = none;
  last_retry_reason = none;
  last_retry_at = none;
}
