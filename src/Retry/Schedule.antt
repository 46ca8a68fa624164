-- ===== src/Retry/Schedule.antt =====
-- `scheduleTaskRetry` of apps/task-worker/services/schedule-retry.ts. The task and its stored copy
-- get the same fields, so they are one record; the callback is left out.
use semantask.Prelude.{
  ℕ, suc, ◌+◌, ◌≤◌, ◌<◌, ltb, true, not, ◌||◌, Option, some, or_else, if◌then◌else◌, ◌≡◌, ◌↔◌, ◌⊎◌,
  arith,
}
use semantask.Prelude.Text.{Text}
use semantask.Execution.Kind.{TaskLifecycleState, TaskStatus}
use semantask.Retry.Classifier.{
  RetryDecision, BackoffConfig, classify_execution_error, classify_delay_le,
}

pub record RetryTask : Type 0 where
  pub lifecycle_state : TaskLifecycleState
  pub status : TaskStatus
  pub retry_count : Option ℕ
  pub max_retries : Option ℕ
  pub next_retry_at : Option ℕ
  pub last_retry_reason : Option Text
  pub last_retry_at : Option ℕ

pub data ScheduleRetryResult : Type 0 where
  scheduled : (retry_count next_retry_at : ℕ) → RetryDecision → ScheduleRetryResult
  exhausted not_retryable : (retry_count : ℕ) → RetryDecision → ScheduleRetryResult

abbrev pub current_retry : RetryTask → ℕ
current_retry task = or_else task.retry_count 0

abbrev pub retry_limit : RetryTask → ℕ
retry_limit task = or_else task.max_retries 2

unfoldable pub fail_retry : RetryTask → RetryDecision → (now : ℕ) → RetryTask × ScheduleRetryResult
fail_retry task decision now = (
  record task {
    lifecycle_state = TaskLifecycleState.failed;
    status = TaskStatus.failed;
    retry_count = some (suc (current_retry task));
    last_retry_reason = some decision.reason;
    last_retry_at = some now;
  },
  if decision.retryable
      then exhausted (suc (current_retry task)) decision
      else not_retryable (suc (current_retry task)) decision,
)

unfoldable pub plan_retry : RetryTask → RetryDecision → (now : ℕ) → RetryTask × ScheduleRetryResult
plan_retry task decision now = (
  record task {
    lifecycle_state = TaskLifecycleState.retry_scheduled;
    status = TaskStatus.partial;
    retry_count = some (suc (current_retry task));
    next_retry_at = some (now + decision.delay_ms);
    last_retry_reason = some decision.reason;
    last_retry_at = some now;
  },
  scheduled (suc (current_retry task)) (now + decision.delay_ms) decision,
)

unfoldable pub schedule_task_retry :
    BackoffConfig
    → (jitter : ℕ) → RetryTask
    → (message : Text) → (now : ℕ) → RetryTask × ScheduleRetryResult
schedule_task_retry config jitter task message now =
    let decision = classify_execution_error config jitter message (current_retry task) in
    if not decision.retryable || ltb (retry_limit task) (suc (current_retry task))
    then fail_retry task decision now
    else plan_retry task decision now

-- A task is set to retry exactly when the error can be retried and the budget is not used up; it
-- then has a count within the budget and is due after no more than the greatest backoff.
-- Otherwise it has failed. Either way one more retry is counted.
pub schedule_task_retry_lem :
    (config : BackoffConfig) (jitter : ℕ) (task : RetryTask) (message : Text) (now : ℕ)
    → jitter ≤ 10000
    → let decision = classify_execution_error config jitter message (current_retry task) in
      let after = (schedule_task_retry config jitter task message now).0 in
      (after.lifecycle_state ≡ TaskLifecycleState.retry_scheduled
        ↔ (decision.retryable ≡ true) × (current_retry task < retry_limit task))
      × (after.retry_count ≡ some (suc (current_retry task)))
      × (after.lifecycle_state ≡ TaskLifecycleState.retry_scheduled
          → (after.next_retry_at ≡ some (now + decision.delay_ms))
            × (now + decision.delay_ms ≤ now + config.retry_max_backoff_ms)
            × (suc (current_retry task) ≤ retry_limit task))
      × ((after.lifecycle_state ≡ TaskLifecycleState.retry_scheduled)
          ⊎ ((after.lifecycle_state ≡ TaskLifecycleState.failed)
              × (after.status ≡ TaskStatus.failed)))
unfolding schedule_task_retry fail_retry plan_retry
schedule_task_retry_lem config jitter task message now h =
    ground (arith, classify_delay_le config jitter message (current_retry task) h)
