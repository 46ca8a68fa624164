-- ===== src/Lease/Runner.antt =====
-- `withExecutionLease` of apps/task-worker/services/lease.service.ts. What happens between the
-- acquisition and the end of the function is a list of events: the ticks of the timer and the
-- operations of other workers. The release at the end always reaches the database: its failure, which
-- the code passes on, is left out.
pub mod Session
use semantask.Prelude.{
  ℕ, zero, suc, ◌+◌, Bool, true, false, List, [], ◌∷◌, Option, none, some, String, or_else,
  if◌then◌else◌,
}
use semantask.Prelude.Result.{Result, ok, err}
use semantask.Lease.{
  TaskLease, heartbeat_task_lease, release_task_lease, acquire_execution_lease,
  get_lease_renewal_interval_ms,
}
use semantask.Lease.Exclusion.{LeaseStep, lease_step}

-- `tick now fails`: the timer fires at `now`; the database fails or answers.
pub data RunEvent : Type 0 where
  tick : (now : ℕ) → (fails : Bool) → RunEvent
  other : LeaseStep → RunEvent

pub record LeaseSession : Type 0 where
  pub task : TaskLease
  pub heartbeat_lost : Bool
  pub aborted : Bool
  pub expires_at : ℕ

abbrev lose : LeaseSession → LeaseSession
lose session = record session { heartbeat_lost = true; aborted = true }

unfoldable pub renewal : LeaseSession → Option TaskLease → LeaseSession
renewal session none = lose session
renewal session (some renewed) = record session {
  task = renewed;
  expires_at = or_else renewed.lease_expires_at session.expires_at;
}

-- The timer's function.
unfoldable pub on_tick :
    LeaseSession → (worker_id : String) → (now lease_ms : ℕ) → (fails : Bool) → LeaseSession
on_tick session worker_id now lease_ms fails =
    if session.aborted
    then session
    else if fails
    then lose session
    else renewal session (heartbeat_task_lease (some session.task) worker_id now lease_ms)

unfoldable pub run_events :
    LeaseSession → (worker_id : String) → (lease_ms : ℕ) → List RunEvent → LeaseSession
run_events session worker_id lease_ms [] = session
run_events session worker_id lease_ms (tick now fails ∷ events) =
    run_events (on_tick session worker_id now lease_ms fails) worker_id lease_ms events
run_events session worker_id lease_ms (other s ∷ events) =
    run_events (record session { task = lease_step session.task s }) worker_id lease_ms events

-- What a call comes to; `lost` is the error `LEASE_HEARTBEAT_LOST`, `thrown` one of the function.
pub data LeaseOutcome (E A : Type 0) : Type 0 where
  lease_busy lost : LeaseOutcome E A
  completed : A → LeaseOutcome E A
  thrown : E → LeaseOutcome E A

unfoldable pub finish : {E A : Type 0} → (heartbeat_lost : Bool) → Result E A → LeaseOutcome E A
finish heartbeat_lost (err e) = thrown e
finish heartbeat_lost (ok a) = if heartbeat_lost then lost else completed a

abbrev pub start : TaskLease → (now lease_ms : ℕ) → LeaseSession
start task now lease_ms = record {
  task = task;
  heartbeat_lost = false;
  aborted = false;
  expires_at = now + lease_ms;
}

-- The document afterwards and what the call comes to; `result` is that of the function.
unfoldable pub with_execution_lease :
    {E A : Type 0}
    → Option TaskLease
    → (worker_id run_id : String) → (now lease_ms : ℕ) → List RunEvent
    → (result : Result E A) → Option TaskLease × LeaseOutcome E A
with_execution_lease found worker_id run_id now lease_ms events result =
    elim (acquire_execution_lease found worker_id run_id now lease_ms) [
      | none ↦ (found, lease_busy)
      | some task ↦
          let session = run_events (start task now lease_ms) worker_id lease_ms events in
          (some (release_task_lease session.task worker_id), finish session.heartbeat_lost result)
    ]

-- The caller's check: a busy lease is an error.
unfoldable pub assert_execution_lease_completed : {E A : Type 0} → LeaseOutcome E A → Bool
assert_execution_lease_completed lease_busy = false
assert_execution_lease_completed o = true

-- The ticks of a timer that starts at `now`.
abbrev pub regular_ticks : (count now lease_ms : ℕ) → List RunEvent
regular_ticks zero now lease_ms = []
regular_ticks (suc count) now lease_ms =
    let next = now + get_lease_renewal_interval_ms lease_ms in
    tick next false ∷ regular_ticks count next lease_ms
