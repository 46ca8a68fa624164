-- ===== src/Lease.antt =====
-- The lease of a task: apps/task-worker/services/task-lease.ts and `acquireExecutionLease` of
-- lease.service.ts. An operation reads and writes one document atomically, as `findOneAndUpdate`
-- and `updateOne` do, so it is a function of that document; `none` is a task that does not exist.
pub mod Exclusion
pub mod Runner
mod Examples
use semantask.Prelude.{
  ℕ, ◌+◌, ◌*◌, ◌/◌, max, ltb, Bool, true, false, ◌&&◌, ◌||◌, Option, none, some, String, str_eq,
  if◌then◌else◌,
}

-- The fields of the task that the lease uses. Times are in milliseconds.
pub record TaskLease : Type 0 where
  pub lease_owner : Option String
  pub lease_expires_at : Option ℕ
  pub last_heartbeat_at : Option ℕ
  pub execution_run_id : Option String
  pub execution_started_at : Option ℕ
  pub execution_event_sequence : ℕ

-- `leaseOwner: workerId`
abbrev pub is_owner : TaskLease → (worker_id : String) → Bool
is_owner task worker_id = elim task.lease_owner [
  | none ↦ false
  | some owner ↦ str_eq owner worker_id
]

-- The `$or` of the filter: no owner, no end, an end before `now`, or the worker's own.
unfoldable pub is_available : TaskLease → (worker_id : String) → (now : ℕ) → Bool
is_available task worker_id now =
    (elim task.lease_owner [ none ↦ true | some owner ↦ false ])
    || (elim task.lease_expires_at [ none ↦ true | some expires ↦ ltb expires now ])
    || is_owner task worker_id

-- The filter of a heartbeat: the worker's own lease, not at its end.
unfoldable pub is_live : TaskLease → (worker_id : String) → (now : ℕ) → Bool
is_live task worker_id now =
    is_owner task worker_id
    && (elim task.lease_expires_at [ none ↦ false | some expires ↦ ltb now expires ])

-- `none` where the filter matches no document.
unfoldable pub acquire_task_lease :
    Option TaskLease → (worker_id : String) → (now lease_ms : ℕ) → Option TaskLease
acquire_task_lease none worker_id now lease_ms = none
acquire_task_lease (some task) worker_id now lease_ms =
    if is_available task worker_id now
    then some (record task {
      lease_owner = some worker_id;
      lease_expires_at = some (now + lease_ms);
      last_heartbeat_at = some now;
    })
    else none

unfoldable pub heartbeat_task_lease :
    Option TaskLease → (worker_id : String) → (now lease_ms : ℕ) → Option TaskLease
heartbeat_task_lease none worker_id now lease_ms = none
heartbeat_task_lease (some task) worker_id now lease_ms =
    if is_live task worker_id now
    then some
        (record task { lease_expires_at = some (now + lease_ms); last_heartbeat_at = some now })
    else none

unfoldable pub release_task_lease : TaskLease → (worker_id : String) → TaskLease
release_task_lease task worker_id =
    if is_owner task worker_id
    then record task { lease_owner = none; lease_expires_at = none }
    else task

-- The acquisition for a run also writes the run and starts its sequence of events again.
unfoldable pub acquire_execution_lease :
    Option TaskLease → (worker_id run_id : String) → (now lease_ms : ℕ) → Option TaskLease
acquire_execution_lease none worker_id run_id now lease_ms = none
acquire_execution_lease (some task) worker_id run_id now lease_ms =
    if is_available task worker_id now
    then some (record task {
      lease_owner = some worker_id;
      lease_expires_at = some (now + lease_ms);
      last_heartbeat_at = some now;
      execution_run_id = some run_id;
      execution_started_at = some now;
      execution_event_sequence = 0;
    })
    else none

unfoldable pub get_lease_renewal_interval_ms : (lease_ms : ℕ) → ℕ
get_lease_renewal_interval_ms lease_ms = max 1000 (lease_ms / 3)
