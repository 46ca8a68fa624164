-- ===== src/Lease/Examples.antt =====
-- The theorems on the lease at concrete tasks.
use semantask.Prelude.{ℕ, false, List, [], ◌∷◌, none, some, String, ◌≡◌, ◌↔◌, refl, arith}
use semantask.Prelude.Result.{Result, ok, err}
use semantask.Lease.{TaskLease, is_owner, acquire_execution_lease}
use semantask.Lease.Exclusion.{
  LeaseStep, acquire, release, heartbeat, lease_steps, held-lease_steps,
}
use semantask.Lease.Runner.{
  RunEvent, tick, other, lease_busy, completed, thrown, run_events, start, with_execution_lease,
}
use semantask.Lease.Runner.Session.{TicksLive, with_execution_lease_lem}

abbrev free_task : TaskLease
free_task = record {
  lease_owner = none;
  lease_expires_at = none;
  last_heartbeat_at = none;
  execution_run_id = none;
  execution_started_at = none;
  execution_event_sequence = 7;
}

abbrev held_task : TaskLease
held_task = record free_task { lease_owner = some "worker-1"; lease_expires_at = some 5000 }

abbrev by_others : List LeaseStep
by_others = acquire "worker-2" 4000 9000 ∷ heartbeat "worker-2" 4500 9000 ∷ release "worker-2" ∷ []

held-lease_steps_example : lease_steps held_task by_others ≡ held_task
held-lease_steps_example =
    held-lease_steps held_task "worker-1" 5000 by_others (refl, refl)
      ((refl, omega arith), (refl, (refl, tt)))

abbrev events : List RunEvent
events = tick 1500 false ∷ other (acquire "worker-2" 2000 100) ∷ []

abbrev result : Result String ℕ
result = ok 3

with_execution_lease_lem_example :
    let call = with_execution_lease (some free_task) "worker-1" "run-1" 1000 3000 events result in
    (acquire_execution_lease (some free_task) "worker-1" "run-1" 1000 3000 ≡ none
      → call ≡ (some free_task, lease_busy))
    × ((held : TaskLease)
        → acquire_execution_lease (some free_task) "worker-1" "run-1" 1000 3000 ≡ some held
        → ((a : ℕ)
            → (call.1 ≡ completed a) ↔ (result ≡ ok a) × TicksLive held "worker-1" 3000 events)
          × ((e : String) → (call.1 ≡ thrown e) ↔ (result ≡ err e))
          × (end : TaskLease) × (call.0 ≡ some end)
          × (is_owner end "worker-1" ≡ false)
          × (is_owner (run_events (start held 1000 3000) "worker-1" 3000 events).task "worker-1"
                ≡ false
              → end ≡ (run_events (start held 1000 3000) "worker-1" 3000 events).task))
with_execution_lease_lem_example =
    with_execution_lease_lem free_task "worker-1" "run-1" 1000 3000 events result
