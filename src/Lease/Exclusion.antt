-- ===== src/Lease/Exclusion.antt =====
-- One worker at a time: what the operations of the others can do to a lease.
use semantask.Prelude.{
  ℕ, ◌+◌, ◌≤◌, ◌<◌, ltb, true, false, List, [], ◌∷◌, Option, none, some, String, str_eq, All,
  or_else, is_some, ◌≡◌, ◌↔◌, ◌⊎◌, inl, inr, refl, arith, eq_iff, Option-cases,
}
use semantask.Lease.{
  TaskLease, is_owner, is_available, is_live, acquire_task_lease, heartbeat_task_lease,
  release_task_lease, acquire_execution_lease,
}

-- An operation of a worker on the task.
pub data LeaseStep : Type 0 where
  acquire : (worker_id : String) → (now lease_ms : ℕ) → LeaseStep
  acquire_run : (worker_id run_id : String) → (now lease_ms : ℕ) → LeaseStep
  heartbeat : (worker_id : String) → (now lease_ms : ℕ) → LeaseStep
  release : (worker_id : String) → LeaseStep

-- An operation whose filter fails writes nothing.
unfoldable pub lease_step : TaskLease → LeaseStep → TaskLease
lease_step task (acquire w now ms) = or_else (acquire_task_lease (some task) w now ms) task
lease_step task (acquire_run w r now ms) =
    or_else (acquire_execution_lease (some task) w r now ms) task
lease_step task (heartbeat w now ms) = or_else (heartbeat_task_lease (some task) w now ms) task
lease_step task (release w) = release_task_lease task w

unfoldable pub lease_steps : TaskLease → List LeaseStep → TaskLease
unfolding lease_step
lease_steps task [] = task
lease_steps task (s ∷ ss) = lease_steps (lease_step task s) ss

-- The operation is that of another worker, made by the time given.
abbrev pub ByAnother : (worker_id : String) → (until : ℕ) → LeaseStep → Type 0
ByAnother w until (acquire v now ms) = (str_eq w v ≡ false) × (now ≤ until)
ByAnother w until (acquire_run v r now ms) = (str_eq w v ≡ false) × (now ≤ until)
ByAnother w until (heartbeat v now ms) = str_eq w v ≡ false
ByAnother w until (release v) = str_eq w v ≡ false

-- The worker holds the lease until the time given.
abbrev pub Holds : TaskLease → (worker_id : String) → (until : ℕ) → Type 0
Holds task w until = (task.lease_owner ≡ some w) × (task.lease_expires_at ≡ some until)

not-before : (until now : ℕ) → now ≤ until → ltb until now ≡ false
not-before until now h = ground arith

step-kept :
    (task : TaskLease) (w : String) (until : ℕ) (s : LeaseStep)
    → Holds task w until
    → ByAnother w until s
    → lease_step task s ≡ task
unfolding lease_step acquire_task_lease acquire_execution_lease heartbeat_task_lease
    release_task_lease is_available is_live
step-kept task w until (acquire v now ms) (ho, he) (other, early) =
    rw (ho, he) (rw (other, not-before _ _ early) refl)
step-kept task w until (acquire_run v r now ms) (ho, he) (other, early) =
    rw (ho, he) (rw (other, not-before _ _ early) refl)
step-kept task w until (heartbeat v now ms) (ho, he) other = rw (ho) (rw other refl)
step-kept task w until (release v) (ho, he) other = rw (ho) (rw other refl)

-- While a worker holds a lease, no operation of the others made by its end changes the task, in
-- whatever order they come: none of them acquires, extends or releases it.
pub held-lease_steps :
    (task : TaskLease) (w : String) (until : ℕ) (ss : List LeaseStep)
    → Holds task w until
    → All (ByAnother w until) ss
    → lease_steps task ss ≡ task
unfolding lease_steps
held-lease_steps task w until [] h a = refl
held-lease_steps task w until (s ∷ ss) h (a, rest) =
    rw (step-kept task w until s h a) (held-lease_steps task w until ss h rest)

pub is_owner_iff :
    (task : TaskLease) (w : String) → (is_owner task w ≡ true) ↔ (task.lease_owner ≡ some w)
is_owner_iff task w = elim (Option-cases task.lease_owner) [
  | inl e ↦ rw e (ground arith)
  | inr (o, e) ↦ rw e (ground (arith, eq_iff o w))
]

-- An end that is missing counts as one that has passed.
abbrev pub HasEnded : Option ℕ → (now : ℕ) → Type 0
HasEnded none now = Unit
HasEnded (some e) now = e < now

-- No run gets the lease of a task that does not exist. On one that does, a run gets it exactly
-- when there is no owner, no end or one that has passed, or this worker is the owner. It then
-- holds it for the time asked, with its own run and a new sequence of events.
pub acquire_execution_lease_lem :
    (task : TaskLease) (w r : String) (now ms : ℕ)
    → (acquire_execution_lease none w r now ms ≡ none)
      × (is_some (acquire_execution_lease (some task) w r now ms) ≡ true
          ↔ (task.lease_owner ≡ none)
            ⊎ (HasEnded task.lease_expires_at now ⊎ (task.lease_owner ≡ some w)))
      × ((after : TaskLease)
          → acquire_execution_lease (some task) w r now ms ≡ some after
          → Holds after w (now + ms)
            × (after.execution_run_id ≡ some r)
            × (after.execution_event_sequence ≡ 0))
unfolding acquire_execution_lease is_available
acquire_execution_lease_lem task w r now ms = ground (arith, is_owner_iff task w)
