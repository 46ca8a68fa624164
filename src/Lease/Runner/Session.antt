-- ===== src/Lease/Runner/Session.antt =====
-- What a run under a lease can rely on.
use semantask.Prelude.{
  ℕ, zero, suc, ◌+◌, ◌<◌, lt→ltb, Bool, true, false, List, [], ◌∷◌, none, some, String, ◌≡◌, ap,
  ◌∙◌, ◌↔◌, ◌⊎◌, inl, inr, refl, arith, or_else, eq_refl,
}
use semantask.Prelude.Result.{Result, ok, err}
use semantask.Lease.{
  TaskLease, is_owner, is_live, heartbeat_task_lease, release_task_lease, acquire_execution_lease,
  get_lease_renewal_interval_ms,
}
use semantask.Lease.Exclusion.{lease_step, Holds}
use semantask.Lease.Runner.{
  RunEvent, tick, other, LeaseSession, renewal, on_tick, run_events, lease_busy, completed, thrown,
  finish, start, with_execution_lease, regular_ticks,
}

-- Every tick reached the database and found the worker's own lease before its end.
abbrev pub TicksLive : TaskLease → (worker_id : String) → (lease_ms : ℕ) → List RunEvent → Type 0
TicksLive task w ms [] = Unit
TicksLive task w ms (tick now true ∷ events) = ⊥
TicksLive task w ms (tick now false ∷ events) =
    (is_live task w now ≡ true)
    × TicksLive (or_else (heartbeat_task_lease (some task) w now ms) task) w ms events
TicksLive task w ms (other s ∷ events) = TicksLive (lease_step task s) w ms events

aborted-on_tick :
    (s : LeaseSession) (w : String) (now ms : ℕ) (fails : Bool)
    → s.aborted ≡ true
    → on_tick s w now ms fails ≡ s
unfolding on_tick
aborted-on_tick s w now ms fails a = ground arith

-- A session that has lost the lease stays so.
lost-run_events :
    (s : LeaseSession) (w : String) (ms : ℕ) (events : List RunEvent)
    → s.heartbeat_lost ≡ true
    → s.aborted ≡ true
    → (run_events s w ms events).heartbeat_lost ≡ true
unfolding run_events
lost-run_events s w ms [] l a = l
lost-run_events s w ms (tick now fails ∷ events) l a =
    ap (λ z. (run_events z w ms events).heartbeat_lost) (aborted-on_tick s w now ms fails a)
    ∙ lost-run_events s w ms events l a
lost-run_events s w ms (other o ∷ events) l a =
    lost-run_events (record s { task = lease_step s.task o }) w ms events l a

-- A session without an abort keeps the lease at a tick exactly when the tick is live.
tick-cases :
    (s : LeaseSession) (w : String) (now ms : ℕ)
    → s.heartbeat_lost ≡ false
    → s.aborted ≡ false
    → let after = on_tick s w now ms false in
      ((is_live s.task w now ≡ true)
        × (after.heartbeat_lost ≡ false)
        × (after.aborted ≡ false)
        × (after.task ≡ or_else (heartbeat_task_lease (some s.task) w now ms) s.task))
      ⊎ ((is_live s.task w now ≡ false) × (after.heartbeat_lost ≡ true) × (after.aborted ≡ true))
unfolding on_tick renewal heartbeat_task_lease
tick-cases s w now ms l a = ground arith

failed-on_tick :
    (s : LeaseSession) (w : String) (now ms : ℕ)
    → s.aborted ≡ false
    → ((on_tick s w now ms true).heartbeat_lost ≡ true) × ((on_tick s w now ms true).aborted ≡ true)
unfolding on_tick
failed-on_tick s w now ms a = ground arith

kept_iff :
    (s : LeaseSession) (w : String) (ms : ℕ) (events : List RunEvent)
    → s.heartbeat_lost ≡ false
    → s.aborted ≡ false
    → ((run_events s w ms events).heartbeat_lost ≡ false) ↔ TicksLive s.task w ms events
unfolding run_events
kept_iff s w ms [] l a = ground arith
kept_iff s w ms (other o ∷ events) l a =
    kept_iff (record s { task = lease_step s.task o }) w ms events l a
kept_iff s w ms (tick now true ∷ events) l a =
    let (x, y) = failed-on_tick s w now ms a in
    ground (arith, lost-run_events (on_tick s w now ms true) w ms events x y)
kept_iff s w ms (tick now false ∷ events) l a = elim (tick-cases s w now ms l a) [
  | inl (live, x, y, e) ↦
      let ih = kept_iff (on_tick s w now ms false) w ms events x y in
      (λ h. (live, rw (← e) (ih.0 h)), λ h. ih.1 (rw e h.1))
  | inr (dead, x, y) ↦ ground (arith, lost-run_events (on_tick s w now ms false) w ms events x y)
]

release_lem :
    (task : TaskLease) (w : String)
    → (is_owner (release_task_lease task w) w ≡ false)
      × (is_owner task w ≡ false → release_task_lease task w ≡ task)
unfolding release_task_lease
release_lem task w = ground arith

finish_lem :
    {E A : Type 0} (lost_lease : Bool) (result : Result E A)
    → ((a : A) → (finish lost_lease result ≡ completed a) ↔ (result ≡ ok a) × (lost_lease ≡ false))
      × ((e : E) → (finish lost_lease result ≡ thrown e) ↔ (result ≡ err e))
unfolding finish
finish_lem lost_lease (err x) = (λ a. ground arith, λ e. ground arith)
finish_lem true (ok x) = (λ a. ground arith, λ e. ground arith)
finish_lem false (ok x) = (λ a. ground arith, λ e. ground arith)

-- The call with the lease in hand comes to a value exactly when the function returned it and
-- every tick of the timer renewed a lease that was the worker's own and had not ended; an error
-- of the function is passed on. Whatever happened, the worker is not the owner afterwards, and a
-- lease that another took meanwhile stays. Without the lease the call is busy and writes nothing.
pub with_execution_lease_lem :
    {E A : Type 0} (task : TaskLease) (w r : String) (now ms : ℕ) (events : List RunEvent)
    (result : Result E A)
    → let call = with_execution_lease (some task) w r now ms events result in
      (acquire_execution_lease (some task) w r now ms ≡ none → call ≡ (some task, lease_busy))
      × ((held : TaskLease)
          → acquire_execution_lease (some task) w r now ms ≡ some held
          → ((a : A) → (call.1 ≡ completed a) ↔ (result ≡ ok a) × TicksLive held w ms events)
            × ((e : E) → (call.1 ≡ thrown e) ↔ (result ≡ err e))
            × (end : TaskLease) × (call.0 ≡ some end)
            × (is_owner end w ≡ false)
            × (is_owner (run_events (start held now ms) w ms events).task w ≡ false
                → end ≡ (run_events (start held now ms) w ms events).task))
unfolding with_execution_lease
with_execution_lease_lem task w r now ms events result = (
  λ busy. (rw (busy, with_execution_lease)),
  λ held e.
      let session = run_events (start held now ms) w ms events in
      let kept = kept_iff (start held now ms) w ms events refl refl in
      let (completes, throws) = finish_lem session.heartbeat_lost result in
      rw (e, with_execution_lease)
        (
          (λ a. (
            λ h. (((completes a).0 h).0, kept.0 ((completes a).0 h).1),
            λ h. (completes a).1 (h.0, kept.1 h.1),
          )),
          throws,
          release_task_lease session.task w,
          refl,
          (release_lem session.task w).0,
          (release_lem session.task w).1,
        ),
)

interval_lt : (ms : ℕ) → 1000 < ms → get_lease_renewal_interval_ms ms < ms
unfolding get_lease_renewal_interval_ms
interval_lt ms h = ground arith

live-Holds :
    (task : TaskLease) (w : String) (now until ms : ℕ)
    → Holds task w until
    → now < until
    → (is_live task w now ≡ true)
      × Holds (or_else (heartbeat_task_lease (some task) w now ms) task) w (now + ms)
unfolding heartbeat_task_lease is_live
live-Holds task w now until ms (ho, he) h =
    rw (ho, he) (rw (eq_refl w, lt→ltb now until h) (refl, (refl, refl)))

-- With a lease of more than a second, the timer's ticks all renew the lease in time, however
-- many there are, where they come at the interval that the code sets and no other worker's
-- operation succeeds between them.
pub regular_ticks-TicksLive :
    (task : TaskLease) (w : String) (now ms count : ℕ)
    → 1000 < ms
    → Holds task w (now + ms)
    → TicksLive task w ms (regular_ticks count now ms)
regular_ticks-TicksLive task w now ms zero h held = tt
regular_ticks-TicksLive task w now ms (suc count) h held =
    let next = now + get_lease_renewal_interval_ms ms in
    let (live, again) =
      live-Holds task w next (now + ms) ms held (omega (arith, interval_lt ms h)) in
    (
      live,
      regular_ticks-TicksLive (or_else (heartbeat_task_lease (some task) w next ms) task) w next ms
          count h again,
    )
