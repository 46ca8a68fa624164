-- ===== src/Execution/Cancellation/Outcome.antt =====
-- What becomes of a task that is cancelled, and of its execution state.
use semantask.Prelude.{
  ℕ, Bool, true, false, not, ◌||◌, List, [], ◌∷◌, ◌≡◌, ◌≢◌, refl, ap, ◌∙◌, sym, ◌↔◌, arith, Option,
  none, some, String, present, if◌then◌else◌, or_else, is_some, Bool-cases, inl, inr,
}
use semantask.Prelude.Result.{ok, err}
use semantask.Execution.Kind.{
  ExecutionStateKind, TaskLifecycleState, TaskStatus, lifecycle_index, kind_eq, index,
}
use semantask.Execution.State.{
  ExecutionState, ExecutionEvent, cancel_requested, cancel_finalized, kind, cancelling, cancelled,
  run_id_of,
}
use semantask.Execution.Projection.{derive_legacy_lifecycle_state, detect_task_state_divergence}
use semantask.Execution.Machine.{reduce_execution_state}
use semantask.Execution.Machine.Handlers.{Reduced}
use semantask.Execution.Machine.Stuck.{refuses_cancel, cancel_requested_lem, cancel_refusal}
use semantask.Execution.Machine.Steps.{is_cancelling, cancel_moves, cancel_finalized_refused}
use semantask.Execution.Shadow.{
  ShadowHistoryEntry, result_to, resolve_current_shadow_state, shadow_result,
  reduce_shadow_execution_event,
}
use semantask.Execution.Cancellation.{
  Moment, Task, CancelRequest, is_task_terminal, is_task_actively_leased, fold_events,
  apply_shadow_cancellation_events, cancellation_events, finalize_task_cancellation,
  process_task_cancellation, finalized, deferred, noop, clear_task_lease, flag_cancellation,
  defer_task_cancellation, build_cancel_result,
}

abbrev settle : Reduced → ExecutionState → ExecutionState
settle (ok t) s = t
settle (err x) s = s

result_to-reduce :
    (s : ExecutionState) (e : ExecutionEvent) (now : String) (worker_id : Option String)
    → result_to (reduce_shadow_execution_event s e now worker_id)
      ≡ settle (reduce_execution_state s e) s
unfolding reduce_shadow_execution_event
result_to-reduce s e now worker_id = split (reduce_execution_state s e)
  where
    split : (r : Reduced) → result_to (shadow_result r s e now worker_id) ≡ settle r s
    split (ok t) = refl
    split (err x) = refl

-- The state in which a cancellation leaves an execution.
abbrev pub end_state : ExecutionState → CancelRequest → String → ExecutionState
end_state s request cancelled_at =
    if is_cancelling s || not (refuses_cancel (kind s))
    then cancelled request.reason cancelled_at
    else s

module _ (request : CancelRequest) (now : String) (worker_id : Option String) where
  abbrev asked : ExecutionState → ExecutionState
  asked s = result_to (
      reduce_shadow_execution_event s
        (cancel_requested request.initiated_by request.reason request.requested_at) now worker_id)

  abbrev closed : ExecutionState → ExecutionState
  closed s =
      result_to
        (reduce_shadow_execution_event s (cancel_finalized request.reason now) now worker_id)

  asked_lem :
      (s : ExecutionState)
      → asked s ≡ (
          if refuses_cancel (kind s)
          then s
          else cancelling request.initiated_by request.reason request.requested_at
              (present (run_id_of s)))
  asked_lem s =
      result_to-reduce s _ now worker_id
      ∙ ap (λ r. settle r s)
          (cancel_requested_lem s request.initiated_by request.reason request.requested_at)
      ∙ split (refuses_cancel (kind s))
    where
      split :
          (b : Bool)
          → settle
              (if b
                then cancel_refusal s
                else ok (
                    cancelling request.initiated_by request.reason request.requested_at
                      (present (run_id_of s))))
              s
            ≡ (if b
                then s
                else cancelling request.initiated_by request.reason request.requested_at
                    (present (run_id_of s)))
      split true = refl
      split false = refl

  closed_lem :
      (s : ExecutionState)
      → closed s ≡ (if is_cancelling s then cancelled request.reason now else s)
  closed_lem (cancelling i a b r) =
      result_to-reduce _ _ now worker_id
      ∙ ap (λ x. settle x (cancelling i a b r)) (cancel_moves i a b request.reason now r)
  closed_lem s =
      result_to-reduce _ _ now worker_id
      ∙ ap (λ x. settle x s) (cancel_finalized_refused s request.reason now refl)

  fold_events-end_state :
      (s : ExecutionState) (history : Option (List ShadowHistoryEntry))
      → (fold_events (s, history) (cancellation_events s request now) now worker_id).0
        ≡ end_state s request now
  unfolding fold_events cancellation_events
  fold_events-end_state (cancelling i a b r) history = closed_lem (cancelling i a b r)
  fold_events-end_state s history =
      ap closed (asked_lem s)
      ∙ closed_lem (
          if refuses_cancel (kind s)
          then s
          else cancelling request.initiated_by request.reason request.requested_at
              (present (run_id_of s)))

applied :
    (task : Task) (es : List ExecutionEvent) (now : String) (worker_id : Option String)
    → es ≢ []
    → let t = apply_shadow_cancellation_events task es now worker_id in
      (t.execution_state
        ≡ some
            (fold_events
              (resolve_current_shadow_state task.execution_state now, task.state_history)
              es
              now
              worker_id).0)
      × (t.lease_owner ≡ task.lease_owner)
      × (t.cancel_requested_at ≡ task.cancel_requested_at)
unfolding apply_shadow_cancellation_events
applied task [] now worker_id h = absurd (h refl)
applied task (e ∷ es) now worker_id h = (refl, refl, refl)

cancellation_events-ne-nil :
    (s : ExecutionState) (request : CancelRequest) (now : String)
    → cancellation_events s request now ≢ []
unfolding cancellation_events
cancellation_events-ne-nil s request now = ground arith

-- A cancellation leaves the task failed, complete, flagged and with its result; it releases the
-- lease if asked to, and takes the execution state to `cancelled` unless that state refuses: a
-- blocked state, or one that cannot move, stays as it was.
pub finalize_task_cancellation_lem :
    (task : Task) (request : CancelRequest) (now : Moment) (worker_id : Option String)
    (release_lease : Bool)
    → let t = finalize_task_cancellation task request now worker_id release_lease in
      (t.execution_state
        ≡ some (
            end_state
              (resolve_current_shadow_state task.execution_state now.text)
              request
              now.text))
      × (t.lifecycle_state ≡ TaskLifecycleState.failed)
      × (t.status ≡ TaskStatus.failed)
      × (t.progress ≡ 100)
      × (t.cancel_requested_at ≢ none)
      × (t.cancel_reason ≡ some request.reason)
      × (t.lease_owner ≡ (if release_lease then none else task.lease_owner))
unfolding finalize_task_cancellation clear_task_lease
finalize_task_cancellation_lem task request now worker_id release_lease =
    let s = resolve_current_shadow_state task.execution_state now.text in
    let es = cancellation_events s request now.text in
    let (state, owner, flag) =
      applied task es now.text worker_id (cancellation_events-ne-nil s request now.text) in
    let ends = fold_events-end_state request now.text worker_id s task.state_history in
    ground (arith, state, owner, ends)

end_state-failed :
    (s : ExecutionState) (request : CancelRequest) (now : String)
    → (detect_task_state_divergence
          (some TaskLifecycleState.failed)
          (some (end_state s request now))
        ≡ none)
      ↔ ((kind s ≢ ExecutionStateKind.blocked) × (kind s ≢ ExecutionStateKind.succeeded))
unfolding detect_task_state_divergence derive_legacy_lifecycle_state lifecycle_index
end_state-failed (cancelling _ _ _ _) request now = ground arith
end_state-failed s request now = ground arith

-- After a cancellation the legacy fields agree with the execution state exactly when that state
-- was neither blocked nor already a success.
pub finalize_diverges_iff :
    (task : Task) (request : CancelRequest) (now : Moment) (worker_id : Option String)
    (release_lease : Bool)
    → let t = finalize_task_cancellation task request now worker_id release_lease in
      let k = kind (resolve_current_shadow_state task.execution_state now.text) in
      (detect_task_state_divergence (some t.lifecycle_state) t.execution_state ≡ none)
      ↔ ((k ≢ ExecutionStateKind.blocked) × (k ≢ ExecutionStateKind.succeeded))
finalize_diverges_iff task request now worker_id release_lease =
    let f = finalize_task_cancellation_lem task request now worker_id release_lease in
    rw (f.0, f.1)
      (end_state-failed (resolve_current_shadow_state task.execution_state now.text) request
        now.text)

-- The state in which a request alone leaves an execution: one that is cancelling already, and one that
-- refuses, stays as it is.
abbrev pub asked_state : ExecutionState → CancelRequest → ExecutionState
asked_state s request =
    if is_cancelling s || refuses_cancel (kind s)
    then s
    else cancelling request.initiated_by request.reason request.requested_at (present (run_id_of s))

-- The fields that neither the flag nor the request touches.
abbrev pub SameRest : Task → Task → Type 0
SameRest task t =
    (t.status ≡ task.status)
    × (t.result ≡ task.result)
    × (t.progress ≡ task.progress)
    × (t.closed_at ≡ task.closed_at)
    × (t.lease_owner ≡ task.lease_owner)
    × (t.lease_expires_at ≡ task.lease_expires_at)

-- A cancellation flag, which one that stands already keeps.
abbrev pub Flagged : Task → CancelRequest → Task → Type 0
Flagged task request t =
    (t.cancel_requested_at ≡ some (or_else task.cancel_requested_at request.requested_at))
    × (t.cancel_reason
        ≡ (if is_some task.cancel_requested_at then task.cancel_reason else some request.reason))
    × (t.cancel_requested_by_type ≡ (
        if is_some task.cancel_requested_at
        then task.cancel_requested_by_type
        else some request.initiated_by))

-- The state of the execution and the lifecycle after a request alone.
abbrev pub Asked : Task → CancelRequest → Moment → Task → Type 0
Asked task request now t =
    let s = resolve_current_shadow_state task.execution_state now.text in
    (t.execution_state
      ≡ (if is_cancelling s then task.execution_state else some (asked_state s request)))
    × (t.lifecycle_state ≡ (
        if is_cancelling s
        then task.lifecycle_state
        else derive_legacy_lifecycle_state (asked_state s request)))

flag_fields :
    (task : Task) (request : CancelRequest)
    → SameRest task (flag_cancellation task request)
      × Flagged task request (flag_cancellation task request)
      × ((flag_cancellation task request).execution_state ≡ task.execution_state)
      × ((flag_cancellation task request).lifecycle_state ≡ task.lifecycle_state)
flag_fields task request = ground arith

kind_cancelling :
    (s : ExecutionState) → kind_eq (kind s) ExecutionStateKind.cancelling ≡ is_cancelling s
unfolding index
kind_cancelling (cancelling _ _ _ _) = refl
kind_cancelling s = refl

asked_fields :
    (task : Task) (request : CancelRequest) (now : String) (worker_id : Option String)
    → let s = resolve_current_shadow_state task.execution_state now in
      let t =
        apply_shadow_cancellation_events task
          (cancel_requested request.initiated_by request.reason request.requested_at ∷ [])
          now
          worker_id in
      (t.execution_state ≡ some (asked request now worker_id s))
      × (t.lifecycle_state ≡ derive_legacy_lifecycle_state (asked request now worker_id s))
      × SameRest task t
      × (t.cancel_requested_at ≡ task.cancel_requested_at)
      × (t.cancel_reason ≡ task.cancel_reason)
      × (t.cancel_requested_by_type ≡ task.cancel_requested_by_type)
unfolding apply_shadow_cancellation_events fold_events
asked_fields task request now worker_id =
    (refl, refl, (refl, refl, refl, refl, refl, refl), refl, refl, refl)

asked-live :
    (s : ExecutionState) (request : CancelRequest) (now : String) (worker_id : Option String)
    → is_cancelling s ≡ false
    → asked request now worker_id s ≡ asked_state s request
asked-live s request now worker_id h = ground (arith, asked_lem request now worker_id s)

otherwise {ℓ} :
    {A : Type ℓ} {x z : A} → (y : A) (b : Bool) → b ≡ false → x ≡ z → x ≡ (if b then y else z)
otherwise y b h e = rw h e

-- What a request alone makes of a task that is leased.
abbrev pub Deferred : Task → CancelRequest → Moment → Task → Type 0
Deferred task request now t = SameRest task t × Flagged task request t × Asked task request now t

defer-cancelling :
    (task : Task) (request : CancelRequest) (now : Moment) (worker_id : Option String)
    → is_cancelling (resolve_current_shadow_state task.execution_state now.text) ≡ true
    → defer_task_cancellation task request now worker_id ≡ task
unfolding defer_task_cancellation
defer-cancelling task request now worker_id h =
    ground (arith, kind_cancelling (resolve_current_shadow_state task.execution_state now.text))

defer-live :
    (task : Task) (request : CancelRequest) (now : Moment) (worker_id : Option String)
    → is_cancelling (resolve_current_shadow_state task.execution_state now.text) ≡ false
    → defer_task_cancellation task request now worker_id
      ≡ apply_shadow_cancellation_events task
          (cancel_requested request.initiated_by request.reason request.requested_at ∷ [])
          now.text
          worker_id
unfolding defer_task_cancellation
defer-live task request now worker_id h =
    ground (arith, kind_cancelling (resolve_current_shadow_state task.execution_state now.text))

defer-Deferred :
    (task : Task) (request : CancelRequest) (now : Moment) (worker_id : Option String)
    → Deferred task request now
        (defer_task_cancellation (flag_cancellation task request) request now worker_id)
defer-Deferred task request now worker_id =
    let flagged = flag_cancellation task request in
    let (rest, flag, state, lifecycle) = flag_fields task request in
    let s = resolve_current_shadow_state flagged.execution_state now.text in
    let s' = resolve_current_shadow_state task.execution_state now.text in
    let same : s ≡ s' = ap (λ o. resolve_current_shadow_state o now.text) state in
    let here : is_cancelling s ≡ is_cancelling s' = ap is_cancelling same in
    elim (Bool-cases (is_cancelling s)) [
      | inl h ↦
          rw (defer-cancelling flagged request now worker_id h)
            (rest, flag, rw (sym here ∙ h) (state, lifecycle))
      | inr h ↦ rw (defer-live flagged request now worker_id h) (
          let (x, l, r, a, b, c) = asked_fields flagged request now.text worker_id in
          let y = asked-live s request now.text worker_id h in
          let z = y ∙ ap (λ k. asked_state k request) same in
          (
            (r.0 ∙ rest.0, r.1 ∙ rest.1, r.2 ∙ rest.2, r.3 ∙ rest.3, r.4 ∙ rest.4, r.5 ∙ rest.5),
            (a ∙ flag.0, b ∙ flag.1, c ∙ flag.2),
            (
              otherwise _ (is_cancelling s') (sym here ∙ h) (x ∙ ap some z),
              otherwise _ (is_cancelling s') (sym here ∙ h)
                  (l ∙ ap derive_legacy_lifecycle_state z),
            ),
          ))
    ]

finalized-result :
    (task : Task) (request : CancelRequest) (now : Moment) (worker_id : Option String)
    → (finalize_task_cancellation task request now worker_id true).result
      ≡ some (record { success = false; confidence = 0; error = request.reason })
unfolding finalize_task_cancellation clear_task_lease build_cancel_result
finalized-result task request now worker_id = refl

flag_lem :
    (task : Task) (request : CancelRequest) (now : ℕ)
    → (is_task_actively_leased (flag_cancellation task request) now
        ≡ is_task_actively_leased task now)
      × ((flag_cancellation task request).cancel_requested_at ≢ none)
      × ((flag_cancellation task request).lease_owner ≡ task.lease_owner)
unfolding is_task_actively_leased
flag_lem task request now = split task.cancel_requested_at refl
  where
    split :
        (o : Option String)
        → task.cancel_requested_at ≡ o
        → (is_task_actively_leased (flag_cancellation task request) now
            ≡ is_task_actively_leased task now)
          × ((flag_cancellation task request).cancel_requested_at ≢ none)
          × ((flag_cancellation task request).lease_owner ≡ task.lease_owner)
    split none e = rw e (refl, λ h. cc, refl)
    split (some x) e = rw e (refl, λ h. cc, refl)

-- The cancellation of a stored task does nothing if the task has ended. If a worker holds its lease,
-- it sets the flag that is not yet set, takes the execution state to `cancelling` unless that state is
-- so already or refuses, with the lifecycle of that state, and leaves the lease, the status, the
-- result, the progress and the closing time. Otherwise it ends the task as failed, flagged, at 100 %
-- and with the request's result, takes the execution state to `cancelled` unless that state refuses,
-- and releases the lease. It throws if there is no task.
pub process_task_cancellation_lem :
    (task : Task) (request : CancelRequest) (now : Moment) (worker_id : Option String)
    → (process_task_cancellation none request now worker_id ≡ none)
      × (is_task_terminal task ≡ true
          → process_task_cancellation (some task) request now worker_id ≡ some (task, noop))
      × (is_task_terminal task ≡ false
          → is_task_actively_leased task now.ms ≡ true
          → (t : Task) × (process_task_cancellation (some task) request now worker_id
              ≡ some (t, deferred))
            × Deferred task request now t)
      × (is_task_terminal task ≡ false
          → is_task_actively_leased task now.ms ≡ false
          → (t : Task) × (process_task_cancellation (some task) request now worker_id
              ≡ some (t, finalized))
            × (t.status ≡ TaskStatus.failed)
            × (t.lifecycle_state ≡ TaskLifecycleState.failed)
            × (t.progress ≡ 100)
            × (t.result ≡ some (record { success = false; confidence = 0; error = request.reason }))
            × (t.cancel_requested_at ≢ none)
            × (t.cancel_reason ≡ some request.reason)
            × (t.lease_owner ≡ none)
            × (t.execution_state
                ≡ some (
                    end_state
                      (resolve_current_shadow_state task.execution_state now.text)
                      request
                      now.text)))
unfolding process_task_cancellation
process_task_cancellation_lem task request now worker_id =
    let flagged = flag_cancellation task request in
    let (leased, flag, owner) = flag_lem task request now.ms in
    let (rest, kept, state, lifecycle) = flag_fields task request in
    let (ended, lived, failed, full, set, why, released) =
      finalize_task_cancellation_lem flagged request now worker_id true in
    (
      refl,
      λ ended. (rw ended),
      λ live held. (
        defer_task_cancellation flagged request now worker_id,
        (rw (live, leased, held)),
        defer-Deferred task request now worker_id,
      ),
      λ live free. (
        finalize_task_cancellation flagged request now worker_id true,
        (rw (live, leased, free)),
        failed,
        lived,
        full,
        finalized-result flagged request now worker_id,
        set,
        why,
        released,
        ended
            ∙ ap (λ o. some (end_state (resolve_current_shadow_state o now.text) request now.text))
                state,
      ),
    )
