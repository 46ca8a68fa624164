-- ===== src/Requests/Pending.antt =====
-- What the calls come to: the request of a task stays in flight, and `suggest_only` lets nothing run.
use semantask.Prelude.{
  ℕ, zero, suc, Bool, true, false, not, Option, none, some, String, List, [], ◌∷◌, some_of, All,
  ◌≡◌, ap, inl, inr, refl, sym, arith, Bool-cases, Option-cases, eq_refl,
}
use mathlib.Core.Path.{subst}
use semantask.Prelude.Collection.{find_first, find_first-some_of}
use semantask.Prelude.Result.{ok}
use semantask.Policy.Mode.{
  suggest_only, get_effective_execution_mode, resolve_suggest_only_policy_override,
  should_skip_suggest_only_ingress_fail_closed,
}
use semantask.Policy.Decision.Evaluate.{evaluate_execution_policy, mode_of}
use semantask.Access.Conversation.{ConversationAccessOptions}
use semantask.Requests.{
  TaskAction, ExecutionPayload, QueuedEvent, requested_event, approved_event, Store, is_in_flight,
  create_task_action, enqueue_task_execution_requested,
}
use semantask.Requests.Service.{
  Services, RequestTaskExecutionResult, request_task_execution, submit_request, RequestedTask,
}
use semantask.Requests.Worker.{
  WorkerContext, GateOutcome, approved_payload, runs, gate, process_task_execution_requested,
  process_task_execution_approved, has_action_id,
}
use semantask.Requests.Calls.{
  Call, create, request, enqueue, decide, deliver, event_at, deliver_event, apply, run_calls,
}
use semantask.Requests.InFlight.{
  InFlight, create-InFlight, enqueue-InFlight, process-InFlight, approved-InFlight, decide-InFlight,
  request-InFlight,
}
use semantask.Requests.Kept.{Kept, event_ok}
use semantask.Requests.Changes.{
  marked_approved, create-Kept, enqueue-Kept, process-Kept, approved-Kept, decide-Kept,
  request-Kept,
}

abbrev pub empty_store : (next_id : ℕ) → Store
empty_store n = record { actions = []; events = []; next_id = n }

-- No other caller creates the action of a manager's request, and no caller of the enqueuing says that
-- a human approved.
abbrev pub is_ordinary : Call → Bool
is_ordinary (create action) = not action.explicit_manager_request
is_ordinary (enqueue input) = not input.payload.human_approved_execution
is_ordinary _ = true

event_at-ok :
    (n : ℕ) (actions : List TaskAction) (events : List QueuedEvent) (place : ℕ) (e : QueuedEvent)
    → All (λ e. event_ok n actions e ≡ true) events
    → event_at place events ≡ some e
    → event_ok n actions e ≡ true
event_at-ok n actions [] place e h p = ground arith
event_at-ok n actions (x ∷ es) zero e (h, hs) p = ground (arith, ap (event_ok n actions))
event_at-ok n actions (x ∷ es) (suc place) e (h, hs) p = event_at-ok n actions es place e hs p

-- A call keeps the store and what is in flight for a task.
abbrev Keeps : (task_id : String) → Store → Store → Type 0
Keeps t s s' = Kept s' × (InFlight t s → InFlight t s')

deliver-Keeps :
    (t : String) (context : WorkerContext) (action_text : ℕ → String) (s : Store) (e : QueuedEvent)
    → event_ok s.next_id s.actions e ≡ true
    → Kept s
    → Keeps t s (deliver_event context action_text s (some e)).0
unfolding deliver_event
deliver-Keeps t context action_text s (requested_event key payload) h k =
    (process-Kept context s payload k, process-InFlight t context s payload)
deliver-Keeps t context action_text s (approved_event id) h k = (
  approved-Kept context action_text s id (ground arith) k,
  approved-InFlight t context action_text s id (ground arith),
)

-- Under `suggest_only` only what a human approved may run.
abbrev pub SuggestsOnly : WorkerContext → Type 0
SuggestsOnly context =
    get_effective_execution_mode context.env context.organization_id
      (elim context.org_policy [ none ↦ none | some policy ↦ policy.execution_mode ])
    ≡ suggest_only

abbrev pub is_running : GateOutcome → Bool
is_running runs = true
is_running _ = false

gate-suggest_only :
    (context : WorkerContext) (payload : ExecutionPayload)
    → SuggestsOnly context
    → payload.human_approved_execution ≡ false
    → is_running (gate context payload) ≡ false
unfolding gate evaluate_execution_policy mode_of resolve_suggest_only_policy_override
    should_skip_suggest_only_ingress_fail_closed
gate-suggest_only context payload m h = ground arith

process-outcome :
    (context : WorkerContext) (s : Store) (payload : ExecutionPayload)
    → (process_task_execution_requested context s payload).1 ≡ gate context payload
unfolding process_task_execution_requested
process-outcome context s payload = ground arith

abbrev pub has_run : Option GateOutcome → Bool
has_run none = false
has_run (some outcome) = is_running outcome

deliver-stops :
    (context : WorkerContext) (action_text : ℕ → String) (s : Store) (e : QueuedEvent)
    → event_ok s.next_id s.actions e ≡ true
    → SuggestsOnly context
    → has_run (deliver_event context action_text s (some e)).1 ≡ false
unfolding deliver_event process_task_execution_approved
deliver-stops context action_text s (requested_event key payload) h m =
    ground (arith, process-outcome context s payload, gate-suggest_only context payload m)
deliver-stops context action_text s (approved_event id) h m =
    elim (Option-cases (find_first (has_action_id id) s.actions)) [
      | inl n ↦ ground arith
      | inr (a, e) ↦
          let p = approved_payload (action_text id) a in
          ground
            (arith, process-outcome context (marked_approved s id) p, gate-suggest_only context p m)
    ]

no_event :
    (context : WorkerContext) (action_text : ℕ → String) (s : Store)
    → deliver_event context action_text s none ≡ (s, none)
unfolding deliver_event
no_event context action_text s = refl

module _ (object_id : String → Option String) (services : Services) (action_text : ℕ → String) where
  apply-Keeps :
      (t : String) (s : Store) (c : Call)
      → is_ordinary c ≡ true
      → Kept s
      → Keeps t s (apply object_id services action_text s c).0
  unfolding apply
  apply-Keeps t s (request task_id actor_id options) u k = (
    request-Kept object_id services s task_id actor_id options k,
    request-InFlight t object_id services s task_id actor_id options,
  )
  apply-Keeps t s (create action) u k =
      (create-Kept s action k (ground arith), create-InFlight t s action)
  apply-Keeps t s (enqueue input) u k =
      (enqueue-Kept s input k (ground arith), enqueue-InFlight t s input)
  apply-Keeps t s (decide may action approve parameters) u k = (
    decide-Kept may s action approve parameters k,
    decide-InFlight t may s action approve parameters k,
  )
  apply-Keeps t s (deliver place context) u k = elim (Option-cases (event_at place s.events)) [
    | inl n ↦
        subst (λ e. Keeps t s (deliver_event context action_text s e).0) (sym n)
          (subst (λ x. Keeps t s x.0) (sym (no_event context action_text s)) (k, λ h. h))
    | inr (e, p) ↦
        subst (λ e. Keeps t s (deliver_event context action_text s e).0) (sym p)
          (deliver-Keeps t context action_text s e
            (event_at-ok s.next_id s.actions s.events place e k.1 p) k)
  ]

  run-Keeps :
      (t : String) (s : Store) (calls : List Call)
      → All (λ c. is_ordinary c ≡ true) calls
      → Kept s
      → Keeps t s (run_calls object_id services action_text s calls)
  unfolding run_calls
  run-Keeps t s [] u k = (k, λ h. h)
  run-Keeps t s (c ∷ calls) (u, us) k =
      let (k', f) = apply-Keeps t s c u k in
      let (k'', g) = run-Keeps t (apply object_id services action_text s c).0 calls us k' in
      (k'', λ h. g (f h))

  -- From a store without actions and events, whatever calls come before, the worker lets no execution
  -- run in a workspace of the mode `suggest_only`, not even one that a manager requested explicitly
  -- and a human approved. The other callers neither create a manager's request nor say that a human
  -- approved.
  pub suggest_only_runs_nothing :
      (n : ℕ) (calls : List Call) (place : ℕ) (context : WorkerContext)
      → All (λ c. is_ordinary c ≡ true) calls
      → SuggestsOnly context
      → let store = run_calls object_id services action_text (empty_store n) calls in
        has_run (apply object_id services action_text store (deliver place context)).1 ≡ false
  unfolding apply
  suggest_only_runs_nothing n calls place context u m =
      let store = run_calls object_id services action_text (empty_store n) calls in
      let (k, f) = run-Keeps "" (empty_store n) calls u (tt, tt) in
      elim (Option-cases (event_at place store.events)) [
        | inl e ↦
            subst (λ x. has_run (deliver_event context action_text store x).1 ≡ false) (sym e)
              (ap (λ x. has_run x.1) (no_event context action_text store))
        | inr (e, p) ↦
            subst (λ x. has_run (deliver_event context action_text store x).1 ≡ false) (sym p)
              (deliver-stops context action_text store e
                (event_at-ok store.next_id store.actions store.events place e k.1 p) m)
      ]

  submitted-InFlight :
      (s : Store) (task_id actor_id : String) (task : RequestedTask)
      (result : RequestTaskExecutionResult)
      → (submit_request object_id services s task task_id actor_id).1 ≡ ok result
      → InFlight task_id (submit_request object_id services s task task_id actor_id).0
  unfolding submit_request create_task_action enqueue_task_execution_requested
  submitted-InFlight s task_id actor_id task result h = ground (arith, eq_refl task_id)

  -- What a request that was answered leaves, and what a request answers while one is in flight.
  answered-InFlight :
      (s : Store) (task_id actor_id : String) (options : Option ConversationAccessOptions)
      (result : RequestTaskExecutionResult)
      → (request_task_execution object_id services s task_id actor_id options).1 ≡ ok result
      → InFlight task_id (request_task_execution object_id services s task_id actor_id options).0
  unfolding request_task_execution
  answered-InFlight s task_id actor_id options result h =
      elim (Option-cases (services.tasks task_id)) [
        | inl n ↦ absurd (ground arith)
        | inr (task, e) ↦ elim (Bool-cases (some_of (is_in_flight task_id) s.actions)) [
          | inl f ↦ request-InFlight task_id object_id services s task_id actor_id options f
          | inr f ↦ ground (
            arith,
            find_first-some_of (is_in_flight task_id) s.actions,
            submitted-InFlight s task_id actor_id task result,
          )
        ]
      ]

  InFlight-pending :
      (s : Store) (task_id actor_id : String) (options : Option ConversationAccessOptions)
      (result : RequestTaskExecutionResult)
      → InFlight task_id s
      → (request_task_execution object_id services s task_id actor_id options).1 ≡ ok result
      → ((request_task_execution object_id services s task_id actor_id options).0 ≡ s)
        × (result.already_pending ≡ true)
        × (result.enqueued ≡ false)
  unfolding request_task_execution
  InFlight-pending s task_id actor_id options result f h =
      elim (Option-cases (services.tasks task_id)) [
        | inl n ↦ absurd (ground arith)
        | inr (task, e) ↦ ground (arith, find_first-some_of (is_in_flight task_id) s.actions)
      ]

  -- A task is requested once: after a request that was answered, and any other calls, every request
  -- of the task that is answered finds it already pending, enqueues nothing and changes nothing,
  -- whatever the worker and the reviewers decided in between. The other callers neither create a
  -- manager's request nor say that a human approved.
  pub requested_once :
      (n : ℕ) (before after : List Call) (task_id actor_id other_id : String)
      (options options' : Option ConversationAccessOptions)
      (first later : RequestTaskExecutionResult)
      → All (λ c. is_ordinary c ≡ true) before
      → All (λ c. is_ordinary c ≡ true) after
      → let store = run_calls object_id services action_text (empty_store n) before in
        (request_task_execution object_id services store task_id actor_id options).1 ≡ ok first
        → let store' =
            run_calls object_id services action_text
              (request_task_execution object_id services store task_id actor_id options).0
              after in
          (request_task_execution object_id services store' task_id other_id options').1 ≡ ok later
          → ((request_task_execution object_id services store' task_id other_id options').0
              ≡ store')
            × (later.already_pending ≡ true)
            × (later.enqueued ≡ false)
  requested_once n before after task_id actor_id other_id options options' first later b a h h' =
      let store = run_calls object_id services action_text (empty_store n) before in
      let requested =
        (request_task_execution object_id services store task_id actor_id options).0 in
      let (k, f) = run-Keeps task_id (empty_store n) before b (tt, tt) in
      let (k', g) =
        run-Keeps task_id requested after a
          (request-Kept object_id services store task_id actor_id options k) in
      InFlight-pending (run_calls object_id services action_text requested after) task_id other_id
        options' later (g (answered-InFlight store task_id actor_id options first h)) h'
