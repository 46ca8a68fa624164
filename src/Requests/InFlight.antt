-- ===== src/Requests/InFlight.antt =====
-- A request that is in flight stays so through every operation.
use semantask.Prelude.{
  ℕ, Bool, true, Option, String, List, [], ◌∷◌, some_of, or_else, ◌≡◌, inl, inr, sym, arith,
  Option-cases,
}
use mathlib.Core.Path.{subst}
use semantask.Prelude.Value.{Record}
use semantask.Prelude.Collection.{find_first, update_first}
use semantask.Access.Conversation.{ConversationAccessOptions}
use semantask.Requests.{
  ActionState, TaskAction, ExecutionPayload, Store, is_in_flight, EnqueueInput, create_task_action,
  created,
}
use semantask.Requests.Service.{Services, request_task_execution, request_action, request_input}
use semantask.Requests.Worker.{
  WorkerContext, has_action_id, set_state, approved_with, approved_payload,
  process_task_execution_requested, process_task_execution_approved, decide_approval,
}
use semantask.Requests.Calls.{stored_by}
use semantask.Requests.Kept.{Kept, is_plain, IsMild, set_state-IsMild, approved_with-IsMild}
use semantask.Requests.Changes.{
  enqueue-cases, process-cases, create-cases, marked_approved, approved-cases, decide-cases,
  found_pending-is_plain, request-cases,
}

abbrev pub InFlight : (task_id : String) → Store → Type 0
InFlight task_id s = some_of (is_in_flight task_id) s.actions ≡ true

update-in_flight :
    (t : String) (f : TaskAction → TaskAction) (k : ℕ) (actions : List TaskAction)
    → IsMild f
    → is_plain k actions ≡ true
    → some_of (is_in_flight t) actions ≡ true
    → some_of (is_in_flight t) (update_first (has_action_id k) f actions) ≡ true
update-in_flight t f k [] m p h = h
update-in_flight t f k (a ∷ actions) m p h = ground (arith, m a, update-in_flight t f k actions m)

module _ (t : String) where
  pub enqueue-InFlight :
      (s : Store) (input : EnqueueInput) → InFlight t s → InFlight t (stored_by s input)
  enqueue-InFlight s input h = elim (enqueue-cases s input) [
    | inl e ↦ subst (InFlight t) (sym e) h
    | inr e ↦ subst (InFlight t) (sym e) h
  ]

  pub create-InFlight :
      (s : Store) (a : TaskAction) → InFlight t s → InFlight t (or_else (create_task_action s a) s)
  create-InFlight s a h = elim (create-cases s a) [
    | inl e ↦ subst (InFlight t) (sym e) h
    | inr e ↦ subst (InFlight t) (sym e) (ground arith)
  ]

  pub process-InFlight :
      (context : WorkerContext) (s : Store) (payload : ExecutionPayload)
      → InFlight t s
      → InFlight t (process_task_execution_requested context s payload).0
  process-InFlight context s payload h = elim (process-cases context s payload) [
    | inl e ↦ subst (InFlight t) (sym e) h
    | inr e ↦ subst (InFlight t) (sym e) (ground arith)
  ]

  pub approved-InFlight :
      (context : WorkerContext) (action_text : ℕ → String) (s : Store) (id : ℕ)
      → is_plain id s.actions ≡ true
      → InFlight t s
      → InFlight t (process_task_execution_approved context action_text s id).0
  approved-InFlight context action_text s id p h =
      elim (Option-cases (find_first (has_action_id id) s.actions)) [
        | inl n ↦ absurd (ground arith)
        | inr (a, e) ↦ subst (InFlight t) (sym (approved-cases context action_text s id a e)) (
            process-InFlight context (marked_approved s id) (approved_payload (action_text id) a) (
              update-in_flight t (set_state ActionState.approved) id s.actions
                (set_state-IsMild ActionState.approved) p h))
      ]

  pub decide-InFlight :
      (may : TaskAction → Bool) (s : Store) (id : ℕ) (approve : Bool) (parameters : Option Record)
      → Kept s
      → InFlight t s
      → InFlight t (decide_approval may s id approve parameters).0
  decide-InFlight may s id approve parameters k h =
      elim (decide-cases may s id approve parameters) [
        | inl same ↦ subst (InFlight t) (sym same) h
        | inr (a, e, p, rest) ↦
            let (plain, below) = found_pending-is_plain s id a k e p in
            let approved =
              update-in_flight t (approved_with parameters) id s.actions
                (approved_with-IsMild parameters) plain h in
            elim rest [
              | inl r ↦ subst (InFlight t) (sym r) (
                  update-in_flight t (set_state ActionState.rejected) id s.actions
                    (set_state-IsMild ActionState.rejected) plain h)
              | inr (inl r) ↦ subst (InFlight t) (sym r) approved
              | inr (inr r) ↦ subst (InFlight t) (sym r) approved
            ]
      ]

  pub request-InFlight :
      (object_id : String → Option String) (services : Services) (s : Store)
      (task_id actor_id : String) (options : Option ConversationAccessOptions)
      → InFlight t s
      → InFlight t (request_task_execution object_id services s task_id actor_id options).0
  request-InFlight object_id services s task_id actor_id options h =
      elim (request-cases object_id services s task_id actor_id options) [
        | inl same ↦ subst (InFlight t) (sym same) h
        | inr (task, e) ↦ subst (InFlight t) (sym e) (
            enqueue-InFlight (created s (request_action task task_id actor_id))
              (request_input object_id services task task_id actor_id) (ground arith))
      ]
