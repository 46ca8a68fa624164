-- ===== src/Requests/Calls.antt =====
-- Sequences of calls that request, enqueue, decide and process executions.
use semantask.Prelude.{ℕ, zero, suc, Bool, Option, none, some, String, List, [], ◌∷◌, or_else}
use semantask.Prelude.Value.{Record}
use semantask.Access.Conversation.{ConversationAccessOptions}
use semantask.Requests.{
  TaskAction, QueuedEvent, requested_event, approved_event, Store, EnqueueInput, create_task_action,
  enqueue_task_execution_requested,
}
use semantask.Requests.Service.{Services, request_task_execution}
use semantask.Requests.Worker.{
  WorkerContext, GateOutcome, process_task_execution_requested, process_task_execution_approved,
  decide_approval,
}

-- The store after an enqueuing, whether it was refused or not.
abbrev pub stored_by : Store → EnqueueInput → Store
stored_by s input = elim (enqueue_task_execution_requested s input) [
  | none ↦ s
  | some next ↦ next.0
]

-- `create` is any other caller of `createTaskAction`; `deliver` is the worker's turn at an event of the outbox, by its place in the list.
pub data Call : Type 0 where
  create : TaskAction → Call
  request : (task_id actor_id : String) → Option ConversationAccessOptions → Call
  enqueue : EnqueueInput → Call
  decide :
      (may_decide : TaskAction → Bool)
      → (action : ℕ) → (approve : Bool) → (parameters : Option Record) → Call
  deliver : (place : ℕ) → WorkerContext → Call

abbrev pub event_at : ℕ → List QueuedEvent → Option QueuedEvent
event_at place [] = none
event_at zero (e ∷ es) = some e
event_at (suc place) (e ∷ es) = event_at place es

unfoldable pub deliver_event :
    WorkerContext
    → (action_text : ℕ → String) → Store
    → Option QueuedEvent
    → Store × Option GateOutcome
deliver_event context action_text store none = (store, none)
deliver_event context action_text store (some (requested_event key payload)) =
    let processed = process_task_execution_requested context store payload in
    (processed.0, some processed.1)
deliver_event context action_text store (some (approved_event action)) =
    process_task_execution_approved context action_text store action

module _ (object_id : String → Option String) (services : Services) (action_text : ℕ → String) where
  -- The state after a call, and what became of an execution that the worker took.
  unfoldable pub apply : Store → Call → Store × Option GateOutcome
  unfolding deliver_event
  apply store (request task_id actor_id options) =
      ((request_task_execution object_id services store task_id actor_id options).0, none)
  apply store (create action) = (or_else (create_task_action store action) store, none)
  apply store (enqueue input) = (stored_by store input, none)
  apply store (decide may_decide action approve parameters) =
      ((decide_approval may_decide store action approve parameters).0, none)
  apply store (deliver place context) =
      deliver_event context action_text store (event_at place store.events)

  unfoldable pub run_calls : Store → List Call → Store
  unfolding apply
  run_calls store [] = store
  run_calls store (c ∷ calls) = run_calls (apply store c).0 calls
