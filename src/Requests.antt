-- ===== src/Requests.antt =====
-- The actions and events of executions, and the boundary where every request is enqueued:
-- packages/services/task-execution-enqueue.service.ts, packages/db/models/TaskAction.ts and
-- packages/services/repositories/task.repo.ts. The collection of actions is a list with the newest
-- first. The keys, texts in the code, stand as the parts that they are made of. Counters, logs,
-- notices and the texts for display are left out.
use semantask.Prelude.{
  ℕ, suc, ◌==◌, Bool, true, false, not, ◌&&◌, ◌||◌, Option, none, some, String, str_eq, List, [],
  ◌∷◌, map, some_of, or_else, is_some, present, if◌then◌else◌,
}
use semantask.Prelude.Text.{Text, codes}
use semantask.Prelude.Value.{Record}
use semantask.Prelude.Collection.{find_first}
use semantask.Prelude.Result.{Result, ok, err}
use semantask.Execution.Kind.{TaskExecutionActionType}
use semantask.Policy.Mode.{
  ExecutionMode, suggest_only, require_approval, auto_execute, Environment,
  get_effective_execution_mode,
}
use semantask.Workspace.{ServiceError, authorization_error, validation_error, not_found, denied}
use semantask.Workspace.Policy.{Policies, get_organization_policy}
use semantask.Access.Conversation.{ConversationAccessOptions, Records}
use semantask.Access.Suggestion.{can_decide_task_execution_approval}
pub mod Service
pub mod Worker
pub mod Calls
pub mod Kept
pub mod Changes
pub mod InFlight
pub mod Pending
mod Examples

-- `TaskActionExecutionState`, where it is not null.
pub data ActionState : Type 0 where
  requested approval_pending approved rejected queued running succeeded failed blocked expired :
      ActionState

-- The idempotency keys of the actions that a request and the worker create.
pub data ActionKey : Type 0 where
  request_key : (task_id actor_id : String) → ActionKey
  approval_key : (task_id : String) → TaskExecutionActionType → (trigger : String) → ActionKey

-- `explicit_manager_request` and `confidence` are those of `patch.after`.
pub record TaskAction : Type 0 where
  pub id : ℕ
  pub task_id : String
  pub conversation_id : String
  pub action_type : TaskExecutionActionType
  pub message_id : Option String
  pub parameters : Record
  pub state : ActionState
  pub explicit_manager_request : Bool
  pub confidence : Option ℕ
  pub key : ActionKey

pub record ExecutionPayload : Type 0 where
  pub task_id : String
  pub conversation_id : String
  pub trigger_message_id : String
  pub action_type : TaskExecutionActionType
  pub parameters : Record
  pub confidence : ℕ
  pub semantic_type : Option Text
  pub needs_approval : Bool
  pub explicit_manager_request : Bool
  pub human_approved_execution : Bool

-- The dedupe key of a manager's request, or that of another caller.
pub data EventKey : Type 0 where
  explicit_key : (task_id actor_id : String) → EventKey
  other_key : String → EventKey

-- The events of the outbox that are about executions.
pub data QueuedEvent : Type 0 where
  requested_event : EventKey → ExecutionPayload → QueuedEvent
  approved_event : (action : ℕ) → QueuedEvent

pub record Store : Type 0 where
  pub actions : List TaskAction
  pub events : List QueuedEvent
  pub next_id : ℕ

abbrev same_action_type : TaskExecutionActionType → TaskExecutionActionType → Bool
same_action_type TaskExecutionActionType.create_github_issue
      TaskExecutionActionType.create_github_issue =
    true
same_action_type TaskExecutionActionType.schedule_meeting TaskExecutionActionType.schedule_meeting =
    true
same_action_type TaskExecutionActionType.send_email TaskExecutionActionType.send_email = true
same_action_type TaskExecutionActionType.none TaskExecutionActionType.none = true
same_action_type _ _ = false

abbrev pub same_key : ActionKey → ActionKey → Bool
same_key (request_key t a) (request_key u b) = str_eq t u && str_eq a b
same_key (approval_key t k m) (approval_key u l n) =
    str_eq t u && (same_action_type k l && str_eq m n)
same_key _ _ = false

abbrev pub same_event_key : EventKey → EventKey → Bool
same_event_key (explicit_key t a) (explicit_key u b) = str_eq t u && str_eq a b
same_event_key (other_key t) (other_key u) = str_eq t u
same_event_key _ _ = false

abbrev pub has_event_key : EventKey → QueuedEvent → Bool
has_event_key key (requested_event k payload) = same_event_key k key
has_event_key key (approved_event action) = false

abbrev pub created : Store → TaskAction → Store
created store action = record store {
  actions = record action { id = store.next_id } ∷ store.actions;
  next_id = suc store.next_id;
}

-- `createTaskAction`, with the database's next id; the unique index refuses a key that it has.
unfoldable pub create_task_action : Store → TaskAction → Option Store
create_task_action store action =
    if some_of (λ a. same_key a.key action.key) store.actions
    then none
    else some (created store action)

abbrev pub is_requested : ActionState → Bool
is_requested requested = true
is_requested _ = false

abbrev pub is_approval_pending : ActionState → Bool
is_approval_pending approval_pending = true
is_approval_pending _ = false

-- `getInFlightExplicitRequestTaskAction`
abbrev pub is_in_flight : (task_id : String) → TaskAction → Bool
is_in_flight task_id a =
    str_eq a.task_id task_id
    && ((is_requested a.state || is_approval_pending a.state) && a.explicit_manager_request)

-- `source` of the input, or else that of its payload.
pub record EnqueueInput : Type 0 where
  pub key : EventKey
  pub payload : ExecutionPayload
  pub payload_source : Option String
  pub execution_mode : ExecutionMode
  pub explicit_manager_request : Bool
  pub source : Option String

pub record EnqueueResult : Type 0 where
  pub enqueued : Bool
  pub blocked : Bool

abbrev pub should_block_execution_enqueue : ExecutionMode → Bool
should_block_execution_enqueue suggest_only = true
should_block_execution_enqueue require_approval = false
should_block_execution_enqueue auto_execute = false

abbrev pub is_suggestion_accept : Option String → Bool
is_suggestion_accept none = false
is_suggestion_accept (some source) = str_eq source "suggestion.accept"

abbrev pub source_of : EnqueueInput → Option String
source_of input = if is_some input.source then input.source else input.payload_source

-- `none` where the outbox refuses the key.
unfoldable pub enqueue_task_execution_requested :
    Store → EnqueueInput → Option (Store × EnqueueResult)
enqueue_task_execution_requested store input =
    let explicit = input.explicit_manager_request || input.payload.explicit_manager_request in
    if is_suggestion_accept (source_of input)
    then some (store, record { enqueued = false; blocked = true })
    else if not explicit && should_block_execution_enqueue input.execution_mode
    then some (store, record { enqueued = false; blocked = true })
    else if some_of (has_event_key input.key) store.events
    then none
    else some (
      record store {
        events =
            requested_event input.key
              (record (input.payload) { explicit_manager_request = explicit })
            ∷ store.events;
      },
      record { enqueued = true; blocked = false },
    )
