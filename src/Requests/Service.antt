-- ===== src/Requests/Service.antt =====
-- A manager's request to execute a task: packages/services/task-execution-request.service.ts.
use semantask.Prelude.{
  Bool, true, false, not, ◌&&◌, Option, none, some, String, str_eq, or_else, present, if◌then◌else◌,
}
use semantask.Prelude.Text.{codes}
use semantask.Prelude.Value.{Record}
use semantask.Prelude.Collection.{find_first}
use semantask.Prelude.Result.{Result, ok, err}
use semantask.Execution.Kind.{TaskExecutionActionType}
use semantask.Policy.Mode.{ExecutionMode, Environment, get_effective_execution_mode}
use semantask.Workspace.{ServiceError, authorization_error, validation_error, not_found, denied}
use semantask.Workspace.Policy.{Policies, get_organization_policy}
use semantask.Access.Conversation.{ConversationAccessOptions, Records}
use semantask.Access.Suggestion.{can_decide_task_execution_approval}
use semantask.Requests.{
  TaskAction, Store, EnqueueInput, create_task_action, is_in_flight,
  enqueue_task_execution_requested, requested, request_key, explicit_key,
}

-- What a request reads of its task; `hints` are the parameters made of its title and description.
pub record RequestedTask : Type 0 where
  pub conversation_id : String
  pub organization_id : Option String
  pub source_message_id : Option String
  pub hints : Record

pub record RequestTaskExecutionResult : Type 0 where
  pub task_action : TaskAction
  pub enqueued : Bool
  pub already_pending : Bool

-- What the services read and a request leaves as it is.
pub record Services : Type 0 where
  pub env : Environment
  pub records : Records
  pub policies : Policies
  pub tasks : String → Option RequestedTask

abbrev pub duplicate_key : ServiceError
duplicate_key = ServiceError.failed "E11000 duplicate key error"

abbrev already : TaskAction → Result ServiceError RequestTaskExecutionResult
already action = ok (record { task_action = action; enqueued = false; already_pending = true })

abbrev pub request_action : RequestedTask → (task_id actor_id : String) → TaskAction
request_action task task_id actor_id = record {
  id = 0;
  task_id = task_id;
  conversation_id = task.conversation_id;
  action_type = TaskExecutionActionType.none;
  message_id = task.source_message_id;
  parameters = task.hints;
  state = requested;
  explicit_manager_request = true;
  confidence = none;
  key = request_key task_id actor_id;
}

module _ (object_id : String → Option String) (services : Services) where
  -- A text that is the id that it denotes.
  abbrev pub is_valid_object_id : String → Bool
  is_valid_object_id value = elim (object_id value) [ none ↦ false | some o ↦ str_eq o value ]

  unfoldable pub execution_mode_for : Option String → ExecutionMode
  execution_mode_for organization_id =
      get_effective_execution_mode services.env
        (elim (present organization_id) [ none ↦ none | some o ↦ some (codes o) ])
        (elim (present organization_id) [
          | none ↦ none
          | some o ↦ elim (get_organization_policy object_id services.policies o) [
            | none ↦ none
            | some policy ↦ policy.execution_mode
          ]
        ])

  abbrev pub request_input : RequestedTask → (task_id actor_id : String) → EnqueueInput
  request_input task task_id actor_id = record {
    key = explicit_key task_id actor_id;
    payload = record {
      task_id = task_id;
      conversation_id = task.conversation_id;
      trigger_message_id = or_else task.source_message_id task_id;
      action_type = TaskExecutionActionType.none;
      parameters = task.hints;
      confidence = 10000;
      semantic_type = none;
      needs_approval = true;
      explicit_manager_request = true;
      human_approved_execution = false;
    };
    payload_source = none;
    execution_mode = execution_mode_for task.organization_id;
    explicit_manager_request = true;
    source = none;
  }

  -- After the checks: the action and its event. An action stays where its event is refused.
  unfoldable pub submit_request :
      Store
      → RequestedTask
      → (task_id actor_id : String) → Store × Result ServiceError RequestTaskExecutionResult
  submit_request store task task_id actor_id =
      let action = request_action task task_id actor_id in
      elim (create_task_action store action) [
        | none ↦ (store, err duplicate_key)
        | some with_action ↦
            elim (enqueue_task_execution_requested with_action
              (request_input task task_id actor_id)) [
                | none ↦ (with_action, err duplicate_key)
                | some (stored, result) ↦ (
                  stored,
                  ok (record {
                    task_action = record action { id = store.next_id };
                    enqueued = result.enqueued;
                    already_pending = false;
                  }),
                )
              ]
      ]

  unfoldable pub request_task_execution :
      Store
      → (task_id actor_id : String) → Option ConversationAccessOptions
      → Store × Result ServiceError RequestTaskExecutionResult
  request_task_execution store task_id actor_id options =
      if not (is_valid_object_id task_id && is_valid_object_id actor_id)
      then (store, err (validation_error "taskId and actorUserId must be valid ObjectIds"))
      else elim (services.tasks task_id) [
        | none ↦ (store, err (authorization_error not_found "Task not found"))
        | some task ↦
            if not (
              can_decide_task_execution_approval object_id services.records actor_id
                (record {
                  conversation_id = task.conversation_id;
                  organization_id = task.organization_id;
                })
                options)
            then (store, err denied)
            else elim (find_first (is_in_flight task_id) store.actions) [
              | some action ↦ (store, already action)
              | none ↦ submit_request store task task_id actor_id
            ]
      ]
