-- ===== src/Requests/Examples.antt =====
-- A manager's request in a workspace of the mode `suggest_only`, its approval and a second request.
use semantask.Prelude.{
  ℕ, Bool, true, false, Option, none, some, String, List, [], ◌∷◌, is_present, if◌then◌else◌, ◌≡◌,
  refl,
}
use semantask.Prelude.Value.{no_properties}
use semantask.Prelude.Result.{ok}
use semantask.Execution.Kind.{TaskExecutionActionType}
use semantask.Policy.Mode.{
  suggest_only, Environment, get_effective_execution_mode, parse_default_execution_mode,
  resolve_suggest_only_policy_override, should_skip_suggest_only_ingress_fail_closed,
}
use semantask.Policy.Decision.Evaluate.{evaluate_execution_policy, mode_of}
use semantask.Access.Conversation.{
  Records, load_conversation_for_access, assert_org_conversation_access, can_access_conversation,
}
use semantask.Access.Suggestion.{can_mutate_work_suggestion, can_decide_task_execution_approval}
use semantask.Requests.{
  ActionState, TaskAction, request_key, Store, create_task_action, enqueue_task_execution_requested,
}
use semantask.Requests.Service.{
  Services, RequestTaskExecutionResult, submit_request, execution_mode_for, request_task_execution,
}
use semantask.Requests.Worker.{
  WorkerContext, stopped, gate, process_task_execution_requested, process_task_execution_approved,
  decide_approval,
}
use semantask.Requests.Calls.{Call, request, decide, deliver, deliver_event, apply, run_calls}
use semantask.Requests.Pending.{empty_store, has_run, suggest_only_runs_nothing, requested_once}

abbrev ids : String → Option String
ids s = if is_present s then some s else none

abbrev action_text : ℕ → String
action_text n = "a"

abbrev env : Environment
env = record {
  grandfather_auto_tenants = [];
  default_execution_mode = none;
  allowed_email_domains = [];
}

abbrev records : Records
records = record {
  directory = record { organizations = []; memberships = [] };
  conversations = λ id. some (record { id = id; participants = "u2" ∷ []; organization_id = none });
  tasks = λ id. none;
}

abbrev services : Services
services = record {
  env = env;
  records = records;
  policies = λ id. none;
  tasks = λ id. some (record {
    conversation_id = "c1";
    organization_id = none;
    source_message_id = none;
    hints = no_properties;
  });
}

abbrev context : WorkerContext
context = record {
  env = env;
  organization_id = none;
  org_policy = none;
  participant_emails = [];
  contact_emails = [];
  tool_granted = true;
}

-- The worker creates the action that waits, the reviewer approves it, and its event is there.
abbrev decided_calls : List Call
decided_calls = deliver 0 context ∷ decide (λ a. true) 2 true none ∷ []

abbrev calls : List Call
calls = request "t1" "u2" none ∷ decided_calls

approved_stops :
    (apply ids services action_text
      (run_calls ids services action_text (empty_store 1) calls)
      (deliver 0 context)).1
    ≡ some stopped
unfolding apply run_calls deliver_event request_task_execution submit_request create_task_action
    enqueue_task_execution_requested execution_mode_for can_decide_task_execution_approval
    can_mutate_work_suggestion can_access_conversation assert_org_conversation_access
    load_conversation_for_access process_task_execution_requested process_task_execution_approved
    decide_approval gate evaluate_execution_policy mode_of get_effective_execution_mode
    parse_default_execution_mode resolve_suggest_only_policy_override
    should_skip_suggest_only_ingress_fail_closed
approved_stops = refl

suggest_mode : get_effective_execution_mode env none none ≡ suggest_only
unfolding get_effective_execution_mode parse_default_execution_mode
suggest_mode = refl

suggest_only_runs_nothing_example :
    has_run
      (apply ids services action_text
        (run_calls ids services action_text (empty_store 1) calls)
        (deliver 0 context)).1
    ≡ false
suggest_only_runs_nothing_example =
    suggest_only_runs_nothing ids services action_text 1 calls 0 context (refl, (refl, (refl, tt)))
      suggest_mode

abbrev requested_action : TaskAction
requested_action = record {
  id = 1;
  task_id = "t1";
  conversation_id = "c1";
  action_type = TaskExecutionActionType.none;
  message_id = none;
  parameters = no_properties;
  state = ActionState.requested;
  explicit_manager_request = true;
  confidence = none;
  key = request_key "t1" "u2";
}

abbrev answer : (enqueued already_pending : Bool) → RequestTaskExecutionResult
answer enqueued already_pending = record {
  task_action = requested_action;
  enqueued = enqueued;
  already_pending = already_pending;
}

abbrev start : Store
start = run_calls ids services action_text (empty_store 1) []

abbrev later : Store
later =
    run_calls ids services action_text (request_task_execution ids services start "t1" "u2" none).0
      decided_calls

answered_first :
    (request_task_execution ids services start "t1" "u2" none).1 ≡ ok (answer true false)
unfolding run_calls request_task_execution submit_request create_task_action
    enqueue_task_execution_requested execution_mode_for can_decide_task_execution_approval
    can_mutate_work_suggestion can_access_conversation assert_org_conversation_access
    load_conversation_for_access
answered_first = refl

answered_again :
    (request_task_execution ids services later "t1" "u2" none).1 ≡ ok (answer false true)
unfolding apply run_calls deliver_event request_task_execution submit_request create_task_action
    enqueue_task_execution_requested execution_mode_for can_decide_task_execution_approval
    can_mutate_work_suggestion can_access_conversation assert_org_conversation_access
    load_conversation_for_access process_task_execution_requested process_task_execution_approved
    decide_approval gate evaluate_execution_policy mode_of get_effective_execution_mode
    parse_default_execution_mode resolve_suggest_only_policy_override
    should_skip_suggest_only_ingress_fail_closed
answered_again = refl

requested_once_example :
    ((request_task_execution ids services later "t1" "u2" none).0 ≡ later)
    × ((answer false true).already_pending ≡ true)
    × ((answer false true).enqueued ≡ false)
requested_once_example =
    requested_once ids services action_text 1 [] decided_calls "t1" "u2" "u2" none none
      (answer true false) (answer false true) tt (refl, (refl, tt)) answered_first answered_again
