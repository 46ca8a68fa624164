-- ===== src/Requests/Worker.antt =====
-- What the worker and the reviewer make of a request: `processTaskExecutionRequested` from the policy
-- decision to the lease and `processTaskExecutionApproved` of apps/task-worker/index.ts, and `POST` of
-- apps/web/app/api/task-approvals/route.ts. The audit, the task's documents and the notices are left
-- out; what a call reads of the organization and of tool grants is its context.
use semantask.Prelude.{
  ℕ, ◌==◌, Bool, true, false, not, ◌&&◌, ◌||◌, Option, none, some, String, List, ◌∷◌, some_of,
  or_else, max, if◌then◌else◌,
}
use semantask.Prelude.Text.{Text, codes, has_part}
use semantask.Prelude.Value.{Record}
use semantask.Prelude.Collection.{find_first, update_first}
use semantask.Policy.Mode.{
  Environment, SuggestOnlyFlags, get_effective_execution_mode,
  should_skip_suggest_only_ingress_fail_closed, resolve_suggest_only_policy_override,
}
use semantask.Policy.Decision.{
  ExecutionPolicyOutcome, ExecutionRiskLevel, Reason, OrganizationPolicyOverlay, RequestedPayload,
  mode_suggest_only, low_confidence, passed,
}
use semantask.Policy.Decision.Evaluate.{evaluate_execution_policy, is_high_risk}
use semantask.Requests.{
  ActionState, TaskAction, approval_key, ExecutionPayload, QueuedEvent, approved_event, Store,
  create_task_action, is_approval_pending, should_block_execution_enqueue,
}

-- `tool_granted` says that `assertToolGrant` lets the call through, or is not asked.
pub record WorkerContext : Type 0 where
  pub env : Environment
  pub organization_id : Option Text
  pub org_policy : Option OrganizationPolicyOverlay
  pub participant_emails : List Text
  pub contact_emails : List Text
  pub tool_granted : Bool

-- What becomes of an execution: the task fails, waits for an approval, or goes to its lease.
pub data GateOutcome : Type 0 where
  stopped awaits_approval runs : GateOutcome

abbrev pub policy_input : WorkerContext → ExecutionPayload → RequestedPayload
policy_input context payload = record {
  action_type = payload.action_type;
  parameters = payload.parameters;
  confidence = some payload.confidence;
  needs_approval = payload.needs_approval;
  semantic_type = payload.semantic_type;
  participant_emails = context.participant_emails;
  contact_emails = context.contact_emails;
  organization_id = context.organization_id;
  org_policy = context.org_policy;
  execution_mode_enforce = none;
}

-- The texts that name the mode; the label of an intent is part of its reason's text. The words of a
-- prompt guard are not read for it.
abbrev names_suggest_only : Reason → Bool
names_suggest_only mode_suggest_only = true
names_suggest_only (low_confidence label c t v) =
    has_part (codes "execution_mode:suggest_only") label
names_suggest_only (passed label c t) = has_part (codes "execution_mode:suggest_only") label
names_suggest_only _ = false

abbrev is_blocked : ExecutionPolicyOutcome → Bool
is_blocked ExecutionPolicyOutcome.blocked = true
is_blocked _ = false

abbrev asks_approval : ExecutionPolicyOutcome → Bool
asks_approval ExecutionPolicyOutcome.approval_required = true
asks_approval _ = false

abbrev is_high : ExecutionRiskLevel → Bool
is_high ExecutionRiskLevel.high = true
is_high _ = false

unfoldable pub gate : WorkerContext → ExecutionPayload → GateOutcome
gate context payload =
    let decision = evaluate_execution_policy context.env (policy_input context payload) in
    let mode = or_else decision.execution_mode (
      get_effective_execution_mode context.env context.organization_id
        (elim context.org_policy [ none ↦ none | some policy ↦ policy.execution_mode ])) in
    let flags : SuggestOnlyFlags = record {
      human_approved_execution = payload.human_approved_execution;
      explicit_manager_request = payload.explicit_manager_request;
    } in
    let unsafe = is_high decision.risk_level && some_of is_high_risk decision.reasons in
    let override =
      resolve_suggest_only_policy_override (is_blocked decision.outcome)
        (some_of names_suggest_only decision.reasons) flags in
    let bypass = override.bypass_suggest_only_after_human_approval && not unsafe in
    if should_block_execution_enqueue mode
      && not (should_skip_suggest_only_ingress_fail_closed flags)
    then stopped
    else if not context.tool_granted
    then stopped
    else if (is_blocked decision.outcome || unsafe)
        && (not override.force_approval_for_explicit && not bypass)
    then stopped
    else if asks_approval decision.outcome || override.force_approval_for_explicit
    then awaits_approval
    else runs

-- The action that waits for the approval. Its `patch` has no `explicitManagerRequest`.
abbrev pub pending_action : ExecutionPayload → TaskAction
pending_action payload = record {
  id = 0;
  task_id = payload.task_id;
  conversation_id = payload.conversation_id;
  action_type = payload.action_type;
  message_id = some payload.trigger_message_id;
  parameters = payload.parameters;
  state = ActionState.approval_pending;
  explicit_manager_request = false;
  confidence = some payload.confidence;
  key = approval_key payload.task_id payload.action_type payload.trigger_message_id;
}

-- An action with the key may be there already.
unfoldable pub process_task_execution_requested :
    WorkerContext → Store → ExecutionPayload → Store × GateOutcome
process_task_execution_requested context store payload = elim (gate context payload) [
  | stopped ↦ (store, stopped)
  | awaits_approval ↦
      (or_else (create_task_action store (pending_action payload)) store, awaits_approval)
  | runs ↦ (store, runs)
]

abbrev pub has_action_id : ℕ → TaskAction → Bool
has_action_id id a = a.id == id

abbrev pub set_state : ActionState → TaskAction → TaskAction
set_state state a = record a { state = state }

abbrev pub approved_with : Option Record → TaskAction → TaskAction
approved_with parameters a = record a {
  state = ActionState.approved;
  parameters = or_else parameters a.parameters;
}

-- `action_id` is the text of the action's id, where it has no message.
abbrev pub approved_payload : (action_id : String) → TaskAction → ExecutionPayload
approved_payload action_id a = record {
  task_id = a.task_id;
  conversation_id = a.conversation_id;
  trigger_message_id = or_else a.message_id action_id;
  action_type = a.action_type;
  parameters = a.parameters;
  confidence = elim a.confidence [ none ↦ 10000 | some c ↦ max c 7000 ];
  semantic_type = none;
  needs_approval = false;
  explicit_manager_request = a.explicit_manager_request;
  human_approved_execution = a.explicit_manager_request;
}

-- `none` where the action is not found and the call throws.
unfoldable pub process_task_execution_approved :
    WorkerContext → (action_text : ℕ → String) → Store → (action : ℕ) → Store × Option GateOutcome
process_task_execution_approved context action_text store id =
    elim (find_first (has_action_id id) store.actions) [
      | none ↦ (store, none)
      | some a ↦
          let approved = record store {
            actions =
                update_first (has_action_id id) (set_state ActionState.approved) store.actions;
          } in
          let processed =
            process_task_execution_requested context approved
              (approved_payload (action_text id) a) in
          (processed.0, some processed.1)
    ]

-- The answers of the route; `refused` stands for the database's error of a key that is there.
pub data DecisionAnswer : Type 0 where
  not_found not_pending forbidden decided refused : DecisionAnswer

abbrev is_approved_event : ℕ → QueuedEvent → Bool
is_approved_event id (approved_event a) = a == id
is_approved_event id _ = false

-- `may_decide` is `canDecideTaskExecutionApproval` for the reviewer and the action's organization;
-- `parameters` are those that the reviewer gives in place of the action's.
unfoldable pub decide_approval :
    (may_decide : TaskAction → Bool)
    → Store
    → (action : ℕ) → (approve : Bool) → (parameters : Option Record) → Store × DecisionAnswer
decide_approval may_decide store id approve parameters =
    elim (find_first (has_action_id id) store.actions) [
      | none ↦ (store, not_found)
      | some a ↦
          if not (is_approval_pending a.state)
          then (store, not_pending)
          else if not (may_decide a)
          then (store, forbidden)
          else if not approve
          then (
            record store {
              actions =
                  update_first (has_action_id id) (set_state ActionState.rejected) store.actions;
            },
            decided,
          )
          else let actions =
              update_first (has_action_id id) (approved_with parameters) store.actions in
            if some_of (is_approved_event id) store.events
            then (record store { actions = actions }, refused)
            else (
              record store { actions = actions; events = approved_event id ∷ store.events },
              decided,
            )
    ]
