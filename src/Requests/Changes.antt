-- ===== src/Requests/Changes.antt =====
-- What each operation makes of the store, and that it keeps it.
use semantask.Prelude.{
  ℕ, ltb, Bool, true, false, ◌||◌, Option, none, some, String, ◌∷◌, or_else, ◌≡◌, ◌⊎◌, inl, inr,
  refl, sym, ◌∙◌, arith, Bool-cases, Option-cases,
}
use mathlib.Core.Path.{subst}
use semantask.Prelude.Value.{Record}
use semantask.Prelude.Collection.{find_first, update_first}
use semantask.Access.Conversation.{ConversationAccessOptions}
use semantask.Requests.{
  ActionState, TaskAction, ExecutionPayload, QueuedEvent, requested_event, approved_event, Store,
  create_task_action, created, is_approval_pending, EnqueueInput, enqueue_task_execution_requested,
}
use semantask.Requests.Service.{
  Services, RequestedTask, request_action, request_input, submit_request, request_task_execution,
}
use semantask.Requests.Calls.{stored_by}
use semantask.Requests.Worker.{
  WorkerContext, pending_action, process_task_execution_requested, process_task_execution_approved,
  has_action_id, set_state, approved_with, approved_payload, decide_approval,
}
use semantask.Requests.Kept.{
  is_plain, Kept, IsMild, set_state-IsMild, approved_with-IsMild, update-is_plain, update-actions,
  update-events, created-Kept, find-ok,
}

-- What an enqueuing makes of the store.
abbrev with_event : Store → QueuedEvent → Store
with_event s e = record s { events = e ∷ s.events }

abbrev enqueued_payload : EnqueueInput → ExecutionPayload
enqueued_payload input = record (input.payload) {
  explicit_manager_request =
      input.explicit_manager_request || input.payload.explicit_manager_request;
}

pub enqueue-cases :
    (s : Store) (input : EnqueueInput)
    → (stored_by s input ≡ s)
      ⊎ (stored_by s input ≡ with_event s (requested_event input.key (enqueued_payload input)))
unfolding enqueue_task_execution_requested
enqueue-cases s input = ground arith

pub enqueue-Kept :
    (s : Store) (input : EnqueueInput)
    → Kept s
    → input.payload.human_approved_execution ≡ false
    → Kept (stored_by s input)
enqueue-Kept s input k o = elim (enqueue-cases s input) [
  | inl e ↦ subst Kept (sym e) k
  | inr e ↦ subst Kept (sym e) (k.0, (ground arith, k.1))
]

pub create-cases :
    (s : Store) (a : TaskAction)
    → (or_else (create_task_action s a) s ≡ s) ⊎ (or_else (create_task_action s a) s ≡ created s a)
unfolding create_task_action
create-cases s a = ground arith

pub create-Kept :
    (s : Store) (a : TaskAction)
    → Kept s
    → a.explicit_manager_request ≡ false
    → Kept (or_else (create_task_action s a) s)
create-Kept s a k o = elim (create-cases s a) [
  | inl e ↦ subst Kept (sym e) k
  | inr e ↦ subst Kept (sym e) (created-Kept s a k (ground arith))
]

pub process-cases :
    (context : WorkerContext) (s : Store) (payload : ExecutionPayload)
    → ((process_task_execution_requested context s payload).0 ≡ s)
      ⊎ ((process_task_execution_requested context s payload).0
          ≡ created s (pending_action payload))
unfolding process_task_execution_requested create_task_action
process-cases context s payload = ground arith

pub process-Kept :
    (context : WorkerContext) (s : Store) (payload : ExecutionPayload)
    → Kept s
    → Kept (process_task_execution_requested context s payload).0
process-Kept context s payload k = elim (process-cases context s payload) [
  | inl e ↦ subst Kept (sym e) k
  | inr e ↦ subst Kept (sym e) (created-Kept s (pending_action payload) k refl)
]

changed-Kept :
    (s : Store) (f : TaskAction → TaskAction) (id : ℕ)
    → IsMild f
    → is_plain id s.actions ≡ true
    → Kept s
    → Kept (record s { actions = update_first (has_action_id id) f s.actions })
changed-Kept s f id m p (h, g) = (
  update-actions f id s.next_id s.actions m p h,
  update-events f id s.next_id s.actions s.events m g,
)

abbrev pub marked_approved : Store → ℕ → Store
marked_approved s id = record s {
  actions = update_first (has_action_id id) (set_state ActionState.approved) s.actions;
}

pub approved-cases :
    (context : WorkerContext) (action_text : ℕ → String) (s : Store) (id : ℕ) (a : TaskAction)
    → find_first (has_action_id id) s.actions ≡ some a
    → (process_task_execution_approved context action_text s id).0
      ≡ (process_task_execution_requested context
          (marked_approved s id)
          (approved_payload (action_text id) a)).0
unfolding process_task_execution_approved
approved-cases context action_text s id a e = rw (e, process_task_execution_approved) refl

pub approved-Kept :
    (context : WorkerContext) (action_text : ℕ → String) (s : Store) (id : ℕ)
    → is_plain id s.actions ≡ true
    → Kept s
    → Kept (process_task_execution_approved context action_text s id).0
approved-Kept context action_text s id p k =
    elim (Option-cases (find_first (has_action_id id) s.actions)) [
      | inl n ↦ absurd (ground arith)
      | inr (a, e) ↦ subst Kept (sym (approved-cases context action_text s id a e)) (
          process-Kept context (marked_approved s id) (approved_payload (action_text id) a) (
            changed-Kept s (set_state ActionState.approved) id
              (set_state-IsMild ActionState.approved) p k))
    ]

abbrev rejected_in : Store → ℕ → Store
rejected_in s id = record s {
  actions = update_first (has_action_id id) (set_state ActionState.rejected) s.actions;
}

abbrev approved_in : Store → ℕ → Option Record → Store
approved_in s id parameters = record s {
  actions = update_first (has_action_id id) (approved_with parameters) s.actions;
}

decided-cases :
    (may : TaskAction → Bool) (s : Store) (id : ℕ) (approve : Bool) (parameters : Option Record)
    (a : TaskAction)
    → find_first (has_action_id id) s.actions ≡ some a
    → let after = (decide_approval may s id approve parameters).0 in
      (after ≡ s)
      ⊎ ((after ≡ rejected_in s id)
          ⊎ (after ≡ approved_in s id parameters)
          ⊎ (after ≡ with_event (approved_in s id parameters) (approved_event id)))
unfolding decide_approval
decided-cases may s id approve parameters a e = ground arith

-- What a decision makes of the store.
pub decide-cases :
    (may : TaskAction → Bool) (s : Store) (id : ℕ) (approve : Bool) (parameters : Option Record)
    → let after = (decide_approval may s id approve parameters).0 in
      (after ≡ s)
      ⊎ ((a : TaskAction) × (find_first (has_action_id id) s.actions ≡ some a)
          × (is_approval_pending a.state ≡ true)
          × ((after ≡ rejected_in s id)
              ⊎ (after ≡ approved_in s id parameters)
              ⊎ (after ≡ with_event (approved_in s id parameters) (approved_event id))))
unfolding decide_approval
decide-cases may s id approve parameters =
    elim (Option-cases (find_first (has_action_id id) s.actions)) [
      | inl n ↦ inl (ground arith)
      | inr (a, e) ↦ elim (Bool-cases (is_approval_pending a.state)) [
        | inl p ↦ elim (decided-cases may s id approve parameters a e) [
          | inl same ↦ inl same
          | inr rest ↦ inr (a, e, p, rest)
        ]
        | inr p ↦ inl (ground arith)
      ]
    ]

-- An action that waits for an approval is plain.
pub found_pending-is_plain :
    (s : Store) (id : ℕ) (a : TaskAction)
    → Kept s
    → find_first (has_action_id id) s.actions ≡ some a
    → is_approval_pending a.state ≡ true
    → (is_plain id s.actions ≡ true) × (ltb id s.next_id ≡ true)
found_pending-is_plain s id a (h, g) e p =
    let (o, i) = find-ok s.next_id id s.actions a h e in ground arith

pub decide-Kept :
    (may : TaskAction → Bool) (s : Store) (id : ℕ) (approve : Bool) (parameters : Option Record)
    → Kept s
    → Kept (decide_approval may s id approve parameters).0
decide-Kept may s id approve parameters k = elim (decide-cases may s id approve parameters) [
  | inl same ↦ subst Kept (sym same) k
  | inr (a, e, p, rest) ↦
      let (plain, below) = found_pending-is_plain s id a k e p in
      let approved =
        changed-Kept s (approved_with parameters) id (approved_with-IsMild parameters) plain k in
      elim rest [
        | inl r ↦ subst Kept (sym r) (
            changed-Kept s (set_state ActionState.rejected) id
              (set_state-IsMild ActionState.rejected) plain k)
        | inr (inl r) ↦ subst Kept (sym r) approved
        | inr (inr r) ↦ subst Kept (sym r) (
          approved.0,
          (
            ground (
              arith,
              update-is_plain (approved_with parameters) id id s.actions
                  (approved_with-IsMild parameters),
            ),
            approved.1,
          ),
        )
      ]
]

module _ (object_id : String → Option String) (services : Services) where
  submit-cases :
      (s : Store) (task_id actor_id : String) (task : RequestedTask)
      → let after = (submit_request object_id services s task task_id actor_id).0 in
        (after ≡ s)
        ⊎ (after
            ≡ stored_by
                (created s (request_action task task_id actor_id))
                (request_input object_id services task task_id actor_id))
  unfolding submit_request create_task_action
  submit-cases s task_id actor_id task = ground arith

  checked-cases :
      (s : Store) (task_id actor_id : String) (options : Option ConversationAccessOptions)
      (task : RequestedTask)
      → services.tasks task_id ≡ some task
      → let after = (request_task_execution object_id services s task_id actor_id options).0 in
        (after ≡ s) ⊎ (after ≡ (submit_request object_id services s task task_id actor_id).0)
  unfolding request_task_execution
  checked-cases s task_id actor_id options task e = ground arith

  unknown_task :
      (s : Store) (task_id actor_id : String) (options : Option ConversationAccessOptions)
      → services.tasks task_id ≡ none
      → (request_task_execution object_id services s task_id actor_id options).0 ≡ s
  unfolding request_task_execution
  unknown_task s task_id actor_id options n = ground arith

  -- A request leaves the store, or creates its action and enqueues its event.
  pub request-cases :
      (s : Store) (task_id actor_id : String) (options : Option ConversationAccessOptions)
      → let after = (request_task_execution object_id services s task_id actor_id options).0 in
        (after ≡ s)
        ⊎ ((task : RequestedTask) × (after
              ≡ stored_by
                  (created s (request_action task task_id actor_id))
                  (request_input object_id services task task_id actor_id)))
  request-cases s task_id actor_id options = elim (Option-cases (services.tasks task_id)) [
    | inl n ↦ inl (unknown_task s task_id actor_id options n)
    | inr (task, e) ↦ elim (checked-cases s task_id actor_id options task e) [
      | inl same ↦ inl same
      | inr submitted ↦ elim (submit-cases s task_id actor_id task) [
        | inl same ↦ inl (submitted ∙ same)
        | inr stored ↦ inr (task, submitted ∙ stored)
      ]
    ]
  ]

  pub request-Kept :
      (s : Store) (task_id actor_id : String) (options : Option ConversationAccessOptions)
      → Kept s
      → Kept (request_task_execution object_id services s task_id actor_id options).0
  request-Kept s task_id actor_id options k = elim (request-cases s task_id actor_id options) [
    | inl same ↦ subst Kept (sym same) k
    | inr (task, e) ↦ subst Kept (sym e) (
        enqueue-Kept (created s (request_action task task_id actor_id))
          (request_input object_id services task task_id actor_id)
          (created-Kept s (request_action task task_id actor_id) k refl) refl)
  ]
