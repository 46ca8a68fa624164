-- ===== src/Access/Conversation.antt =====
-- Access to a conversation, a task and a message: packages/services/authorization.service.ts. A
-- collection is a function of the id as `ObjectId` writes it; `object_id` is the id that a text
-- denotes, where it is valid.
use semantask.Prelude.{
  Bool, true, false, not, ◌&&◌, ◌||◌, Option, none, some, String, List, includes, is_some, present,
  if◌then◌else◌,
}
use semantask.Prelude.Result.{Result, ok, ◌>>=◌, ◌>>◌, guard, is_ok}
use semantask.Workspace.{
  not_found, ServiceError, authorization_error, Membership, Directory, found, denied,
  get_membership, assert_membership, assert_organization_active,
}

pub data AuthorizationRole : Type 0 where
  user moderator admin : AuthorizationRole

pub record ConversationAccessOptions : Type 0 where
  pub allow_admin_bypass : Option Bool
  pub user_role : Option AuthorizationRole

pub record ConversationAccessRecord : Type 0 where
  pub id : String
  pub participants : List String
  pub organization_id : Option String

pub record ConversationAccess : Type 0 where
  pub conversation_id : String
  pub participant_ids : List String
  pub organization_id : Option String

pub record TaskRecord : Type 0 where
  pub conversation_id : String
  pub organization_id : Option String

pub record TaskAccess : Type 0 where
  pub task_id : String
  pub conversation_id : String
  pub organization_id : Option String

-- What the checks read.
pub record Records : Type 0 where
  pub directory : Directory
  pub conversations : String → Option ConversationAccessRecord
  pub tasks : String → Option TaskRecord

abbrev pub is_participant : ConversationAccessRecord → (user_id : String) → Bool
is_participant conversation user_id = includes user_id conversation.participants

abbrev is_admin : Option AuthorizationRole → Bool
is_admin none = false
is_admin (some user) = false
is_admin (some moderator) = false
is_admin (some admin) = true

abbrev is_refused : Option Bool → Bool
is_refused none = false
is_refused (some allowed) = not allowed

unfoldable pub can_admin_bypass :
    Option ConversationAccessOptions → ConversationAccessRecord → (user_id : String) → Bool
can_admin_bypass none conversation user_id = false
can_admin_bypass (some options) conversation user_id =
    not (is_refused options.allow_admin_bypass)
    && (is_admin options.user_role && not (is_participant conversation user_id))

module _ (object_id : String → Option String) where
  unfoldable pub load_conversation_for_access :
      Records → (conversation_id : String) → Option ConversationAccessRecord
  load_conversation_for_access records conversation_id = elim (object_id conversation_id) [
    | none ↦ none
    | some id ↦ records.conversations id
  ]

  unfoldable pub assert_org_conversation_access :
      Records
      → (user_id organization_id : String) → ConversationAccessRecord
      → Option ConversationAccessOptions
      → Bool
  assert_org_conversation_access records user_id organization_id conversation options =
      if is_ok (assert_organization_active object_id records.directory organization_id)
      then if is_some (get_membership object_id records.directory organization_id user_id)
          && is_participant conversation user_id
        then true
        else can_admin_bypass options conversation user_id
      else can_admin_bypass options conversation user_id

  unfoldable pub can_access_conversation :
      Records → (user_id conversation_id : String) → Option ConversationAccessOptions → Bool
  can_access_conversation records user_id conversation_id options =
      if not (is_some (object_id user_id))
      then false
      else elim (load_conversation_for_access records conversation_id) [
        | none ↦ false
        | some conversation ↦ elim (present conversation.organization_id) [
          | some o ↦ assert_org_conversation_access records user_id o conversation options
          | none ↦
              if is_participant conversation user_id
              then true
              else can_admin_bypass options conversation user_id
        ]
      ]

  abbrev access_to :
      (conversation_id : String)
      → ConversationAccessRecord
      → (organization_id : Option String) → ConversationAccess
  access_to conversation_id conversation organization_id = record {
    conversation_id = conversation_id;
    participant_ids = conversation.participants;
    organization_id = organization_id;
  }

  unfoldable pub assert_conversation_access :
      Records
      → (user_id conversation_id : String) → Option ConversationAccessOptions
      → Result ServiceError ConversationAccess
  assert_conversation_access records user_id conversation_id options =
      guard (is_some (object_id user_id) && is_some (object_id conversation_id)) denied
      >> found (load_conversation_for_access records conversation_id) denied
      >>= λ conversation. elim (present conversation.organization_id) [
        | some o ↦
            guard (assert_org_conversation_access records user_id o conversation options) denied
            >> ok (access_to conversation_id conversation (some o))
        | none ↦
            guard
              (is_participant conversation user_id || can_admin_bypass options conversation user_id)
              denied
            >> ok (access_to conversation_id conversation none)
      ]

  unfoldable pub get_authorized_conversation :
      Records
      → (user_id conversation_id : String) → Option ConversationAccessOptions
      → Result ServiceError ConversationAccessRecord
  get_authorized_conversation records user_id conversation_id options =
      assert_conversation_access records user_id conversation_id options >>= λ access.
      found (load_conversation_for_access records access.conversation_id) denied

  unfoldable pub assert_task_access :
      Records
      → (user_id task_id : String) → Option ConversationAccessOptions
      → Result ServiceError TaskAccess
  assert_task_access records user_id task_id options =
      guard (is_some (object_id user_id)) denied >> found (object_id task_id) denied >>= λ id.
      found (records.tasks id) (authorization_error not_found "Task not found") >>= λ task.
      assert_conversation_access records user_id task.conversation_id options >>= λ access.
      ok (record {
        task_id = task_id;
        conversation_id = task.conversation_id;
        organization_id = elim access.organization_id [
          | some o ↦ some o
          | none ↦ task.organization_id
        ];
      })

  unfoldable pub assert_organization_member_access :
      Records → (user_id organization_id : String) → Result ServiceError Membership
  assert_organization_member_access records user_id organization_id =
      assert_organization_active object_id records.directory organization_id >>= λ org.
      assert_membership object_id records.directory organization_id user_id
