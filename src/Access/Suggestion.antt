-- ===== src/Access/Suggestion.antt =====
-- Reading and changing a work suggestion, and deciding on the execution of a task:
-- packages/services/authorization.service.ts.
use semantask.Prelude.{
  Bool, true, false, not, ◌&&◌, Option, none, some, String, str_eq, is_some, present, if◌then◌else◌,
}
use semantask.Prelude.Result.{Result, guard, is_ok}
use semantask.Workspace.{
  ServiceError, can_manage_members, denied, get_membership, assert_organization_active,
}
use semantask.Access.Conversation.{
  ConversationAccessOptions, Records, load_conversation_for_access, can_access_conversation,
  assert_organization_member_access,
}

-- Also the target of an approval and of a move on the board.
pub record WorkSuggestionAccessTarget : Type 0 where
  pub conversation_id : String
  pub organization_id : Option String

module _ (object_id : String → Option String) where
  unfoldable pub can_access_work_suggestion :
      Records
      → (user_id : String) → WorkSuggestionAccessTarget
      → Option ConversationAccessOptions
      → Bool
  can_access_work_suggestion records user_id suggestion options =
      if not (is_some (object_id user_id) && is_some (object_id suggestion.conversation_id))
      then false
      else if can_access_conversation object_id records user_id suggestion.conversation_id options
      then true
      else elim (present suggestion.organization_id) [
        | none ↦ false
        | some o ↦
            if not (is_some (object_id o))
            then false
            else is_ok (assert_organization_member_access object_id records user_id o)
      ]

  unfoldable pub assert_work_suggestion_access :
      Records
      → (user_id : String) → WorkSuggestionAccessTarget
      → Option ConversationAccessOptions
      → Result ServiceError (Unit {0})
  assert_work_suggestion_access records user_id suggestion options =
      guard (can_access_work_suggestion records user_id suggestion options) denied

  -- An owner or admin of the organization, which is active.
  unfoldable pub manages : Records → (user_id organization_id : String) → Bool
  manages records user_id o =
      if is_ok (assert_organization_active object_id records.directory o)
      then elim (get_membership object_id records.directory o user_id) [
        | none ↦ false
        | some membership ↦ can_manage_members membership.role
      ]
      else false

  unfoldable pub can_mutate_work_suggestion :
      Records
      → (user_id : String) → WorkSuggestionAccessTarget
      → Option ConversationAccessOptions
      → Bool
  unfolding manages
  can_mutate_work_suggestion records user_id suggestion options =
      if not (is_some (object_id user_id) && is_some (object_id suggestion.conversation_id))
      then false
      else if can_access_conversation object_id records user_id suggestion.conversation_id options
      then true
      else elim (load_conversation_for_access object_id records suggestion.conversation_id) [
        | none ↦ false
        | some conversation ↦ elim (present conversation.organization_id) [
          | none ↦ false
          | some o ↦
              if elim (present suggestion.organization_id) [
                | none ↦ false
                | some labelled ↦ not (str_eq labelled o)
              ]
              then false
              else manages records user_id o
        ]
      ]

  unfoldable pub assert_work_suggestion_mutation_access :
      Records
      → (user_id : String) → WorkSuggestionAccessTarget
      → Option ConversationAccessOptions
      → Result ServiceError (Unit {0})
  assert_work_suggestion_mutation_access records user_id suggestion options =
      guard (can_mutate_work_suggestion records user_id suggestion options) denied

  -- `canDecideTaskExecutionApproval` and `canMutateCoordinationTask` build the same target.
  unfoldable pub can_decide_task_execution_approval :
      Records
      → (user_id : String) → WorkSuggestionAccessTarget
      → Option ConversationAccessOptions
      → Bool
  can_decide_task_execution_approval records user_id target options =
      can_mutate_work_suggestion records user_id
        (record {
          conversation_id = target.conversation_id;
          organization_id = target.organization_id;
        })
        options
