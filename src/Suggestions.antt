-- ===== src/Suggestions.antt =====
-- Accepting and dismissing a work suggestion: `acceptWorkSuggestion` and `dismissWorkSuggestion` of
-- packages/services/work-suggestion.service.ts, after the tests of their input. The state is what
-- the database holds for one suggestion. A call is cut where it goes to the database, so that any
-- number of calls can take turns. The fields that a task copies, the message to the web application
-- and the notices are left out.
use semantask.Prelude.{
  ℕ, zero, suc, ◌==◌, Bool, true, false, Option, none, some, List, [], ◌∷◌, if◌then◌else◌,
}
pub mod Rules
pub mod Interleaving
pub mod Outcome
pub mod Once
mod Examples

pub data WorkSuggestionStatus : Type 0 where
  proposed accepted dismissed converted : WorkSuggestionStatus

-- `task` is the id of the task with the suggestion's dedupe key, which the unique index admits once;
-- `next_task_id` is the id that the database gives next. The outbox refuses an event whose
-- dedupe key it has, so that each of the two events is there or not.
pub record Store : Type 0 where
  pub status : WorkSuggestionStatus
  pub converted_task_id : Option ℕ
  pub task : Option ℕ
  pub next_task_id : ℕ
  pub accepted_event : Bool
  pub dismissed_event : Bool

-- Where a call stands: what it does next, or how it ended; `threw` is the outbox's refusal. `created` says that the call made the task.
pub data Call : Type 0 where
  accept_loading accept_creating : Call
  finding announcing : (task : ℕ) → Call
  swapping reloading : (task : ℕ) → (created : Bool) → Call
  checking deleting : (task : ℕ) → Call
  accept_done : (task : ℕ) → Call
  dismiss_loading dismiss_swapping dismiss_announcing dismiss_reloading dismiss_done refused threw :
      Call

abbrev pub is_proposed : WorkSuggestionStatus → Bool
is_proposed proposed = true
is_proposed _ = false

abbrev pub is_converted : WorkSuggestionStatus → Bool
is_converted converted = true
is_converted _ = false

abbrev pub is_dismissed : WorkSuggestionStatus → Bool
is_dismissed dismissed = true
is_dismissed _ = false

abbrev pub is_task : (task : ℕ) → Option ℕ → Bool
is_task t none = false
is_task t (some k) = k == t

-- The first reading of `acceptWorkSuggestion`.
unfoldable pub load_for_accept : Store → Call
load_for_accept store = elim store.status [
  | converted ↦ elim store.converted_task_id [ none ↦ refused | some t ↦ finding t ]
  | proposed ↦ accept_creating
  | accepted ↦ refused
  | dismissed ↦ refused
]

-- `createOrReuseAcceptTask`: a task with the dedupe key is used again. The search, the insertion and
-- the second search, where the unique index refuses the insertion, are one step.
unfoldable pub create_or_reuse : Store → Store × Call
create_or_reuse store = elim store.task [
  | some t ↦ (store, swapping t false)
  | none ↦ (
    record store { task = some store.next_task_id; next_task_id = suc store.next_task_id },
    swapping store.next_task_id true,
  )
]

-- The update of a suggestion that is still proposed.
unfoldable pub swap_converted : Store → (task : ℕ) → (created : Bool) → Store × Call
swap_converted store t created =
    if is_proposed store.status
    then (record store { status = converted; converted_task_id = some t }, announcing t)
    else (store, reloading t created)

-- After a lost update: the suggestion may have been converted to the same task.
unfoldable pub reload_for_accept : Store → (task : ℕ) → (created : Bool) → Call
reload_for_accept store t created =
    if is_converted store.status
    then if is_task t store.converted_task_id
      then announcing t
      else if created
      then checking t
      else refused
    else if created
    then checking t
    else refused

-- `discardOrphanAcceptTask`: the reading, and the deletion.
unfoldable pub check_orphan : Store → (task : ℕ) → Call
check_orphan store t =
    if is_converted store.status
    then if is_task t store.converted_task_id then refused else deleting t
    else deleting t

unfoldable pub delete_task : Store → (task : ℕ) → Store
delete_task store t = if is_task t store.task then record store { task = none } else store

unfoldable pub load_for_dismiss : Store → Call
load_for_dismiss store = elim store.status [
  | dismissed ↦ dismiss_announcing
  | proposed ↦ dismiss_swapping
  | accepted ↦ refused
  | converted ↦ refused
]

-- The update of a suggestion that is still proposed, and the reading after a lost one.
unfoldable pub swap_dismissed : Store → Store × Call
swap_dismissed store =
    if is_proposed store.status
    then (record store { status = dismissed }, dismiss_announcing)
    else (store, dismiss_reloading)

unfoldable pub reload_for_dismiss : Store → Call
reload_for_dismiss store = if is_dismissed store.status then dismiss_announcing else refused

-- One step of a call: what the database holds afterwards, and where the call stands.
unfoldable pub advance : Store → Call → Store × Call
unfolding load_for_accept create_or_reuse swap_converted reload_for_accept check_orphan delete_task
    load_for_dismiss swap_dismissed reload_for_dismiss
advance store accept_loading = (store, load_for_accept store)
advance store (finding t) = (store, if is_task t store.task then announcing t else refused)
advance store accept_creating = create_or_reuse store
advance store (swapping t created) = swap_converted store t created
advance store (announcing t) =
    if store.accepted_event
    then (store, threw)
    else (record store { accepted_event = true }, accept_done t)
advance store (reloading t created) = (store, reload_for_accept store t created)
advance store (checking t) = (store, check_orphan store t)
advance store (deleting t) = (delete_task store t, refused)
advance store dismiss_loading = (store, load_for_dismiss store)
advance store dismiss_swapping = swap_dismissed store
advance store dismiss_reloading = (store, reload_for_dismiss store)
advance store dismiss_announcing =
    if store.dismissed_event
    then (store, threw)
    else (record store { dismissed_event = true }, dismiss_done)
advance store (accept_done t) = (store, accept_done t)
advance store dismiss_done = (store, dismiss_done)
advance store refused = (store, refused)
advance store threw = (store, threw)

-- The call at a place takes a step.
unfoldable pub turn : ℕ → Store → List Call → Store × List Call
unfolding advance
turn i store [] = (store, [])
turn zero store (c ∷ calls) = let next = advance store c in (next.0, next.1 ∷ calls)
turn (suc i) store (c ∷ calls) = let rest = turn i store calls in (rest.0, c ∷ rest.1)

-- The calls take turns in any order.
unfoldable pub run : List ℕ → Store → List Call → Store × List Call
unfolding turn
run [] store calls = (store, calls)
run (i ∷ turns) store calls = let next = turn i store calls in run turns next.0 next.1
