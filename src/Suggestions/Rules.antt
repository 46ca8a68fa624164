-- ===== src/Suggestions/Rules.antt =====
-- What holds of a suggestion and of each call beside the others.
use semantask.Prelude.{
  ℕ, ◌+◌, ◌==◌, leb, Bool, true, false, not, ◌&&◌, ◌||◌, none, some, is_some, if◌then◌else◌, ◌≡◌,
  arith,
}
use semantask.Suggestions.{
  WorkSuggestionStatus, proposed, accepted, dismissed, converted, Store, Call, accept_loading,
  accept_creating, finding, announcing, swapping, reloading, checking, deleting, accept_done,
  dismiss_loading, dismiss_swapping, dismiss_announcing, dismiss_reloading, dismiss_done, refused,
  threw, is_proposed, is_converted, is_dismissed, is_task, load_for_accept, create_or_reuse,
  swap_converted, reload_for_accept, check_orphan, delete_task, load_for_dismiss, swap_dismissed,
  reload_for_dismiss, advance,
}

-- The call made the task and has neither linked nor deleted it.
abbrev pub holds : Call → Bool
holds (swapping t created) = created
holds (reloading t created) = created
holds (checking t) = true
holds (deleting t) = true
holds _ = false

-- A suggestion that was proposed is that, converted or dismissed.
abbrev was_proposed : WorkSuggestionStatus → Bool
was_proposed status = is_proposed status || (is_converted status || is_dismissed status)

-- What a call may rely on, whatever the others do.
abbrev pub call_ok : Store → Call → Bool
call_ok s (finding t) = is_converted s.status && is_task t s.converted_task_id
call_ok s (announcing t) = is_converted s.status && is_task t s.converted_task_id
call_ok s accept_creating = was_proposed s.status
call_ok s (swapping t created) =
    was_proposed s.status && (not (created || is_proposed s.status) || is_task t s.task)
call_ok s (reloading t created) =
    (is_converted s.status || is_dismissed s.status) && (not created || is_task t s.task)
call_ok s (checking t) = is_dismissed s.status && is_task t s.task
call_ok s (deleting t) = is_dismissed s.status && is_task t s.task
call_ok s (accept_done t) =
    is_converted s.status && (is_task t s.converted_task_id && s.accepted_event)
call_ok s dismiss_announcing = is_dismissed s.status
call_ok s dismiss_reloading = not (is_proposed s.status)
call_ok s dismiss_done = is_dismissed s.status && s.dismissed_event
call_ok s _ = true

abbrev pub held : Call → ℕ
held c = if holds c then 1 else 0

-- A converted suggestion is linked to the task that is there; any other task is held by the one
-- call that made it.
abbrev pub store_ok : Store → (holders : ℕ) → Bool
store_ok s n = elim s.status [
  | converted ↦ elim s.converted_task_id [ none ↦ false | some t ↦ is_task t s.task && leb n 1 ]
  | proposed ↦ n == (if is_some s.task then 1 else 0)
  | accepted ↦ n == (if is_some s.task then 1 else 0)
  | dismissed ↦ n == (if is_some s.task then 1 else 0)
]

abbrev Kept : (n : ℕ) → Store × Call → Type 0
Kept n next = (store_ok next.0 (n + held next.1) ≡ true) × (call_ok next.0 next.1 ≡ true)

-- A step keeps what holds of the suggestion and of the call, beside n other holders.
pub advance_self :
    (s : Store) (c : Call) (n : ℕ)
    → store_ok s (n + held c) ≡ true
    → call_ok s c ≡ true
    → Kept n (advance s c)
unfolding advance load_for_accept create_or_reuse swap_converted reload_for_accept check_orphan
    delete_task load_for_dismiss swap_dismissed reload_for_dismiss
advance_self s accept_loading n h k = ground arith
advance_self s accept_creating n h k = ground arith
advance_self s (finding t) n h k = ground arith
advance_self s (announcing t) n h k = ground arith
advance_self s (swapping t created) n h k = ground arith
advance_self s (reloading t created) n h k = ground arith
advance_self s (checking t) n h k = ground arith
advance_self s (deleting t) n h k = ground arith
advance_self s (accept_done t) n h k = ground arith
advance_self s dismiss_loading n h k = ground arith
advance_self s dismiss_swapping n h k = ground arith
advance_self s dismiss_announcing n h k = ground arith
advance_self s dismiss_reloading n h k = ground arith
advance_self s dismiss_done n h k = ground arith
advance_self s refused n h k = ground arith
advance_self s threw n h k = ground arith

-- A step keeps what holds of any other call, since the two do not both hold a task.
pub advance_other :
    (s : Store) (c q : Call) (n : ℕ)
    → store_ok s (n + held q + held c) ≡ true
    → call_ok s c ≡ true
    → call_ok s q ≡ true
    → call_ok (advance s c).0 q ≡ true
unfolding advance load_for_accept create_or_reuse swap_converted reload_for_accept check_orphan
    delete_task load_for_dismiss swap_dismissed reload_for_dismiss
advance_other s accept_loading q n h k e = e
advance_other s accept_creating q n h k e = ground arith
advance_other s (finding t) q n h k e = e
advance_other s (announcing t) q n h k e = ground arith
advance_other s (swapping t created) q n h k e = ground arith
advance_other s (reloading t created) q n h k e = e
advance_other s (checking t) q n h k e = e
advance_other s (deleting t) q n h k e = ground arith
advance_other s (accept_done t) q n h k e = e
advance_other s dismiss_loading q n h k e = e
advance_other s dismiss_swapping q n h k e = ground arith
advance_other s dismiss_announcing q n h k e = ground arith
advance_other s dismiss_reloading q n h k e = e
advance_other s dismiss_done q n h k e = e
advance_other s refused q n h k e = e
advance_other s threw q n h k e = e
