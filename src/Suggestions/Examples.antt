-- ===== src/Suggestions/Examples.antt =====
-- Two acceptances and a dismissal of one suggestion.
use semantask.Prelude.{
  ℕ, true, false, none, List, [], ◌∷◌, All, if◌then◌else◌, ◌≡◌, ◌≤◌, refl, arith,
}
use semantask.Suggestions.{
  proposed, Store, Call, accept_loading, accept_done, dismiss_loading, dismiss_done, refused, threw,
  is_converted, load_for_accept, create_or_reuse, swap_converted, reload_for_accept, check_orphan,
  delete_task, load_for_dismiss, swap_dismissed, reload_for_dismiss, advance, turn, run,
}
use semantask.Suggestions.Once.{answered, accept_once}
use semantask.Suggestions.Outcome.{has_ended, Answer, run-Answer, no_orphan, follow}

abbrev fresh : Store
fresh = record {
  status = proposed;
  converted_task_id = none;
  task = none;
  next_task_id = 7;
  accepted_event = false;
  dismissed_event = false;
}

abbrev calls : List Call
calls = accept_loading ∷ accept_loading ∷ dismiss_loading ∷ []

-- The second acceptance uses the task of the first and converts first; the dismissal comes late.
abbrev turns : List ℕ
turns = 0 ∷ 1 ∷ 2 ∷ 0 ∷ 1 ∷ 1 ∷ 0 ∷ 0 ∷ 1 ∷ 2 ∷ 2 ∷ 0 ∷ []

-- The dismissal comes before the first acceptance updates the suggestion.
abbrev late_turns : List ℕ
late_turns = 0 ∷ 0 ∷ 2 ∷ 2 ∷ 0 ∷ 0 ∷ 2 ∷ 0 ∷ 0 ∷ 1 ∷ []

first_throws : (run turns fresh calls).1 ≡ (threw ∷ accept_done 7 ∷ refused ∷ [])
unfolding run turn advance load_for_accept create_or_reuse swap_converted reload_for_accept
    load_for_dismiss swap_dismissed reload_for_dismiss
first_throws = refl

dismissed_first : (run late_turns fresh calls).1 ≡ (refused ∷ refused ∷ dismiss_done ∷ [])
unfolding run turn advance load_for_accept create_or_reuse swap_converted reload_for_accept
    check_orphan delete_task load_for_dismiss swap_dismissed reload_for_dismiss
dismissed_first = refl

run-Answer_example : All (Answer (run turns fresh calls).0) (run turns fresh calls).1
run-Answer_example = run-Answer turns fresh calls (refl, refl, refl) (refl, (refl, (refl, tt)))

every_call_ended : All (λ c. has_ended c ≡ true) (run late_turns fresh calls).1
unfolding run turn advance load_for_accept create_or_reuse swap_converted reload_for_accept
    check_orphan delete_task load_for_dismiss swap_dismissed reload_for_dismiss
every_call_ended = (refl, (refl, (refl, tt)))

no_orphan_example : (run late_turns fresh calls).0.task ≡ (
    if is_converted (run late_turns fresh calls).0.status
    then (run late_turns fresh calls).0.converted_task_id
    else none)
no_orphan_example =
    no_orphan late_turns fresh calls (refl, refl, refl) (refl, (refl, (refl, tt))) every_call_ended

one_answered : 1 ≤ answered (run turns fresh calls).1
unfolding run turn advance load_for_accept create_or_reuse swap_converted reload_for_accept
    check_orphan delete_task load_for_dismiss swap_dismissed reload_for_dismiss
one_answered = ground arith

abbrev later : Store
later = (run turns fresh calls).0

accept_once_example :
    (answered (run turns fresh calls).1 ≡ 1)
    × (follow (later ∷ later ∷ later ∷ []) accept_loading ≡ threw)
accept_once_example =
    accept_once turns fresh calls (refl, refl, refl) refl (refl, (refl, (refl, tt))) one_answered
