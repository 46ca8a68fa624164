-- ===== src/Requests/Kept.antt =====
-- What every call keeps: the action of a manager's request stays as it was created, and no event
-- says that a human approved it.
use semantask.Prelude.{
  ℕ, suc, ltb, ==_iff, Bool, true, false, not, ◌&&◌, ◌||◌, Option, none, some, List, [], ◌∷◌, All,
  ◌≡◌, ap, refl, arith,
}
use semantask.Prelude.Value.{Record}
use semantask.Prelude.Collection.{find_first, update_first}
use semantask.Requests.{
  ActionState, TaskAction, QueuedEvent, requested_event, approved_event, Store, created,
  is_requested,
}
use semantask.Requests.Worker.{has_action_id, set_state, approved_with}

-- The first action with the id is there and was not created by a manager's request.
abbrev pub is_plain : ℕ → List TaskAction → Bool
is_plain id actions = elim (find_first (has_action_id id) actions) [
  | none ↦ false
  | some a ↦ not a.explicit_manager_request
]

abbrev pub action_ok : (next_id : ℕ) → TaskAction → Bool
action_ok n a = ltb a.id n && (not a.explicit_manager_request || is_requested a.state)

abbrev pub event_ok : (next_id : ℕ) → List TaskAction → QueuedEvent → Bool
event_ok n actions (requested_event key payload) = not payload.human_approved_execution
event_ok n actions (approved_event id) = ltb id n && is_plain id actions

abbrev pub Kept : Store → Type 0
Kept s =
    All (λ a. action_ok s.next_id a ≡ true) s.actions
    × All (λ e. event_ok s.next_id s.actions e ≡ true) s.events

-- A change of an action that keeps its id and its origin.
abbrev pub IsMild : (TaskAction → TaskAction) → Type 0
IsMild f =
    (a : TaskAction)
    → ((f a).id ≡ a.id)
      × ((f a).explicit_manager_request ≡ a.explicit_manager_request)
      × ((f a).task_id ≡ a.task_id)

pub set_state-IsMild : (state : ActionState) → IsMild (set_state state)
set_state-IsMild state a = (refl, refl, refl)

pub approved_with-IsMild : (parameters : Option Record) → IsMild (approved_with parameters)
approved_with-IsMild parameters a = (refl, refl, refl)

pub update-is_plain :
    (f : TaskAction → TaskAction) (k id : ℕ) (actions : List TaskAction)
    → IsMild f
    → is_plain id (update_first (has_action_id k) f actions) ≡ is_plain id actions
update-is_plain f k id [] m = refl
update-is_plain f k id (a ∷ actions) m = ground (arith, m a, update-is_plain f k id actions m)

pub update-actions :
    (f : TaskAction → TaskAction) (k n : ℕ) (actions : List TaskAction)
    → IsMild f
    → is_plain k actions ≡ true
    → All (λ a. action_ok n a ≡ true) actions
    → All (λ a. action_ok n a ≡ true) (update_first (has_action_id k) f actions)
update-actions f k n [] m p h = tt
update-actions f k n (a ∷ actions) m p (h, hs) = ground (arith, m a, update-actions f k n actions m)

pub update-events :
    (f : TaskAction → TaskAction) (k n : ℕ) (actions : List TaskAction) (events : List QueuedEvent)
    → IsMild f
    → All (λ e. event_ok n actions e ≡ true) events
    → All (λ e. event_ok n (update_first (has_action_id k) f actions) e ≡ true) events
update-events f k n actions [] m h = tt
update-events f k n actions (requested_event key payload ∷ es) m (h, hs) =
    (h, update-events f k n actions es m hs)
update-events f k n actions (approved_event id ∷ es) m (h, hs) =
    (ground (arith, update-is_plain f k id actions m), update-events f k n actions es m hs)

-- A new action has an id that no event names.
new-actions :
    (n : ℕ) (actions : List TaskAction)
    → All (λ a. action_ok n a ≡ true) actions
    → All (λ a. action_ok (suc n) a ≡ true) actions
new-actions n [] h = tt
new-actions n (a ∷ actions) (h, hs) = (ground arith, new-actions n actions hs)

new-events :
    (a : TaskAction) (actions : List TaskAction) (events : List QueuedEvent)
    → All (λ e. event_ok a.id actions e ≡ true) events
    → All (λ e. event_ok (suc a.id) (a ∷ actions) e ≡ true) events
new-events a actions [] h = tt
new-events a actions (requested_event key payload ∷ es) (h, hs) = (h, new-events a actions es hs)
new-events a actions (approved_event id ∷ es) (h, hs) =
    (ground (arith, ==_iff a.id id), new-events a actions es hs)

pub created-Kept :
    (s : Store) (a : TaskAction)
    → Kept s
    → (not a.explicit_manager_request || is_requested a.state) ≡ true
    → Kept (created s a)
created-Kept s a (h, g) o = (
  (ground arith, new-actions s.next_id s.actions h),
  new-events (record a { id = s.next_id }) s.actions s.events g,
)

pub find-ok :
    (n k : ℕ) (actions : List TaskAction) (a : TaskAction)
    → All (λ a. action_ok n a ≡ true) actions
    → find_first (has_action_id k) actions ≡ some a
    → (action_ok n a ≡ true) × (a.id ≡ k)
find-ok n k [] a h e = ground arith
find-ok n k (x ∷ actions) a (h, hs) e =
    ground (arith, find-ok n k actions a hs, ==_iff x.id k, ap (action_ok n))
