-- ===== src/Outbox/Worker.antt =====
-- The worker's loop over claimed events: `processOutboxEventOnce` of
-- apps/task-worker/services/outbox-processed-marker.ts, and what apps/task-worker/index.ts does
-- with an event whose handler failed.
pub mod Once
use semantask.Prelude.{
  ℕ, ◌+◌, ◌-◌, ◌*◌, ◌^◌, min, max, leb, Bool, true, false, List, [], ◌∷◌, Option, none, some,
  String, includes, if◌then◌else◌,
}
use semantask.Prelude.Result.{Result, ok, err}
use semantask.Prelude.Text.{Text}
use semantask.Outbox.{
  OutboxEvent, mark_outbox_event_failed, mark_outbox_event_deferred, mark_outbox_event_dead_letter,
}

-- The keys of the events that were processed, and whether the store fails. A key lives for seven
-- days; the model has no clock for it.
pub record ProcessedMarkers : Type 0 where
  pub keys : List String
  pub get_fails : Bool
  pub set_fails : Bool

-- A run: the keys afterwards, whether the handler and the completion were called, and the error.
pub record OnceRun (E : Type 0) : Type 0 where
  pub keys : List String
  pub handled : Bool
  pub completed : Bool
  pub result : Result E (Unit {0})

-- `input.store.set`, whose failure is only logged.
unfoldable pub set_marker : Option ProcessedMarkers → (dedupe_key : String) → List String
set_marker none key = []
set_marker (some store) key = if store.set_fails then store.keys else key ∷ store.keys

abbrev pub keys_of : Option ProcessedMarkers → List String
keys_of none = []
keys_of (some store) = store.keys

unfoldable pub complete_run :
    {E : Type 0} → List String → (handled : Bool) → Result E (Unit {0}) → OnceRun E
complete_run keys handled complete = record {
  keys = keys;
  handled = handled;
  completed = true;
  result = complete;
}

unfoldable pub handle_run :
    {E : Type 0}
    → Option ProcessedMarkers
    → String
    → (handle complete : Result E (Unit {0})) → OnceRun E
handle_run store key (err e) complete = record {
  keys = keys_of store;
  handled = true;
  completed = false;
  result = err e;
}
handle_run store key (ok u) complete = complete_run (set_marker store key) true complete

-- `get_error` is what a store that fails throws.
unfoldable pub process_outbox_event_once :
    {E : Type 0}
    → (get_error : E) → Option ProcessedMarkers
    → (dedupe_key : String) → (handle complete : Result E (Unit {0})) → OnceRun E
process_outbox_event_once get_error none key handle complete = handle_run none key handle complete
process_outbox_event_once get_error (some store) key handle complete =
    if store.get_fails
    then record { keys = store.keys; handled = false; completed = false; result = err get_error }
    else if includes key store.keys
    then complete_run store.keys false complete
    else handle_run (some store) key handle complete

-- `computeRetryDelay`: `span` is the jitter's greatest size, and `drawn` the random number, from 0
-- to twice that.
unfoldable pub compute_retry_delay : (attempts span drawn : ℕ) → ℕ
compute_retry_delay attempts span drawn = max 250 (1000 * 2 ^ min attempts 8 + drawn - span)

-- What the handler of an event threw.
pub data HandlerError : Type 0 where
  execution_lease_busy : (message : Text) → HandlerError
  other_error : (message : Text) → HandlerError

-- The `catch` of the loop. `attempts` counts the claim that the event is in.
unfoldable pub settle_failure :
    (max_attempts span drawn : ℕ)
    → (id : String) → (attempts : ℕ) → HandlerError
    → (now : ℕ) → List OutboxEvent
    → List OutboxEvent
settle_failure max_attempts span drawn id attempts (execution_lease_busy message) now events =
    mark_outbox_event_deferred id message now (compute_retry_delay 0 span drawn) events
settle_failure max_attempts span drawn id attempts (other_error message) now events =
    if leb max_attempts attempts
    then mark_outbox_event_dead_letter id message now events
    else mark_outbox_event_failed id message now (compute_retry_delay attempts span drawn) events
