-- ===== src/Outbox.antt =====
-- The outbox: packages/db/models/OutboxEvent.ts, packages/services/outbox.helpers.ts and
-- outbox.service.ts. The collection is a list of events. An update writes one document
-- atomically and sets `updatedAt`, as the schema's `timestamps` say.
pub mod Claim
pub mod Marks
pub mod Partition
pub mod Worker
mod Examples
use semantask.Prelude.{
  ℕ, ◌+◌, ◌-◌, ◌*◌, leb, Bool, true, false, not, ◌&&◌, ◌||◌, List, [], ◌∷◌, map, length, keep, take,
  Option, none, some, String, str_eq, if◌then◌else◌, ℤ, pos, increment, decrement, some_of,
}
use semantask.Prelude.Text.{Text}
use semantask.Prelude.Value.{Record}

pub data OutboxTopic : Type 0 where
  message_created task_created task_updated task_execution_requested task_execution_approved
        task_cancel_requested billing_usage_recorded billing_quota_exceeded work_suggestion_accepted
        work_suggestion_dismissed task_board_updated :
      OutboxTopic

pub data OutboxStatus : Type 0 where
  pending processing completed failed dead_letter : OutboxStatus

pub record OutboxEvent : Type 0 where
  pub id : String
  pub topic : OutboxTopic
  pub dedupe_key : String
  pub payload : Record
  pub status : OutboxStatus
  pub attempts : ℤ
  pub available_at : ℕ
  pub locked_by : Option String
  pub locked_at : Option ℕ
  pub processed_at : Option ℕ
  pub dead_lettered_at : Option ℕ
  pub last_error : Option Text
  pub created_at : ℕ
  pub updated_at : ℕ

-- `enqueueOutboxEvent`, with the payload after the correlation was merged into it; the database
-- refuses a key that is there already (and one of more than 200 characters, which is not modelled).
unfoldable pub enqueue_outbox_event :
    List OutboxEvent
    → (id : String) → OutboxTopic
    → (dedupe_key : String) → Record
    → (now : ℕ) → Option (List OutboxEvent)
enqueue_outbox_event events id topic dedupe_key payload now =
    if some_of (λ e. str_eq e.dedupe_key dedupe_key) events
    then none
    else some (
        record {
          id = id;
          topic = topic;
          dedupe_key = dedupe_key;
          payload = payload;
          status = pending;
          attempts = pos 0;
          available_at = now;
          locked_by = none;
          locked_at = none;
          processed_at = none;
          dead_lettered_at = none;
          last_error = none;
          created_at = now;
          updated_at = now;
        }
        ∷ events)

-- `updateOne` with a filter that holds the `_id`.
unfoldable pub update_event :
    (matches : OutboxEvent → Bool)
    → (OutboxEvent → OutboxEvent)
    → (id : String) → List OutboxEvent
    → List OutboxEvent
update_event matches change id [] = []
update_event matches change id (e ∷ es) =
    let rest = update_event matches change id es in
    if str_eq e.id id && matches e then change e ∷ es else e ∷ rest

-- The event leaves its worker; `status`, the error and the rest are the caller's.
abbrev unlock : OutboxEvent → (now : ℕ) → OutboxEvent
unlock e now = record e { locked_by = none; locked_at = none; updated_at = now }

unfoldable pub complete_event : (now : ℕ) → OutboxEvent → OutboxEvent
complete_event now e = record (unlock e now) {
  status = completed;
  processed_at = some now;
  dead_lettered_at = none;
  last_error = none;
}

unfoldable pub fail_event : (message : Text) → (now delay_ms : ℕ) → OutboxEvent → OutboxEvent
fail_event message now delay_ms e = record (unlock e now) {
  status = failed;
  available_at = now + delay_ms;
  dead_lettered_at = none;
  last_error = some (take 4000 message);
}

unfoldable pub defer_event : (reason : Text) → (now delay_ms : ℕ) → OutboxEvent → OutboxEvent
defer_event reason now delay_ms e = record (unlock e now) {
  status = failed;
  available_at = now + delay_ms;
  dead_lettered_at = none;
  last_error = some (take 4000 reason);
  attempts = decrement e.attempts;
}

unfoldable pub dead_letter_event : (message : Text) → (now : ℕ) → OutboxEvent → OutboxEvent
dead_letter_event message now e = record (unlock e now) {
  status = dead_letter;
  dead_lettered_at = some now;
  last_error = some (take 4000 message);
}

unfoldable pub requeue_event : (now : ℕ) → OutboxEvent → OutboxEvent
requeue_event now e = record (unlock e now) {
  status = pending;
  attempts = pos 0;
  available_at = now;
  processed_at = none;
  dead_lettered_at = none;
  last_error = none;
}

abbrev pub always : OutboxEvent → Bool
always e = true

unfoldable pub mark_outbox_event_completed :
    (id : String) → (now : ℕ) → List OutboxEvent → List OutboxEvent
mark_outbox_event_completed id now = update_event always (complete_event now) id

unfoldable pub mark_outbox_event_failed :
    (id : String)
    → (message : Text) → (now retry_delay_ms : ℕ) → List OutboxEvent
    → List OutboxEvent
mark_outbox_event_failed id message now delay_ms =
    update_event always (fail_event message now delay_ms) id

unfoldable pub mark_outbox_event_deferred :
    (id : String) → (reason : Text) → (now delay_ms : ℕ) → List OutboxEvent → List OutboxEvent
mark_outbox_event_deferred id reason now delay_ms =
    update_event always (defer_event reason now delay_ms) id

unfoldable pub mark_outbox_event_dead_letter :
    (id : String) → (message : Text) → (now : ℕ) → List OutboxEvent → List OutboxEvent
mark_outbox_event_dead_letter id message now =
    update_event always (dead_letter_event message now) id

abbrev pub is_processing : OutboxStatus → Bool
is_processing processing = true
is_processing _ = false

-- The filter of a release: the worker still holds the event.
abbrev pub is_held : (worker_id : String) → OutboxEvent → Bool
is_held worker_id e =
    is_processing e.status
    && elim e.locked_by [ none ↦ false | some owner ↦ str_eq owner worker_id ]

-- The events afterwards and whether one was changed.
unfoldable pub release_claimed_outbox_event :
    (id worker_id : String)
    → (reason : Text) → (now : ℕ) → List OutboxEvent
    → List OutboxEvent × Bool
release_claimed_outbox_event id worker_id reason now events = (
  update_event (is_held worker_id) (defer_event reason now 0) id events,
  some_of (λ e. str_eq e.id id && is_held worker_id e) events,
)

abbrev pub is_dead_lettered_message : OutboxEvent → Bool
is_dead_lettered_message e = elim e.topic [
  | message_created ↦ elim e.status [ dead_letter ↦ true | _ ↦ false ]
  | _ ↦ false
]

pub record RequeueResult : Type 0 where
  pub dry_run : Bool
  pub matched : ℕ
  pub requeued : ℕ

unfoldable pub requeue_dead_lettered_message_events :
    (dry_run : Bool) → (now : ℕ) → List OutboxEvent → List OutboxEvent × RequeueResult
requeue_dead_lettered_message_events dry_run now events =
    let matched = length (keep is_dead_lettered_message events) in
    if dry_run then (events, record { dry_run = true; matched = matched; requeued = 0 }) else (
      map (λ e. if is_dead_lettered_message e then requeue_event now e else e) events,
      record { dry_run = false; matched = matched; requeued = matched },
    )

abbrev pub is_terminal_status : OutboxStatus → Bool
is_terminal_status completed = true
is_terminal_status dead_letter = true
is_terminal_status _ = false

abbrev pub by_cutoff : (cutoff : ℕ) → Option ℕ → Bool
by_cutoff cutoff none = false
by_cutoff cutoff (some at) = leb at cutoff

-- `buildOutboxArchivalFilter`
unfoldable pub outbox_archival_filter : (cutoff : ℕ) → OutboxEvent → Bool
outbox_archival_filter cutoff e =
    is_terminal_status e.status
    && (by_cutoff cutoff e.processed_at
        || by_cutoff cutoff e.dead_lettered_at
        || elim e.processed_at [
          | some at ↦ false
          | none ↦ elim e.dead_lettered_at [ some at ↦ false | none ↦ leb e.updated_at cutoff ]
        ])

-- `retention_days` are the whole days that the code makes of the option or of the environment: 14
-- for what is missing, no number or not above zero. The events afterwards and how many were deleted.
unfoldable pub archive_terminal_outbox_events :
    (retention_days now : ℕ) → List OutboxEvent → List OutboxEvent × ℕ
archive_terminal_outbox_events retention_days now events =
    let cutoff = now - retention_days * 24 * 60 * 60 * 1000 in
    (
      keep (λ e. not (outbox_archival_filter cutoff e)) events,
      length (keep (outbox_archival_filter cutoff) events),
    )
