-- ===== src/Policy/PromptGuard.antt =====
-- The guard over recipients: apps/task-worker/services/prompt-guard.ts.
pub mod Recipients
use semantask.Prelude.{
  ℕ, Bool, true, false, not, ◌&&◌, ◌||◌, List, [], ◌∷◌, ◌++◌, map, Option, none, some, keep,
  or_else, if◌then◌else◌,
}
use semantask.Prelude.Text.{Text, trim, lower, has_code, has_text, after_last, is_filled}
use semantask.Prelude.Value.{Value, text, list, Record, property_of, texts_of}
use semantask.Execution.Kind.{TaskExecutionActionType, send_email, schedule_meeting}

pub data PromptGuardMode : Type 0 where
  off monitor enforce : PromptGuardMode

unfoldable pub resolve_prompt_guard_mode : Option PromptGuardMode → PromptGuardMode
resolve_prompt_guard_mode org_mode = or_else org_mode monitor

-- A reason names the address with its local part removed.
pub data GuardReason : Type 0 where
  not_a_recipient not_an_attendee : (domain : Option Text) → GuardReason

pub record PromptGuardValidation : Type 0 where
  pub ok : Bool
  pub reasons : List GuardReason

abbrev pub filled_texts : List Text → List Text
filled_texts xs = keep (λ s. is_filled (trim s)) xs

-- `toStringArray`
unfoldable pub to_trimmed_array : Option Value → List Text
to_trimmed_array (some (list xs)) = map trim (filled_texts (texts_of xs))
to_trimmed_array (some (text s)) = if is_filled (trim s) then trim s ∷ [] else []
to_trimmed_array _ = []

abbrev pub looks_like_email : Text → Bool
looks_like_email value = has_code b'@' value && not (has_code 32 value)

unfoldable pub normalize_email : Text → Text
normalize_email value = lower (trim value)

-- `none` is `[redacted]`. The address holds an `@`; the code asks that it is not the first character.
unfoldable pub redact_email : Text → Option Text
redact_email email = elim (normalize_email email) [ [] ↦ none | c ∷ rest ↦ after_last b'@' rest ]

pub record ToolArgsContext : Type 0 where
  pub tool : TaskExecutionActionType
  pub params : Record
  pub participant_emails : List Text
  pub contact_emails : List Text

-- `new Set(emails.map(normalizeEmail).filter(Boolean))`
abbrev pub email_set : List Text → List Text
email_set emails = keep is_filled (map normalize_email emails)

-- The reasons for the addresses that are not allowed.
unfoldable pub refuse : (Option Text → GuardReason) → List Text → List Text → List GuardReason
refuse reason allowed [] = []
refuse reason allowed (email ∷ emails) =
    let rest = refuse reason allowed emails in
    if has_text email allowed then rest else reason (redact_email email) ∷ rest

abbrev pub email_values : List Text → List Text
email_values values = map normalize_email (keep looks_like_email values)

-- The addresses that a call names, and those that it may name.
unfoldable pub named_emails : ToolArgsContext → List Text
named_emails input = elim input.tool [
  | send_email ↦ email_values (to_trimmed_array (property_of "to" input.params))
  | schedule_meeting ↦ email_values (
      to_trimmed_array (property_of "participants" input.params)
      ++ (to_trimmed_array (property_of "attendees" input.params)
          ++ to_trimmed_array (property_of "attendeesText" input.params)))
  | _ ↦ []
]

unfoldable pub allowed_emails : ToolArgsContext → List Text
allowed_emails input = elim input.tool [
  | send_email ↦ email_set input.participant_emails ++ email_set input.contact_emails
  | _ ↦ email_set input.participant_emails
]

abbrev reason_of : TaskExecutionActionType → Option Text → GuardReason
reason_of send_email = not_a_recipient
reason_of _ = not_an_attendee

unfoldable pub validate_tool_args_against_context : ToolArgsContext → PromptGuardValidation
validate_tool_args_against_context input =
    let reasons = refuse (reason_of input.tool) (allowed_emails input) (named_emails input) in
    record { ok = elim reasons [ [] ↦ true | r ∷ rs ↦ false ]; reasons = reasons }

-- Whether the execution may go on. Logging is left out.
unfoldable pub apply_prompt_guard_decision : PromptGuardValidation → PromptGuardMode → Bool
apply_prompt_guard_decision validation off = true
apply_prompt_guard_decision validation monitor = true
apply_prompt_guard_decision validation enforce = validation.ok
