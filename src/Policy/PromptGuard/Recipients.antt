-- ===== src/Policy/PromptGuard/Recipients.antt =====
-- The guard passes a call exactly when every address that it names is a known one.
use semantask.Prelude.{
  true, false, List, [], ◌∷◌, ◌≡◌, ◌↔◌, arith, Bool-cases, inl, inr, All, Option,
}
use semantask.Prelude.Text.{Text, has_text}
use semantask.Policy.PromptGuard.{
  GuardReason, ToolArgsContext, refuse, named_emails, allowed_emails,
  validate_tool_args_against_context, apply_prompt_guard_decision, PromptGuardMode, enforce,
}

refuse_iff :
    (reason : Option Text → GuardReason) (allowed emails : List Text)
    → (elim (refuse reason allowed emails) [ [] ↦ true | r ∷ rs ↦ false ] ≡ true)
      ↔ All (λ e. has_text e allowed ≡ true) emails
unfolding refuse
refuse_iff reason allowed [] = ground arith
refuse_iff reason allowed (e ∷ es) = elim (Bool-cases (has_text e allowed)) [
  | inl h ↦ ground (arith, h, refuse_iff reason allowed es)
  | inr h ↦ ground (arith, h)
]

-- A call passes exactly when each address that it names is that of a participant or, for an
-- email, of a contact; only the mode `enforce` stops one that does not pass.
pub guard_iff :
    (input : ToolArgsContext) (mode : PromptGuardMode)
    → ((validate_tool_args_against_context input).ok ≡ true
        ↔ All (λ e. has_text e (allowed_emails input) ≡ true) (named_emails input))
      × (apply_prompt_guard_decision (validate_tool_args_against_context input) mode ≡ false
          ↔ (mode ≡ enforce) × ((validate_tool_args_against_context input).ok ≡ false))
unfolding validate_tool_args_against_context apply_prompt_guard_decision
guard_iff input mode = (refuse_iff _ (allowed_emails input) (named_emails input), ground arith)
