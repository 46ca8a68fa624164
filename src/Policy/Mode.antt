-- ===== src/Policy/Mode.antt =====
-- The execution mode of a workspace and the exceptions to `suggest_only`:
-- packages/services/config/execution.ts, apps/task-worker/services/suggest-only-execution-gate.ts.
use semantask.Prelude.{
  Bool, true, false, not, ◌&&◌, ◌||◌, Option, none, some, List, ◌≡◌, arith, if◌then◌else◌,
}
use semantask.Prelude.Text.{Text, codes, text_eq, has_text, trim, lower, is_filled}

pub data ExecutionMode : Type 0 where
  suggest_only require_approval auto_execute : ExecutionMode

-- The mode that a text names.
unfoldable pub mode_of_text : Text → Option ExecutionMode
mode_of_text t =
    if text_eq t (codes "suggest_only")
    then some suggest_only
    else if text_eq t (codes "require_approval")
    then some require_approval
    else if text_eq t (codes "auto_execute")
    then some auto_execute
    else none

-- `raw` is the value of the environment, where it is set.
unfoldable pub parse_default_execution_mode : Option Text → ExecutionMode
unfolding mode_of_text trim lower
parse_default_execution_mode none = suggest_only
parse_default_execution_mode (some raw) = elim (mode_of_text (lower (trim raw))) [
  | none ↦ suggest_only
  | some mode ↦ mode
]

-- The environment: the organizations of `GRANDFATHER_AUTO_TENANTS`, `DEFAULT_EXECUTION_MODE`, and
-- the domains of `TASK_WORKER_ALLOWED_EMAIL_DOMAINS` in lower case.
pub record Environment : Type 0 where
  pub grandfather_auto_tenants : List Text
  pub default_execution_mode : Option Text
  pub allowed_email_domains : List Text

unfoldable pub get_effective_execution_mode :
    Environment → (organization_id : Option Text) → Option ExecutionMode → ExecutionMode
get_effective_execution_mode env organization_id (some mode) = mode
get_effective_execution_mode env none none = parse_default_execution_mode env.default_execution_mode
get_effective_execution_mode env (some organization_id) none =
    if is_filled organization_id && has_text organization_id env.grandfather_auto_tenants
    then auto_execute
    else parse_default_execution_mode env.default_execution_mode

-- `isExecutionModeEnforce`: the environment is not read.
abbrev pub is_execution_mode_enforce : Bool
is_execution_mode_enforce = true

-- The organization's mode always wins; without one only a listed organization gets `auto_execute`
-- from the list, and a personal workspace has the default.
pub effective_mode_overlay :
    (env : Environment) (organization_id : Option Text) (mode : Option ExecutionMode)
    → ((m : ExecutionMode)
        → mode ≡ some m
        → get_effective_execution_mode env organization_id mode ≡ m)
      × (mode ≡ none
          → organization_id ≡ none
          → get_effective_execution_mode env organization_id mode
            ≡ parse_default_execution_mode env.default_execution_mode)
      × ((id : Text)
          → mode ≡ none
          → organization_id ≡ some id
          → has_text id env.grandfather_auto_tenants ≡ false
          → get_effective_execution_mode env organization_id mode
            ≡ parse_default_execution_mode env.default_execution_mode)
unfolding get_effective_execution_mode
effective_mode_overlay env organization_id mode =
    (λ m e. ground arith, λ e o. ground arith, λ id e o h. ground arith)

pub record SuggestOnlyFlags : Type 0 where
  pub human_approved_execution : Bool
  pub explicit_manager_request : Bool

unfoldable pub should_skip_suggest_only_ingress_fail_closed : SuggestOnlyFlags → Bool
should_skip_suggest_only_ingress_fail_closed payload =
    payload.human_approved_execution || payload.explicit_manager_request

pub record SuggestOnlyPolicyOverride : Type 0 where
  pub force_approval_for_explicit : Bool
  pub bypass_suggest_only_after_human_approval : Bool

-- `blocked` is `policyOutcome === "blocked"`.
unfoldable pub resolve_suggest_only_policy_override :
    (blocked mode_denied_by_suggest_only : Bool) → SuggestOnlyFlags → SuggestOnlyPolicyOverride
resolve_suggest_only_policy_override blocked mode_denied flags = record {
  force_approval_for_explicit =
      blocked
      && mode_denied
      && flags.explicit_manager_request
      && not flags.human_approved_execution;
  bypass_suggest_only_after_human_approval =
      blocked && mode_denied && flags.human_approved_execution && flags.explicit_manager_request;
}

-- Both exceptions are made only of a request that the mode denied and a manager made explicitly;
-- such a request gets exactly one of them: the approval before a human approved, the bypass after.
pub override_exclusive :
    (blocked mode_denied : Bool) (flags : SuggestOnlyFlags)
    → let o = resolve_suggest_only_policy_override blocked mode_denied flags in
      ((o.force_approval_for_explicit || o.bypass_suggest_only_after_human_approval)
        ≡ (blocked && mode_denied && flags.explicit_manager_request))
      × ((o.force_approval_for_explicit && o.bypass_suggest_only_after_human_approval) ≡ false)
      × (o.bypass_suggest_only_after_human_approval ≡ true → flags.human_approved_execution ≡ true)
unfolding resolve_suggest_only_policy_override
override_exclusive blocked mode_denied flags = ground arith
