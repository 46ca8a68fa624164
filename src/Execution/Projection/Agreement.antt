-- ===== src/Execution/Projection/Agreement.antt =====
-- The legacy projection and the divergence check agree.
use semantask.Prelude.{Bool, true, ◌≡◌, ◌↔◌, ◌⊎◌, arith, none, some}
use semantask.Execution.Kind.{TaskStatus, TaskLifecycleState, lifecycle_eq_iff}
use semantask.Execution.State.{ExecutionState, is_terminal_execution_state, queued}
use semantask.Execution.Projection.{
  derive_legacy_lifecycle_state, derive_legacy_task_status, detect_task_state_divergence,
  ProjectionMode, ProjectableTask, apply_lifecycle_projection,
}

-- No divergence is reported exactly when the lifecycle is the one that the execution state projects to.
pub detect_iff :
    (lifecycle : TaskLifecycleState) (state : ExecutionState)
    → (detect_task_state_divergence (some lifecycle) (some state) ≡ none)
      ↔ (lifecycle ≡ derive_legacy_lifecycle_state state)
unfolding detect_task_state_divergence
detect_iff lifecycle state =
    ground (arith, lifecycle_eq_iff (derive_legacy_lifecycle_state state) lifecycle)

-- Where the projection is enforced the check finds no divergence afterwards, the execution state
-- is left as it was, and a task without one is not touched.
pub apply-no_divergence :
    (task : ProjectableTask) (treat_off_as_enforce : Bool)
    → let t = apply_lifecycle_projection ProjectionMode.enforce treat_off_as_enforce task in
      (detect_task_state_divergence t.lifecycle_state t.execution_state ≡ none)
      × (t.execution_state ≡ task.execution_state)
      × (task.execution_state ≡ none → t ≡ task)
unfolding apply_lifecycle_projection detect_task_state_divergence
apply-no_divergence task treat_off_as_enforce = ground arith

-- Both projections say `completed` of the same states and `failed` of the same states, and of
-- every terminal state one of the two.
pub projections_agree :
    (state : ExecutionState)
    → ((derive_legacy_lifecycle_state state ≡ TaskLifecycleState.completed)
        ↔ (derive_legacy_task_status state ≡ TaskStatus.completed))
      × ((derive_legacy_lifecycle_state state ≡ TaskLifecycleState.failed)
          ↔ (derive_legacy_task_status state ≡ TaskStatus.failed))
      × (is_terminal_execution_state state ≡ true
          → (derive_legacy_lifecycle_state state ≡ TaskLifecycleState.completed)
            ⊎ (derive_legacy_lifecycle_state state ≡ TaskLifecycleState.failed))
unfolding derive_legacy_lifecycle_state derive_legacy_task_status is_terminal_execution_state
projections_agree (queued _) = ground arith
projections_agree state = ground arith
