-- ===== src/Phase/Exit.antt =====
-- The ends of a workflow's process: adws/phases/workflowCompletion.ts, authPause.ts, and the `try` of the orchestrator
-- scripts (adws/adwPlan.tsx, adwBuild.tsx and adwPlanBuild.tsx), which runs the phases in order and catches what
-- they throw. Orchestrators with parallel phases or early returns are not of this form.
use ai_dev_workflow.Prelude.{Option, some, List, [], ◌∷◌, ℕ, String, text_eq}
use ai_dev_workflow.State.{write_top_level_state}
use ai_dev_workflow.Phase.World.{
  WorkflowConfig, PhaseError, rate_limit_error, agent_timeout_error, auth_required_error,
  other_error, failed_with, discarded_for, completed_comment, PhaseWorld, PhaseClock, PhaseFn,
  write_state, post, stage_patch,
}
use ai_dev_workflow.Phase.Runner.{
  PhaseEnd, returned, skipped, exited_paused, exited_timeout, exited_itself, rethrown, out_of_fuel,
  run_phase,
}

-- The process ends with code 0, but for an abandoned workflow and a phase that ends it itself. `still_running` is a run
-- that used up its fuel.
pub data WorkflowEnd : Type 0 where
  finished paused timed_out paused_for_auth abandoned phase_exited still_running : WorkflowEnd

pub data LastWrite : Type 0 where
  completes awaits_merge : LastWrite

abbrev pub last_stage : LastWrite → String
last_stage completes = "completed"
last_stage awaits_merge = "awaiting_merge"

-- `String(error)`
abbrev pub error_text : PhaseError → String
error_text (rate_limit_error phase facts) = phase
error_text (agent_timeout_error phase timeout_ms) = "timeout"
error_text (auth_required_error agent) = agent
error_text (other_error message) = message

module _ (config : WorkflowConfig) where
  -- `handleWorkflowError`
  unfoldable pub handle_workflow_error : PhaseError → PhaseWorld → WorkflowEnd × PhaseWorld
  unfolding write_top_level_state
  handle_workflow_error err w = (
    abandoned,
    write_state config.adw_id (stage_patch "abandoned") (post (failed_with (error_text err)) w),
  )

  -- `handleAuthRequiredPause`
  unfoldable pub handle_auth_required_pause : String → PhaseWorld → WorkflowEnd × PhaseWorld
  unfolding write_top_level_state
  handle_auth_required_pause agent w = (
    paused_for_auth,
    write_state config.adw_id (stage_patch "paused_auth")
        (record w { auth_gate = some (config.adw_id, agent) }),
  )

  -- `completeWorkflow`
  unfoldable pub complete_workflow : PhaseWorld → PhaseWorld
  unfolding write_top_level_state
  complete_workflow w =
      post completed_comment (write_state config.adw_id (stage_patch "completed") w)

  -- `handleWorkflowDiscarded`, but for the notice to a human
  unfoldable pub handle_workflow_discarded : String → PhaseWorld → PhaseWorld
  unfolding write_top_level_state
  handle_workflow_discarded reason w =
      write_state config.adw_id (stage_patch "discarded") (post (discarded_for reason) w)

  -- The `catch` of an orchestrator.
  abbrev pub caught : PhaseError → PhaseWorld → WorkflowEnd × PhaseWorld
  caught (auth_required_error agent) w = handle_auth_required_pause agent w
  caught (rate_limit_error phase facts) w = handle_workflow_error (rate_limit_error phase facts) w
  caught (agent_timeout_error phase timeout_ms) w =
      handle_workflow_error (agent_timeout_error phase timeout_ms) w
  caught (other_error message) w = handle_workflow_error (other_error message) w

  -- An orchestrator's last write: it completes the workflow, or leaves a pull request to the merge path.
  abbrev pub last_write : LastWrite → PhaseWorld → PhaseWorld
  last_write completes w = complete_workflow w
  last_write awaits_merge w = write_state config.adw_id (stage_patch "awaiting_merge") w

  module _ (clock : PhaseClock) (derive_orchestrator_script : String → String) where
    abbrev pub after_phase :
        (PhaseWorld → WorkflowEnd × PhaseWorld) → PhaseEnd × PhaseWorld → WorkflowEnd × PhaseWorld
    after_phase go_on (returned, w) = go_on w
    after_phase go_on (skipped, w) = go_on w
    after_phase go_on (exited_paused, w) = (paused, w)
    after_phase go_on (exited_timeout, w) = (timed_out, w)
    after_phase go_on (exited_itself, w) = (phase_exited, w)
    after_phase go_on (rethrown err, w) = caught err w
    after_phase go_on (out_of_fuel, w) = (still_running, w)

    -- The phases of an orchestrator in order, then its last write.
    unfoldable pub run_workflow :
        ℕ → LastWrite → List (Option String × PhaseFn) → PhaseWorld → WorkflowEnd × PhaseWorld
    unfolding run_phase handle_workflow_error handle_auth_required_pause complete_workflow
    run_workflow fuel last [] w = (finished, last_write last w)
    run_workflow fuel last ((name, fn) ∷ phases) w =
        after_phase (λ v. run_workflow fuel last phases v)
          (run_phase config clock derive_orchestrator_script fuel fn name w)
