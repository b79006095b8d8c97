-- ===== src/Phase/Ends.antt =====
-- The stage that the process of a workflow leaves behind.
use ai_dev_workflow.Prelude.{
  ◌≡◌, ◌⊎◌, inl, inr, true, Option, some, List, [], ◌∷◌, ℕ, ◌≤◌, String, All,
}
use ai_dev_workflow.Phase.World.{
  WorkflowConfig, PhaseError, rate_limit_error, agent_timeout_error, auth_required_error,
  other_error, PhaseWorld, PhaseClock, PhaseFn,
}
use ai_dev_workflow.Phase.Runner.{
  PhaseEnd, returned, skipped, exited_paused, exited_timeout, exited_itself, rethrown, out_of_fuel,
  run_phase,
}
use ai_dev_workflow.Phase.Exit.{
  WorkflowEnd, finished, paused, timed_out, paused_for_auth, abandoned, phase_exited, still_running,
  handle_workflow_error, handle_auth_required_pause, caught, after_phase, run_workflow, LastWrite,
  completes, awaits_merge, last_write, last_stage, complete_workflow,
}
use ai_dev_workflow.Phase.Files.{stage_of_file, is_queued, write_stage}
use ai_dev_workflow.Phase.Laws.{IsPhaseEnd, HasExited, Settles, run_phase_lem}

module _ (config : WorkflowConfig) (clock : PhaseClock) (script : String → String)
    (last : LastWrite) where
  abbrev HasStage : String → PhaseWorld → Type 0
  HasStage stage w = stage_of_file (w.store config.adw_id) ≡ some stage

  -- One of the phases has ended the process itself, and left `w`.
  abbrev pub HasExitedAmong : List (Option String × PhaseFn) → PhaseWorld → Type 0
  HasExitedAmong [] w = ⊥
  HasExitedAmong ((name, fn) ∷ phases) w =
      HasExited config clock script fn w ⊎ HasExitedAmong phases w

  -- The stage on file, by the end of the workflow.
  abbrev pub IsWorkflowEnd : List (Option String × PhaseFn) → WorkflowEnd × PhaseWorld → Type 0
  IsWorkflowEnd phases (finished, w) = HasStage (last_stage last) w
  IsWorkflowEnd phases (paused, w) = HasStage "paused" w × (is_queued config.adw_id w.queue ≡ true)
  IsWorkflowEnd phases (timed_out, w) = HasStage "phase_timeout" w
  IsWorkflowEnd phases (paused_for_auth, w) = HasStage "paused_auth" w
  IsWorkflowEnd phases (abandoned, w) = HasStage "abandoned" w
  IsWorkflowEnd phases (phase_exited, w) = HasExitedAmong phases w
  IsWorkflowEnd phases (still_running, w) = ⊥

  caught-IsWorkflowEnd :
      (phases : List (Option String × PhaseFn)) (err : PhaseError) (w : PhaseWorld)
      → IsWorkflowEnd phases (caught config err w)
  unfolding handle_workflow_error handle_auth_required_pause
  caught-IsWorkflowEnd phases (auth_required_error agent) w =
      write_stage w.store config.adw_id "paused_auth"
  caught-IsWorkflowEnd phases (rate_limit_error phase facts) w =
      write_stage w.store config.adw_id "abandoned"
  caught-IsWorkflowEnd phases (agent_timeout_error phase ms) w =
      write_stage w.store config.adw_id "abandoned"
  caught-IsWorkflowEnd phases (other_error message) w =
      write_stage w.store config.adw_id "abandoned"

  last-HasStage : (l : LastWrite) (w : PhaseWorld) → HasStage (last_stage l) (last_write config l w)
  unfolding complete_workflow
  last-HasStage completes w = write_stage w.store config.adw_id "completed"
  last-HasStage awaits_merge w = write_stage w.store config.adw_id "awaiting_merge"

  later-IsWorkflowEnd :
      (p : Option String × PhaseFn) (phases : List (Option String × PhaseFn))
      (out : WorkflowEnd × PhaseWorld)
      → IsWorkflowEnd phases out
      → IsWorkflowEnd (p ∷ phases) out
  later-IsWorkflowEnd p phases (finished, w) h = h
  later-IsWorkflowEnd p phases (paused, w) h = h
  later-IsWorkflowEnd p phases (timed_out, w) h = h
  later-IsWorkflowEnd p phases (paused_for_auth, w) h = h
  later-IsWorkflowEnd p phases (abandoned, w) h = h
  later-IsWorkflowEnd p phases (phase_exited, w) h = inr h
  later-IsWorkflowEnd p phases (still_running, w) h = h

  after-IsWorkflowEnd :
      (phases : List (Option String × PhaseFn)) (go_on : PhaseWorld → WorkflowEnd × PhaseWorld)
      (fn : PhaseFn) (name : Option String) (out : PhaseEnd × PhaseWorld)
      → IsPhaseEnd config clock script ⊥ fn name out
      → ((v : PhaseWorld) → IsWorkflowEnd phases (go_on v))
      → IsWorkflowEnd ((name, fn) ∷ phases) (after_phase config clock script go_on out)
  after-IsWorkflowEnd phases go_on fn name (returned, w) h g =
      later-IsWorkflowEnd (name, fn) phases (go_on w) (g w)
  after-IsWorkflowEnd phases go_on fn name (skipped, w) h g =
      later-IsWorkflowEnd (name, fn) phases (go_on w) (g w)
  after-IsWorkflowEnd phases go_on fn name (exited_paused, w) (s, q, f) g = (s, q)
  after-IsWorkflowEnd phases go_on fn name (exited_timeout, w) (s, f) g = s
  after-IsWorkflowEnd phases go_on fn name (exited_itself, w) h g = inl h
  after-IsWorkflowEnd phases go_on fn name (rethrown err, w) h g =
      caught-IsWorkflowEnd ((name, fn) ∷ phases) err w
  after-IsWorkflowEnd phases go_on fn name (out_of_fuel, w) h g = absurd h

  -- An orchestrator that has its lock, runs its phases one after another and returns early nowhere: if every phase settles
  -- at last, its process ends. Unless a phase ended the process itself, the stage on file then says how: `completed` or
  -- `awaiting_merge`, `paused` with an entry in the queue, `phase_timeout`, `paused_auth` or `abandoned`, never the stage
  -- of a running phase. Where a phase ended it, the world is what one of the phases left when it did.
  pub run_workflow_lem :
      (fuel : ℕ) (phases : List (Option String × PhaseFn)) (w : PhaseWorld)
      → 1 ≤ fuel
      → All (λ (p : Option String × PhaseFn). Settles config clock script fuel p.1) phases
      → IsWorkflowEnd phases (run_workflow config clock script fuel last phases w)
  unfolding run_workflow
  run_workflow_lem fuel [] w l h = last-HasStage last w
  run_workflow_lem fuel ((name, fn) ∷ phases) w l (s, h) =
      after-IsWorkflowEnd phases (λ v. run_workflow config clock script fuel last phases v) fn name
        (run_phase config clock script fuel fn name w)
        (run_phase_lem config clock script name fn fuel w l s)
        (λ v. run_workflow_lem fuel phases v l h)
