-- ===== src/Phase/Runner.antt =====
-- `runPhase`: the attempts of a phase. A phase without a name leaves no mark.
use ai_dev_workflow.Prelude.{
  Bool, true, false, ◌&&◌, not, Option, none, some, List, [], ◌∷◌, ◌++◌, ℕ, zero, suc, ◌*◌, String,
  ◌==◌, text_eq, if◌then◌else◌, any, get_or, join, leb, is_some_of,
}
use ai_dev_workflow.State.{
  Store, AgentState, PhaseState, no_fields, no_phase, lookup, entries, read_top_level_state,
  write_top_level_state,
}
use ai_dev_workflow.Process.{is_truthy}
use ai_dev_workflow.PauseQueue.{PausedWorkflow, append_to_pause_queue}
use ai_dev_workflow.RateLimit.{
  RateLimitFacts, RateLimitWaitDecision, wait_in_process, enqueue, decide_rate_limit_wait,
  min_rate_limit_wait_ms, max_time,
}
use ai_dev_workflow.Phase.World.{
  WorkflowConfig, PhaseError, rate_limit_error, agent_timeout_error, auth_required_error,
  other_error, Attempt, came_back, threw, ended_process, waiting, paused_at, timed_out, PhaseWorld,
  PhaseClock, PhaseFn, write_state, post, stage_patch, phase_patch,
}

pub data PhaseEnd : Type 0 where
  returned skipped : PhaseEnd
  exited_paused exited_timeout exited_itself : PhaseEnd
  rethrown : PhaseError → PhaseEnd
  out_of_fuel : PhaseEnd

-- The entry of a phase in the state file.
abbrev pub entry_in : Option AgentState → String → Option PhaseState
entry_in none name = none
entry_in (some state) name = lookup name (entries state.phases)

abbrev pub is_listed : List String → String → Bool
is_listed names name = any (λ n. n == name) names

abbrev pub by_entry : Option PhaseState → Bool → Bool
by_entry none listed = listed
by_entry (some entry) listed = is_some_of entry.status "completed"

module _ (config : WorkflowConfig) where
  abbrev pub completed_already : String → Store → Bool
  completed_already name store =
      if config.adw_id == ""
      then is_listed config.completed_phases name
      else by_entry (entry_in (read_top_level_state store config.adw_id) name)
          (is_listed config.completed_phases name)

  -- `isPhaseAlreadyCompleted`
  unfoldable pub is_phase_already_completed : Option String → Store → Bool
  unfolding lookup
  is_phase_already_completed none store = false
  is_phase_already_completed (some name) store =
      if name == "" then false else completed_already name store

  -- `phaseName && config.adwId`
  abbrev pub marks : Option String → Bool
  marks name = is_truthy name && not (config.adw_id == "")

  module _ (clock : PhaseClock) where
    abbrev pub running_patch : String → AgentState
    running_patch name = record no_fields {
      workflow_stage = some (join name "_running");
      phases = some (
          (
            name,
            record no_phase {
              status = some "running";
              started_at = some (clock.iso clock.started_at);
            },
          )
          ∷ []);
    }

    -- `markPhaseRunning`
    unfoldable pub mark_phase_running : Option String → PhaseWorld → PhaseWorld
    unfolding write_top_level_state
    mark_phase_running name w =
        if marks name then write_state config.adw_id (running_patch (get_or name "")) w else w

    abbrev pub ended_entry : String → Option String → ℕ → PhaseState
    ended_entry status reason n = record {
      status = some status;
      started_at = some (clock.iso clock.started_at);
      completed_at = some (clock.iso (clock.now n));
      failure_reason = reason;
    }

    abbrev pub completed_patch : String → ℕ → AgentState
    completed_patch name n = record no_fields {
      workflow_stage = some (join name "_completed");
      phases = some ((name, ended_entry "completed" none n) ∷ []);
    }

    -- `recordCompletedPhase`
    abbrev pub record_completed_phase : String → PhaseWorld → PhaseWorld
    record_completed_phase name w = record w {
      recorded_phases =
          if is_listed w.recorded_phases name
          then w.recorded_phases
          else w.recorded_phases ++ name ∷ [];
    }

    -- `markPhaseCompleted`
    unfoldable pub mark_phase_completed : Option String → ℕ → PhaseWorld → PhaseWorld
    unfolding write_top_level_state
    mark_phase_completed name n w =
        let marked : PhaseWorld =
          if marks name
          then write_state config.adw_id (completed_patch (get_or name "") n) w
          else w in
        if is_truthy name then record_completed_phase (get_or name "") marked else marked

    -- `markPhaseFailed`, and the mark of a timeout
    unfoldable pub mark_phase_failed : Option String → Option String → ℕ → PhaseWorld → PhaseWorld
    unfolding write_top_level_state
    mark_phase_failed name reason n w =
        if marks name
        then write_state config.adw_id
            (phase_patch (get_or name "") (ended_entry "failed" reason n)) w
        else w

    -- `buildPausedWorkflowEntry`, of the fields that the queue's model has
    abbrev pub paused_entry : RateLimitFacts → (String → String) → PausedWorkflow
    paused_entry facts derive_orchestrator_script = record {
      adw_id = config.adw_id;
      issue_number = config.issue_number;
      orchestrator_script = derive_orchestrator_script config.orchestrator_name;
      last_probe_at = none;
      probe_failures = none;
      worktree_path = config.worktree_path;
      extra_args = elim config.target_repo [
        | none ↦ none
        | some repo ↦ some ("--target-repo" ∷ join repo.owner (join "/" repo.repo) ∷ [])
      ];
      resets_at = elim facts.resets_at [
        | none ↦ none
        | some seconds ↦ some (clock.iso (seconds * 1000))
      ];
      rate_limit_type = facts.rate_limit_type;
    }

    -- `toISOString` throws for a time beyond the last date.
    abbrev pub has_date : Option ℕ → Bool
    has_date none = true
    has_date (some seconds) = leb (seconds * 1000) max_time

    module _ (derive_orchestrator_script : String → String) where
      -- `handleRateLimitPause`: the stage is written before the entry, whose reset time may have no date.
      unfoldable pub handle_rate_limit_pause :
          String → RateLimitFacts → PhaseWorld → PhaseEnd × PhaseWorld
      unfolding write_top_level_state append_to_pause_queue
      handle_rate_limit_pause phase facts w =
          let staged : PhaseWorld = write_state config.adw_id (stage_patch "paused") w in
          let queued : PhaseWorld = record staged {
            queue =
                append_to_pause_queue (paused_entry facts derive_orchestrator_script) staged.queue;
          } in
          if has_date facts.resets_at
          then (exited_paused, post (paused_at phase) queued)
          else (rethrown (other_error "Invalid time value"), staged)

      -- `handlePhaseTimeout`
      unfoldable pub handle_phase_timeout : String → ℕ → PhaseWorld → PhaseEnd × PhaseWorld
      unfolding write_top_level_state
      handle_phase_timeout phase timeout_ms w = (
        exited_timeout,
        write_state config.adw_id (stage_patch "phase_timeout")
            (post (timed_out phase timeout_ms) w),
      )

      -- `failPhase`
      unfoldable pub fail_phase :
          Option String → ℕ → PhaseError → PhaseWorld → PhaseEnd × PhaseWorld
      unfolding mark_phase_failed handle_rate_limit_pause handle_phase_timeout
      fail_phase name n (agent_timeout_error phase timeout_ms) w =
          handle_phase_timeout (get_or phase (get_or name "unknown")) timeout_ms
            (mark_phase_failed name (some "agent_timeout") n w)
      fail_phase name n (rate_limit_error phase facts) w =
          handle_rate_limit_pause phase facts (mark_phase_failed name none n w)
      fail_phase name n (auth_required_error agent) w =
          (rethrown (auth_required_error agent), mark_phase_failed name none n w)
      fail_phase name n (other_error message) w =
          (rethrown (other_error message), mark_phase_failed name none n w)

      -- `decideOnPhaseError`
      unfoldable pub decide_on_phase_error : PhaseError → ℕ → Option RateLimitWaitDecision
      unfolding decide_rate_limit_wait
      decide_on_phase_error (rate_limit_error phase facts) now =
          some (decide_rate_limit_wait facts now min_rate_limit_wait_ms)
      decide_on_phase_error (agent_timeout_error phase timeout_ms) now = none
      decide_on_phase_error (auth_required_error agent) now = none
      decide_on_phase_error (other_error message) now = none

      abbrev pub phase_of : PhaseError → String
      phase_of (rate_limit_error phase facts) = phase
      phase_of (agent_timeout_error phase timeout_ms) = "unknown"
      phase_of (auth_required_error agent) = "unknown"
      phase_of (other_error message) = "unknown"

      -- The `for` loop over attempts, on fuel: a wait is followed by the next attempt.
      abbrev pub after_error :
          Option RateLimitWaitDecision
          → Option String
          → ℕ
          → PhaseError
          → (PhaseWorld → PhaseEnd × PhaseWorld)
          → PhaseWorld
          → PhaseEnd × PhaseWorld
      after_error none name n err again w = fail_phase name n err w
      after_error (some (enqueue resets_at)) name n err again w = fail_phase name n err w
      after_error (some (wait_in_process until)) name n err again w =
          again (post (waiting (get_or name (phase_of err)) until n) w)

      abbrev pub after_attempt :
          Attempt
          → Option String
          → ℕ
          → (PhaseWorld → PhaseEnd × PhaseWorld)
          → PhaseWorld
          → PhaseEnd × PhaseWorld
      after_attempt came_back name n again w = (returned, mark_phase_completed name n w)
      after_attempt ended_process name n again w = (exited_itself, w)
      after_attempt (threw err) name n again w =
          after_error (decide_on_phase_error err (clock.now n)) name n err again w

      unfoldable pub attempt_loop :
          ℕ → PhaseFn → Option String → ℕ → PhaseWorld → PhaseEnd × PhaseWorld
      unfolding mark_phase_completed fail_phase decide_on_phase_error
      attempt_loop zero fn name n w = (out_of_fuel, w)
      attempt_loop (suc fuel) fn name n w =
          let (attempt, w') = fn n w in
          after_attempt attempt name n (λ v. attempt_loop fuel fn name (suc n) v) w'

      -- `runPhase`
      unfoldable pub run_phase : ℕ → PhaseFn → Option String → PhaseWorld → PhaseEnd × PhaseWorld
      unfolding is_phase_already_completed mark_phase_running attempt_loop
      run_phase fuel fn name w =
          if is_phase_already_completed name w.store
          then (skipped, w)
          else attempt_loop fuel fn name 1 (mark_phase_running name w)
