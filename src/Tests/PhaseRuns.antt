-- ===== src/Tests/PhaseRuns.antt =====
-- adws/core/phaseRunner.ts: a phase that waits out a rate limit, one that times out, and the workflow around them.
use ai_dev_workflow.Prelude.{
  ◌≡◌, refl, none, some, [], ◌∷◌, String, arith, text_eq, number_eq, ◌==◌, if◌then◌else◌,
}
use ai_dev_workflow.State.{lookup, assign, merge_entries, merge_state, write_top_level_state}
use ai_dev_workflow.PauseQueue.{append_to_pause_queue}
use ai_dev_workflow.RateLimit.{RateLimitFacts, decide_rate_limit_wait}
use ai_dev_workflow.Phase.{
  WorkflowConfig, rate_limit_error, agent_timeout_error, auth_required_error, other_error,
  came_back, threw, ended_process, phase_exited, PhaseWorld, PhaseClock, PhaseFn, awaits_merge,
  waiting, paused_at, skipped, timed_out, is_phase_already_completed, mark_phase_running,
  mark_phase_completed, mark_phase_failed, handle_rate_limit_pause, handle_phase_timeout,
  fail_phase, decide_on_phase_error, attempt_loop, run_phase, handle_workflow_error,
  handle_auth_required_pause, run_workflow,
}
use ai_dev_workflow.Phase.Laws.{IsPhaseEnd, Settles, run_phase_lem, run_phase-run_phase}
use ai_dev_workflow.Phase.Ends.{IsWorkflowEnd, run_workflow_lem}

runner : Unit {0}
unfolding lookup assign merge_entries merge_state write_top_level_state append_to_pause_queue
    decide_rate_limit_wait is_phase_already_completed mark_phase_running mark_phase_completed
    mark_phase_failed handle_rate_limit_pause handle_phase_timeout fail_phase decide_on_phase_error
    attempt_loop run_phase handle_workflow_error handle_auth_required_pause run_workflow
runner = tt

abbrev config : WorkflowConfig
config = record {
  adw_id = "a1";
  issue_number = 7;
  orchestrator_name = "sdlc-orchestrator";
  worktree_path = "/w";
  target_repo = none;
  completed_phases = [];
}

abbrev clock : PhaseClock
clock = record { now = λ n. 1000; iso = λ ms. "t"; started_at = 0 }

abbrev script : String → String
script name = "adws/adwSdlc.tsx"

abbrev before : PhaseWorld
before = record {
  store = λ id. none;
  queue = [];
  recorded_phases = [];
  comments = [];
  auth_gate = none;
}

abbrev five_hours : RateLimitFacts
five_hours = record { rate_limit_type = some "five_hour"; resets_at = some 50 }

abbrev weekly : RateLimitFacts
weekly = record { rate_limit_type = some "seven_day"; resets_at = some 50 }

-- Limited once, then done.
abbrev plan : PhaseFn
plan n w = (if n == 1 then threw (rate_limit_error "plan-agent" five_hours) else came_back, w)

abbrev build : PhaseFn
build n w = (threw (agent_timeout_error none 600), w)

abbrev review : PhaseFn
review n w = (threw (rate_limit_error "review-agent" weekly), w)

-- The gate of the unit tests: exit 1, with no stage written.
abbrev unit_test : PhaseFn
unit_test n w = (ended_process, w)

gate_ends_process :
    run_workflow config clock script 2 awaits_merge
      ((none, unit_test) ∷ (some "plan", plan) ∷ [])
      before
    ≡ (phase_exited, before)
unfolding runner
gate_ends_process = refl

plan_waits :
    (run_phase config clock script 2 plan (some "plan") before).1.comments
    ≡ waiting "plan" 50000 1 ∷ []
unfolding runner
plan_waits = refl

build_times_out :
    (run_workflow config clock script 2 awaits_merge
      ((some "plan", plan) ∷ (some "build", build) ∷ [])
      before).0
    ≡ timed_out
unfolding runner
build_times_out = refl

review_pauses :
    (run_workflow config clock script 2 awaits_merge
      ((some "review", review) ∷ [])
      before).1.comments
    ≡ paused_at "review-agent" ∷ []
unfolding runner
review_pauses = refl

plan-Settles : Settles config clock script 2 plan
plan-Settles w err until e = ground (arith, e)

build-Settles : Settles config clock script 2 build
unfolding decide_on_phase_error
build-Settles w (agent_timeout_error phase ms) until e d = cc
build-Settles w (rate_limit_error phase facts) until e d = ground (arith, e)
build-Settles w (auth_required_error agent) until e d = cc
build-Settles w (other_error message) until e d = cc

run_phase_lem_example :
    IsPhaseEnd config clock script ⊥ plan
      (some "plan")
      (run_phase config clock script 2 plan (some "plan") before)
run_phase_lem_example =
    run_phase_lem config clock script (some "plan") plan 2 before (omega arith) plan-Settles

run_phase-run_phase_example :
    run_phase config clock script 1 build
      (some "plan")
      (run_phase config clock script 2 plan (some "plan") before).1
    ≡ (skipped, (run_phase config clock script 2 plan (some "plan") before).1)
unfolding runner
run_phase-run_phase_example =
    run_phase-run_phase config clock script (some "plan") plan build 2 1 before refl refl

run_workflow_lem_example :
    IsWorkflowEnd config clock script awaits_merge
      ((some "plan", plan) ∷ (some "build", build) ∷ [])
      (run_workflow config clock script 2 awaits_merge
        ((some "plan", plan) ∷ (some "build", build) ∷ [])
        before)
run_workflow_lem_example =
    run_workflow_lem config clock script awaits_merge 2
      ((some "plan", plan) ∷ (some "build", build) ∷ []) before (omega arith)
      (plan-Settles, (build-Settles, tt))
