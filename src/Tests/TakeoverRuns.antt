-- ===== src/Tests/TakeoverRuns.antt =====
-- adws/triggers/takeoverHandler.ts: a workflow that is still running, one that is starting, and one that
-- has spent its resumes.
use ai_dev_workflow.Prelude.{
  ◌≡◌, refl, ◌⊎◌, inl, inr, false, none, some, [], ◌∷◌, String, ◌==◌, number_eq, text_eq,
  if◌then◌else◌, In, leb,
}
use ai_dev_workflow.Stage.{classify_stage_string}
use ai_dev_workflow.State.{AgentState, no_fields, write_top_level_state}
use ai_dev_workflow.Process.{Host, is_process_live, is_recorded_owner_live}
use ai_dev_workflow.SpawnGate.{absent, acquire_issue_spawn_lock, is_held_live}
use ai_dev_workflow.Worktree.{missing_probe, decide_worktree_reuse}
use ai_dev_workflow.Takeover.{
  ok, World, TakeoverDeps, take_over_adw_id, defer_live_holder, escalate_human_gated, killed,
  reset_worktree, commented_human_gated, evaluate_candidate, acquire_or_reclaim,
  reclaim_own_leaked_lock, is_own_leaked_lock, decide_holding_lock, decide_for_state,
  recover_active_stage, recover_starting_stage, recover_phase_timeout,
  recover_via_resume_in_place_or_reset, LockDiscipline, HasKind, kind_for_state,
  evaluate_candidate_lock, evaluate_candidate_kills, evaluate_candidate_writes,
  evaluate_candidate_kind, IsCandidate, IsKillable, IsExhausted, gate_state,
}

handler : Unit {0}
unfolding evaluate_candidate acquire_or_reclaim reclaim_own_leaked_lock is_own_leaked_lock
    decide_holding_lock decide_for_state recover_active_stage recover_starting_stage
    recover_phase_timeout recover_via_resume_in_place_or_reset acquire_issue_spawn_lock
    is_process_live is_recorded_owner_live classify_stage_string write_top_level_state
    decide_worktree_reuse
handler = tt

-- Process 10 is the cron, process 20 an orchestrator; both are alive.
abbrev host : Host
host = record { kill_0 = λ pid. leb pid 20; start_time = λ pid. some "boot" }

abbrev owned : String → AgentState
owned stage = record no_fields {
  adw_id = some "a1";
  branch_name = some "feat";
  pid = some 20;
  pid_started_at = some "boot";
  workflow_stage = some stage;
}

abbrev exhausted : AgentState
exhausted = record no_fields { workflow_stage = some "phase_timeout"; resume_attempts = some 3 }

abbrev deps : TakeoverDeps
deps = record {
  host = host;
  own_pid = 10;
  resolve_adw_id = some "a1";
  worktree_path_for = λ branch. branch;
  probe_worktree = λ path branch pid started. ok missing_probe;
  derive_stage_from_remote = λ store adw_id. ok "branch_created";
  fails = λ e. false;
  write_fails = false;
}

abbrev before : AgentState → World
before state = record {
  lock = absent;
  store = λ id. if id == "a1" then some state else none;
  trace = [];
}

running_is_killed :
    ((evaluate_candidate deps (before (owned "build_running"))).0
      ≡ ok (take_over_adw_id "a1" "branch_created"))
    × ((evaluate_candidate deps (before (owned "build_running"))).1.trace
        ≡ reset_worktree "feat" "feat" ∷ killed 20 ∷ [])
unfolding handler
running_is_killed = (refl, refl)

starting_is_left :
    ((evaluate_candidate deps (before (owned "starting"))).0 ≡ ok (defer_live_holder 20))
    × ((evaluate_candidate deps (before (owned "starting"))).1.trace ≡ [])
unfolding handler
starting_is_left = (refl, refl)

exhausted_is_gated :
    ((evaluate_candidate deps (before exhausted)).0 ≡ ok (escalate_human_gated "a1"))
    × ((evaluate_candidate deps (before exhausted)).1.trace ≡ commented_human_gated "a1" 3 3 ∷ [])
unfolding handler
exhausted_is_gated = (refl, refl)

evaluate_candidate_lock_example :
    LockDiscipline deps
      (before (owned "starting"))
      (evaluate_candidate deps (before (owned "starting"))).0
      (evaluate_candidate deps (before (owned "starting"))).1.lock
evaluate_candidate_lock_example = evaluate_candidate_lock deps (before (owned "starting"))

evaluate_candidate_kills_example :
    In (killed 20) (before (owned "build_running")).trace
    ⊎ ((adw_id : String) × (state : AgentState) × IsCandidate deps
          (before (owned "build_running")).store
          adw_id
          state
        × IsKillable deps state 20)
unfolding handler
evaluate_candidate_kills_example =
    evaluate_candidate_kills deps (before (owned "build_running")) 20 (inr (inl refl))

evaluate_candidate_writes_example :
    ((evaluate_candidate deps (before exhausted)).1.store ≡ (before exhausted).store)
    ⊎ ((adw_id : String) × (state : AgentState) × IsCandidate deps
          (before exhausted).store
          adw_id
          state
        × IsExhausted state
        × ((evaluate_candidate deps (before exhausted)).1.store
            ≡ write_top_level_state (before exhausted).store adw_id gate_state))
evaluate_candidate_writes_example = evaluate_candidate_writes deps (before exhausted)

evaluate_candidate_kind_example :
    HasKind
      (kind_for_state deps "a1" (owned "build_running"))
      (evaluate_candidate deps (before (owned "build_running"))).0
unfolding is_held_live
evaluate_candidate_kind_example =
    evaluate_candidate_kind deps (before (owned "build_running")) "a1" (owned "build_running") refl
      refl refl
