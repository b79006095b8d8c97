-- ===== src/Tests/BuildRuns.antt =====
-- adws/phases/buildPhase.ts: an agent that is stopped until it reports completion, and one that never advances.
use ai_dev_workflow.Prelude.{
  ◌≡◌, refl, true, false, some, [], ◌∷◌, ℕ, suc, unlines, split, if◌then◌else◌, ltb, text_eq,
}
use ai_dev_workflow.Build.{
  no_progress, BuildPorts, built, aborted, token_limit, plan_content, continuation, ran,
  commented_recovery, committed, reports_build_complete, evaluate_progress_gate, at_boundary,
  build_round, build_loop, execute_build,
}

build_steps : Unit {0}
unfolding reports_build_complete evaluate_progress_gate at_boundary build_round build_loop
    execute_build unlines split
build_steps = tt

marker_in_prose : reports_build_complete (unlines ("done" ∷ "`BUILD_COMPLETE` soon" ∷ [])) ≡ false
unfolding build_steps
marker_in_prose = refl

-- The worktree is the number of runs; the agent is always stopped, and reports completion in its third run.
abbrev stopped_agent : BuildPorts ℕ
stopped_agent = record {
  run_build_agent = λ p n. (
    some (record {
      output = if ltb n 2 then "working" else "BUILD_COMPLETE";
      is_success = true;
      token_limit_exceeded = true;
      compaction_detected = false;
    }),
    suc n,
  );
  has_uncommitted_changes = λ n. some true;
  run_commit_agent = λ n. (true, n);
  get_head_tree_hash = λ n. some (if ltb n 2 then "t0" else "t1");
  max_context_resets = 2;
  max_progress_checkpoints = 4;
}

third_run_completes : (execute_build stopped_agent 10 false 0).0 ≡ built "BUILD_COMPLETE"
unfolding build_steps
third_run_completes = refl

prompts_of_three_runs :
    (execute_build stopped_agent 10 false 0).1.events
    ≡ committed
      ∷ ran (continuation "working" token_limit true)
      ∷ committed
      ∷ commented_recovery token_limit 2
      ∷ ran (continuation "working" token_limit false)
      ∷ commented_recovery token_limit 1
      ∷ ran plan_content
      ∷ []
unfolding build_steps
prompts_of_three_runs = refl

abbrev stuck_agent : BuildPorts ℕ
stuck_agent = record stopped_agent { get_head_tree_hash = λ n. some "t0" }

stuck_agent_aborts : (execute_build stuck_agent 10 false 0).0 ≡ aborted no_progress
unfolding build_steps
stuck_agent_aborts = refl
