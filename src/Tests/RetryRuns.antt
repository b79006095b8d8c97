-- ===== src/Tests/RetryRuns.antt =====
-- adws/triggers/retryHandler.ts and adws/core/retryOrchestrator.ts.
use ai_dev_workflow.Prelude.{
  ◌≡◌, refl, true, false, some, [], ◌∷◌, ℕ, String, ◌==◌, text_eq, number_eq, if◌then◌else◌,
}
use ai_dev_workflow.Stage.{classify_stage_string}
use ai_dev_workflow.State.{AgentState, no_fields, merge_state}
use ai_dev_workflow.SpawnGate.{absent, is_held_live}
use ai_dev_workflow.Worktree.{missing_probe}
use ai_dev_workflow.Takeover.{ok, World, TakeoverDeps, takeover, HasKind, evaluate_candidate}
use ai_dev_workflow.Retry.{
  Round, RetryConfig, returned, threw, retry_loop, retry_with_resolution, decide_retry_action,
  RetryWorld, RetryHandlerDeps, resume_paused_workflow, handle_retry_directive,
}
use ai_dev_workflow.Retry.Rounds.{IsAnswer, retry_with_resolution_lem}
use ai_dev_workflow.Retry.Rearming.{after_retry, rearmed, handle_retry_directive_rearms}

retrying : Unit {0}
unfolding retry_loop retry_with_resolution decide_retry_action resume_paused_workflow
    handle_retry_directive
retrying = tt

abbrev config : RetryConfig
config = record { max_retries = 3; max_context_resets = 1 }

abbrev failing : Round ℕ
failing = record {
  compacted = false;
  success = true;
  passed = false;
  failures = 7 ∷ [];
  resolver_compacted = false;
}

-- A compaction, a failure, and then a pass.
abbrev rounds : ℕ → Round ℕ
rounds n =
    if n == 0
    then record failing { compacted = true }
    else if n == 1
    then failing
    else record failing { passed = true }

third_round_passes : retry_with_resolution config rounds ≡ (
  returned (record { passed = true; total_retries = 1; failures = []; context_reset_count = 1 }),
  3,
)
unfolding retrying
third_round_passes = refl

always_failing : retry_with_resolution config (λ n. failing) ≡ (
  returned
      (record { passed = false; total_retries = 3; failures = 7 ∷ []; context_reset_count = 0 }),
  3,
)
unfolding retrying
always_failing = refl

always_compacting :
    retry_with_resolution {F = ℕ} config (λ n. record failing { compacted = true }) ≡ (threw, 2)
unfolding retrying
always_compacting = refl

retry_with_resolution_lem_example : IsAnswer config rounds (retry_with_resolution config rounds)
retry_with_resolution_lem_example = retry_with_resolution_lem config rounds

abbrev blocked : String
blocked = "merge_blocked"

abbrev gated : AgentState
gated = record no_fields {
  adw_id = some "a1";
  issue_number = some 7;
  workflow_stage = some "human_gated";
  resume_attempts = some 3;
}

abbrev world : AgentState → RetryWorld
world state = record { lock = absent; store = λ id. some state; queue = []; trace = [] }

abbrev deps : RetryHandlerDeps
deps = record {
  host = record { kill_0 = λ pid. true; start_time = λ pid. some "boot" };
  own_pid = 10;
  spawn_fails = false;
}

abbrev takeover_deps : TakeoverDeps
takeover_deps = record {
  host = deps.host;
  own_pid = 10;
  resolve_adw_id = some "a1";
  worktree_path_for = λ branch. branch;
  probe_worktree = λ path branch pid started. ok missing_probe;
  derive_stage_from_remote = λ store adw_id. ok "branch_created";
  fails = λ e. false;
  write_fails = false;
}

-- What the cron finds after the retry.
abbrev later : World
later = record {
  lock = absent;
  store = (after_retry deps 7 takeover_deps "a1" (world gated)).1.store;
  trace = [];
}

handle_retry_directive_rearms_example :
    ((after_retry deps 7 takeover_deps "a1" (world gated)).0 ≡ true)
    × ((after_retry deps 7 takeover_deps "a1" (world gated)).1.store "a1"
        ≡ some (merge_state gated (rearmed deps 7 takeover_deps "a1" (world gated) "human_gated")))
    × HasKind takeover (evaluate_candidate takeover_deps later).0
unfolding retrying classify_stage_string is_held_live
handle_retry_directive_rearms_example =
    handle_retry_directive_rearms deps 7 takeover_deps "a1" (world gated) gated "human_gated" later
      refl refl refl refl refl refl
