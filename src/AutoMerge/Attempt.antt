-- ===== src/AutoMerge/Attempt.antt =====
-- `mergeWithStaleRetry`, `runAttempt` and `mergeWithConflictResolution`.
use ai_dev_workflow.Prelude.{
  Bool, true, false, ◌||◌, Option, none, some, List, [], ◌∷◌, ℕ, zero, suc, String, if◌then◌else◌,
  get_or,
}
use ai_dev_workflow.AutoMerge.World.{
  LocalMergeCheck, clean, conflicts, unavailable, MergedInBase, PostMergeVerdict, green, red,
  PostMergeRed, BaseIntegration, current, unresolved, brought_in, base_brought_in, scenarios_passed,
  scenarios_failed, pushed, asked, landed, MergeEnv, Progress, tick, log, combine_merged_in,
  check_local_merge, base_moved_past, bring_base_in,
}

pub data StepKind : Type 0 where
  step_merged step_conflicts step_stale_retries_exhausted step_base_moved : StepKind

pub data AttemptEnd : Type 0 where
  merged retry give_up : AttemptEnd
  red_proof : PostMergeRed → AttemptEnd

pub record MergeOutcome : Type 0 where
  pub success : Bool
  pub error : Option String
  pub post_merge_red : Option PostMergeRed

-- `STALE_MERGE_RETRY_DELAYS_MS`
abbrev pub stale_merge_retry_delays_ms : List ℕ
stale_merge_retry_delays_ms = 3000 ∷ 6000 ∷ 12000 ∷ 24000 ∷ []

abbrev pub max_auto_merge_attempts : ℕ
max_auto_merge_attempts = 3

abbrev pub is_conflicts : LocalMergeCheck → Bool
is_conflicts conflicts = true
is_conflicts _ = false

abbrev pub is_clean : LocalMergeCheck → Bool
is_clean clean = true
is_clean _ = false

abbrev pub has_any : List String → Bool
has_any [] = false
has_any (c ∷ cs) = true

abbrev pub start : Progress
start = record {
  merge_attempts = 0;
  conflict_resolution_ran = false;
  local_merge_check = unavailable;
  last_merge_error = "";
  untested = none;
  clock = 0;
  trace = [];
}

module _ (env : MergeEnv) where
  -- Each refusal records its error and the local merge check that followed it.
  abbrev pub refused : String → Progress → Progress
  refused error p = record p {
    last_merge_error = error;
    local_merge_check = check_local_merge env p.clock;
    clock = suc p.clock;
  }

  -- One call of `mergePullRequest`, counted.
  abbrev pub ask : Progress → Progress
  ask p = record (log asked p) { merge_attempts = suc p.merge_attempts }

  -- What follows a refusal: `read` where the commits that the branch lacks were read and there are none.
  abbrev pub after_refusal :
      Progress → StepKind × Progress → StepKind × Progress → StepKind × Progress
  after_refusal q read not_read =
      if is_conflicts q.local_merge_check
      then (step_conflicts, q)
      else if is_clean q.local_merge_check
      then if has_any (env.commits_missing q.clock) then (step_base_moved, tick q) else read
      else not_read

  abbrev pub settle : Option String → Progress → StepKind × Progress → StepKind × Progress
  settle none p refusal = (step_merged, log landed p)
  settle (some error) p refusal = refusal

  abbrev pub refusal_of : Progress → Progress
  refusal_of p = refused (get_or (env.merge_pull_request p.clock) "") (ask p)

  -- The loop of `mergeWithStaleRetry`, with the delays that are left.
  unfoldable pub merge_with_stale_retry : List ℕ → Progress → StepKind × Progress
  unfolding check_local_merge
  merge_with_stale_retry [] p =
      let q = refusal_of p in
      settle (env.merge_pull_request p.clock) (ask p)
        (after_refusal q (step_stale_retries_exhausted, tick q) (step_stale_retries_exhausted, q))
  merge_with_stale_retry (delay ∷ delays) p =
      let q = refusal_of p in
      let read = merge_with_stale_retry delays (tick q) in
      let not_read = merge_with_stale_retry delays q in
      settle (env.merge_pull_request p.clock) (ask p) (after_refusal q read not_read)

  abbrev pub end_of_step : StepKind → AttemptEnd
  end_of_step step_merged = merged
  end_of_step step_stale_retries_exhausted = give_up
  end_of_step _ = retry

  -- `askForgeToMerge`
  unfoldable pub ask_forge_to_merge : Progress → AttemptEnd × Progress
  unfolding merge_with_stale_retry
  ask_forge_to_merge p =
      let (kind, q) = merge_with_stale_retry stale_merge_retry_delays_ms p in (end_of_step kind, q)

  -- What follows a re-run of the scenarios in `proveMergedInBase`.
  abbrev pub after_rerun : MergedInBase → PostMergeVerdict → Progress → Option AttemptEnd × Progress
  after_rerun untested (red failures) p = (
    some (red_proof (record { merged_in = untested; failures = failures })),
    log scenarios_failed p,
  )
  after_rerun untested green p =
      let q = record (log scenarios_passed p) { untested = none } in
      if base_moved_past env q.clock
      then (
        some retry,
        record (tick q) { last_merge_error = "the base moved on while the scenarios were re-run" },
      )
      else (none, tick q)

  abbrev pub prove : Option MergedInBase → Progress → Option AttemptEnd × Progress
  prove none p = (none, p)
  prove (some m) p = after_rerun m (env.rerun_scenarios p.clock) p

  -- `proveMergedInBase`
  unfoldable pub prove_merged_in_base : Progress → Option AttemptEnd × Progress
  unfolding base_moved_past
  prove_merged_in_base p = prove p.untested p

  abbrev pub then_ask : Option AttemptEnd × Progress → AttemptEnd × Progress
  then_ask (some end, p) = (end, p)
  then_ask (none, p) = ask_forge_to_merge p

  -- The part of `runAttempt` behind the integration of the base.
  unfoldable pub push_and_prove : Progress → AttemptEnd × Progress
  unfolding prove_merged_in_base ask_forge_to_merge
  push_and_prove p =
      if env.push_ok p.clock
      then then_ask (prove_merged_in_base (log pushed p))
      else (retry, tick p)

  abbrev pub integrate : BaseIntegration → Progress → AttemptEnd × Progress
  integrate unresolved p =
      if env.base_left_in p.clock then (retry, log base_brought_in p) else (retry, tick p)
  integrate current p = push_and_prove (tick p)
  integrate (brought_in m) p =
      push_and_prove
        (record (log base_brought_in p) { untested = some (combine_merged_in p.untested m) })

  -- A base that cannot be fetched is not brought in.
  abbrev pub integration : LocalMergeCheck → ℕ → BaseIntegration
  integration unavailable t = current
  integration c t = bring_base_in env (is_conflicts c) t

  -- `runAttempt`
  unfoldable pub run_attempt : Progress → AttemptEnd × Progress
  unfolding push_and_prove check_local_merge bring_base_in combine_merged_in
  run_attempt p =
      let check = check_local_merge env p.clock in
      integrate (integration check (suc p.clock)) (record (tick p) {
        local_merge_check = check;
        conflict_resolution_ran = p.conflict_resolution_ran || is_conflicts check;
      })

  abbrev pub failure : Progress → MergeOutcome
  failure p = record { success = false; error = some p.last_merge_error; post_merge_red = none }

  abbrev pub conclude : AttemptEnd → Progress → MergeOutcome × Progress → MergeOutcome × Progress
  conclude merged q rest = (record { success = true; error = none; post_merge_red = none }, q)
  conclude retry q rest = rest
  conclude give_up q rest = (failure q, q)
  conclude (red_proof r) q rest = (
    record {
      success = false;
      error = some "the scenarios failed on the branch merged with the base branch";
      post_merge_red = some r;
    },
    q,
  )

  -- The loop of `mergeWithConflictResolution` with the attempts that are left; `Progress` holds the
  -- counters that `outcomeOf` adds to the outcome.
  unfoldable pub merge_loop : ℕ → Progress → MergeOutcome × Progress
  unfolding run_attempt
  merge_loop zero p = (failure p, p)
  merge_loop (suc n) p =
      let (end, q) = run_attempt p in let rest = merge_loop n q in conclude end q rest

  -- `mergeWithConflictResolution`; the sync of the worktree at its start is best effort and moves
  -- nothing that is modelled.
  unfoldable pub merge_with_conflict_resolution : MergeOutcome × Progress
  unfolding merge_loop
  merge_with_conflict_resolution = merge_loop max_auto_merge_attempts start
