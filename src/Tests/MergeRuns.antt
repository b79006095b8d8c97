-- ===== src/Tests/MergeRuns.antt =====
-- adws/triggers/autoMergeHandler.ts: a run in which the base moves on while the scenarios run.
use ai_dev_workflow.Prelude.{
  eq_iff, String, ◌≢◌, String, ◌≡◌, refl, true, false, not, none, some, [], ◌∷◌, ◌≤◌, ◌==◌, text_eq,
  number_eq, leb, if◌then◌else◌,
}
use ai_dev_workflow.AutoMerge.{
  PostMergeVerdict, green, red, base_brought_in, scenarios_passed, scenarios_failed, pushed, asked,
  landed, MergeEnv, without_repeats, combine_merged_in, check_local_merge, base_moved_past,
  resolve_conflicts_via_agent, merge_base_in, bring_base_in, merge_with_stale_retry,
  ask_forge_to_merge, prove_merged_in_base, push_and_prove, run_attempt, merge_loop,
  merge_with_conflict_resolution,
}
use ai_dev_workflow.AutoMerge.Proof.{asks_are_proven, merge_with_conflict_resolution_proven}
use ai_dev_workflow.AutoMerge.Resolver.{failed_resolver_lands_unproven}
use ai_dev_workflow.AutoMerge.Bounds.{asks, has_landed, merge_with_conflict_resolution_lem}

merging : Unit {0}
unfolding without_repeats combine_merged_in check_local_merge base_moved_past
    resolve_conflicts_via_agent merge_base_in bring_base_in merge_with_stale_retry
    ask_forge_to_merge prove_merged_in_base push_and_prove run_attempt merge_loop
    merge_with_conflict_resolution
merging = tt

-- The base is behind at the calls 4 and 5; HEAD moves with every call before call 8.
abbrev env : PostMergeVerdict → MergeEnv
env verdict = record {
  fetch_ok = λ t. true;
  dry_merge_ok = λ t. true;
  real_merge_ok = λ t. true;
  resolver_ok = λ t. true;
  base_left_in = λ t. false;
  push_ok = λ t. true;
  head_short = λ t.
      if leb t 1
      then some "a"
      else if leb t 2
      then some "b"
      else if leb t 6
      then some "b"
      else some "c";
  listed = λ t. if leb t 1 then "x" ∷ [] else "y" ∷ "x" ∷ [];
  conflicted_paths = λ t. [];
  commits_missing = λ t. if t == 4 then "y" ∷ [] else [];
  merge_pull_request = λ t. if leb t 10 then some "stale" else none;
  rerun_scenarios = λ t. verdict;
}

base_moves_on :
    (merge_with_conflict_resolution (env green)).1.trace
    ≡ landed ∷ asked ∷ asked ∷ scenarios_passed ∷ pushed ∷ base_brought_in ∷ scenarios_passed
      ∷ pushed ∷ base_brought_in ∷ []
unfolding merging
base_moves_on = refl

red_never_asks :
    (merge_with_conflict_resolution (env (red []))).1.trace
    ≡ scenarios_failed ∷ pushed ∷ base_brought_in ∷ []
unfolding merging
red_never_asks = refl

merge_with_conflict_resolution_proven_example :
    asks_are_proven (merge_with_conflict_resolution (env green)).1.trace ≡ true
merge_with_conflict_resolution_proven_example =
    merge_with_conflict_resolution_proven (env green) (λ t. refl)

merge_with_conflict_resolution_lem_example :
    let (outcome, p) = merge_with_conflict_resolution (env green) in
    (outcome.success ≡ has_landed p.trace)
    × (p.merge_attempts ≡ asks p.trace)
    × (p.merge_attempts ≤ 15)
merge_with_conflict_resolution_lem_example = merge_with_conflict_resolution_lem (env green)

-- The resolver commits its merge and then fails.
abbrev lossy : MergeEnv
lossy = record (env green) {
  dry_merge_ok = λ t. not (t == 0);
  real_merge_ok = λ t. not (t == 1);
  resolver_ok = λ t. false;
  base_left_in = λ t. true;
  head_short = λ t. if leb t 1 then some "a" else some "b";
  merge_pull_request = λ t. none;
}

not_false : false ≢ true
not_false h = cc h

abbrev old_head : String
old_head = "a"

abbrev new_head : String
new_head = "b"

heads_differ : old_head ≢ new_head
heads_differ e = not_false ((eq_iff old_head new_head).1 e)

failed_resolver_lands_unproven_example :
    (merge_with_conflict_resolution lossy).1.trace ≡ landed ∷ asked ∷ pushed ∷ base_brought_in ∷ []
failed_resolver_lands_unproven_example =
    failed_resolver_lands_unproven lossy "a" "b" refl refl refl refl refl heads_differ refl refl
      refl refl refl refl refl
