-- ===== src/Tests/DispatchRuns.antt =====
-- adws/triggers/trigger_cron.ts and issueEligibility.ts: a body with two blockers, a fresh issue that is spawned, and
-- one whose classification fails.
use ai_dev_workflow.Prelude.{
  ◌≡◌, ◌↔◌, refl, inr, true, false, none, some, [], ◌∷◌, ◌≤◌, ◌<◌, ◌+◌, String, ◌==◌, number_eq,
  text_eq, All, if◌then◌else◌, lower, unlines,
}
use ai_dev_workflow.State.{lookup}
use ai_dev_workflow.Process.{Host, is_process_live}
use ai_dev_workflow.SpawnGate.{absent, acquire_issue_spawn_lock}
use ai_dev_workflow.Takeover.{
  ok, TakeoverDeps, evaluate_candidate, acquire_or_reclaim, decide_holding_lock,
}
use ai_dev_workflow.Worktree.{missing_probe}
use ai_dev_workflow.Cron.{
  CronIssue, CronAction, EligibleIssue, Tick, filtered, processed, evaluate_issue,
  read_adw_label_names,
}
use ai_dev_workflow.Eligibility.{
  EligibilityDeps, dependencies, agent_failed, open_issue, closed_issue, Listings, is_eligible,
  open_dependencies, digits_from, behind_segment, collect, find_heading, section_of,
  parse_dependencies, includes, collect_near, parse_keyword_proximity_dependencies, count_refs,
  extract_dependencies, find_open_dependencies, has_linked_merged_or_closed_pr,
  get_in_progress_issue_count, is_concurrency_limit_reached_at, check_issue_eligibility,
}
use ai_dev_workflow.Eligibility.Laws.{check_issue_eligibility_iff}
use ai_dev_workflow.Dispatch.{
  launched_fresh, TickWorld, TickEnv, classified, classify_threw, Classification, is_starting,
  record_launch, take_over_existing_adw_id, classify_and_spawn_workflow, act_on, decide_and_act,
  dispatch_standard, dispatch_merge, dispatch, dispatch_all,
}
use ai_dev_workflow.Dispatch.Launches.{Adds, Grounds, dispatch_lem}
use ai_dev_workflow.Dispatch.Once.{launches_for, turns_of, dispatch_all-once}
use ai_dev_workflow.Dispatch.Stranded.{dispatch_standard-strands}

reader : Unit {0}
unfolding digits_from behind_segment collect find_heading section_of parse_dependencies includes
    unlines collect_near parse_keyword_proximity_dependencies count_refs lower
reader = tt

eligibility : Unit {0}
unfolding reader extract_dependencies find_open_dependencies has_linked_merged_or_closed_pr
    get_in_progress_issue_count is_concurrency_limit_reached_at check_issue_eligibility lookup
eligibility = tt

tick_steps : Unit {0}
unfolding eligibility is_starting record_launch take_over_existing_adw_id
    classify_and_spawn_workflow act_on decide_and_act dispatch_standard dispatch_merge dispatch_all
    evaluate_candidate acquire_or_reclaim decide_holding_lock acquire_issue_spawn_lock
    is_process_live read_adw_label_names
tick_steps = tt

abbrev body : String
body = unlines (
    "Fixes #9." ∷ "## Blocked by" ∷ "- #3, see https://github.com/a/b/issues/4" ∷ "## Notes" ∷ "#5"
    ∷ [])

parse_dependencies_two : parse_dependencies body ≡ 3 ∷ 4 ∷ []
unfolding reader
parse_dependencies_two = refl

parse_keyword_proximity_near :
    parse_keyword_proximity_dependencies "It depends on #12 too." ≡ 12 ∷ []
unfolding reader
parse_keyword_proximity_near = refl

abbrev eligibility_deps : EligibilityDeps
eligibility_deps = record {
  hash_body = λ s. s;
  run_dependency_extraction_agent = λ s. agent_failed;
  get_issue_state = λ n. if n == 3 then closed_issue else open_issue;
}

abbrev listings : Listings
listings = record {
  issues = some (record { number = 1; has_adw_comment = true } ∷ []);
  prs = none;
  limit = 2;
}

open_dependency_waits :
    (check_issue_eligibility eligibility_deps listings "## Blocked by #4" []).0
    ≡ open_dependencies (4 ∷ [])
unfolding eligibility
open_dependency_waits = refl

check_issue_eligibility_iff_example :
    ((check_issue_eligibility eligibility_deps listings body []).0 ≡ is_eligible) ↔ (
      All
        (λ n. eligibility_deps.get_issue_state n ≡ closed_issue)
        (extract_dependencies eligibility_deps body []).0
      × (get_in_progress_issue_count listings.issues listings.prs < 2))
check_issue_eligibility_iff_example = check_issue_eligibility_iff eligibility_deps listings body []

-- The agent that answers later is never asked.
abbrev later_deps : EligibilityDeps
later_deps = record eligibility_deps {
  run_dependency_extraction_agent = λ s. dependencies (8 ∷ []);
}

-- Process 10 is the cron.
abbrev host : Host
host = record { kill_0 = λ pid. pid == 10; start_time = λ pid. some "boot" }

abbrev takeover : TakeoverDeps
takeover = record {
  host = host;
  own_pid = 10;
  resolve_adw_id = none;
  worktree_path_for = λ branch. branch;
  probe_worktree = λ path branch pid started. ok missing_probe;
  derive_stage_from_remote = λ store adw_id. ok "starting";
  fails = λ e. false;
  write_fails = false;
}

abbrev env_with : Classification → TickEnv
env_with answer = record {
  host = host;
  own_pid = 10;
  now = 500000;
  takeover = λ n. takeover;
  eligibility = λ n. eligibility_deps;
  listings = λ n. listings;
  body = λ n. "## Depends on #3";
  auth_gate_set = λ n. false;
  live_labels = λ n. [];
  classify = λ n. answer;
  is_adw_running = λ n. false;
  spawned_pid = λ n. some 30;
}

abbrev issue : CronIssue
issue = record { number = 7; created_at = 1; updated_at = 1; labels = [] }

abbrev candidate : EligibleIssue
candidate = record { issue = issue; action = CronAction.spawn; adw_id = none }

abbrev before : TickWorld
before = record {
  locks = λ n. absent;
  store = λ id. none;
  effects = [];
  spawns = [];
  ledger = λ n. none;
  cache = [];
  launches = [];
}

fresh_issue_is_launched :
    (dispatch (env_with (classified "/bug")) candidate before).1.launches
    ≡ launched_fresh 7 "/bug" ∷ []
unfolding tick_steps
fresh_issue_is_launched = refl

dispatch_lem_example :
    Adds
      (env_with (classified "/bug"))
      (Grounds (env_with (classified "/bug")) candidate before)
      before
      (dispatch (env_with (classified "/bug")) candidate before)
dispatch_lem_example = dispatch_lem (env_with (classified "/bug")) candidate before

dispatch_all-once_example :
    launches_for 7
      (dispatch_all (env_with (classified "/bug")) (candidate ∷ candidate ∷ []) before).1.launches
    ≤ turns_of 7 (candidate ∷ candidate ∷ []) + 0
dispatch_all-once_example =
    dispatch_all-once (env_with (classified "/bug")) 7 (candidate ∷ candidate ∷ []) before

-- A tick two hours later, with the marks that the failed turn left.
abbrev later : Tick
later = record {
  now = 7700000;
  spawns = 7 ∷ [];
  grace_period_ms = 300000;
  resolve_stage =
      λ i. record { stage = none; adw_id = none; last_activity_ms = none; owner_dead = false };
  cancelled_this_cycle = [];
  label_recovery = none;
  resolve_touched_files = λ i. [];
}

dispatch_standard-strands_example :
    ((dispatch_standard (env_with classify_threw) issue before).1.launches ≡ [])
    × (evaluate_issue later issue ≡ filtered processed)
unfolding tick_steps
dispatch_standard-strands_example =
    dispatch_standard-strands (env_with classify_threw) issue before refl refl refl (inr refl) later
      refl refl refl refl refl refl
