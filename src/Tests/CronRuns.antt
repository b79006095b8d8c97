-- ===== src/Tests/CronRuns.antt =====
-- adws/triggers/cronIssueFilter.ts and what it calls: a listing of three issues.
use ai_dev_workflow.Prelude.{
  ◌≡◌, refl, ◌↔◌, inl, inr, true, false, Option, none, some, List, [], ◌∷◌, ℕ, ◌-◌, ◌<◌, String,
  ◌==◌, number_eq, text_eq, list_eq, if◌then◌else◌, In, lower,
}
use ai_dev_workflow.Stage.{classify_stage_string}
use ai_dev_workflow.State.{no_phase, AgentState, no_fields}
use ai_dev_workflow.Cron.{
  normalize_path, shared_paths, paths_overlap, lowest, anchor, is_overlapping, decide_serialization,
  read_adw_label_names, decide_label_recovery, evaluate_label_recovery, StageResolution,
  is_active_stage, later, latest_of, get_last_activity_from_state, CronIssue, spawn, eligible, Tick,
  in_grace, evaluate_fresh, evaluate_staged, evaluate_by_stage, evaluate_issue, EligibleIssue,
  OverlapDeferral, evaluate_each, insert_by_age, sort_by_age, deferrals_of, filter_eligible_issues,
}
use ai_dev_workflow.Cron.Admission.{IsOpen, IsSpawnable, evaluate_issue-spawn}
use ai_dev_workflow.Cron.Candidates.{touched}
use ai_dev_workflow.Cron.Parallel.{
  filter_eligible_issues-apart, filter_eligible_issues-deferral, filter_eligible_issues-progress,
}

filter : Unit {0}
unfolding normalize_path lower shared_paths paths_overlap lowest anchor is_overlapping
    decide_serialization read_adw_label_names decide_label_recovery evaluate_label_recovery
    is_active_stage later latest_of get_last_activity_from_state evaluate_fresh evaluate_staged
    evaluate_by_stage evaluate_issue evaluate_each insert_by_age sort_by_age deferrals_of
    filter_eligible_issues classify_stage_string
filter = tt

abbrev issue : ℕ → CronIssue
issue n = record { number = n; created_at = 100 - n; updated_at = 50; labels = [] }

abbrev fresh : StageResolution
fresh = record { stage = none; adw_id = none; last_activity_ms = none; owner_dead = false }

abbrev merging : StageResolution
merging = record {
  stage = some "awaiting_merge";
  adw_id = some "a1";
  last_activity_ms = none;
  owner_dead = false;
}

-- Issues 1 and 2 touch one file, issue 3 another.
abbrev files : ℕ → List String
files n = if n == 3 then "c.ts" ∷ [] else "`src\\A.ts`" ∷ "src/a.ts" ∷ []

abbrev tick : StageResolution → Tick
tick resolution = record {
  now = 1000;
  spawns = [];
  grace_period_ms = 100;
  resolve_stage = λ i. resolution;
  cancelled_this_cycle = [];
  label_recovery = some (λ i. evaluate_label_recovery i.labels false false);
  resolve_touched_files = λ i. files i.number;
}

abbrev listing : List CronIssue
listing = issue 2 ∷ issue 1 ∷ issue 3 ∷ []

abbrev admitted : ℕ → EligibleIssue
admitted n = record { issue = issue n; action = spawn; adw_id = none }

two_run_side_by_side :
    (filter_eligible_issues (tick fresh) listing).eligible_issues ≡ admitted 3 ∷ admitted 1 ∷ []
unfolding filter
two_run_side_by_side = refl

one_waits :
    (filter_eligible_issues (tick fresh) listing).overlap_deferrals
    ≡ record { issue_number = 2; blocked_by = 1; overlap_paths = shared_paths (files 2) (files 1) }
      ∷ []
unfolding filter
one_waits = refl

filter_eligible_issues-apart_example :
    paths_overlap (touched (tick fresh) (issue 1)) (touched (tick fresh) (issue 3)) ≡ false
unfolding filter
filter_eligible_issues-apart_example =
    filter_eligible_issues-apart (tick fresh) listing (admitted 1) (admitted 3) (inr (inl refl))
      (inl refl) refl refl (λ e. cc)

abbrev deferral : OverlapDeferral
deferral = record {
  issue_number = 2;
  blocked_by = 1;
  overlap_paths = shared_paths (files 2) (files 1);
}

filter_eligible_issues-deferral_example :
    (1 < 2)
    × ((waiting : CronIssue) × (first : CronIssue) × In waiting listing
        × In first listing
        × (waiting.number ≡ 2)
        × (first.number ≡ 1)
        × (paths_overlap (touched (tick fresh) waiting) (touched (tick fresh) first) ≡ true))
unfolding filter
filter_eligible_issues-deferral_example =
    filter_eligible_issues-deferral (tick fresh) listing deferral (inl refl)

filter_eligible_issues-progress_example :
    (e : EligibleIssue) × In e (filter_eligible_issues (tick fresh) listing).eligible_issues
unfolding filter
filter_eligible_issues-progress_example =
    filter_eligible_issues-progress (tick fresh) listing (issue 2) spawn none (inl refl) refl

abbrev id : Option String
id = some "a1"

evaluate_issue-spawn_example : (evaluate_issue (tick fresh) (issue 1) ≡ eligible spawn none) ↔ (
    IsOpen (tick fresh) (issue 1)
    × (in_grace (tick fresh) (issue 1) fresh ≡ false)
    × IsSpawnable (tick fresh) (issue 1) none none)
evaluate_issue-spawn_example = evaluate_issue-spawn (tick fresh) (issue 1) none

abbrev built : String
built = "build_completed"

abbrev date_parse : String → Option ℕ
date_parse s = if s == "t1" then some 10 else if s == "t2" then some 20 else none

abbrev state : AgentState
state = record no_fields {
  phases =
      some (("plan", record no_phase { started_at = some "t1"; completed_at = some "t2" }) ∷ []);
}
