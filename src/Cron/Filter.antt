-- ===== src/Cron/Filter.antt =====
-- adws/triggers/cronIssueFilter.ts: the issues that one tick may spawn or merge, and those that it defers.
-- Times are in milliseconds. The resolver of stages, the label check and the reader of touched files are
-- arguments, as they are of the source's functions.
use ai_dev_workflow.Prelude.{
  Bool, true, false, not, ◌||◌, Option, none, some, List, [], ◌∷◌, ◌++◌, map, ℕ, ◌+◌, String, ◌==◌,
  text_eq, number_eq, if◌then◌else◌, keep, any, length, ltb, get_or,
}
use ai_dev_workflow.Stage.{is_active, is_retriable, classify_stage_string}
use ai_dev_workflow.Process.{is_truthy}
use ai_dev_workflow.Cron.Overlap.{
  RegionSignal, SerializationDecision, proceed, serialize_behind, decide_serialization,
}
use ai_dev_workflow.Cron.Labels.{
  LabelRecoveryReason, LabelRecoveryResult, ineligible, eligible_as, read_adw_label_names, is_none,
}
use ai_dev_workflow.Cron.Stages.{StageResolution}

pub record CronIssue : Type 0 where
  pub number : ℕ
  pub created_at : ℕ
  pub updated_at : ℕ
  pub labels : List String

pub data Reason : Type 0 where
  cancelled label_opt_out awaiting_merge_no_adwid grace_period processed : Reason
  label : LabelRecoveryReason → Reason
  stage_excluded : String → Reason
  adw_stage : String → Reason

pub data CronAction : Type 0 where
  spawn merge : CronAction

pub data FilterResult : Type 0 where
  filtered : Reason → FilterResult
  eligible : CronAction → Option String → FilterResult

-- What one tick hands to the filter.
pub record Tick : Type 0 where
  pub now : ℕ
  pub spawns : List ℕ
  pub grace_period_ms : ℕ
  pub resolve_stage : CronIssue → StageResolution
  pub cancelled_this_cycle : List ℕ
  pub label_recovery : Option (CronIssue → LabelRecoveryResult)
  pub resolve_touched_files : CronIssue → List String

abbrev pub contains : List ℕ → ℕ → Bool
contains ns n = any (λ m. m == n) ns

-- The human gates and `discarded`, which come before the grace period.
abbrev pub is_parked : String → Bool
is_parked s =
    s == "discarded"
    || s == "merge_blocked"
    || s == "human_gated"
    || s == "review_failed"
    || s == "worktree_lost"

abbrev pub of_label_result : LabelRecoveryResult → FilterResult
of_label_result (ineligible reason) = filtered (label reason)
of_label_result (eligible_as c) = eligible spawn none

abbrev pub of_label_recovery : Option (CronIssue → LabelRecoveryResult) → CronIssue → FilterResult
of_label_recovery none issue = eligible spawn none
of_label_recovery (some recovery) issue = of_label_result (recovery issue)

-- The branch of `evaluateIssue` for an issue without a stage.
unfoldable pub evaluate_fresh : Tick → CronIssue → StageResolution → FilterResult
evaluate_fresh tick issue resolution =
    if contains tick.spawns issue.number
    then filtered processed
    else if is_none resolution.adw_id
    then of_label_recovery tick.label_recovery issue
    else eligible spawn none

-- The branches for an issue with a stage, past the grace period.
unfoldable pub evaluate_staged : StageResolution → String → FilterResult
evaluate_staged resolution stage =
    if stage == "completed" || stage == "paused"
    then filtered (stage_excluded stage)
    else if is_active (classify_stage_string stage)
    then if resolution.owner_dead
      then eligible spawn resolution.adw_id
      else filtered (stage_excluded "active")
    else if is_retriable (classify_stage_string stage) || stage == "phase_timeout"
    then eligible spawn resolution.adw_id
    else filtered (adw_stage stage)

-- `now - activityMs < gracePeriodMs`
abbrev pub in_grace : Tick → CronIssue → StageResolution → Bool
in_grace tick issue resolution =
    ltb tick.now (get_or resolution.last_activity_ms issue.updated_at + tick.grace_period_ms)

unfoldable pub evaluate_by_stage : Tick → CronIssue → StageResolution → Option String → FilterResult
unfolding evaluate_fresh evaluate_staged
evaluate_by_stage tick issue resolution none =
    if in_grace tick issue resolution
    then filtered grace_period
    else evaluate_fresh tick issue resolution
evaluate_by_stage tick issue resolution (some stage) =
    if stage == "awaiting_merge"
    then if is_truthy resolution.adw_id
      then eligible merge resolution.adw_id
      else filtered awaiting_merge_no_adwid
    else if is_parked stage
    then filtered (stage_excluded stage)
    else if in_grace tick issue resolution
    then filtered grace_period
    else evaluate_staged resolution stage

-- `evaluateIssue`
unfoldable pub evaluate_issue : Tick → CronIssue → FilterResult
unfolding evaluate_by_stage read_adw_label_names
evaluate_issue tick issue =
    if contains tick.cancelled_this_cycle issue.number
    then filtered cancelled
    else if (read_adw_label_names issue.labels).opt_out
    then filtered label_opt_out
    else let resolution = tick.resolve_stage issue in
      evaluate_by_stage tick issue resolution resolution.stage

pub record EligibleIssue : Type 0 where
  pub issue : CronIssue
  pub action : CronAction
  pub adw_id : Option String

pub record OverlapDeferral : Type 0 where
  pub issue_number : ℕ
  pub blocked_by : ℕ
  pub overlap_paths : List (List ℕ)

pub data Annotation : Type 0 where
  excluded : ℕ → Reason → Annotation
  region_overlap : ℕ → ℕ → Annotation

pub record FilterOutcome : Type 0 where
  pub eligible_issues : List EligibleIssue
  pub filtered_annotations : List Annotation
  pub overlap_deferrals : List OverlapDeferral

abbrev pub push :
    CronIssue
    → FilterResult
    → List EligibleIssue × List Annotation
    → List EligibleIssue × List Annotation
push issue (filtered reason) (es, notes) = (es, excluded issue.number reason ∷ notes)
push issue (eligible action adw_id) (es, notes) =
    (record { issue = issue; action = action; adw_id = adw_id } ∷ es, notes)

-- The first loop of `filterEligibleIssues`.
unfoldable pub evaluate_each : Tick → List CronIssue → List EligibleIssue × List Annotation
unfolding evaluate_issue
evaluate_each tick [] = ([], [])
evaluate_each tick (issue ∷ issues) =
    push issue (evaluate_issue tick issue) (evaluate_each tick issues)

-- The stable sort by creation time.
unfoldable pub insert_by_age : EligibleIssue → List EligibleIssue → List EligibleIssue
insert_by_age e [] = e ∷ []
insert_by_age e (x ∷ xs) =
    let rest = insert_by_age e xs in
    if ltb x.issue.created_at e.issue.created_at then x ∷ rest else e ∷ x ∷ xs

unfoldable pub sort_by_age : List EligibleIssue → List EligibleIssue
unfolding insert_by_age
sort_by_age [] = []
sort_by_age (e ∷ es) = insert_by_age e (sort_by_age es)

abbrev pub is_spawn : EligibleIssue → Bool
is_spawn e = elim e.action [ spawn ↦ true | merge ↦ false ]

abbrev pub signal_of : Tick → EligibleIssue → RegionSignal
signal_of tick e = record {
  issue_number = e.issue.number;
  paths = tick.resolve_touched_files e.issue;
  in_flight = false;
}

abbrev pub siblings_of : List RegionSignal → RegionSignal → List RegionSignal
siblings_of signals s = keep (λ (t : RegionSignal). not (t.issue_number == s.issue_number)) signals

abbrev pub push_deferral :
    RegionSignal → SerializationDecision → List OverlapDeferral → List OverlapDeferral
push_deferral s proceed rest = rest
push_deferral s (serialize_behind n ps) rest =
    record { issue_number = s.issue_number; blocked_by = n; overlap_paths = ps } ∷ rest

-- The loop over the signals: `all` are all of them.
unfoldable pub deferrals_of : List RegionSignal → List RegionSignal → List OverlapDeferral
unfolding decide_serialization
deferrals_of all [] = []
deferrals_of all (s ∷ ss) =
    push_deferral s (decide_serialization s (siblings_of all s)) (deferrals_of all ss)

abbrev pub is_deferred : List OverlapDeferral → EligibleIssue → Bool
is_deferred deferrals e = any (λ (d : OverlapDeferral). d.issue_number == e.issue.number) deferrals

-- `filterEligibleIssues`
unfoldable pub filter_eligible_issues : Tick → List CronIssue → FilterOutcome
unfolding evaluate_each sort_by_age deferrals_of
filter_eligible_issues tick issues =
    let (found, annotations) = evaluate_each tick issues in
    let initial = sort_by_age found in
    let candidates = keep is_spawn initial in
    if ltb (length candidates) 2
    then record {
      eligible_issues = initial;
      filtered_annotations = annotations;
      overlap_deferrals = [];
    }
    else let signals = map (signal_of tick) candidates in
      let deferrals = deferrals_of signals signals in
      record {
        eligible_issues = keep (λ e. not (is_deferred deferrals e)) initial;
        filtered_annotations =
            annotations
            ++ map (λ (d : OverlapDeferral). region_overlap d.issue_number d.blocked_by) deferrals;
        overlap_deferrals = deferrals;
      }
