-- ===== src/Comments/Recovery.antt =====
-- `detectRecoveryState` with adws/core/orchestratorLib.ts, and `isAdwRunningForIssue` of adws/forge/workflowCommentsBase.ts:
-- what the comments of an issue say about the workflows before. Stages are texts; times are milliseconds.
use ai_dev_workflow.Prelude.{
  Bool, true, false, ◌&&◌, ◌||◌, not, Option, none, some, List, [], ◌∷◌, ℕ, suc, String, ◌==◌,
  text_eq, number_eq, if◌then◌else◌, keep, is_some, is_some_of, ltb,
}
use ai_dev_workflow.Comments.Markers.{
  parse_workflow_stage_from_comment, extract_adw_id_from_comment, extract_branch_name_from_comment,
  extract_plan_path_from_comment, extract_pr_url_from_comment,
}

pub record IssueComment : Type 0 where
  pub body : String
  pub created_at : ℕ

pub record RecoveryState : Type 0 where
  pub last_completed_stage : Option String
  pub adw_id : Option String
  pub branch_name : Option String
  pub plan_path : Option String
  pub pr_url : Option String
  pub can_resume : Bool

abbrev pub stage_order : List String
stage_order =
    "starting" ∷ "resuming" ∷ "classified" ∷ "branch_created" ∷ "plan_building" ∷ "plan_created"
    ∷ "planFile_created" ∷ "plan_validating" ∷ "plan_aligning" ∷ "build_running" ∷ "build_progress"
    ∷ "build_completed" ∷ "build_committing" ∷ "pr_creating" ∷ "pr_created" ∷ "completed" ∷ "paused"
    ∷ "resumed" ∷ []

-- `indexOf` plus one, so that a text that is not in the list has zero.
unfoldable pub place_of : String → List String → ℕ
place_of s [] = 0
place_of s (t ∷ ts) =
    let later = place_of s ts in if t == s then 1 else if later == 0 then 0 else suc later

abbrev pub stage_place : String → ℕ
stage_place stage = place_of stage stage_order

abbrev pub place_or_none : Option String → ℕ
place_or_none none = 0
place_or_none (some stage) = stage_place stage

abbrev pub fresh_state : RecoveryState
fresh_state = record {
  last_completed_stage = none;
  adw_id = none;
  branch_name = none;
  plan_path = none;
  pr_url = none;
  can_resume = false;
}

-- The sort by date, newest first; comments of one date keep their order.
unfoldable pub insert_by_date : IssueComment → List IssueComment → List IssueComment
insert_by_date c [] = c ∷ []
insert_by_date c (d ∷ ds) =
    let rest = insert_by_date c ds in if ltb c.created_at d.created_at then d ∷ rest else c ∷ d ∷ ds

unfoldable pub sort_by_date : List IssueComment → List IssueComment
unfolding insert_by_date
sort_by_date [] = []
sort_by_date (c ∷ cs) = insert_by_date c (sort_by_date cs)

abbrev pub is_stage_comment : IssueComment → Bool
is_stage_comment c = is_some (parse_workflow_stage_from_comment c.body)

abbrev pub is_passed_over : String → Bool
is_passed_over stage = stage == "error" || stage == "paused" || stage == "resumed"

-- `if (found) kept = found`
abbrev pub or_keep : Option String → Option String → Option String
or_keep none kept = kept
or_keep (some found) kept = some found

abbrev pub further : String → Option String → Option String
further stage last = if ltb (place_or_none last) (stage_place stage) then some stage else last

abbrev pub with_stage : String → IssueComment → RecoveryState → RecoveryState
with_stage stage c s = record s {
  last_completed_stage = further stage s.last_completed_stage;
  adw_id = or_keep (extract_adw_id_from_comment c.body) s.adw_id;
  branch_name = or_keep (extract_branch_name_from_comment c.body) s.branch_name;
  plan_path = or_keep (extract_plan_path_from_comment c.body) s.plan_path;
  pr_url = or_keep (extract_pr_url_from_comment c.body) s.pr_url;
}

-- One turn of the loop over the comments, oldest first.
abbrev pub read_stage : Option String → IssueComment → RecoveryState → RecoveryState
read_stage none c s = s
read_stage (some stage) c s = if is_passed_over stage then s else with_stage stage c s

abbrev pub read_comment : IssueComment → RecoveryState → RecoveryState
read_comment c s = read_stage (parse_workflow_stage_from_comment c.body) c s

-- The loop, over the list that has the newest comment first.
unfoldable pub read_comments : List IssueComment → RecoveryState
read_comments [] = fresh_state
read_comments (c ∷ cs) = read_comment c (read_comments cs)

-- `lastCompletedStage !== null && lastCompletedStage !== 'completed'`
abbrev pub resumes_from : Option String → Bool
resumes_from none = false
resumes_from (some stage) = not (stage == "completed")

abbrev pub recovered : List IssueComment → RecoveryState
recovered [] = fresh_state
recovered (newest ∷ older) =
    let state = read_comments (newest ∷ older) in
    if is_some_of (parse_workflow_stage_from_comment newest.body) "completed"
    then fresh_state
    else record state { can_resume = resumes_from state.last_completed_stage }

-- `detectRecoveryState`
unfoldable pub detect_recovery_state : List IssueComment → RecoveryState
unfolding sort_by_date read_comments place_of
detect_recovery_state comments = recovered (sort_by_date (keep is_stage_comment comments))

abbrev pub executes : String → Bool → Option String → Bool
executes stage can_resume none = true
executes stage can_resume (some last) = not can_resume || ltb (stage_place last) (stage_place stage)

-- `shouldExecuteStage`
unfoldable pub should_execute_stage : String → RecoveryState → Bool
unfolding place_of
should_execute_stage stage state = executes stage state.can_resume state.last_completed_stage

abbrev next_in : String → List String → String
next_in stage [] = "starting"
next_in stage (t ∷ []) = "starting"
next_in stage (t ∷ u ∷ ts) = if t == stage then u else next_in stage (u ∷ ts)

-- `getNextStage`
unfoldable pub get_next_stage : String → String
get_next_stage last_completed_stage = next_in last_completed_stage stage_order

-- `planCreatedByEarlierRun`
unfoldable pub plan_created_by_earlier_run : RecoveryState → Bool
unfolding should_execute_stage
plan_created_by_earlier_run state =
    state.can_resume && not (should_execute_stage "plan_created" state)

abbrev pub running_by : (String → Bool) → List IssueComment → Bool
running_by is_agent_process_running [] = false
running_by is_agent_process_running (newest ∷ older) =
    let stage = parse_workflow_stage_from_comment newest.body in
    if is_some_of stage "completed" || is_some_of stage "error"
    then false
    else elim (extract_adw_id_from_comment newest.body) [
      | none ↦ true
      | some adw_id ↦ is_agent_process_running adw_id
    ]

-- `isAdwRunningForIssue`, for the comments that the forge answers.
unfoldable pub is_adw_running_for_issue : (String → Bool) → List IssueComment → Bool
unfolding sort_by_date
is_adw_running_for_issue is_agent_process_running comments =
    running_by is_agent_process_running (sort_by_date (keep is_stage_comment comments))
