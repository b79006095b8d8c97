-- ===== src/Tests/CommentRuns.antt =====
-- adws/core/workflowCommentParsing.ts: a workflow that stopped after its build, and what a later run recovers.
use ai_dev_workflow.Prelude.{
  ◌≡◌, ◌↔◌, refl, true, false, none, some, List, [], ◌∷◌, String, text_eq, if◌then◌else◌, split,
  decimal, eq_ignoring_case, join,
}
use ai_dev_workflow.State.{lookup}
use ai_dev_workflow.Stage.{stage_name, build_completed}
use ai_dev_workflow.Eligibility.{behind_segment}
use ai_dev_workflow.Comments.{
  first_match, is_heading_name, until_tick, parse_workflow_stage_from_comment,
  extract_adw_id_from_comment, extract_branch_name_from_comment, extract_pr_url_from_comment,
  extract_plan_path_from_comment, is_cancel_comment, IssueComment, place_of, insert_by_date,
  sort_by_date, read_comments, detect_recovery_state, should_execute_stage, get_next_stage,
  is_adw_running_for_issue, WorkflowContext, template, format_workflow_comment, type_label,
}
use ai_dev_workflow.Comments.Progress.{IsPast, should_execute-detect_iff}
use ai_dev_workflow.Comments.RoundTrip.{is_recoverable, parse-format_workflow_comment}

readers : Unit {0}
unfolding first_match is_heading_name until_tick behind_segment split lookup eq_ignoring_case
    parse_workflow_stage_from_comment extract_adw_id_from_comment extract_branch_name_from_comment
    extract_pr_url_from_comment extract_plan_path_from_comment is_cancel_comment
readers = tt

recovery : Unit {0}
unfolding readers place_of insert_by_date sort_by_date read_comments detect_recovery_state
    should_execute_stage get_next_stage is_adw_running_for_issue
recovery = tt

formats : Unit {0}
unfolding readers template format_workflow_comment type_label decimal stage_name
formats = tt

adw_id_in_backticks : extract_adw_id_from_comment "**ADW ID:**  `a1-fix`" ≡ some "a1-fix"
unfolding readers
adw_id_in_backticks = refl

branch_in_text :
    extract_branch_name_from_comment "on `main` or `bug-issue-7-fix`" ≡ some "bug-issue-7-fix"
unfolding readers
branch_in_text = refl

plan_path_in_text :
    extract_plan_path_from_comment "see `specs/issue-7-adw-a1-x-sdlc_planner-fix.md`."
    ≡ some "specs/issue-7-adw-a1-x-sdlc_planner-fix.md"
unfolding readers
plan_path_in_text = refl

pr_url_in_text :
    extract_pr_url_from_comment "**PR:** https://github.com/a/b/pull/12, ready"
    ≡ some "https://github.com/a/b/pull/12"
unfolding readers
pr_url_in_text = refl

cancel_on_a_line : is_cancel_comment "please\n## cancel\nthanks" ≡ true
unfolding readers
cancel_on_a_line = refl

abbrev context : WorkflowContext
context = record {
  adw_id = "a1-fix";
  branch_name = some "bug-issue-7-fix";
  issue_type = none;
  plan_path = none;
  plan_output = none;
  build_output = some "## :tada: ADW Workflow Completed";
  pr_url = none;
  error_message = none;
  resume_from = none;
  build_progress = none;
  cost_section = "";
  running_token_footer = "";
  token_continuation_number = none;
  token_usage = none;
  review_summary = none;
  review_issues = [];
  patching_issue = none;
  review_attempt = none;
  max_review_attempts = none;
  screenshot_section = "";
  scenario_proof = none;
  completed_phases = [];
  paused_at_phase = none;
  pause_reason = none;
  timeout_phase_name = none;
  timeout_ms = none;
  coherence_warnings = [];
}

-- The output of the agent that looks like a header is not taken for one.
parse-format_workflow_comment_example :
    parse_workflow_stage_from_comment (format_workflow_comment build_completed context)
    ≡ (if is_recoverable build_completed then some (stage_name build_completed) else none)
unfolding formats
parse-format_workflow_comment_example = parse-format_workflow_comment context build_completed refl

abbrev comment_at : String → IssueComment
comment_at text = record { body = join text "\n**ADW ID:** `a1-fix`"; created_at = 5 }

abbrev stopped_run : List IssueComment
stopped_run =
    comment_at "## :rocket: ADW Workflow Started"
    ∷ record (comment_at "## :white_check_mark: Build Completed") { created_at = 7 }
    ∷ record (comment_at "## :x: ADW Workflow Error") { created_at = 9 }
    ∷ []

build_is_skipped :
    should_execute_stage "build_completed" (detect_recovery_state stopped_run) ≡ false
unfolding recovery
build_is_skipped = refl

resumes_with_commit : get_next_stage "build_completed" ≡ "build_committing"
unfolding recovery
resumes_with_commit = refl

error_is_not_running : is_adw_running_for_issue (λ id. true) stopped_run ≡ false
unfolding recovery
error_is_not_running = refl

should_execute-detect_iff_example :
    (should_execute_stage "build_completed" (detect_recovery_state stopped_run) ≡ false)
    ↔ IsPast stopped_run "build_completed"
should_execute-detect_iff_example = should_execute-detect_iff stopped_run "build_completed"
