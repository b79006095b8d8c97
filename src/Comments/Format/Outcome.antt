-- ===== src/Comments/Format/Outcome.antt =====
-- The comments of an end, a restart, a review, a pause and the gates. A comment is the list of its pieces.
use ai_dev_workflow.Prelude.{Option, none, some, List, [], ◌∷◌, String, get_or, decimal}
use ai_dev_workflow.Comments.Format.Context.{
  WorkflowContext, ReviewIssue, adw_line, adw_signature, after_header, attempt_info, blocker_list,
  branch_line, bullet_list, completed_list, non_blocker_section, or_text, paused_at_line,
  reason_line, resolution_line, resuming_line, retry_line, summary_section, timeout_minutes,
  truncate_text,
}

-- `formatErrorComment`
abbrev pub format_error_comment : WorkflowContext → List String
format_error_comment ctx =
    "## :x: ADW Workflow Error\n\nAn error occurred during the automated development workflow.\n\n**Error:** "
    ∷ or_text ctx.error_message "Unknown error"
    ∷ "\n"
    ∷ adw_line ctx.adw_id
    ∷ "\n\nPlease check the logs for more details."
    ∷ ctx.cost_section
    ∷ ctx.running_token_footer
    ∷ adw_signature
    ∷ []

-- `formatDiscardedComment`
abbrev pub format_discarded_comment : WorkflowContext → List String
format_discarded_comment ctx =
    "## :no_entry: ADW Workflow Discarded\n\nThis workflow ended with a terminal decision and will not be retried.\n\n**Reason:** "
    ∷ or_text ctx.error_message "Not specified"
    ∷ "\n"
    ∷ adw_line ctx.adw_id
    ∷ ctx.running_token_footer
    ∷ adw_signature
    ∷ []

-- `formatTokenLimitRecoveryComment`
abbrev pub format_token_limit_recovery_comment : WorkflowContext → List String
format_token_limit_recovery_comment ctx =
    "## :warning: Token Limit Recovery\n\nThe build agent approached the token limit and was gracefully terminated. Spawning a continuation agent to resume implementation.\n\n**Continuation:** #"
    ∷ decimal (get_or ctx.token_continuation_number 1)
    ∷ get_or ctx.token_usage ""
    ∷ "\n"
    ∷ adw_line ctx.adw_id
    ∷ ctx.running_token_footer
    ∷ adw_signature
    ∷ []

-- `formatCompactionRecoveryComment`
abbrev pub format_compaction_recovery_comment : WorkflowContext → List String
format_compaction_recovery_comment ctx =
    "## :warning: Context Compaction Recovery\n\nThe build agent's context was compacted by Claude Code, which is lossy. Terminating and spawning a continuation agent with fresh context.\n\n**Continuation:** #"
    ∷ decimal (get_or ctx.token_continuation_number 1)
    ∷ "\n"
    ∷ adw_line ctx.adw_id
    ∷ ctx.running_token_footer
    ∷ adw_signature
    ∷ []

-- `formatTestCompactionRecoveryComment`
abbrev pub format_test_compaction_recovery_comment : WorkflowContext → List String
format_test_compaction_recovery_comment ctx =
    "## :warning: Test Compaction Recovery\n\nThe test resolution agent's context was compacted by Claude Code, which is lossy. Terminating and spawning a continuation agent with fresh context.\n\n**Continuation:** #"
    ∷ decimal (get_or ctx.token_continuation_number 1)
    ∷ "\n"
    ∷ adw_line ctx.adw_id
    ∷ ctx.running_token_footer
    ∷ adw_signature
    ∷ []

-- `formatReviewRunningComment`
abbrev pub format_review_running_comment : WorkflowContext → List String
format_review_running_comment ctx =
    "## :mag: Review Running\n\nRunning automated code review..."
    ∷ attempt_info ctx
    ∷ "\n\n"
    ∷ adw_line ctx.adw_id
    ∷ ctx.running_token_footer
    ∷ adw_signature
    ∷ []

-- `formatReviewPassedComment`
abbrev pub format_review_passed_comment_of : WorkflowContext → Option (List String) → List String
format_review_passed_comment_of ctx none =
    "## :white_check_mark: Review Passed\n\nCode review passed with no blocker issues."
    ∷ summary_section ctx
    ∷ ctx.screenshot_section
    ∷ non_blocker_section ctx
    ∷ "\n\n"
    ∷ adw_line ctx.adw_id
    ∷ ctx.running_token_footer
    ∷ adw_signature
    ∷ []
format_review_passed_comment_of ctx (some sections) =
    "## :white_check_mark: Review Passed"
    ∷ after_header sections
    ∷ "\n\n"
    ∷ adw_line ctx.adw_id
    ∷ ctx.running_token_footer
    ∷ adw_signature
    ∷ []

abbrev pub format_review_passed_comment : WorkflowContext → List String
format_review_passed_comment ctx = format_review_passed_comment_of ctx ctx.scenario_proof

-- `formatReviewFailedComment`
abbrev pub format_review_failed_comment_of : WorkflowContext → Option (List String) → List String
format_review_failed_comment_of ctx none =
    "## :x: Review Failed\n\nCode review failed with unresolved blocker issues."
    ∷ blocker_list ctx
    ∷ ctx.screenshot_section
    ∷ branch_line ctx
    ∷ retry_line
    ∷ "\n\n"
    ∷ adw_line ctx.adw_id
    ∷ ctx.running_token_footer
    ∷ adw_signature
    ∷ []
format_review_failed_comment_of ctx (some sections) =
    "## :x: Review Failed"
    ∷ after_header sections
    ∷ branch_line ctx
    ∷ retry_line
    ∷ "\n\n"
    ∷ adw_line ctx.adw_id
    ∷ ctx.running_token_footer
    ∷ adw_signature
    ∷ []

abbrev pub format_review_failed_comment : WorkflowContext → List String
format_review_failed_comment ctx = format_review_failed_comment_of ctx ctx.scenario_proof

-- `formatReviewPatchingComment`
abbrev pub format_review_patching_comment_of : WorkflowContext → Option ReviewIssue → List String
format_review_patching_comment_of ctx none =
    "## :wrench: Patching Review Issue\n\nApplying patch for review issue...\n\n"
    ∷ adw_line ctx.adw_id
    ∷ ctx.running_token_footer
    ∷ adw_signature
    ∷ []
format_review_patching_comment_of ctx (some issue) =
    "## :wrench: Patching Review Issue\n\nPatching blocker **#"
    ∷ decimal issue.review_issue_number
    ∷ "**: "
    ∷ truncate_text issue.issue_description 500
    ∷ resolution_line issue
    ∷ "\n\n"
    ∷ adw_line ctx.adw_id
    ∷ ctx.running_token_footer
    ∷ adw_signature
    ∷ []

abbrev pub format_review_patching_comment : WorkflowContext → List String
format_review_patching_comment ctx = format_review_patching_comment_of ctx ctx.patching_issue

-- `formatPlanValidatingComment`
abbrev pub format_plan_validating_comment : WorkflowContext → List String
format_plan_validating_comment ctx =
    "## :mag: Validating Plan-Scenario Alignment\n\nComparing implementation plan against BDD scenarios...\n\n"
    ∷ adw_line ctx.adw_id
    ∷ ctx.running_token_footer
    ∷ adw_signature
    ∷ []

-- `formatPlanValidatedComment`
abbrev pub format_plan_validated_comment : WorkflowContext → List String
format_plan_validated_comment ctx =
    "## :white_check_mark: Plan and Scenarios Aligned\n\nImplementation plan and BDD scenarios are aligned.\n\n"
    ∷ adw_line ctx.adw_id
    ∷ ctx.running_token_footer
    ∷ adw_signature
    ∷ []

-- `formatPlanResolvingComment`
abbrev pub format_plan_resolving_comment : WorkflowContext → List String
format_plan_resolving_comment ctx =
    "## :wrench: Resolving Plan-Scenario Mismatches\n\nReconciling mismatches using the GitHub issue as the sole arbiter of truth...\n\n"
    ∷ adw_line ctx.adw_id
    ∷ ctx.running_token_footer
    ∷ adw_signature
    ∷ []

-- `formatPlanResolvedComment`
abbrev pub format_plan_resolved_comment : WorkflowContext → List String
format_plan_resolved_comment ctx =
    "## :white_check_mark: Plan-Scenario Mismatches Resolved\n\nMismatches between the plan and scenarios have been resolved.\n\n"
    ∷ adw_line ctx.adw_id
    ∷ ctx.running_token_footer
    ∷ adw_signature
    ∷ []

-- `formatPlanValidationFailedComment`
abbrev pub format_plan_validation_failed_comment : WorkflowContext → List String
format_plan_validation_failed_comment ctx =
    "## :x: Plan-Scenario Validation Failed\n\nPlan and scenarios could not be aligned after maximum resolution attempts.\n\n"
    ∷ adw_line ctx.adw_id
    ∷ ctx.running_token_footer
    ∷ adw_signature
    ∷ []

-- `formatPlanAligningComment`
abbrev pub format_plan_aligning_comment : WorkflowContext → List String
format_plan_aligning_comment ctx =
    "## :arrows_counterclockwise: Aligning Plan and Scenarios\n\nPerforming single-pass alignment of implementation plan against BDD scenarios...\n\n"
    ∷ adw_line ctx.adw_id
    ∷ ctx.running_token_footer
    ∷ adw_signature
    ∷ []

-- `formatPlanAlignedComment`
abbrev pub format_plan_aligned_comment : WorkflowContext → List String
format_plan_aligned_comment ctx =
    "## :white_check_mark: Plan and Scenarios Aligned\n\nImplementation plan and BDD scenarios have been aligned.\n\n"
    ∷ adw_line ctx.adw_id
    ∷ ctx.running_token_footer
    ∷ adw_signature
    ∷ []

-- `formatPausedComment`
abbrev pub format_paused_comment : WorkflowContext → List String
format_paused_comment ctx =
    "## :pause_button: ADW Workflow Paused\n\nWorkflow paused due to rate limit or API outage. It will resume automatically when capacity returns."
    ∷ completed_list ctx
    ∷ paused_at_line ctx
    ∷ reason_line ctx
    ∷ "\n\n"
    ∷ adw_line ctx.adw_id
    ∷ adw_signature
    ∷ []

-- `formatResumedComment`
abbrev pub format_resumed_comment : WorkflowContext → List String
format_resumed_comment ctx =
    "## :arrow_forward: ADW Workflow Resuming\n\nRate limit cleared — resuming workflow from paused phase."
    ∷ resuming_line ctx
    ∷ "\n\n"
    ∷ adw_line ctx.adw_id
    ∷ adw_signature
    ∷ []

-- `formatResumingComment`
abbrev pub format_resuming_comment : WorkflowContext → List String
format_resuming_comment ctx =
    "## :arrows_counterclockwise: ADW Workflow Resuming\n\nResuming automated development workflow from previous run.\n\n**Resuming from:** "
    ∷ or_text ctx.resume_from "starting"
    ∷ "\n"
    ∷ adw_line ctx.adw_id
    ∷ ctx.running_token_footer
    ∷ adw_signature
    ∷ []

-- `formatStackIncoherentComment`
abbrev pub format_stack_incoherent_comment : WorkflowContext → List String
format_stack_incoherent_comment ctx =
    "## :warning: ADW Unverified — Stack Coherence\n\nThe detected test/BDD configuration appears incoherent. `adw_init` may have mis-detected the stack (it falls back to `cucumber-js` on non-recognition)."
    ∷ bullet_list ctx
    ∷ "\n\n**Non-blocking** — the workflow continued and the PR is marked `adw:unverified`.\n\n**Next steps:** confirm `## Test Framework` / `## Run Tests` in `.adw/commands.md` and `## BDD Framework` in `.adw/scenarios.md`.\n\n"
    ∷ adw_line ctx.adw_id
    ∷ ctx.running_token_footer
    ∷ adw_signature
    ∷ []

-- `formatUnverifiedComment`
abbrev pub format_unverified_comment : WorkflowContext → List String
format_unverified_comment ctx =
    "## :warning: ADW Unverified — No JUnit Report Emitted\n\nThe unit-test phase ran `## Run Tests`, but no readable JUnit XML report appeared at `$ADW_UNIT_TEST_REPORT_PATH`. Either the command emitted no report, or the file it wrote could not be parsed (a parse failure is logged as `[testReportParser] Failed to parse JUnit report at …`).\n\n**What this means:** The unit-test verdict could not be verified against a report, so this run is marked `adw:unverified` — **non-blocking**, the workflow continued but the PR was not fully verified.\n\n**Next steps:** Configure the runner named in `## Run Tests` (`.adw/commands.md`), or its config file, to emit a JUnit report to the path in `$ADW_UNIT_TEST_REPORT_PATH` — e.g. vitest `--reporter=junit --outputFile=$ADW_UNIT_TEST_REPORT_PATH`, cucumber-js `--format junit:$ADW_UNIT_TEST_REPORT_PATH`, pytest `--junitxml=$ADW_UNIT_TEST_REPORT_PATH`.\n\n"
    ∷ adw_line ctx.adw_id
    ∷ ctx.running_token_footer
    ∷ adw_signature
    ∷ []

-- `formatPhaseTimeoutComment`
abbrev pub format_phase_timeout_comment : WorkflowContext → List String
format_phase_timeout_comment ctx =
    "## :warning: Phase Timeout\n\nPhase `"
    ∷ get_or ctx.timeout_phase_name "unknown"
    ∷ "` exceeded its "
    ∷ timeout_minutes ctx
    ∷ "-minute watchdog and was terminated. The workflow will be recovered automatically on the next cron tick: the worktree is reset to the remote and the run resumes from the reconciled stage.\n\n"
    ∷ adw_line ctx.adw_id
    ∷ ctx.running_token_footer
    ∷ adw_signature
    ∷ []
