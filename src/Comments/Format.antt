-- ===== src/Comments/Format.antt =====
-- adws/forge/workflowCommentsIssue.ts: the comment that a workflow posts at a stage.
mod Context
mod Progress
mod Outcome
unfoldable pub use Context.*
unfoldable pub use Progress.*
unfoldable pub use Outcome.*
use ai_dev_workflow.Prelude.{List, [], ◌∷◌, String, decimal}
use ai_dev_workflow.Stage.{
  WorkflowStage, stage_name, starting, resuming, classified, branch_created, plan_building,
  plan_created, plan_file_created, build_running, build_progress, build_completed, build_committing,
  pr_creating, pr_created, completed, error, test_running, test_failed, test_resolving, test_passed,
  unverified, stack_incoherent, review_running, review_passed, review_failed, review_patching,
  document_running, document_completed, document_failed, token_limit_recovery, compaction_recovery,
  test_compaction_recovery, plan_validating, plan_validated, plan_resolving, plan_resolved,
  plan_validation_failed, plan_aligning, plan_aligned, install_running, install_completed,
  install_failed, paused, paused_auth, resumed, abandoned, discarded, merge_blocked, worktree_lost,
  phase_timeout,
}

-- The comment of a stage that has none of its own.
abbrev pub format_update_comment : WorkflowStage → WorkflowContext → List String
format_update_comment stage ctx =
    "## ADW Workflow Update\n\n**Stage:** "
    ∷ stage_name stage
    ∷ "\n"
    ∷ adw_line ctx.adw_id
    ∷ ctx.running_token_footer
    ∷ adw_signature
    ∷ []

-- The pieces of the comment, by the `switch` of `formatWorkflowComment`.
unfoldable pub template : WorkflowStage → WorkflowContext → List String
unfolding type_label decimal stage_name
template starting ctx = format_starting_comment ctx
template resuming ctx = format_resuming_comment ctx
template classified ctx = format_classified_comment ctx
template branch_created ctx = format_branch_created_comment ctx
template plan_building ctx = format_plan_building_comment ctx
template plan_created ctx = format_plan_created_comment ctx
template plan_file_created ctx = format_plan_file_created_comment ctx
template build_running ctx = format_build_running_comment ctx
template build_progress ctx = format_build_progress_comment ctx
template build_completed ctx = format_build_completed_comment ctx
template build_committing ctx = format_build_committing_comment ctx
template pr_creating ctx = format_pr_creating_comment ctx
template pr_created ctx = format_pr_created_comment ctx
template completed ctx = format_completed_comment ctx
template error ctx = format_error_comment ctx
template discarded ctx = format_discarded_comment ctx
template token_limit_recovery ctx = format_token_limit_recovery_comment ctx
template compaction_recovery ctx = format_compaction_recovery_comment ctx
template test_compaction_recovery ctx = format_test_compaction_recovery_comment ctx
template review_running ctx = format_review_running_comment ctx
template review_passed ctx = format_review_passed_comment ctx
template review_failed ctx = format_review_failed_comment ctx
template review_patching ctx = format_review_patching_comment ctx
template plan_validating ctx = format_plan_validating_comment ctx
template plan_validated ctx = format_plan_validated_comment ctx
template plan_resolving ctx = format_plan_resolving_comment ctx
template plan_resolved ctx = format_plan_resolved_comment ctx
template plan_validation_failed ctx = format_plan_validation_failed_comment ctx
template plan_aligning ctx = format_plan_aligning_comment ctx
template plan_aligned ctx = format_plan_aligned_comment ctx
template paused ctx = format_paused_comment ctx
template resumed ctx = format_resumed_comment ctx
template phase_timeout ctx = format_phase_timeout_comment ctx
template unverified ctx = format_unverified_comment ctx
template stack_incoherent ctx = format_stack_incoherent_comment ctx
template test_running ctx = format_update_comment test_running ctx
template test_failed ctx = format_update_comment test_failed ctx
template test_resolving ctx = format_update_comment test_resolving ctx
template test_passed ctx = format_update_comment test_passed ctx
template document_running ctx = format_update_comment document_running ctx
template document_completed ctx = format_update_comment document_completed ctx
template document_failed ctx = format_update_comment document_failed ctx
template install_running ctx = format_update_comment install_running ctx
template install_completed ctx = format_update_comment install_completed ctx
template install_failed ctx = format_update_comment install_failed ctx
template paused_auth ctx = format_update_comment paused_auth ctx
template abandoned ctx = format_update_comment abandoned ctx
template WorkflowStage.awaiting_merge ctx = format_update_comment WorkflowStage.awaiting_merge ctx
template merge_blocked ctx = format_update_comment merge_blocked ctx
template WorkflowStage.human_gated ctx = format_update_comment WorkflowStage.human_gated ctx
template worktree_lost ctx = format_update_comment worktree_lost ctx

-- `formatWorkflowComment`
unfoldable pub format_workflow_comment : WorkflowStage → WorkflowContext → String
unfolding template
format_workflow_comment stage ctx = concat (template stage ctx)
