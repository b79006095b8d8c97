-- ===== src/Comments/RoundTrip.antt =====
-- The comments that a workflow posts are read back as the stages they were posted for.
use ai_dev_workflow.Prelude.{
  ◌≡◌, refl, Bool, true, Option, none, some, List, [], ◌∷◌, String, ◌==◌, text_eq, if◌then◌else◌,
  if_rule, any, not, split,
}
use ai_dev_workflow.Stage.{
  WorkflowStage, stage_name, starting, resuming, classified, branch_created, plan_building,
  plan_created, plan_file_created, build_running, build_progress, build_completed, build_committing,
  pr_creating, pr_created, completed, error, discarded, token_limit_recovery, compaction_recovery,
  test_compaction_recovery, review_running, review_passed, review_failed, review_patching,
  plan_validating, plan_validated, plan_resolving, plan_resolved, plan_validation_failed,
  plan_aligning, plan_aligned, paused, resumed, phase_timeout, unverified, stack_incoherent,
  test_running, test_failed, test_resolving, test_passed, document_running, document_completed,
  document_failed, install_running, install_completed, install_failed, paused_auth, abandoned,
  merge_blocked, worktree_lost,
}
use ai_dev_workflow.State.{lookup}
use ai_dev_workflow.Comments.Markers.{
  lines_of, first_header, stage_of_header, stage_header_map, is_heading_name,
  parse_workflow_stage_from_comment,
}
use ai_dev_workflow.Comments.Format.{
  WorkflowContext, BuildProgress, ReviewIssue, concat, adw_line, adw_signature, when_set,
  retry_line, template, format_workflow_comment, format_build_progress_comment_of,
  format_review_patching_comment_of, format_review_passed_comment_of,
  format_review_failed_comment_of,
}
use ai_dev_workflow.Comments.Pieces.{read_back, template-In}

-- The header map names the stage.
abbrev pub is_recoverable : WorkflowStage → Bool
is_recoverable stage = any (λ (h : String × String). h.1 == stage_name stage) stage_header_map

-- The stages whose comment is the general one.
abbrev pub update_stages : List String
update_stages =
    "test_running" ∷ "test_failed" ∷ "test_resolving" ∷ "test_passed" ∷ "document_running"
    ∷ "document_completed" ∷ "document_failed" ∷ "install_running" ∷ "install_completed"
    ∷ "install_failed" ∷ "paused_auth" ∷ "abandoned" ∷ "awaiting_merge" ∷ "merge_blocked"
    ∷ "human_gated" ∷ "worktree_lost" ∷ []

abbrev pub has_own_comment : WorkflowStage → Bool
has_own_comment stage = not (any (λ s. s == stage_name stage) update_stages)

-- What a header is read as.
abbrev header_of : List String → Option String
header_of pieces = stage_of_header (first_header (lines_of (concat pieces)))

-- The header of a failed review whose proof has no sections: a line break follows in any case.
failed_header :
    (o : Option String) (rest : List String)
    → header_of (
        "## :x: Review Failed"
        ∷ ""
        ∷ when_set o (λ b. concat ("\n**Branch:** `" ∷ b ∷ "`" ∷ []))
        ∷ retry_line
        ∷ rest)
      ≡ none
unfolding split is_heading_name lookup
failed_header none rest = refl
failed_header (some b) rest =
    if_rule (λ t. header_of ("## :x: Review Failed" ∷ "" ∷ t ∷ retry_line ∷ rest) ≡ none) (b == "")
      "" _ (λ h. refl) (λ h. refl)

module _ (ctx : WorkflowContext) where
  build_progress-header :
      (o : Option BuildProgress) → header_of (format_build_progress_comment_of ctx o) ≡ none
  unfolding split is_heading_name lookup
  build_progress-header none = refl
  build_progress-header (some progress) = refl

  review_patching-header :
      (o : Option ReviewIssue) → header_of (format_review_patching_comment_of ctx o) ≡ none
  unfolding split is_heading_name lookup
  review_patching-header none = refl
  review_patching-header (some issue) = refl

  review_passed-header :
      (o : Option (List String)) → header_of (format_review_passed_comment_of ctx o) ≡ none
  unfolding split is_heading_name lookup
  review_passed-header none = refl
  review_passed-header (some []) = refl
  review_passed-header (some (s ∷ ss)) = refl

  review_failed-header :
      (o : Option (List String)) → header_of (format_review_failed_comment_of ctx o) ≡ none
  unfolding split is_heading_name lookup
  review_failed-header none = refl
  review_failed-header (some []) =
      failed_header ctx.branch_name
        ("\n\n" ∷ adw_line ctx.adw_id ∷ ctx.running_token_footer ∷ adw_signature ∷ [])
  review_failed-header (some (s ∷ ss)) = refl

  template-header :
      (stage : WorkflowStage)
      → has_own_comment stage ≡ true
      → header_of (template stage ctx)
        ≡ (if is_recoverable stage then some (stage_name stage) else none)
  unfolding template split is_heading_name lookup stage_name
  template-header starting h = refl
  template-header resuming h = refl
  template-header classified h = refl
  template-header branch_created h = refl
  template-header plan_building h = refl
  template-header plan_created h = refl
  template-header plan_file_created h = refl
  template-header build_running h = refl
  template-header build_progress h = build_progress-header ctx.build_progress
  template-header build_completed h = refl
  template-header build_committing h = refl
  template-header pr_creating h = refl
  template-header pr_created h = refl
  template-header completed h = refl
  template-header error h = refl
  template-header discarded h = refl
  template-header token_limit_recovery h = refl
  template-header compaction_recovery h = refl
  template-header test_compaction_recovery h = refl
  template-header review_running h = refl
  template-header review_passed h = review_passed-header ctx.scenario_proof
  template-header review_failed h = review_failed-header ctx.scenario_proof
  template-header review_patching h = review_patching-header ctx.patching_issue
  template-header plan_validating h = refl
  template-header plan_validated h = refl
  template-header plan_resolving h = refl
  template-header plan_resolved h = refl
  template-header plan_validation_failed h = refl
  template-header plan_aligning h = refl
  template-header plan_aligned h = refl
  template-header paused h = refl
  template-header resumed h = refl
  template-header phase_timeout h = refl
  template-header unverified h = refl
  template-header stack_incoherent h = refl
  template-header test_running h = cc
  template-header test_failed h = cc
  template-header test_resolving h = cc
  template-header test_passed h = cc
  template-header document_running h = cc
  template-header document_completed h = cc
  template-header document_failed h = cc
  template-header install_running h = cc
  template-header install_completed h = cc
  template-header install_failed h = cc
  template-header paused_auth h = cc
  template-header abandoned h = cc
  template-header WorkflowStage.awaiting_merge h = cc
  template-header merge_blocked h = cc
  template-header WorkflowStage.human_gated h = cc
  template-header worktree_lost h = cc

  -- The comment that a workflow posts at a stage with a comment of its own is read back as that stage, if the header
  -- map names the stage, and as no stage otherwise, whatever texts of agents, names and lists stand in it.
  pub parse-format_workflow_comment :
      (stage : WorkflowStage)
      → has_own_comment stage ≡ true
      → parse_workflow_stage_from_comment (format_workflow_comment stage ctx)
        ≡ (if is_recoverable stage then some (stage_name stage) else none)
  unfolding format_workflow_comment
  parse-format_workflow_comment stage h =
      read_back ctx.adw_id (if is_recoverable stage then some (stage_name stage) else none)
        (template stage ctx) (template-In ctx stage) (template-header stage h)
