-- ===== src/Comments/Pieces.antt =====
-- Each comment of a workflow names the adw-id, and is read by its first header.
use ai_dev_workflow.Prelude.{
  ◌≡◌, refl, sym, ap, ◌∙◌, inl, inr, true, Option, none, some, List, [], ◌∷◌, String, text_eq, In,
  is_some, join, after, arith,
}
use ai_dev_workflow.Stage.{
  WorkflowStage, starting, resuming, classified, branch_created, plan_building, plan_created,
  plan_file_created, build_running, build_progress, build_completed, build_committing, pr_creating,
  pr_created, completed, error, discarded, token_limit_recovery, compaction_recovery,
  test_compaction_recovery, review_running, review_passed, review_failed, review_patching,
  plan_validating, plan_validated, plan_resolving, plan_resolved, plan_validation_failed,
  plan_aligning, plan_aligned, paused, resumed, phase_timeout, unverified, stack_incoherent,
  test_running, test_failed, test_resolving, test_passed, document_running, document_completed,
  document_failed, install_running, install_completed, install_failed, paused_auth, abandoned,
  merge_blocked, worktree_lost,
}
use ai_dev_workflow.Comments.Markers.{
  first_match, includes_text, lines_of, first_header, stage_of_header,
  parse_workflow_stage_from_comment,
}
use ai_dev_workflow.Comments.Format.{
  WorkflowContext, BuildProgress, ReviewIssue, concat, adw_line, template,
  format_build_progress_comment_of, format_review_patching_comment_of,
  format_review_passed_comment_of, format_review_failed_comment_of,
}

first_match-join :
    (at : String → Option String) (p s : String)
    → is_some (first_match at s) ≡ true
    → is_some (first_match at (join p s)) ≡ true
unfolding first_match
first_match-join at String.[] s h = h
first_match-join at (String.◌∷◌ c p) s h = ground (arith, first_match-join at p s h)

includes-concat :
    (adw_id : String) (ps : List String)
    → In (adw_line adw_id) ps
    → includes_text (concat ps) "ADW ID:" ≡ true
unfolding first_match
includes-concat adw_id [] i = absurd i
includes-concat adw_id (p ∷ ps) (inl e) =
    ap (λ q. includes_text (join q (concat ps)) "ADW ID:") (sym e) ∙ refl
includes-concat adw_id (p ∷ ps) (inr i) =
    first_match-join (λ r. after r "ADW ID:") p (concat ps) (includes-concat adw_id ps i)

pub read_back :
    (adw_id : String) (o : Option String) (ps : List String)
    → In (adw_line adw_id) ps
    → stage_of_header (first_header (lines_of (concat ps))) ≡ o
    → parse_workflow_stage_from_comment (concat ps) ≡ o
unfolding parse_workflow_stage_from_comment
read_back adw_id o ps i h = rw (includes-concat adw_id ps i) h

module _ (ctx : WorkflowContext) where
  build_progress-In :
      (o : Option BuildProgress) → In (adw_line ctx.adw_id) (format_build_progress_comment_of ctx o)
  build_progress-In none = ground arith
  build_progress-In (some progress) = ground arith

  review_patching-In :
      (o : Option ReviewIssue) → In (adw_line ctx.adw_id) (format_review_patching_comment_of ctx o)
  review_patching-In none = ground arith
  review_patching-In (some issue) = ground arith

  review_passed-In :
      (o : Option (List String)) → In (adw_line ctx.adw_id) (format_review_passed_comment_of ctx o)
  review_passed-In none = ground arith
  review_passed-In (some []) = ground arith
  review_passed-In (some (s ∷ ss)) = ground arith

  review_failed-In :
      (o : Option (List String)) → In (adw_line ctx.adw_id) (format_review_failed_comment_of ctx o)
  review_failed-In none = ground arith
  review_failed-In (some []) = ground arith
  review_failed-In (some (s ∷ ss)) = ground arith

  pub template-In : (stage : WorkflowStage) → In (adw_line ctx.adw_id) (template stage ctx)
  unfolding template
  template-In starting = ground arith
  template-In resuming = ground arith
  template-In classified = ground arith
  template-In branch_created = ground arith
  template-In plan_building = ground arith
  template-In plan_created = ground arith
  template-In plan_file_created = ground arith
  template-In build_running = ground arith
  template-In build_progress = build_progress-In ctx.build_progress
  template-In build_completed = ground arith
  template-In build_committing = ground arith
  template-In pr_creating = ground arith
  template-In pr_created = ground arith
  template-In completed = ground arith
  template-In error = ground arith
  template-In discarded = ground arith
  template-In token_limit_recovery = ground arith
  template-In compaction_recovery = ground arith
  template-In test_compaction_recovery = ground arith
  template-In review_running = ground arith
  template-In review_passed = review_passed-In ctx.scenario_proof
  template-In review_failed = review_failed-In ctx.scenario_proof
  template-In review_patching = review_patching-In ctx.patching_issue
  template-In plan_validating = ground arith
  template-In plan_validated = ground arith
  template-In plan_resolving = ground arith
  template-In plan_resolved = ground arith
  template-In plan_validation_failed = ground arith
  template-In plan_aligning = ground arith
  template-In plan_aligned = ground arith
  template-In paused = ground arith
  template-In resumed = ground arith
  template-In phase_timeout = ground arith
  template-In unverified = ground arith
  template-In stack_incoherent = ground arith
  template-In test_running = ground arith
  template-In test_failed = ground arith
  template-In test_resolving = ground arith
  template-In test_passed = ground arith
  template-In document_running = ground arith
  template-In document_completed = ground arith
  template-In document_failed = ground arith
  template-In install_running = ground arith
  template-In install_completed = ground arith
  template-In install_failed = ground arith
  template-In paused_auth = ground arith
  template-In abandoned = ground arith
  template-In WorkflowStage.awaiting_merge = ground arith
  template-In merge_blocked = ground arith
  template-In WorkflowStage.human_gated = ground arith
  template-In worktree_lost = ground arith
