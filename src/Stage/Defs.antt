-- ===== src/Stage/Defs.antt =====
-- The stages and their classes. The state file holds a stage as a text, and some texts (`plan_running`)
-- are no literal of `WorkflowStage`, so the classifier takes a text.
use ai_dev_workflow.Prelude.{
  Bool, true, false, Option, none, some, List, [], ◌∷◌, String, ◌==◌, text_eq, if◌then◌else◌, find,
  ends_with,
}

pub data WorkflowStage : Type 0 where
  starting resuming classified branch_created plan_building plan_created plan_file_created
        build_running build_progress build_completed build_committing pr_creating pr_created
        completed error test_running test_failed test_resolving test_passed unverified
        stack_incoherent review_running review_passed review_failed review_patching document_running
        document_completed document_failed token_limit_recovery compaction_recovery
        test_compaction_recovery plan_validating plan_validated plan_resolving plan_resolved
        plan_validation_failed plan_aligning plan_aligned install_running install_completed
        install_failed paused paused_auth resumed abandoned discarded awaiting_merge merge_blocked
        human_gated worktree_lost phase_timeout :
      WorkflowStage

pub data StageClass : Type 0 where
  active awaiting_merge retriable resumable terminal human_gated : StageClass

-- The text of each literal.
unfoldable pub stage_name : WorkflowStage → String
stage_name starting = "starting"
stage_name resuming = "resuming"
stage_name classified = "classified"
stage_name branch_created = "branch_created"
stage_name plan_building = "plan_building"
stage_name plan_created = "plan_created"
stage_name plan_file_created = "planFile_created"
stage_name build_running = "build_running"
stage_name build_progress = "build_progress"
stage_name build_completed = "build_completed"
stage_name build_committing = "build_committing"
stage_name pr_creating = "pr_creating"
stage_name pr_created = "pr_created"
stage_name completed = "completed"
stage_name error = "error"
stage_name test_running = "test_running"
stage_name test_failed = "test_failed"
stage_name test_resolving = "test_resolving"
stage_name test_passed = "test_passed"
stage_name unverified = "unverified"
stage_name stack_incoherent = "stack_incoherent"
stage_name review_running = "review_running"
stage_name review_passed = "review_passed"
stage_name review_failed = "review_failed"
stage_name review_patching = "review_patching"
stage_name document_running = "document_running"
stage_name document_completed = "document_completed"
stage_name document_failed = "document_failed"
stage_name token_limit_recovery = "token_limit_recovery"
stage_name compaction_recovery = "compaction_recovery"
stage_name test_compaction_recovery = "test_compaction_recovery"
stage_name plan_validating = "plan_validating"
stage_name plan_validated = "plan_validated"
stage_name plan_resolving = "plan_resolving"
stage_name plan_resolved = "plan_resolved"
stage_name plan_validation_failed = "plan_validation_failed"
stage_name plan_aligning = "plan_aligning"
stage_name plan_aligned = "plan_aligned"
stage_name install_running = "install_running"
stage_name install_completed = "install_completed"
stage_name install_failed = "install_failed"
stage_name paused = "paused"
stage_name paused_auth = "paused_auth"
stage_name resumed = "resumed"
stage_name abandoned = "abandoned"
stage_name discarded = "discarded"
stage_name WorkflowStage.awaiting_merge = "awaiting_merge"
stage_name merge_blocked = "merge_blocked"
stage_name WorkflowStage.human_gated = "human_gated"
stage_name worktree_lost = "worktree_lost"
stage_name phase_timeout = "phase_timeout"

-- `classifyStage`, in the order of its `switch`.
unfoldable pub classify_stage : WorkflowStage → StageClass
classify_stage starting = active
classify_stage resuming = active
classify_stage build_running = active
classify_stage test_running = active
classify_stage review_running = active
classify_stage document_running = active
classify_stage install_running = active
classify_stage WorkflowStage.awaiting_merge = StageClass.awaiting_merge
classify_stage abandoned = retriable
classify_stage completed = terminal
classify_stage discarded = terminal
classify_stage paused = terminal
classify_stage paused_auth = terminal
classify_stage merge_blocked = StageClass.human_gated
classify_stage WorkflowStage.human_gated = StageClass.human_gated
classify_stage review_failed = StageClass.human_gated
classify_stage worktree_lost = StageClass.human_gated
classify_stage classified = resumable
classify_stage branch_created = resumable
classify_stage plan_building = resumable
classify_stage plan_created = resumable
classify_stage plan_file_created = resumable
classify_stage build_progress = resumable
classify_stage build_completed = resumable
classify_stage build_committing = resumable
classify_stage pr_creating = resumable
classify_stage pr_created = resumable
classify_stage error = resumable
classify_stage test_failed = resumable
classify_stage test_resolving = resumable
classify_stage test_passed = resumable
classify_stage unverified = resumable
classify_stage stack_incoherent = resumable
classify_stage review_passed = resumable
classify_stage review_patching = resumable
classify_stage document_completed = resumable
classify_stage document_failed = resumable
classify_stage token_limit_recovery = resumable
classify_stage compaction_recovery = resumable
classify_stage test_compaction_recovery = resumable
classify_stage plan_validating = resumable
classify_stage plan_validated = resumable
classify_stage plan_resolving = resumable
classify_stage plan_resolved = resumable
classify_stage plan_validation_failed = resumable
classify_stage plan_aligning = resumable
classify_stage plan_aligned = resumable
classify_stage install_completed = resumable
classify_stage install_failed = resumable
classify_stage resumed = resumable
classify_stage phase_timeout = resumable

abbrev pub all_stages : List WorkflowStage
all_stages =
    starting ∷ resuming ∷ classified ∷ branch_created ∷ plan_building ∷ plan_created
    ∷ plan_file_created ∷ build_running ∷ build_progress ∷ build_completed ∷ build_committing
    ∷ pr_creating ∷ pr_created ∷ completed ∷ error ∷ test_running ∷ test_failed ∷ test_resolving
    ∷ test_passed ∷ unverified ∷ stack_incoherent ∷ review_running ∷ review_passed ∷ review_failed
    ∷ review_patching ∷ document_running ∷ document_completed ∷ document_failed
    ∷ token_limit_recovery ∷ compaction_recovery ∷ test_compaction_recovery ∷ plan_validating
    ∷ plan_validated ∷ plan_resolving ∷ plan_resolved ∷ plan_validation_failed ∷ plan_aligning
    ∷ plan_aligned ∷ install_running ∷ install_completed ∷ install_failed ∷ paused ∷ paused_auth
    ∷ resumed ∷ abandoned ∷ discarded ∷ WorkflowStage.awaiting_merge ∷ merge_blocked
    ∷ WorkflowStage.human_gated ∷ worktree_lost ∷ phase_timeout ∷ []

-- The literal that a text spells, if it spells one: the cast `stage as WorkflowStage`.
unfoldable pub stage_of : String → Option WorkflowStage
unfolding stage_name
stage_of s = find (λ w. stage_name w == s) all_stages

-- The `default` branch of `classifyStage`, which a cast text that is no literal reaches.
abbrev pub classify_cast : Option WorkflowStage → StageClass
classify_cast none = resumable
classify_cast (some w) = classify_stage w

-- `classifyStageString`
unfoldable pub classify_stage_string : String → StageClass
unfolding classify_stage stage_of
classify_stage_string s =
    if ends_with s "_running"
    then active
    else if ends_with s "_completed"
    then resumable
    else classify_cast (stage_of s)

abbrev pub is_active : StageClass → Bool
is_active active = true
is_active _ = false

abbrev pub is_terminal : StageClass → Bool
is_terminal terminal = true
is_terminal _ = false

abbrev pub is_retriable : StageClass → Bool
is_retriable retriable = true
is_retriable _ = false
