-- ===== src/Build/Gate.antt =====
-- adws/phases/progressGate.ts: what a stopped build agent leads to.
use ai_dev_workflow.Prelude.{
  Bool, List, ℕ, String, ◌==◌, text_eq, if◌then◌else◌, any, leb, split, trim,
}

pub data AbortReason : Type 0 where
  no_progress backstop : AbortReason

pub data ProgressGateDecision : Type 0 where
  continue complete : ProgressGateDecision
  abort : AbortReason → ProgressGateDecision

pub record ProgressGateInput : Type 0 where
  pub head_tree_hash : String
  pub seen : List String
  pub checkpoint_count : ℕ
  pub max_checkpoints : ℕ
  pub completion_reported : Bool

-- `reportsBuildComplete`: some line of the output is the marker and nothing else.
unfoldable pub reports_build_complete : String → Bool
reports_build_complete output = any (λ line. trim line == "BUILD_COMPLETE") (split 10 output)

-- `seen.has(hash)`
abbrev pub has_seen : List String → String → Bool
has_seen seen hash = any (λ h. h == hash) seen

-- `evaluateProgressGate`
unfoldable pub evaluate_progress_gate : ProgressGateInput → ProgressGateDecision
evaluate_progress_gate input =
    if input.completion_reported
    then complete
    else if has_seen input.seen input.head_tree_hash
    then abort no_progress
    else if leb input.max_checkpoints input.checkpoint_count
    then abort backstop
    else continue
