-- ===== src/Worktree/Defs.antt =====
-- The probe of a worktree and the decision on it. Git and the file system are `ProbeDeps`.
use ai_dev_workflow.Prelude.{
  Bool, true, false, not, Option, none, some, ℕ, String, text_eq, if◌then◌else◌, is_some_of,
}
use ai_dev_workflow.Process.{is_recorded_owner_live}

pub data Registration : Type 0 where
  healthy locked prunable missing : Registration

pub data IndexLock : Type 0 where
  no_lock orphaned live_held : IndexLock

pub data InterruptedOp : Type 0 where
  no_op rebase merge cherry_pick : InterruptedOp

pub record WorktreeProbe : Type 0 where
  pub registration : Registration
  pub index_lock : IndexLock
  pub interrupted_op : InterruptedOp
  pub head_on_expected_branch : Bool
  pub live_owner : Bool

pub data WorktreeResetReason : Type 0 where
  live_owner index_lock_live_held interrupted_rebase interrupted_merge : WorktreeResetReason
  interrupted_cherry_pick wrong_head worktree_locked worktree_prunable : WorktreeResetReason
  worktree_missing : WorktreeResetReason

pub data WorktreeReuseDecision : Type 0 where
  reuse : WorktreeReuseDecision
  reset : WorktreeResetReason → WorktreeReuseDecision

-- The guard clauses of `decideWorktreeReuse` that come after the check of HEAD.
abbrev by_registration : Registration → WorktreeReuseDecision
by_registration locked = reset worktree_locked
by_registration prunable = reset worktree_prunable
by_registration missing = reset worktree_missing
by_registration healthy = reuse

abbrev by_interrupted_op : InterruptedOp → WorktreeReuseDecision → WorktreeReuseDecision
by_interrupted_op rebase rest = reset interrupted_rebase
by_interrupted_op merge rest = reset interrupted_merge
by_interrupted_op cherry_pick rest = reset interrupted_cherry_pick
by_interrupted_op no_op rest = rest

abbrev is_live_held : IndexLock → Bool
is_live_held live_held = true
is_live_held _ = false

unfoldable pub decide_worktree_reuse : WorktreeProbe → WorktreeReuseDecision
decide_worktree_reuse probe =
    if probe.live_owner
    then reset WorktreeResetReason.live_owner
    else if is_live_held probe.index_lock
    then reset index_lock_live_held
    else by_interrupted_op probe.interrupted_op (
        if not probe.head_on_expected_branch
        then reset wrong_head
        else by_registration probe.registration)

pub record ProbeInput : Type 0 where
  pub worktree_path : String
  pub expected_branch : String
  pub recorded_pid : Option ℕ
  pub recorded_pid_started_at : Option String

-- `exists_in dir entry` is `existsSync(path.join(dir, entry))`.
pub record ProbeDeps : Type 0 where
  pub exists_in : String → String → Bool
  pub resolve_git_dir : String → Option String
  pub current_branch : String → Option String
  pub worktree_registration : String → Registration
  pub is_process_live : ℕ → String → Bool

unfoldable pub detect_interrupted_op : String → ProbeDeps → InterruptedOp
detect_interrupted_op git_dir deps =
    if deps.exists_in git_dir "rebase-merge"
    then rebase
    else if deps.exists_in git_dir "rebase-apply"
    then rebase
    else if deps.exists_in git_dir "MERGE_HEAD"
    then merge
    else if deps.exists_in git_dir "CHERRY_PICK_HEAD"
    then cherry_pick
    else no_op

abbrev pub missing_probe : WorktreeProbe
missing_probe = record {
  registration = missing;
  index_lock = no_lock;
  interrupted_op = no_op;
  head_on_expected_branch = false;
  live_owner = false;
}

-- `probeWorktree`; `resolveOwnerLiveness` is the test of `isRecordedOwnerLive`.
unfoldable pub probe_worktree : ProbeInput → ProbeDeps → WorktreeProbe
unfolding detect_interrupted_op is_recorded_owner_live
probe_worktree input deps =
    let owner_live =
      is_recorded_owner_live deps.is_process_live input.recorded_pid
        input.recorded_pid_started_at in
    elim (deps.resolve_git_dir input.worktree_path) [
      | none ↦ missing_probe
      | some git_dir ↦ record {
        registration = deps.worktree_registration input.worktree_path;
        index_lock =
            if deps.exists_in git_dir "index.lock"
            then if owner_live then live_held else orphaned
            else no_lock;
        interrupted_op = detect_interrupted_op git_dir deps;
        head_on_expected_branch =
            is_some_of (deps.current_branch input.worktree_path) input.expected_branch;
        live_owner = owner_live;
      }
    ]
