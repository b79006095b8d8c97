-- ===== src/Worktree/Gate.antt =====
-- When the gate lets a worktree be used again.
use ai_dev_workflow.Prelude.{
  tests, ◌≡◌, ◌↔◌, ◌≢◌, inl, inr, true, false, some, String, text_eq, Option-cases, arith,
}
use ai_dev_workflow.Process.{is_recorded_owner_live}
use ai_dev_workflow.Worktree.Defs.{
  healthy, live_held, no_op, WorktreeProbe, reuse, decide_worktree_reuse, ProbeInput, ProbeDeps,
  probe_worktree,
}

-- Reuse wants every signal healthy, and every healthy probe is reused; an orphaned index lock is no fault.
pub decide_worktree_reuse_iff :
    (probe : WorktreeProbe)
    → (decide_worktree_reuse probe ≡ reuse) ↔ (
        (probe.live_owner ≡ false)
        × (probe.index_lock ≢ live_held)
        × (probe.interrupted_op ≡ no_op)
        × (probe.head_on_expected_branch ≡ true)
        × (probe.registration ≡ healthy))
unfolding decide_worktree_reuse
decide_worktree_reuse_iff probe = ground arith

-- What the probe and the gate together ask of a worktree.
pub record IsReusable (input : ProbeInput) (deps : ProbeDeps) (git_dir : String) : Type 0 where
  pub dead :
      is_recorded_owner_live deps.is_process_live input.recorded_pid input.recorded_pid_started_at
      ≡ false
  pub no_rebase_merge : deps.exists_in git_dir "rebase-merge" ≡ false
  pub no_rebase_apply : deps.exists_in git_dir "rebase-apply" ≡ false
  pub no_merge : deps.exists_in git_dir "MERGE_HEAD" ≡ false
  pub no_cherry_pick : deps.exists_in git_dir "CHERRY_PICK_HEAD" ≡ false
  pub on_branch : deps.current_branch input.worktree_path ≡ some input.expected_branch
  pub registered : deps.worktree_registration input.worktree_path ≡ healthy

-- A probe whose verdict is reuse has found a git directory, no live recorded owner, no
-- interrupted operation, the expected branch, and a healthy registration.
pub decide-probe_sound :
    (input : ProbeInput) (deps : ProbeDeps)
    → decide_worktree_reuse (probe_worktree input deps) ≡ reuse
    → (git_dir : String) × (deps.resolve_git_dir input.worktree_path ≡ some git_dir)
      × IsReusable input deps git_dir
unfolding decide_worktree_reuse probe_worktree
decide-probe_sound input deps h = elim (Option-cases (deps.resolve_git_dir input.worktree_path)) [
  | inl no_dir ↦ absurd (ground arith)
  | inr (git_dir, found) ↦ (git_dir, found, grind tests)
]

-- A worktree with a git directory and all of these signals healthy is reused.
pub decide-probe_complete :
    (input : ProbeInput) (deps : ProbeDeps) (git_dir : String)
    → deps.resolve_git_dir input.worktree_path ≡ some git_dir
    → IsReusable input deps git_dir
    → decide_worktree_reuse (probe_worktree input deps) ≡ reuse
unfolding decide_worktree_reuse probe_worktree
decide-probe_complete input deps git_dir found ok = grind tests
