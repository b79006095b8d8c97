-- ===== src/Tests/RemoteRuns.antt =====
-- adws/core/remoteReconcile.ts and adws/vcs/worktreeProbe.ts.
use ai_dev_workflow.Prelude.{
  ◌≡◌, refl, ◌⊎◌, true, false, none, some, ℕ, zero, suc, ◌<◌, String, ◌==◌, text_eq,
}
use ai_dev_workflow.State.{no_fields, Store}
use ai_dev_workflow.Reconcile.{
  RemoteRead, pr_open, pr_merged, derive_stage_from_remote, derive_stage_from_remote_sound,
  state_fallback, IsConfirmed,
}
use ai_dev_workflow.Worktree.{
  healthy, decide_worktree_reuse, ProbeInput, ProbeDeps, probe_worktree, IsReusable,
  decide-probe_sound,
}

abbrev store : Store
store id = some (record no_fields { branch_name = some "feat"; workflow_stage = some "abandoned" })

abbrev merged : RemoteRead
merged = record { branch_exists = true; pr = some pr_merged }

-- The first read is stale; the second and the third agree.
abbrev lagging : ℕ → RemoteRead
lagging zero = record { branch_exists = true; pr = some pr_open }
lagging (suc n) = merged

lagging_settles : derive_stage_from_remote store lagging "a1" ≡ "completed"
unfolding derive_stage_from_remote
lagging_settles = refl

derive_stage_from_remote_sound_example :
    (derive_stage_from_remote store lagging "a1" ≡ state_fallback (store "a1"))
    ⊎ ((k : ℕ) × (k < 4) × IsConfirmed lagging k (derive_stage_from_remote store lagging "a1"))
derive_stage_from_remote_sound_example = derive_stage_from_remote_sound store lagging "a1"

abbrev input : ProbeInput
input = record {
  worktree_path = "w";
  expected_branch = "feat";
  recorded_pid = none;
  recorded_pid_started_at = none;
}

-- A healthy worktree with an index lock that nobody holds.
abbrev deps : ProbeDeps
deps = record {
  exists_in = λ dir entry. entry == "index.lock";
  resolve_git_dir = λ path. some "g";
  current_branch = λ path. some "feat";
  worktree_registration = λ path. healthy;
  is_process_live = λ pid started. false;
}

decide-probe_sound_example :
    (git_dir : String) × (deps.resolve_git_dir "w" ≡ some git_dir) × IsReusable input deps git_dir
unfolding decide_worktree_reuse probe_worktree
decide-probe_sound_example = decide-probe_sound input deps refl
