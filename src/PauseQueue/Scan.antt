-- ===== src/PauseQueue/Scan.antt =====
-- `scanPauseQueue` and `resumeWorkflow`: one tick of one cron over the whole queue.
use ai_dev_workflow.Prelude.{
  Bool, true, false, ◌&&◌, not, Option, none, some, List, [], ◌∷◌, ℕ, ◌+◌, ◌%◌, String, ◌==◌,
  text_eq, number_eq, if◌then◌else◌, get_or, is_some_of,
}
use ai_dev_workflow.State.{AgentState, Store, read_top_level_state}
use ai_dev_workflow.Process.{Host}
use ai_dev_workflow.SpawnGate.{LockFile, acquire_issue_spawn_lock, release_issue_spawn_lock}
use ai_dev_workflow.PauseQueue.Entry.{
  RepoIdentity, PausedWorkflow, ParsedTarget, no_target, exits, target, parse_target_repo_args,
  ScanningCron, is_owned_by_scanning_cron,
}
use ai_dev_workflow.PauseQueue.Queue.{
  Updates, append_to_pause_queue, remove_from_pause_queue, update_pause_queue_entry,
}
use ai_dev_workflow.PauseQueue.Decider.{
  Dates, ProbeClassification, PauseQueueAction, skip_not_owner, skip_before_reset, resume,
  refresh_reset, count_strike, evict, is_before_reset, decide_pause_queue_action,
}

pub data QueueEffect : Type 0 where
  probed : QueueEffect
  spawned resumed_comment error_comment : String → QueueEffect

-- The queue file, the lock file of each issue, and what was done, newest first.
pub record QueueWorld : Type 0 where
  pub queue : List PausedWorkflow
  pub locks : RepoIdentity → ℕ → LockFile
  pub trace : List QueueEffect

-- A text that is present and not empty.
abbrev pub given : Option String → Option String
given none = none
given (some s) = if s == "" then none else some s

-- `process.exit(1)` ends the cron; `threw` is an exception that leaves the scan.
pub data Ending : Type 0 where
  done exited threw : Ending

-- The machine and the forge as the scan sees them. `starts` says that the child comes to exist, and `survives` that it is
-- still alive after the readiness window.
pub record ScanEnv : Type 0 where
  pub dates : Dates
  pub host : Host
  pub own_pid : ℕ
  pub local_repo : Option RepoIdentity
  pub worktree_exists : String → Bool
  pub store : Store
  pub starts : PausedWorkflow → Bool
  pub survives : PausedWorkflow → Bool
  pub now : ℕ
  pub max_probe_failures : ℕ
  pub probe_interval_cycles : ℕ

abbrev set_lock :
    (RepoIdentity → ℕ → LockFile) → RepoIdentity → ℕ → LockFile → RepoIdentity → ℕ → LockFile
set_lock locks r n file r' n' =
    if r'.owner == r.owner && r'.repo == r.repo && n' == n then file else locks r' n'

abbrev pub has_adw_id : Option AgentState → String → Bool
has_adw_id none adw_id = false
has_adw_id (some state) adw_id = is_some_of state.adw_id adw_id

abbrev pub no_updates : Updates
no_updates = record {
  last_probe_at = none;
  probe_failures = none;
  resets_at = none;
  rate_limit_type = none;
}

module _ (env : ScanEnv) where
  abbrev pub now_iso : String
  now_iso = env.dates.to_iso_string env.now

  -- What `requeueAfterFailedSpawn` appends: the same entry with one more strike.
  abbrev pub struck : PausedWorkflow → PausedWorkflow
  struck entry = record entry {
    probe_failures = some (get_or entry.probe_failures 0 + 1);
    last_probe_at = some now_iso;
  }

  -- The entry leaves the queue before the child exists, and comes back if the child does not survive.
  unfoldable pub spawn_resumed : PausedWorkflow → QueueWorld → Ending × QueueWorld
  spawn_resumed entry w =
      let removed = remove_from_pause_queue entry.adw_id w.queue in
      if env.survives entry
      then (
        done,
        record w {
          queue = removed;
          trace = resumed_comment entry.adw_id ∷ spawned entry.adw_id ∷ w.trace;
        },
      )
      else (
        done,
        record w {
          queue = append_to_pause_queue (struck entry) removed;
          trace = if env.starts entry then spawned entry.adw_id ∷ w.trace else w.trace;
        },
      )

  -- A paused workflow that cannot resume: dropped from the queue, with a comment.
  unfoldable pub drop_entry : PausedWorkflow → QueueWorld → Ending × QueueWorld
  drop_entry entry w = (
    done,
    record w {
      queue = remove_from_pause_queue entry.adw_id w.queue;
      trace = error_comment entry.adw_id ∷ w.trace;
    },
  )

  -- `resumeWorkflow` once the entry's repository is resolved.
  unfoldable pub resume_in : RepoIdentity → PausedWorkflow → QueueWorld → Ending × QueueWorld
  unfolding drop_entry spawn_resumed
  resume_in repo entry w =
      let n = entry.issue_number in
      let (acquired, taken) = acquire_issue_spawn_lock env.host env.own_pid (w.locks repo n) in
      let released = record w {
        locks = set_lock w.locks repo n (release_issue_spawn_lock taken);
      } in
      if not (env.worktree_exists entry.worktree_path)
      then drop_entry entry w
      else if not acquired
      then (done, w)
      else if has_adw_id (read_top_level_state env.store entry.adw_id) entry.adw_id
      then spawn_resumed entry released
      else drop_entry entry released

  abbrev pub resume_local : Option RepoIdentity → PausedWorkflow → QueueWorld → Ending × QueueWorld
  resume_local none entry w = (threw, w)
  resume_local (some r) entry w = resume_in r entry w

  abbrev pub resume_for : ParsedTarget → PausedWorkflow → QueueWorld → Ending × QueueWorld
  resume_for no_target entry w = resume_local env.local_repo entry w
  resume_for exits entry w = (exited, w)
  resume_for (target r) entry w = resume_in r entry w

  -- `resumeWorkflow`; `resolveEntryRepoInfo` reads the entry's arguments by `parseTargetRepoArgs`.
  unfoldable pub resume_workflow : PausedWorkflow → QueueWorld → Ending × QueueWorld
  resume_workflow entry w = resume_for (parse_target_repo_args (get_or entry.extra_args [])) entry w

  abbrev pub evict_for : ParsedTarget → PausedWorkflow → QueueWorld → Ending × QueueWorld
  evict_for no_target entry w = drop_entry entry w
  evict_for exits entry w =
      (exited, record w { queue = remove_from_pause_queue entry.adw_id w.queue })
  evict_for (target r) entry w = drop_entry entry w

  -- The comment of an eviction reads the entry's arguments by `parseTargetRepoArgs`, as a resume does, but
  -- after the entry has left the queue.
  unfoldable pub evict_entry : PausedWorkflow → QueueWorld → Ending × QueueWorld
  unfolding drop_entry
  evict_entry entry w = evict_for (parse_target_repo_args (get_or entry.extra_args [])) entry w

  unfoldable pub execute_pause_queue_action :
      PausedWorkflow → PauseQueueAction → QueueWorld → Ending × QueueWorld
  execute_pause_queue_action entry skip_not_owner w = (done, w)
  execute_pause_queue_action entry (skip_before_reset resets_at) w = (done, w)
  execute_pause_queue_action entry resume w = resume_workflow entry w
  execute_pause_queue_action entry (refresh_reset resets_at rate_limit_type) w = (
    done,
    record w {
      queue =
          update_pause_queue_entry entry.adw_id
            (record no_updates {
              last_probe_at = some now_iso;
              resets_at = given resets_at;
              rate_limit_type = given rate_limit_type;
            })
            w.queue;
    },
  )
  execute_pause_queue_action entry (count_strike failures verdict) w = (
    done,
    record w {
      queue =
          update_pause_queue_entry entry.adw_id
            (record no_updates { last_probe_at = some now_iso; probe_failures = some failures })
            w.queue;
    },
  )
  execute_pause_queue_action entry (evict failures verdict) w = evict_entry entry w

  module _ (cron : ScanningCron) (classification : ProbeClassification) where
    abbrev pub action_for : PausedWorkflow → PauseQueueAction
    action_for entry =
        decide_pause_queue_action env.dates entry classification env.now env.max_probe_failures cron

    -- The loop over the entries that the scan read at its start.
    unfoldable pub execute_all : List PausedWorkflow → QueueWorld → Ending × QueueWorld
    execute_all [] w = (done, w)
    execute_all (entry ∷ entries) w =
        let (ending, w') = execute_pause_queue_action entry (action_for entry) w in
        elim ending [ done ↦ execute_all entries w' | exited ↦ (exited, w') | threw ↦ (threw, w') ]

    abbrev pub is_owned_and_due : PausedWorkflow → Bool
    is_owned_and_due entry =
        is_owned_by_scanning_cron entry cron && not (is_before_reset env.dates entry env.now)

    abbrev pub nothing_due : List PausedWorkflow → Bool
    nothing_due [] = true
    nothing_due (entry ∷ entries) = not (is_owned_and_due entry) && nothing_due entries

    -- The probe runs at most once, and not at all where no entry of this cron is due.
    unfoldable pub scan_pause_queue : ℕ → QueueWorld → Ending × QueueWorld
    scan_pause_queue cycle_count w =
        if cycle_count % env.probe_interval_cycles == 0
        then if nothing_due w.queue
          then (done, w)
          else execute_all w.queue (record w { trace = probed ∷ w.trace })
        else (done, w)
