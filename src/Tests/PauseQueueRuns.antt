-- ===== src/Tests/PauseQueueRuns.antt =====
-- adws/core/pauseQueue.ts and adws/triggers/pauseQueue*.ts: a queue of two entries.
use ai_dev_workflow.Prelude.{
  ◌≡◌, refl, inl, inr, Bool, true, false, none, some, List, [], ◌∷◌, String, number_eq, text_eq, In,
  leb, split, eq_ignoring_case,
}
use ai_dev_workflow.State.{no_fields}
use ai_dev_workflow.Process.{is_process_live}
use ai_dev_workflow.SpawnGate.{absent, acquire_issue_spawn_lock}
use ai_dev_workflow.PauseQueue.{
  RepoIdentity, PausedWorkflow, ScanningCron, same_repo_identity, is_owned_by_scanning_cron,
  parse_entry_target_repo, parse_target_repo_args, flag_value, repo_of_name, Dates,
  ProbeClassification, ProbeOutcome, clear, failed, decide_pause_queue_action, is_before_reset,
  parse_resets_at, refresh_action, strike_action, append_to_pause_queue, remove_from_pause_queue,
  update_pause_queue_entry, QueueWorld, probed, spawned, resumed_comment, done, exited, ScanEnv,
  struck, resume_in, drop_entry, spawn_resumed, evict_entry, resume_workflow,
  execute_pause_queue_action, execute_all, scan_pause_queue,
}
use ai_dev_workflow.PauseQueue.Uniqueness.{has_id, Distinct, scan-Distinct}
use ai_dev_workflow.PauseQueue.Decisions.{scan_untouched}
use ai_dev_workflow.PauseQueue.Resume.{malformed_entry_ends_cron}

scanner : Unit {0}
unfolding decide_pause_queue_action is_before_reset parse_resets_at refresh_action strike_action
    is_owned_by_scanning_cron parse_entry_target_repo parse_target_repo_args flag_value repo_of_name
    split same_repo_identity eq_ignoring_case append_to_pause_queue remove_from_pause_queue
    update_pause_queue_entry resume_in drop_entry spawn_resumed evict_entry resume_workflow
    execute_pause_queue_action execute_all scan_pause_queue acquire_issue_spawn_lock is_process_live
    has_id
scanner = tt

abbrev acme : RepoIdentity
acme = record { owner = "acme"; repo = "app" }

abbrev acme_upper : RepoIdentity
acme_upper = record { owner = "Acme"; repo = "App" }

abbrev paused : String → List String → PausedWorkflow
paused id args = record {
  adw_id = id;
  issue_number = 7;
  orchestrator_script = "adws/adwSdlc.tsx";
  last_probe_at = none;
  probe_failures = some 1;
  worktree_path = "w";
  extra_args = some args;
  resets_at = none;
  rate_limit_type = none;
}

abbrev first : PausedWorkflow
first = paused "a1" ("--target-repo" ∷ "acme/app" ∷ [])

abbrev waiting : PausedWorkflow
waiting = record (paused "a2" ("--target-repo" ∷ "acme/app" ∷ [])) { resets_at = some "later" }

abbrev malformed_entry : PausedWorkflow
malformed_entry = paused "a3" ("--target-repo" ∷ [])

abbrev dates : Dates
dates = record { date_parse = λ s. some 500; to_iso_string = λ n. "iso" }

abbrev probe : ProbeOutcome → ProbeClassification
probe verdict = record { verdict = verdict; resets_at = none; rate_limit_type = none }

abbrev cron : ScanningCron
cron = record { repo_id = acme_upper; self_host = true }

abbrev env : Bool → ScanEnv
env survives = record {
  dates = dates;
  host = record { kill_0 = λ pid. leb 10 pid; start_time = λ pid. some "boot" };
  own_pid = 10;
  local_repo = some acme;
  worktree_exists = λ path. true;
  store = λ id. some (record no_fields { adw_id = some id });
  starts = λ entry. true;
  survives = λ entry. survives;
  now = 100;
  max_probe_failures = 3;
  probe_interval_cycles = 2;
}

abbrev before : List PausedWorkflow → QueueWorld
before queue = record { queue = queue; locks = λ r n. absent; trace = [] }

clear_resumes : scan_pause_queue (env true) cron (probe clear) 4 (before (first ∷ waiting ∷ [])) ≡ (
  done,
  record (before (waiting ∷ [])) {
    locks =
        (scan_pause_queue (env true) cron (probe clear) 4 (before (first ∷ waiting ∷ []))).1.locks;
    trace = resumed_comment "a1" ∷ spawned "a1" ∷ probed ∷ [];
  },
)
unfolding scanner
clear_resumes = refl

crash_requeues :
    (scan_pause_queue (env false) cron (probe clear) 4 (before (first ∷ waiting ∷ []))).1.queue
    ≡ waiting ∷ struck (env false) first ∷ []
unfolding scanner
crash_requeues = refl

third_strike_evicts :
    (scan_pause_queue
      (env true)
      cron
      (probe failed)
      4
      (before (record first { probe_failures = some 2 } ∷ waiting ∷ []))).1.queue
    ≡ waiting ∷ []
unfolding scanner
third_strike_evicts = refl

-- The eviction of an entry with a malformed target ends the cron, but the entry is off the queue.
malformed_eviction_exits :
    scan_pause_queue
      (env true)
      cron
      (probe failed)
      4
      (before (record malformed_entry { probe_failures = some 2 } ∷ waiting ∷ []))
    ≡ (exited, record (before (waiting ∷ [])) { trace = probed ∷ [] })
unfolding scanner
malformed_eviction_exits = refl

distinct : Distinct (first ∷ waiting ∷ [])
unfolding scanner
distinct = (refl, (refl, tt))

scan-Distinct_example :
    Distinct
      (scan_pause_queue (env false) cron (probe clear) 4 (before (first ∷ waiting ∷ []))).1.queue
scan-Distinct_example =
    scan-Distinct (env false) cron (probe clear) 4 (before (first ∷ waiting ∷ [])) distinct

scan_untouched_example :
    In waiting
      (scan_pause_queue (env true) cron (probe clear) 4 (before (first ∷ waiting ∷ []))).1.queue
unfolding scanner
scan_untouched_example =
    scan_untouched (env true) waiting cron (probe clear) 4 (before (first ∷ waiting ∷ [])) distinct
      (inr (inl refl)) (inr refl)

malformed_entry_ends_cron_example :
    scan_pause_queue (env true) cron (probe clear) 4 (before (malformed_entry ∷ first ∷ []))
    ≡ (exited, record (before (malformed_entry ∷ first ∷ [])) { trace = probed ∷ [] })
unfolding scanner
malformed_entry_ends_cron_example =
    malformed_entry_ends_cron (env true) cron (probe clear) 4 malformed_entry (first ∷ [])
      (λ r n. absent) [] refl refl refl refl refl
