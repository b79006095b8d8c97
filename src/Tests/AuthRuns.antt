-- ===== src/Tests/AuthRuns.antt =====
-- adws/triggers/scanAuthQueue.ts and the gate of trigger_cron.ts: an orchestrator that is stopped, and a lock that is
-- kept.
use ai_dev_workflow.Prelude.{
  ◌≡◌, refl, inr, inl, true, false, none, some, [], ◌∷◌, ◌==◌, text_eq, number_eq, leb,
  if◌then◌else◌, In,
}
use ai_dev_workflow.Stage.{classify_stage_string}
use ai_dev_workflow.State.{AgentState, Store, no_fields, write_top_level_state}
use ai_dev_workflow.Process.{Host, is_process_live, is_recorded_owner_live}
use ai_dev_workflow.SpawnGate.{absent, held, record_for, is_held_live, acquire_issue_spawn_lock}
use ai_dev_workflow.Worktree.{missing_probe, decide_worktree_reuse}
use ai_dev_workflow.Takeover.{
  ok, TakeoverDeps, defer_live_holder, evaluate_candidate, acquire_or_reclaim,
  reclaim_own_leaked_lock, is_own_leaked_lock, decide_holding_lock, decide_for_state,
  recover_active_stage, recover_starting_stage, recover_phase_timeout,
  recover_via_resume_in_place_or_reset,
}
use ai_dev_workflow.Auth.{
  AuthGateRecord, write_auth_gate, should_send_detection_slack, mark_gate_slack_notified,
  pause_live_orchestrators, ScanWorld, ScanEnv, world_of, visit, scan_auth_queue,
}
use ai_dev_workflow.Auth.Pause.{stage_of_file, pause_live_orchestrators_lem}
use ai_dev_workflow.Auth.Leak.{scan_leaks_lock}

handler : Unit {0}
unfolding scan_auth_queue evaluate_candidate acquire_or_reclaim reclaim_own_leaked_lock
    is_own_leaked_lock decide_holding_lock decide_for_state recover_active_stage
    recover_starting_stage recover_phase_timeout recover_via_resume_in_place_or_reset
    acquire_issue_spawn_lock is_process_live is_recorded_owner_live classify_stage_string
    write_top_level_state decide_worktree_reuse
handler = tt

-- Process 10 is the cron, process 20 an orchestrator; both are alive.
abbrev host : Host
host = record { kill_0 = λ pid. leb pid 20; start_time = λ pid. some "boot" }

abbrev running : AgentState
running = record no_fields {
  pid = some 20;
  pid_started_at = some "boot";
  workflow_stage = some "build_running";
}

abbrev waiting : AgentState
waiting = record no_fields { issue_number = some 7; workflow_stage = some "paused_auth" }

abbrev store_with : AgentState → Store
store_with state id = if id == "a1" then some state else none

abbrev deps : TakeoverDeps
deps = record {
  host = host;
  own_pid = 10;
  resolve_adw_id = none;
  worktree_path_for = λ branch. branch;
  probe_worktree = λ path branch pid started. ok missing_probe;
  derive_stage_from_remote = λ store adw_id. ok "branch_created";
  fails = λ e. false;
  write_fails = false;
}

abbrev env : ScanEnv
env = record { takeover = λ n. deps; write_fails = λ id. false; spawn_fails = λ id. false }

abbrev named : ScanEnv
named = record env { takeover = λ n. record deps { resolve_adw_id = some "a1" } }

abbrev before : ScanWorld
before = record { locks = λ n. absent; store = store_with waiting; effects = []; spawned = [] }

abbrev gate : AuthGateRecord
gate = record {
  first_detected_at = 5;
  last_detected_at = 5;
  last_slack_notified_at = none;
  last_detected_by = record { adw_id = none; issue_number = none; agent_name = "build" };
}

notified_once :
    (should_send_detection_slack gate 9 ≡ true)
    × (mark_gate_slack_notified 9 (some gate)
        ≡ some (record gate { last_slack_notified_at = some 9 }))
    × ((write_auth_gate 8 gate.last_detected_by (some gate)).first_detected_at ≡ 5)
unfolding should_send_detection_slack mark_gate_slack_notified write_auth_gate
notified_once = (refl, refl, refl)

gate_stops_scan : scan_auth_queue env (some gate) ("a1" ∷ []) before ≡ before
unfolding scan_auth_queue
gate_stops_scan = refl

resumes_named :
    ((scan_auth_queue named none ("a1" ∷ []) before).spawned
      ≡ record { script = "adws/adwSdlc.tsx"; issue_number = 7; adw_id = "a1" } ∷ [])
    × ((scan_auth_queue named none ("a1" ∷ []) before).locks 7 ≡ absent)
unfolding handler
resumes_named = (refl, refl)

pause_live_orchestrators_lem_example :
    In 20 (pause_live_orchestrators host (λ id. false) ("b" ∷ "a1" ∷ []) (store_with running, [])).1
    × (stage_of_file (
          (pause_live_orchestrators host (λ id. false) ("b" ∷ "a1" ∷ []) (store_with running, [])).0
            "a1")
        ≡ some "paused_auth")
unfolding is_process_live
pause_live_orchestrators_lem_example =
    pause_live_orchestrators_lem host (λ id. false) ("b" ∷ "a1" ∷ []) "a1" 20
      (store_with running, []) (inr (inl refl)) refl refl

scan_leaks_lock_example :
    ((visit env "a1" before).spawned ≡ [])
    × ((visit env "a1" before).locks 7 ≡ held (record_for host 10))
    × (evaluate_candidate deps (world_of 7 (visit env "a1" before))
        ≡ (ok (defer_live_holder 10), world_of 7 (visit env "a1" before)))
unfolding is_held_live
scan_leaks_lock_example =
    scan_leaks_lock env "a1" waiting 7 before refl refl refl refl refl refl refl refl (λ e. cc)
