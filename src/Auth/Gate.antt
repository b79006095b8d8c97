-- ===== src/Auth/Gate.antt =====
-- The gate file, and the branch of `handleAuthGateTick` that stops the live
-- orchestrators. Times are milliseconds. The host's name in the record is left out.
use ai_dev_workflow.Prelude.{
  Bool, true, ◌&&◌, Option, none, some, List, [], ◌∷◌, ℕ, ◌+◌, String, text_eq, if◌then◌else◌,
  get_or, leb,
}
use ai_dev_workflow.State.{
  AgentState, Store, no_fields, read_top_level_state, write_top_level_state,
}
use ai_dev_workflow.Process.{Host, is_process_live, is_truthy}

pub record Detection : Type 0 where
  pub adw_id : Option String
  pub issue_number : Option ℕ
  pub agent_name : String

pub record AuthGateRecord : Type 0 where
  pub first_detected_at : ℕ
  pub last_detected_at : ℕ
  pub last_slack_notified_at : Option ℕ
  pub last_detected_by : Detection

abbrev pub slack_detection_cooldown_ms : ℕ
slack_detection_cooldown_ms = 7200000

-- `writeAuthGate`: the first detection and the last notice are kept.
unfoldable pub write_auth_gate : ℕ → Detection → Option AuthGateRecord → AuthGateRecord
write_auth_gate now detection none = record {
  first_detected_at = now;
  last_detected_at = now;
  last_slack_notified_at = none;
  last_detected_by = detection;
}
write_auth_gate now detection (some existing) = record existing {
  last_detected_at = now;
  last_detected_by = detection;
}

-- `shouldSendDetectionSlack`
unfoldable pub should_send_detection_slack : AuthGateRecord → ℕ → Bool
should_send_detection_slack gate now = elim gate.last_slack_notified_at [
  | none ↦ true
  | some at ↦ leb (at + slack_detection_cooldown_ms) now
]

-- `markGateSlackNotified`
unfoldable pub mark_gate_slack_notified : ℕ → Option AuthGateRecord → Option AuthGateRecord
mark_gate_slack_notified now none = none
mark_gate_slack_notified now (some gate) = some (record gate { last_slack_notified_at = some now })

-- `pid !== undefined && pidStartedAt && isProcessLive(pid, pidStartedAt)`
abbrev pub live_owner : Host → AgentState → Option ℕ
live_owner host state = elim state.pid [
  | none ↦ none
  | some pid ↦
      if is_truthy state.pid_started_at && is_process_live host pid (get_or state.pid_started_at "")
      then some pid
      else none
]

abbrev pub owner_in : Host → Option AgentState → Option ℕ
owner_in host none = none
owner_in host (some state) = live_owner host state

abbrev pub paused_auth_patch : AgentState
paused_auth_patch = record no_fields { workflow_stage = some "paused_auth" }

module _ (host : Host) (write_fails : String → Bool) where
  -- `markStatePausedAuthForLiveOrchestrator`: a write that fails is only logged.
  abbrev pub mark_paused_auth : String → Store → Store
  mark_paused_auth adw_id store =
      if write_fails adw_id then store else write_top_level_state store adw_id paused_auth_patch

  abbrev pub pause_owner : String → Option ℕ → Store × List ℕ → Store × List ℕ
  pause_owner adw_id none w = w
  pause_owner adw_id (some pid) (store, killed) = (mark_paused_auth adw_id store, pid ∷ killed)

  -- The loop over the directories of agents: the state files, and the processes that were sent SIGTERM.
  unfoldable pub pause_live_orchestrators : List String → Store × List ℕ → Store × List ℕ
  unfolding write_top_level_state is_process_live
  pause_live_orchestrators [] w = w
  pause_live_orchestrators (adw_id ∷ dirs) w =
      pause_live_orchestrators dirs
        (pause_owner adw_id (owner_in host (read_top_level_state w.0 adw_id)) w)
