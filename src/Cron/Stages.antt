-- ===== src/Cron/Stages.antt =====
-- adws/triggers/cronStageResolver.ts: the stage of an issue's workflow, its last activity, and whether an
-- active stage has lost its owner. The adw-id that the comments name is an argument.
use ai_dev_workflow.Prelude.{
  Bool, false, not, ◌&&◌, Option, none, some, List, [], ◌∷◌, ℕ, String, ◌==◌, text_eq,
  if◌then◌else◌, ltb, ends_with, get_or,
}
use ai_dev_workflow.Stage.{StageClass, active, resumable, is_active, classify_stage_string}
use ai_dev_workflow.State.{PhaseState, AgentState, Store, read_top_level_state}
use ai_dev_workflow.Process.{is_recorded_owner_live}

pub record StageResolution : Type 0 where
  pub stage : Option String
  pub adw_id : Option String
  pub last_activity_ms : Option ℕ
  pub owner_dead : Bool

-- `isActiveStage`
abbrev pub by_class : StageClass → String → Bool
by_class active stage = not (stage == "resuming")
by_class resumable stage = ends_with stage "_completed"
by_class _ stage = false

unfoldable pub is_active_stage : String → Bool
is_active_stage stage = by_class (classify_stage_string stage) stage

module _ (date_parse : String → Option ℕ) where
  abbrev pub later_of : Option ℕ → ℕ → ℕ
  later_of none latest = latest
  later_of (some t) latest = if ltb latest t then t else latest

  -- An absent and an empty text are skipped, and so is one that does not parse.
  unfoldable pub later : Option String → ℕ → ℕ
  later none latest = latest
  later (some s) latest = if s == "" then latest else later_of (date_parse s) latest

  unfoldable pub latest_of : List (String × PhaseState) → ℕ → ℕ
  unfolding later
  latest_of [] latest = latest
  latest_of ((name, phase) ∷ phases) latest =
      latest_of phases (later phase.completed_at (later phase.started_at latest))

  -- `getLastActivityFromState`
  unfoldable pub get_last_activity_from_state : AgentState → Option ℕ
  unfolding latest_of
  get_last_activity_from_state state =
      let latest = latest_of (get_or state.phases []) 0 in
      if ltb 0 latest then some latest else none

  abbrev pub active_and_orphaned : (ℕ → String → Bool) → AgentState → Option String → Bool
  active_and_orphaned is_live state none = false
  active_and_orphaned is_live state (some stage) =
      is_active (classify_stage_string stage)
      && not (is_recorded_owner_live is_live state.pid state.pid_started_at)

  abbrev pub resolution_of : (ℕ → String → Bool) → String → Option AgentState → StageResolution
  resolution_of is_live adw_id none = record {
    stage = none;
    adw_id = some adw_id;
    last_activity_ms = none;
    owner_dead = false;
  }
  resolution_of is_live adw_id (some state) = record {
    stage = state.workflow_stage;
    adw_id = some adw_id;
    last_activity_ms = get_last_activity_from_state state;
    owner_dead = active_and_orphaned is_live state state.workflow_stage;
  }

  -- `resolveIssueWorkflowStage`
  unfoldable pub resolve_issue_workflow_stage :
      Option String → Store → (ℕ → String → Bool) → StageResolution
  unfolding get_last_activity_from_state
  resolve_issue_workflow_stage none store is_live = record {
    stage = none;
    adw_id = none;
    last_activity_ms = none;
    owner_dead = false;
  }
  resolve_issue_workflow_stage (some adw_id) store is_live =
      resolution_of is_live adw_id (read_top_level_state store adw_id)
