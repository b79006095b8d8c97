-- ===== src/Phase/World.antt =====
-- What a phase runs in: the state files, the pause queue, the list of completed phases in the orchestrator's own state,
-- and the comments. Costs and log lines are left out.
use ai_dev_workflow.Prelude.{Option, some, List, [], ◌∷◌, ℕ, String, text_eq}
use ai_dev_workflow.State.{Store, AgentState, PhaseState, no_fields, write_top_level_state}
use ai_dev_workflow.PauseQueue.{RepoIdentity, PausedWorkflow}
use ai_dev_workflow.RateLimit.{RateLimitFacts}

-- The part of `WorkflowConfig` that the runner reads. An `adw_id` that is empty counts as absent there.
pub record WorkflowConfig : Type 0 where
  pub adw_id : String
  pub issue_number : ℕ
  pub orchestrator_name : String
  pub worktree_path : String
  pub target_repo : Option RepoIdentity
  pub completed_phases : List String

-- What a phase throws.
pub data PhaseError : Type 0 where
  rate_limit_error : String → RateLimitFacts → PhaseError
  agent_timeout_error : Option String → ℕ → PhaseError
  auth_required_error : String → PhaseError
  other_error : String → PhaseError

-- The comments, with what they carry. A wait names the phase, its end and the attempt.
pub data PhaseComment : Type 0 where
  waiting : String → ℕ → ℕ → PhaseComment
  paused_at : String → PhaseComment
  timed_out : String → ℕ → PhaseComment
  failed_with discarded_for : String → PhaseComment
  completed_comment : PhaseComment

-- `auth_gate` is the agent and the workflow that last asked for a login.
pub record PhaseWorld : Type 0 where
  pub store : Store
  pub queue : List PausedWorkflow
  pub recorded_phases : List String
  pub comments : List PhaseComment
  pub auth_gate : Option (String × String)

-- The clock and the forms of its times. `now n` is what it reads after attempt `n`.
pub record PhaseClock : Type 0 where
  pub now : ℕ → ℕ
  pub iso : ℕ → String
  pub started_at : ℕ

-- How an attempt comes back: a phase may also end the process itself, by `process.exit`, or by parking the workflow.
pub data Attempt : Type 0 where
  came_back : Attempt
  threw : PhaseError → Attempt
  ended_process : Attempt

-- A phase at its attempts: how it comes back, and what it leaves.
abbrev pub PhaseFn : Type 0
PhaseFn = ℕ → PhaseWorld → Attempt × PhaseWorld

abbrev pub write_state : String → AgentState → PhaseWorld → PhaseWorld
write_state adw_id patch w = record w { store = write_top_level_state w.store adw_id patch }

abbrev pub post : PhaseComment → PhaseWorld → PhaseWorld
post c w = record w { comments = c ∷ w.comments }

-- A patch of the stage, and one of a phase's entry.
abbrev pub stage_patch : String → AgentState
stage_patch stage = record no_fields { workflow_stage = some stage }

abbrev pub phase_patch : String → PhaseState → AgentState
phase_patch name entry = record no_fields { phases = some ((name, entry) ∷ []) }
