-- ===== src/Auth/Scan.antt =====
-- `scanAuthQueue`: the workflows that wait for a login are resumed.
use ai_dev_workflow.Prelude.{
  Bool, Option, none, some, List, [], ◌∷◌, ℕ, String, ◌==◌, text_eq, number_eq, if◌then◌else◌,
  get_or, is_some_of, is_some,
}
use ai_dev_workflow.State.{
  AgentState, Store, no_fields, read_top_level_state, write_top_level_state,
}
use ai_dev_workflow.SpawnGate.{LockFile, release_issue_spawn_lock}
use ai_dev_workflow.Takeover.{
  CandidateDecision, spawn_fresh, take_over_adw_id, defer_live_holder, skip_terminal,
  escalate_human_gated, Effect, Outcome, ok, thrown, World, TakeoverDeps, evaluate_candidate,
}
use ai_dev_workflow.Auth.Gate.{AuthGateRecord}

pub record Resumed : Type 0 where
  pub script : String
  pub issue_number : ℕ
  pub adw_id : String

-- The lock files are those of the repository that this cron scans.
pub record ScanWorld : Type 0 where
  pub locks : ℕ → LockFile
  pub store : Store
  pub effects : List Effect
  pub spawned : List Resumed

pub record ScanEnv : Type 0 where
  pub takeover : ℕ → TakeoverDeps
  pub write_fails : String → Bool
  pub spawn_fails : String → Bool

abbrev pub lock_set : ℕ → LockFile → (ℕ → LockFile) → ℕ → LockFile
lock_set n file locks m = if m == n then file else locks m

abbrev pub world_of : ℕ → ScanWorld → World
world_of n w = record { lock = w.locks n; store = w.store; trace = w.effects }

abbrev pub with_world : ℕ → World → ScanWorld → ScanWorld
with_world n c w = record w {
  locks = lock_set n c.lock w.locks;
  store = c.store;
  effects = c.trace;
}

abbrev pub abandoned_patch : AgentState
abandoned_patch = record no_fields { workflow_stage = some "abandoned" }

module _ (env : ScanEnv) where
  -- The spawn of the workflow, under its own adw-id; the lock is released behind it.
  abbrev pub spawn_resumed_auth : String → AgentState → ℕ → ScanWorld → ScanWorld
  spawn_resumed_auth adw_id state n w = if env.spawn_fails adw_id then w else record w {
    locks = lock_set n (release_issue_spawn_lock (w.locks n)) w.locks;
    spawned =
        record {
          script = get_or state.orchestrator_script "adws/adwSdlc.tsx";
          issue_number = n;
          adw_id = adw_id;
        }
        ∷ w.spawned;
  }

  abbrev pub on_decision :
      String → AgentState → ℕ → Outcome CandidateDecision → ScanWorld → ScanWorld
  on_decision adw_id state n thrown w = w
  on_decision adw_id state n (ok spawn_fresh) w = w
  on_decision adw_id state n (ok (defer_live_holder pid)) w = w
  on_decision adw_id state n (ok (skip_terminal id stage)) w = w
  on_decision adw_id state n (ok (escalate_human_gated id)) w = w
  on_decision adw_id state n (ok (take_over_adw_id id stage)) w =
      spawn_resumed_auth adw_id state n w

  abbrev pub abandon : String → ScanWorld → ScanWorld
  abandon adw_id w = record w { store = write_top_level_state w.store adw_id abandoned_patch }

  unfoldable pub resume_waiting : String → AgentState → ℕ → ScanWorld → ScanWorld
  unfolding write_top_level_state
  resume_waiting adw_id state n w =
      let v = abandon adw_id w in
      let (decision, c) = evaluate_candidate (env.takeover n) (world_of n v) in
      if env.write_fails adw_id then w else on_decision adw_id state n decision (with_world n c v)

  abbrev pub with_issue : String → AgentState → Option ℕ → ScanWorld → ScanWorld
  with_issue adw_id state none w = w
  with_issue adw_id state (some n) w = resume_waiting adw_id state n w

  abbrev pub visit_state : String → Option AgentState → ScanWorld → ScanWorld
  visit_state adw_id none w = w
  visit_state adw_id (some state) w =
      if is_some_of state.workflow_stage "paused_auth"
      then with_issue adw_id state state.issue_number w
      else w

  unfoldable pub visit : String → ScanWorld → ScanWorld
  unfolding resume_waiting
  visit adw_id w = visit_state adw_id (read_top_level_state w.store adw_id) w

  unfoldable pub visit_all : List String → ScanWorld → ScanWorld
  unfolding visit
  visit_all [] w = w
  visit_all (adw_id ∷ dirs) w = visit_all dirs (visit adw_id w)

  -- `scanAuthQueue`; its count is the number of spawns.
  unfoldable pub scan_auth_queue : Option AuthGateRecord → List String → ScanWorld → ScanWorld
  unfolding visit_all
  scan_auth_queue gate dirs w = if is_some gate then w else visit_all dirs w
