-- ===== src/Retry/Directive.antt =====
-- `decideRetryAction`, `handleRetryDirective` and `resumePausedWorkflow`. The adw-id that the comments name
-- is an argument; the respawned script is that of adws/core/resolveResumeSpawn.ts.
use ai_dev_workflow.Prelude.{
  Bool, true, false, not, Option, none, some, List, ◌∷◌, ℕ, String, ◌==◌, text_eq, number_eq,
  if◌then◌else◌, get_or, is_some_of,
}
use ai_dev_workflow.Stage.{is_active, classify_stage_string}
use ai_dev_workflow.State.{
  AgentState, no_fields, Store, read_top_level_state, write_top_level_state,
}
use ai_dev_workflow.Process.{Host}
use ai_dev_workflow.SpawnGate.{LockFile, acquire_issue_spawn_lock, release_issue_spawn_lock}
use ai_dev_workflow.PauseQueue.{PausedWorkflow, remove_from_pause_queue}

pub data NoopReason : Type 0 where
  no_state paused_auth active not_retriable : NoopReason

pub data RetryAction : Type 0 where
  reset_merge_blocked resume_paused : RetryAction
  rearm_phase_timeout : String → RetryAction
  noop : NoopReason → RetryAction

-- `decideRetryAction`
unfoldable pub decide_retry_action : Option String → RetryAction
decide_retry_action none = noop no_state
decide_retry_action (some stage) =
    if stage == ""
    then noop no_state
    else if stage == "merge_blocked"
    then reset_merge_blocked
    else if stage == "human_gated"
    then rearm_phase_timeout "human_gated"
    else if stage == "review_failed"
    then rearm_phase_timeout "review_failed"
    else if stage == "worktree_lost"
    then rearm_phase_timeout "worktree_lost"
    else if stage == "paused"
    then resume_paused
    else if stage == "paused_auth"
    then noop paused_auth
    else if is_active (classify_stage_string stage)
    then noop active
    else noop not_retriable

-- `resolveResumeSpawn`: the script; its arguments are the issue and the adw-id.
abbrev pub resume_script : AgentState → String
resume_script state = get_or state.orchestrator_script "adws/adwSdlc.tsx"

pub data RetryEffect : Type 0 where
  respawned : String → String → RetryEffect
  commented_resumed : String → RetryEffect

pub record RetryWorld : Type 0 where
  pub lock : LockFile
  pub store : Store
  pub queue : List PausedWorkflow
  pub trace : List RetryEffect

-- `spawn_fails` says that the detached spawn throws.
pub record RetryHandlerDeps : Type 0 where
  pub host : Host
  pub own_pid : ℕ
  pub spawn_fails : Bool

module _ (deps : RetryHandlerDeps) (issue_number : ℕ) where
  -- `resumePausedWorkflow`: the queue entry goes before the spawn; the lock is held over the spawn only.
  unfoldable pub resume_paused_workflow : String → AgentState → RetryWorld → Bool × RetryWorld
  resume_paused_workflow adw_id state w =
      let (acquired, taken) = acquire_issue_spawn_lock deps.host deps.own_pid w.lock in
      let evicted = record w {
        lock = release_issue_spawn_lock taken;
        queue = remove_from_pause_queue adw_id w.queue;
      } in
      if not (is_some_of state.issue_number issue_number)
      then (false, w)
      else if not acquired
      then (false, w)
      else if deps.spawn_fails
      then (false, evicted)
      else (
        true,
        record evicted {
          trace = commented_resumed adw_id ∷ respawned (resume_script state) adw_id ∷ w.trace;
        },
      )

  abbrev pub write : String → AgentState → RetryWorld → RetryWorld
  write adw_id state w = record w { store = write_top_level_state w.store adw_id state }

  abbrev pub perform_action : String → AgentState → RetryAction → RetryWorld → Bool × RetryWorld
  perform_action adw_id state reset_merge_blocked w = (
    true,
    write adw_id
        (record no_fields { workflow_stage = some "awaiting_merge"; merge_retry_count = some 0 }) w,
  )
  perform_action adw_id state (rearm_phase_timeout from) w = (
    true,
    write adw_id
        (record no_fields { workflow_stage = some "phase_timeout"; resume_attempts = some 0 }) w,
  )
  perform_action adw_id state resume_paused w = resume_paused_workflow adw_id state w
  perform_action adw_id state (noop reason) w = (false, w)

  abbrev pub handle_read : String → Option AgentState → RetryWorld → Bool × RetryWorld
  handle_read adw_id none w = (false, w)
  handle_read adw_id (some state) w =
      perform_action adw_id state (decide_retry_action state.workflow_stage) w

  -- `handleRetryDirective`
  unfoldable pub handle_retry_directive : Option String → RetryWorld → Bool × RetryWorld
  unfolding decide_retry_action resume_paused_workflow
  handle_retry_directive none w = (false, w)
  handle_retry_directive (some adw_id) w =
      handle_read adw_id (read_top_level_state w.store adw_id) w
