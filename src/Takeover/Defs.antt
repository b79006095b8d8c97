-- ===== src/Takeover/Defs.antt =====
-- The decision tree of `evaluateCandidate`.
use ai_dev_workflow.Prelude.{
  Bool, true, false, ◌||◌, ◌&&◌, not, Option, none, some, ◌∷◌, ℕ, String, ◌==◌, text_eq, number_eq,
  if◌then◌else◌, get_or, leb,
}
use ai_dev_workflow.Stage.{is_active, is_terminal, is_retriable, classify_stage_string}
use ai_dev_workflow.State.{AgentState, no_fields, read_top_level_state, write_top_level_state}
use ai_dev_workflow.Process.{is_process_live, is_recorded_owner_live}
use ai_dev_workflow.SpawnGate.{
  LockRecord, LockFile, read_spawn_lock, acquire_issue_spawn_lock, release_issue_spawn_lock,
}
use ai_dev_workflow.Worktree.{
  WorktreeProbe, orphaned, IndexLock, reuse, reset, decide_worktree_reuse,
}
use ai_dev_workflow.Takeover.Calls.{
  CandidateDecision, spawn_fresh, take_over_adw_id, defer_live_holder, skip_terminal,
  escalate_human_gated, Effect, killed, reset_worktree, cleared_index_lock, commented_human_gated,
  Outcome, ok, thrown, World, TakeoverDeps, M, bind_outcome, ◌>>◌, return,
}

-- A text that is present and not empty.
abbrev pub truthy : Option String → Option String
truthy none = none
truthy (some s) = if s == "" then none else some s

abbrev pub is_orphaned : IndexLock → Bool
is_orphaned orphaned = true
is_orphaned _ = false

abbrev pub max_resume_attempts : ℕ
max_resume_attempts = 3

pub data ResumeAction : Type 0 where
  resume escalate : ResumeAction

-- `nextResumeAction` of adws/core/resumePolicy.ts
unfoldable pub next_resume_action : ℕ → ℕ → ResumeAction
next_resume_action attempts max = if leb max attempts then escalate else resume

abbrev pub is_escalate : ResumeAction → Bool
is_escalate escalate = true
is_escalate resume = false

unfoldable pub release_lock : M (Unit {0})
release_lock w = (ok tt, record w { lock = release_issue_spawn_lock w.lock })

-- `try { return decideHoldingLock(…) } catch (error) { releaseLock(); throw error; }`
unfoldable pub release_on_throw :
    Outcome CandidateDecision × World → Outcome CandidateDecision × World
release_on_throw (ok decision, w) = (ok decision, w)
release_on_throw (thrown, w) = (thrown, record w { lock = release_issue_spawn_lock w.lock })

-- The stages whose workflow the handler takes over, in `reclaimOwnLeakedLock`.
unfoldable pub is_taken_over : String → Bool
is_taken_over stage =
    stage == "abandoned" || stage == "phase_timeout" || is_active (classify_stage_string stage)

abbrev pub with_lock : World → Bool × LockFile → Bool × World
with_lock w (acquired, lock') = (acquired, record w { lock = lock' })

abbrev pub holder_pid : Option LockRecord → ℕ
holder_pid none = 0
holder_pid (some r) = r.pid

module _ (d : TakeoverDeps) where
  -- A git, forge or process call that either happens or throws.
  unfoldable pub perform : Effect → M (Unit {0})
  perform e w = if d.fails e then (thrown, w) else (ok tt, record w { trace = e ∷ w.trace })

  -- `killProcess` inside its `try`: a process that is gone is no error.
  unfoldable pub kill_process : ℕ → M (Unit {0})
  kill_process pid w =
      if d.fails (killed pid)
      then (ok tt, w)
      else (ok tt, record w { trace = killed pid ∷ w.trace })

  unfoldable pub write_state : String → AgentState → M (Unit {0})
  write_state adw_id state w =
      if d.write_fails
      then (thrown, w)
      else (ok tt, record w { store = write_top_level_state w.store adw_id state })

  abbrev pub owner_live : AgentState → Bool
  owner_live state = is_recorded_owner_live (is_process_live d.host) state.pid state.pid_started_at

  unfoldable pub take_over_with_derived_stage : String → M CandidateDecision
  take_over_with_derived_stage adw_id w = elim (d.derive_stage_from_remote w.store adw_id) [
    | ok stage ↦ (ok (take_over_adw_id adw_id stage), w)
    | thrown ↦ (thrown, w)
  ]

  unfoldable pub recover_via_reset_from_remote : String → AgentState → M CandidateDecision
  unfolding perform take_over_with_derived_stage
  recover_via_reset_from_remote adw_id state = elim (truthy state.branch_name) [
    | none ↦ take_over_with_derived_stage adw_id
    | some branch ↦ do
      perform (reset_worktree (d.worktree_path_for branch) branch)
      take_over_with_derived_stage adw_id
  ]

  -- What follows the probe in `recoverViaResumeInPlaceOrReset`.
  unfoldable pub resume_or_reset :
      String → AgentState → String → WorktreeProbe → M CandidateDecision
  unfolding recover_via_reset_from_remote
  resume_or_reset adw_id state branch probe = elim (decide_worktree_reuse probe) [
    | reset reason ↦ recover_via_reset_from_remote adw_id state
    | reuse ↦
        if is_orphaned probe.index_lock
        then (perform (cleared_index_lock (d.worktree_path_for branch))
            >> take_over_with_derived_stage adw_id)
        else take_over_with_derived_stage adw_id
  ]

  unfoldable pub recover_via_resume_in_place_or_reset : String → AgentState → M CandidateDecision
  unfolding resume_or_reset
  recover_via_resume_in_place_or_reset adw_id state = elim (truthy state.branch_name) [
    | none ↦ take_over_with_derived_stage adw_id
    | some branch ↦ λ w.
        bind_outcome
          (d.probe_worktree (d.worktree_path_for branch) branch state.pid state.pid_started_at)
          (resume_or_reset adw_id state branch) w
  ]

  unfoldable pub recover_starting_stage : String → AgentState → M CandidateDecision
  unfolding release_lock
  recover_starting_stage adw_id state =
      if owner_live state
      then (release_lock >> return (defer_live_holder (get_or state.pid 0)))
      else recover_via_resume_in_place_or_reset adw_id state

  unfoldable pub recover_active_stage : String → AgentState → M CandidateDecision
  unfolding kill_process
  recover_active_stage adw_id state =
      if get_or state.workflow_stage "" == "starting"
      then recover_starting_stage adw_id state
      else if owner_live state
      then (kill_process (get_or state.pid 0) >> recover_via_reset_from_remote adw_id state)
      else recover_via_reset_from_remote adw_id state

  -- The branch of `decideHoldingLock` for `phase_timeout`.
  unfoldable pub recover_phase_timeout : String → AgentState → M CandidateDecision
  unfolding write_state perform release_lock next_resume_action
  recover_phase_timeout adw_id state =
      let attempts = get_or state.resume_attempts 0 in
      if is_escalate (next_resume_action attempts max_resume_attempts)
      then (write_state adw_id (record no_fields { workflow_stage = some "human_gated" })
          >> perform (commented_human_gated adw_id attempts max_resume_attempts)
          >> release_lock
          >> return (escalate_human_gated adw_id))
      else recover_via_resume_in_place_or_reset adw_id state

  -- `decideHoldingLock` once the state file is read.
  unfoldable pub decide_for_state : String → AgentState → M CandidateDecision
  unfolding release_lock
  decide_for_state adw_id state =
      let stage = get_or state.workflow_stage "" in
      let cls = classify_stage_string stage in
      if is_terminal cls
      then (release_lock >> return (skip_terminal adw_id stage))
      else if is_retriable cls
      then recover_via_resume_in_place_or_reset adw_id state
      else if stage == "phase_timeout"
      then recover_phase_timeout adw_id state
      else if is_active cls
      then recover_active_stage adw_id state
      else return spawn_fresh

  abbrev pub decide_for_read : String → Option AgentState → M CandidateDecision
  decide_for_read adw_id none w = (ok spawn_fresh, w)
  decide_for_read adw_id (some state) w = decide_for_state adw_id state w

  abbrev pub decide_for_adw_id : Option String → M CandidateDecision
  decide_for_adw_id none w = (ok spawn_fresh, w)
  decide_for_adw_id (some adw_id) w = decide_for_read adw_id (read_top_level_state w.store adw_id) w

  unfoldable pub decide_holding_lock : M CandidateDecision
  decide_holding_lock = decide_for_adw_id d.resolve_adw_id

  abbrev pub is_own : Option LockRecord → Bool
  is_own none = false
  is_own (some r) = r.pid == d.own_pid

  -- The tests of `reclaimOwnLeakedLock`.
  unfoldable pub is_own_leaked_lock : World → Bool
  unfolding is_taken_over
  is_own_leaked_lock w =
      if is_own (read_spawn_lock w.lock)
      then elim d.resolve_adw_id [
        | none ↦ false
        | some adw_id ↦ elim (read_top_level_state w.store adw_id) [
          | none ↦ false
          | some state ↦ is_taken_over (get_or state.workflow_stage "") && not (owner_live state)
        ]
      ]
      else false

  unfoldable pub reclaim_own_leaked_lock : World → Bool × World
  reclaim_own_leaked_lock w =
      if is_own_leaked_lock w
      then with_lock w (acquire_issue_spawn_lock d.host d.own_pid (release_issue_spawn_lock w.lock))
      else (false, w)

  unfoldable pub acquire_or_reclaim : World → Bool × World
  acquire_or_reclaim w =
      let (acquired, lock') = acquire_issue_spawn_lock d.host d.own_pid w.lock in
      if acquired
      then (true, record w { lock = lock' })
      else reclaim_own_leaked_lock (record w { lock = lock' })

  unfoldable pub evaluate_candidate : M CandidateDecision
  unfolding release_on_throw
  evaluate_candidate w =
      let (acquired, w') = acquire_or_reclaim w in
      if acquired
      then release_on_throw (decide_holding_lock w')
      else (ok (defer_live_holder (holder_pid (read_spawn_lock w'.lock))), w')
