-- ===== src/Takeover/Effects.antt =====
-- What an evaluation may do to processes and to the state files.
use ai_dev_workflow.Prelude.{
  ◌≡◌, refl, sym, ap, ◌∙◌, ◌≢◌, ◌⊎◌, inl, inr, true, Option, none, some, ◌∷◌, ℕ, ◌≤◌, String,
  text_eq, number_eq, get_or, In, arith, eq_iff,
}
use mathlib.Core.Path.{subst}
use ai_dev_workflow.Stage.{StageClass, active, classify_stage_string, is_active}
use ai_dev_workflow.State.{AgentState, no_fields, Store, write_top_level_state}
use ai_dev_workflow.Process.{is_recorded_owner_live}
use ai_dev_workflow.Takeover.Calls.{CandidateDecision, killed, Outcome, World, TakeoverDeps}
use ai_dev_workflow.Takeover.Defs.{
  owner_live, recover_starting_stage, recover_active_stage, recover_phase_timeout, decide_for_state,
  decide_for_adw_id, decide_for_read, decide_holding_lock, evaluate_candidate, max_resume_attempts,
}
use ai_dev_workflow.Takeover.Recovery.{reset-Recovers, resume-Recovers}
use ai_dev_workflow.Takeover.Lock.{evaluate_cases, locked, release_on_throw_kept}

-- The recorded owner of the issue's workflow, confirmed live, in a stage that a running phase writes.
pub record IsKillable (d : TakeoverDeps) (state : AgentState) (pid : ℕ) : Type 0 where
  pub recorded : state.pid ≡ some pid
  pub live : owner_live d state ≡ true
  pub running : classify_stage_string (get_or state.workflow_stage "") ≡ active
  pub not_starting : get_or state.workflow_stage "" ≢ "starting"

abbrev KillsOnly : (ℕ → Type 0) → World → World → Type 0
KillsOnly P w w' = (pid : ℕ) → In (killed pid) w'.trace → In (killed pid) w.trace ⊎ P pid

module _ (d : TakeoverDeps) (adw_id : String) (state : AgentState) where
  starting_kills :
      (w : World) → KillsOnly (IsKillable d state) w (recover_starting_stage d adw_id state w).1
  unfolding recover_starting_stage
  starting_kills w pid h = ground (arith, (resume-Recovers d adw_id state w).no_kill pid)

  recorded_pid : owner_live d state ≡ true → state.pid ≡ some (get_or state.pid 0)
  unfolding is_recorded_owner_live
  recorded_pid h = ground arith

  active_kills :
      (w : World)
      → classify_stage_string (get_or state.workflow_stage "") ≡ active
      → KillsOnly (IsKillable d state) w (recover_active_stage d adw_id state w).1
  unfolding recover_active_stage
  active_kills w cls pid h =
      let w' : World = record w { trace = killed (get_or state.pid 0) ∷ w.trace } in
      ground (
        arith,
        starting_kills w pid,
        recorded_pid,
        eq_iff (get_or state.workflow_stage "") "starting",
        (reset-Recovers d adw_id state w).no_kill pid,
        (reset-Recovers d adw_id state w').no_kill pid,
      )

  phase_timeout_kills :
      (w : World) → KillsOnly (IsKillable d state) w (recover_phase_timeout d adw_id state w).1
  unfolding recover_phase_timeout
  phase_timeout_kills w pid h = ground (arith, (resume-Recovers d adw_id state w).no_kill pid)

  is_active-eq : (c : StageClass) → is_active c ≡ true → c ≡ active
  is_active-eq c h = ground arith

  decide_for_state_kills :
      (w : World) → KillsOnly (IsKillable d state) w (decide_for_state d adw_id state w).1
  unfolding decide_for_state
  decide_for_state_kills w pid h = ground (
    arith,
    phase_timeout_kills w pid,
    λ (e : classify_stage_string (get_or state.workflow_stage "") ≡ active). active_kills w e pid,
    is_active-eq (classify_stage_string (get_or state.workflow_stage "")),
    (resume-Recovers d adw_id state w).no_kill pid,
  )

-- A state file that is over the resume budget at `phase_timeout`.
pub record IsExhausted (state : AgentState) : Type 0 where
  pub timed_out : get_or state.workflow_stage "" ≡ "phase_timeout"
  pub spent : max_resume_attempts ≤ get_or state.resume_attempts 0

abbrev pub gate_state : AgentState
gate_state = record no_fields { workflow_stage = some "human_gated" }

abbrev WritesOnly : String → AgentState → World → World → Type 0
WritesOnly adw_id state w w' =
    (w'.store ≡ w.store)
    ⊎ (IsExhausted state × (w'.store ≡ write_top_level_state w.store adw_id gate_state))

module _ (d : TakeoverDeps) (adw_id : String) (state : AgentState) where
  starting_writes : (w : World) → (recover_starting_stage d adw_id state w).1.store ≡ w.store
  unfolding recover_starting_stage
  starting_writes w = ground (arith, (resume-Recovers d adw_id state w).store_kept)

  active_writes : (w : World) → (recover_active_stage d adw_id state w).1.store ≡ w.store
  unfolding recover_active_stage
  active_writes w =
      let w' : World = record w { trace = killed (get_or state.pid 0) ∷ w.trace } in
      ground (
        arith,
        starting_writes w,
        (reset-Recovers d adw_id state w).store_kept,
        (reset-Recovers d adw_id state w').store_kept,
      )

  phase_timeout_writes :
      (w : World)
      → get_or state.workflow_stage "" ≡ "phase_timeout"
      → WritesOnly adw_id state w (recover_phase_timeout d adw_id state w).1
  unfolding recover_phase_timeout
  phase_timeout_writes w e = ground (arith, (resume-Recovers d adw_id state w).store_kept)

  decide_for_state_writes :
      (w : World) → WritesOnly adw_id state w (decide_for_state d adw_id state w).1
  unfolding decide_for_state
  decide_for_state_writes w = ground (
    arith,
    eq_iff (get_or state.workflow_stage "") "phase_timeout",
    phase_timeout_writes w,
    active_writes w,
    (resume-Recovers d adw_id state w).store_kept,
  )

-- The workflow that the issue's comments name, with its state on file.
pub record IsCandidate (d : TakeoverDeps) (store : Store) (adw_id : String) (state : AgentState)
    : Type 0 where
  pub named : d.resolve_adw_id ≡ some adw_id
  pub on_file : store adw_id ≡ some state

module _ (d : TakeoverDeps) where
  abbrev MayKill : World → ℕ → Type 0
  MayKill w pid =
      (adw_id : String) × (state : AgentState) × IsCandidate d w.store adw_id state
      × IsKillable d state pid

  read_kills :
      (w : World) (id : String) (o : Option AgentState)
      → d.resolve_adw_id ≡ some id
      → w.store id ≡ o
      → KillsOnly (MayKill w) w (decide_for_read d id o w).1
  read_kills w id none named e pid h = inl h
  read_kills w id (some state) named e pid h = elim (decide_for_state_kills d id state w pid h) [
    | inl old ↦ inl old
    | inr k ↦ inr (id, state, record { named = named; on_file = e }, k)
  ]

  id_kills :
      (w : World) (o : Option String)
      → d.resolve_adw_id ≡ o
      → KillsOnly (MayKill w) w (decide_for_adw_id d o w).1
  id_kills w none e pid h = inl h
  id_kills w (some id) e pid h = read_kills w id (w.store id) e refl pid h

  decide_kills : (w : World) → KillsOnly (MayKill w) w (decide_holding_lock d w).1
  unfolding decide_holding_lock
  decide_kills w = id_kills w d.resolve_adw_id refl

  -- Only the recorded owner of the candidate's workflow is ever killed, and only while it is confirmed
  -- live in a stage that a running phase writes: a workflow that is starting keeps its process.
  pub evaluate_candidate_kills :
      (w : World) (pid : ℕ)
      → In (killed pid) (evaluate_candidate d w).1.trace
      → In (killed pid) w.trace
        ⊎ ((adw_id : String) × (state : AgentState) × IsCandidate d w.store adw_id state
            × IsKillable d state pid)
  evaluate_candidate_kills w pid h = elim (evaluate_cases d w) [
    | inl e ↦ decide_kills (locked d w) pid (
        subst (In (killed pid)) (release_on_throw_kept (decide_holding_lock d (locked d w))).0
          (subst (λ (r : Outcome CandidateDecision × World). In (killed pid) r.1.trace) e h))
    | inr (e, _) ↦
        inl (subst (λ (r : Outcome CandidateDecision × World). In (killed pid) r.1.trace) e h)
  ]

  abbrev MayWrite : Store → Store → Type 0
  MayWrite store store' =
      (store' ≡ store)
      ⊎ ((adw_id : String) × (state : AgentState) × IsCandidate d store adw_id state
          × IsExhausted state
          × (store' ≡ write_top_level_state store adw_id gate_state))

  read_writes :
      (w : World) (id : String) (o : Option AgentState)
      → d.resolve_adw_id ≡ some id
      → w.store id ≡ o
      → MayWrite w.store (decide_for_read d id o w).1.store
  read_writes w id none named e = inl refl
  read_writes w id (some state) named e = elim (decide_for_state_writes d id state w) [
    | inl same ↦ inl same
    | inr (spent, wrote) ↦ inr (id, state, record { named = named; on_file = e }, spent, wrote)
  ]

  id_writes :
      (w : World) (o : Option String)
      → d.resolve_adw_id ≡ o
      → MayWrite w.store (decide_for_adw_id d o w).1.store
  id_writes w none e = inl refl
  id_writes w (some id) e = read_writes w id (w.store id) e refl

  decide_writes : (w : World) → MayWrite w.store (decide_holding_lock d w).1.store
  unfolding decide_holding_lock
  decide_writes w = id_writes w d.resolve_adw_id refl

  -- The state files change in one way only: at `phase_timeout` with the resume budget spent, the
  -- candidate's stage becomes `human_gated`.
  pub evaluate_candidate_writes :
      (w : World)
      → ((evaluate_candidate d w).1.store ≡ w.store)
        ⊎ ((adw_id : String) × (state : AgentState) × IsCandidate d w.store adw_id state
            × IsExhausted state
            × ((evaluate_candidate d w).1.store ≡ write_top_level_state w.store adw_id gate_state))
  evaluate_candidate_writes w = elim (evaluate_cases d w) [
    | inl e ↦
        subst (MayWrite w.store)
          (sym (
            ap (λ (r : Outcome CandidateDecision × World). r.1.store) e
            ∙ (release_on_throw_kept (decide_holding_lock d (locked d w))).1))
          (decide_writes (locked d w))
    | inr (e, _) ↦ inl (ap (λ (r : Outcome CandidateDecision × World). r.1.store) e)
  ]
