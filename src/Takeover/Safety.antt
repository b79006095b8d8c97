-- ===== src/Takeover/Safety.antt =====
-- Which decision a stage leads to, and what a candidate's evaluation may do to processes and files.
use ai_dev_workflow.Prelude.{
  ◌≡◌, Bool, false, ◌&&◌, some, ◌∷◌, ℕ, String, ◌==◌, text_eq, number_eq, if◌then◌else◌, get_or,
  leb, arith,
}
use ai_dev_workflow.Stage.{StageClass, active, terminal, retriable, classify_stage_string}
use ai_dev_workflow.State.{AgentState}
use ai_dev_workflow.SpawnGate.{held, record_for, is_held_live}
use ai_dev_workflow.Takeover.Calls.{
  CandidateDecision, spawn_fresh, take_over_adw_id, defer_live_holder, skip_terminal,
  escalate_human_gated, killed, Outcome, ok, thrown, World, TakeoverDeps,
}
use ai_dev_workflow.Takeover.Defs.{
  owner_live, recover_via_reset_from_remote, recover_via_resume_in_place_or_reset,
  recover_starting_stage, recover_active_stage, recover_phase_timeout, decide_for_state,
  decide_holding_lock, evaluate_candidate, max_resume_attempts,
}
use ai_dev_workflow.Takeover.Recovery.{IsTakeOver, reset-Recovers, resume-Recovers}
use ai_dev_workflow.Takeover.Lock.{acquire_cases}

pub data Kind : Type 0 where
  fresh takeover deferral skip escalation : Kind

-- The decision table of the handler, by the class of the stage on file.
unfoldable pub expected_kind : StageClass → String → ℕ → Bool → Kind
expected_kind terminal stage attempts live = skip
expected_kind retriable stage attempts live = takeover
expected_kind active stage attempts live =
    if stage == "phase_timeout"
    then if leb max_resume_attempts attempts then escalation else takeover
    else if stage == "starting" && live
    then deferral
    else takeover
expected_kind _ stage attempts live =
    if stage == "phase_timeout"
    then if leb max_resume_attempts attempts then escalation else takeover
    else fresh

abbrev pub HasKind : Kind → Outcome CandidateDecision → Type 0
HasKind k (ok spawn_fresh) = k ≡ fresh
HasKind k (ok (take_over_adw_id id stage)) = k ≡ takeover
HasKind k (ok (defer_live_holder pid)) = k ≡ deferral
HasKind k (ok (skip_terminal id stage)) = k ≡ skip
HasKind k (ok (escalate_human_gated id)) = k ≡ escalation
HasKind k thrown = Unit

module _ (d : TakeoverDeps) (adw_id : String) (state : AgentState) where
  abbrev pub kind_for_state : Kind
  kind_for_state =
      expected_kind (classify_stage_string (get_or state.workflow_stage ""))
        (get_or state.workflow_stage "") (get_or state.resume_attempts 0) (owner_live d state)

  takeover_kind : (r : Outcome CandidateDecision) → IsTakeOver adw_id r → HasKind takeover r
  takeover_kind r h = ground arith

  starting_kind :
      (w : World)
      → HasKind
          (if owner_live d state then deferral else takeover)
          (recover_starting_stage d adw_id state w).0
  unfolding recover_starting_stage
  starting_kind w = ground (
    arith,
    (resume-Recovers d adw_id state w).taken,
    takeover_kind (recover_via_resume_in_place_or_reset d adw_id state w).0,
  )

  active_kind :
      (w : World)
      → HasKind
          (if get_or state.workflow_stage "" == "starting" && owner_live d state
            then deferral
            else takeover)
          (recover_active_stage d adw_id state w).0
  unfolding recover_active_stage
  active_kind w =
      let w' : World = record w { trace = killed (get_or state.pid 0) ∷ w.trace } in
      ground (
        arith,
        starting_kind w,
        (reset-Recovers d adw_id state w).taken,
        takeover_kind (recover_via_reset_from_remote d adw_id state w).0,
        (reset-Recovers d adw_id state w').taken,
        takeover_kind (recover_via_reset_from_remote d adw_id state w').0,
      )

  phase_timeout_kind :
      (w : World)
      → HasKind
          (if leb max_resume_attempts (get_or state.resume_attempts 0)
            then escalation
            else takeover)
          (recover_phase_timeout d adw_id state w).0
  unfolding recover_phase_timeout
  phase_timeout_kind w = ground (
    arith,
    (resume-Recovers d adw_id state w).taken,
    takeover_kind (recover_via_resume_in_place_or_reset d adw_id state w).0,
  )

  decide_for_state_kind : (w : World) → HasKind kind_for_state (decide_for_state d adw_id state w).0
  unfolding decide_for_state expected_kind
  decide_for_state_kind w = ground (
    arith,
    phase_timeout_kind w,
    active_kind w,
    (resume-Recovers d adw_id state w).taken,
    takeover_kind (recover_via_resume_in_place_or_reset d adw_id state w).0,
  )

-- With the lock free, the state on file decides by the table, unless a call throws.
pub evaluate_candidate_kind :
    (d : TakeoverDeps) (w : World) (adw_id : String) (state : AgentState)
    → is_held_live d.host w.lock ≡ false
    → d.resolve_adw_id ≡ some adw_id
    → w.store adw_id ≡ some state
    → HasKind (kind_for_state d adw_id state) (evaluate_candidate d w).0
unfolding evaluate_candidate decide_holding_lock
evaluate_candidate_kind d w adw_id state free named found = ground (
  arith,
  acquire_cases d w,
  decide_for_state_kind d adw_id state (record w { lock = held (record_for d.host d.own_pid) }),
)
