-- ===== src/Takeover/Recovery.antt =====
-- What the recovery of a dead workflow does: it takes over or throws, and leaves the lock and the state
-- files alone.
use ai_dev_workflow.Prelude.{◌≡◌, ℕ, String, text_eq, number_eq, In, arith}
use ai_dev_workflow.State.{AgentState}
use ai_dev_workflow.Worktree.{WorktreeProbe}
use ai_dev_workflow.Takeover.Calls.{
  CandidateDecision, take_over_adw_id, killed, Outcome, ok, thrown, World, TakeoverDeps,
}
use ai_dev_workflow.Takeover.Defs.{
  take_over_with_derived_stage, recover_via_reset_from_remote, resume_or_reset,
  recover_via_resume_in_place_or_reset,
}

-- The decision takes over this workflow, or there is none because a call threw.
abbrev pub IsTakeOver : String → Outcome CandidateDecision → Type 0
IsTakeOver adw_id (ok (take_over_adw_id id stage)) = id ≡ adw_id
IsTakeOver adw_id thrown = Unit
IsTakeOver adw_id (ok _) = ⊥

pub record Recovered (adw_id : String) (w : World) (r : Outcome CandidateDecision) (w' : World)
    : Type 0 where
  pub taken : IsTakeOver adw_id r
  pub lock_kept : w'.lock ≡ w.lock
  pub store_kept : w'.store ≡ w.store
  pub no_kill : (pid : ℕ) → In (killed pid) w'.trace → In (killed pid) w.trace

abbrev pub Recovers : String → World → Outcome CandidateDecision × World → Type 0
Recovers adw_id w (r, w') = Recovered adw_id w r w'

module _ (d : TakeoverDeps) (adw_id : String) where
  pub take_over-Recovers : (w : World) → Recovers adw_id w (take_over_with_derived_stage d adw_id w)
  unfolding take_over_with_derived_stage
  take_over-Recovers w = ground arith

  pub reset-Recovers :
      (state : AgentState) (w : World)
      → Recovers adw_id w (recover_via_reset_from_remote d adw_id state w)
  unfolding recover_via_reset_from_remote
  reset-Recovers state w = ground arith

  pub resume_or_reset-Recovers :
      (state : AgentState) (branch : String) (probe : WorktreeProbe) (w : World)
      → Recovers adw_id w (resume_or_reset d adw_id state branch probe w)
  unfolding resume_or_reset
  resume_or_reset-Recovers state branch probe w = ground arith

  pub resume-Recovers :
      (state : AgentState) (w : World)
      → Recovers adw_id w (recover_via_resume_in_place_or_reset d adw_id state w)
  unfolding recover_via_resume_in_place_or_reset
  resume-Recovers state w = ground arith
