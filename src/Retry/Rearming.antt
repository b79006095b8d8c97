-- ===== src/Retry/Rearming.antt =====
-- Which stages a human's retry recovers, and what it leads to.
use ai_dev_workflow.Prelude.{
  ◌≡◌, refl, ap, ◌∙◌, ◌⊎◌, ◌↔◌, inl, inr, Bool, true, false, some, ℕ, String, ◌==◌, text_eq,
  number_eq, if◌then◌else◌, get_or, Bool-cases, arith, eq_iff,
}
use ai_dev_workflow.Stage.{human_gated, classify_stage_string, human_gated_iff}
use ai_dev_workflow.State.{
  AgentState, no_fields, merge_state, write_top_level_state, write_top_level_state_self,
}
use ai_dev_workflow.SpawnGate.{is_held_live}
use ai_dev_workflow.Takeover.{
  TakeoverDeps, World, fresh, takeover, expected_kind, kind_for_state, HasKind, evaluate_candidate,
  evaluate_candidate_kind,
}
use mathlib.Core.Path.{subst}
use ai_dev_workflow.Retry.Directive.{
  RetryAction, noop, decide_retry_action, RetryWorld, RetryHandlerDeps, write, perform_action,
  handle_retry_directive,
}

abbrev pub is_noop : RetryAction → Bool
is_noop (noop reason) = true
is_noop _ = false

abbrev IsGate : String → Type 0
IsGate s =
    (s ≡ "merge_blocked") ⊎ (s ≡ "human_gated") ⊎ (s ≡ "review_failed") ⊎ (s ≡ "worktree_lost")

acting : (s : String) → is_noop (decide_retry_action (some s)) ≡ false → IsGate s ⊎ (s ≡ "paused")
unfolding decide_retry_action
acting s h = ground (
  arith,
  eq_iff s "merge_blocked",
  eq_iff s "human_gated",
  eq_iff s "review_failed",
  eq_iff s "worktree_lost",
  eq_iff s "paused",
)

gate_acts :
    (s : String) → IsGate s ⊎ (s ≡ "paused") → is_noop (decide_retry_action (some s)) ≡ false
unfolding decide_retry_action
gate_acts s (inl (inl e)) = rw e refl
gate_acts s (inl (inr (inl e))) = rw e refl
gate_acts s (inl (inr (inr (inl e)))) = rw e refl
gate_acts s (inl (inr (inr (inr e)))) = rw e refl
gate_acts s (inr e) = rw e refl

-- A retry acts exactly on the stages that wait for a human, and on `paused`.
pub decide_retry_action_iff :
    (s : String)
    → (is_noop (decide_retry_action (some s)) ≡ false)
      ↔ ((classify_stage_string s ≡ human_gated) ⊎ (s ≡ "paused"))
decide_retry_action_iff s = (
  λ h. elim (acting s h) [ inl g ↦ inl ((human_gated_iff s).1 g) | inr e ↦ inr e ],
  λ h. gate_acts s (elim h [ inl g ↦ inl ((human_gated_iff s).0 g) | inr e ↦ inr e ]),
)

module _ (deps : RetryHandlerDeps) (issue_number : ℕ) (d : TakeoverDeps) (adw_id : String)
    (w : RetryWorld) where
  abbrev pub after_retry : Bool × RetryWorld
  after_retry = handle_retry_directive deps issue_number (some adw_id) w

  -- The update that a retry of a gated stage writes.
  abbrev pub rearmed : String → AgentState
  rearmed s =
      if s == "merge_blocked"
      then record no_fields { workflow_stage = some "awaiting_merge"; merge_retry_count = some 0 }
      else record no_fields { workflow_stage = some "phase_timeout"; resume_attempts = some 0 }

  gated_action :
      (state : AgentState) (s : String)
      → IsGate s
      → perform_action deps issue_number adw_id state (decide_retry_action (some s)) w
        ≡ (true, write deps issue_number adw_id (rearmed s) w)
  unfolding decide_retry_action
  gated_action state s (inl e) = rw e refl
  gated_action state s (inr (inl e)) = rw e refl
  gated_action state s (inr (inr (inl e))) = rw e refl
  gated_action state s (inr (inr (inr e))) = rw e refl

  -- The takeover's decision on a rearmed state.
  rearmed_kind :
      (state : AgentState) (s : String)
      → kind_for_state d adw_id (merge_state state (rearmed s))
        ≡ (if s == "merge_blocked" then fresh else takeover)
  unfolding merge_state expected_kind classify_stage_string
  rearmed_kind state s = elim (Bool-cases (s == "merge_blocked")) [
    | inl e ↦ rw e refl
    | inr e ↦ rw e refl
  ]

  retried :
      (state : AgentState) (s : String)
      → w.store adw_id ≡ some state
      → state.workflow_stage ≡ some s
      → classify_stage_string s ≡ human_gated
      → after_retry ≡ (true, write deps issue_number adw_id (rearmed s) w)
  unfolding handle_retry_directive
  retried state s on_file at gated =
      let acted = gated_action state s ((human_gated_iff s).0 gated) in rw (on_file, at, acted) refl

  -- A retry on a workflow whose stage waits for a human rewrites its state. Let the takeover handler then evaluate its
  -- candidate in a world with that state file, with the lock free and the workflow named by the issue: unless a call
  -- throws, the handler takes the workflow over, and one that was `merge_blocked`, now at `awaiting_merge`, it answers
  -- with a fresh spawn.
  pub handle_retry_directive_rearms :
      (state : AgentState) (s : String) (c : World)
      → w.store adw_id ≡ some state
      → state.workflow_stage ≡ some s
      → classify_stage_string s ≡ human_gated
      → c.store adw_id ≡ after_retry.1.store adw_id
      → is_held_live d.host c.lock ≡ false
      → d.resolve_adw_id ≡ some adw_id
      → (after_retry.0 ≡ true)
        × (after_retry.1.store adw_id ≡ some (merge_state state (rearmed s)))
        × HasKind (if s == "merge_blocked" then fresh else takeover) (evaluate_candidate d c).0
  handle_retry_directive_rearms state s c on_file at gated same free named =
      let e = retried state s on_file at gated in
      let stored = ap (λ x. x.1.store adw_id) e ∙ rewritten in
      (
        ap (λ x. x.0) e,
        stored,
        subst (λ k. HasKind k (evaluate_candidate d c).0) (rearmed_kind state s)
            (evaluate_candidate_kind d c adw_id (merge_state state (rearmed s)) free named
              (same ∙ stored)),
      )
    where
      rewritten :
          write_top_level_state w.store adw_id (rearmed s) adw_id
          ≡ some (merge_state state (rearmed s))
      rewritten =
          write_top_level_state_self w.store adw_id (rearmed s)
          ∙ ap (λ o. some (merge_state (get_or o no_fields) (rearmed s))) on_file
