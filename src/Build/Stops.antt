-- ===== src/Build/Stops.antt =====
-- The build ends, and what it has done by then.
use ai_dev_workflow.Prelude.{
  ◌≡◌, ◌⊎◌, Bool, true, false, none, some, List, [], ◌∷◌, ℕ, zero, suc, ◌+◌, ◌≤◌, ◌<◌, String,
  text_eq, length,
}
use ai_dev_workflow.Build.Gate.{no_progress, backstop, has_seen, reports_build_complete}
use ai_dev_workflow.Build.Loop.{
  AgentRun, Prompt, BuildPorts, BuildState, BuildEnd, built, aborted, agent_failed, call_threw,
  out_of_fuel, Round, again, ended, restart_trigger,
}

abbrev pub AreDistinct : List String → Type 0
AreDistinct [] = Unit
AreDistinct (h ∷ hs) = (has_seen hs h ≡ false) × AreDistinct hs

-- `batches n r` resets are `n` full batches of `r` resets.
abbrev pub batches : ℕ → ℕ → ℕ
batches zero r = 0
batches (suc n) r = r + batches n r

module _ {W : Type 0} (ports : BuildPorts W) where
  -- What holds of the checkpoints: the trees at them are all different, from each other and from the first one.
  abbrev pub Checkpoints : BuildState W → Type 0
  Checkpoints s =
      AreDistinct s.seen_tree_hashes
      × (length s.seen_tree_hashes ≡ suc s.checkpoint_count)
      × (s.checkpoint_count ≤ ports.max_progress_checkpoints)

  abbrev pub Invariant : BuildState W → Type 0
  Invariant s =
      Checkpoints s
      × (s.context_reset_count
          ≡ batches s.checkpoint_count ports.max_context_resets + s.per_batch_resets)
      × (s.per_batch_resets < ports.max_context_resets)

  -- The agent answers the prompt with this run, in some worktree.
  abbrev pub Answers : AgentRun → Prompt → Type 0
  Answers run prompt = (w : W) × ((ports.run_build_agent prompt w).0 ≡ some run)

  -- The agent of the last prompt came to its own end, or reported completion before it was stopped.
  abbrev pub IsLastRun : Bool → String → BuildState W → Type 0
  IsLastRun success output s =
      (run : AgentRun) × Answers run s.current_prompt
      × (run.output ≡ output)
      × (run.is_success ≡ success)
      × ((restart_trigger run ≡ none) ⊎ (reports_build_complete run.output ≡ true))

  -- The tree of the worktree can be read, and it was or was not seen at a checkpoint.
  abbrev pub HasTree : Bool → BuildState W → Type 0
  HasTree seen s =
      (hash : String) × (ports.get_head_tree_hash s.worktree ≡ some hash)
      × (has_seen s.seen_tree_hashes hash ≡ seen)

  -- How a build ends, by its answer.
  abbrev pub IsEnd : BuildEnd × BuildState W → Type 0
  IsEnd (built output, s) =
      IsLastRun true output s
      × Checkpoints s
      × (s.context_reset_count ≤ batches (suc s.checkpoint_count) ports.max_context_resets)
  IsEnd (agent_failed output, s) =
      IsLastRun false output s
      × Checkpoints s
      × (s.context_reset_count ≤ batches (suc s.checkpoint_count) ports.max_context_resets)
  IsEnd (call_threw, s) =
      (Checkpoints s
        × (s.context_reset_count ≤ batches (suc s.checkpoint_count) ports.max_context_resets))
      ⊎ ((s.events ≡ []) × (ports.get_head_tree_hash s.worktree ≡ none))
  IsEnd (aborted no_progress, s) =
      Checkpoints s
      × (s.context_reset_count ≡ batches (suc s.checkpoint_count) ports.max_context_resets)
      × HasTree true s
  IsEnd (aborted backstop, s) =
      Checkpoints s
      × (s.checkpoint_count ≡ ports.max_progress_checkpoints)
      × (s.context_reset_count ≡ batches (suc s.checkpoint_count) ports.max_context_resets)
      × HasTree false s
  IsEnd (out_of_fuel, s) = ⊥

  -- What a round leads to from `n` resets: another round after one more, or an end.
  abbrev IsStep : ℕ → Round W → Type 0
  IsStep n (again s) = Invariant s × (s.context_reset_count ≡ suc n)
  IsStep n (ended e s) = IsEnd (e, s)

  module _ (r : 0 < ports.max_context_resets) where
    -- The most resets that a build can make.
    abbrev pub enough_fuel : ℕ
    enough_fuel = batches (suc ports.max_progress_checkpoints) ports.max_context_resets
