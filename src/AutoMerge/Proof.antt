-- ===== src/AutoMerge/Proof.antt =====
-- The forge is asked only for a proven branch.
use ai_dev_workflow.Prelude.{
  ◌≡◌, refl, inl, inr, Bool, true, false, ◌&&◌, Option, none, some, List, [], ◌∷◌, ℕ, zero, suc,
  String, Bool-cases, arith,
}
use ai_dev_workflow.AutoMerge.World.{
  MergedInBase, PostMergeVerdict, green, red, BaseIntegration, current, unresolved, brought_in,
  MergeEvent, base_brought_in, scenarios_passed, pushed, asked, landed, MergeEnv, Progress, tick,
  log, check_local_merge, base_moved_past,
}
use ai_dev_workflow.AutoMerge.Attempt.{
  StepKind, AttemptEnd, merged, retry, give_up, red_proof, stale_merge_retry_delays_ms,
  after_refusal, settle, refusal_of, ask, merge_with_stale_retry, ask_forge_to_merge, after_rerun,
  prove, prove_merged_in_base, then_ask, push_and_prove, integrate, integration, run_attempt,
  MergeOutcome, conclude, merge_loop, start, merge_with_conflict_resolution,
}

-- Since the base was last brought in, the scenarios have passed.
abbrev pub is_proven : List MergeEvent → Bool
is_proven [] = true
is_proven (scenarios_passed ∷ es) = true
is_proven (base_brought_in ∷ es) = false
is_proven (e ∷ es) = is_proven es

-- Every call to the forge was made on a proven branch.
abbrev pub asks_are_proven : List MergeEvent → Bool
asks_are_proven [] = true
asks_are_proven (asked ∷ es) = is_proven es && asks_are_proven es
asks_are_proven (e ∷ es) = asks_are_proven es

record Proven (p : Progress) : Type 0 where
  asks : asks_are_proven p.trace ≡ true
  now : is_proven p.trace ≡ true

-- Between attempts the branch may be unproven, and then the commits to test are known.
record Sound (p : Progress) : Type 0 where
  asks : asks_are_proven p.trace ≡ true
  covered : p.untested ≡ none → is_proven p.trace ≡ true

tick-Proven : (p : Progress) → Proven p → Proven (tick p)
tick-Proven p h = record { asks = h.asks; now = h.now }

module _ (env : MergeEnv) where
  settle-Proven :
      (o : Option String) (p : Progress) (r : StepKind × Progress)
      → Proven (log landed p)
      → Proven r.1
      → Proven (settle env o p r).1
  settle-Proven none p r h k = h
  settle-Proven (some error) p r h k = k

  refusal-Proven :
      (q : Progress) (r s : StepKind × Progress)
      → Proven q
      → Proven r.1
      → Proven s.1
      → Proven (after_refusal env q r s).1
  refusal-Proven q r s h k l = record {
    asks = ground (arith, h.asks, k.asks, l.asks);
    now = ground (arith, h.now, k.now, l.now);
  }

  asked-Proven :
      (p : Progress) → Proven p → Proven (log landed (ask env p)) × Proven (refusal_of env p)
  asked-Proven p h = (
    record { asks = ground (arith, h.asks, h.now); now = h.now },
    record { asks = ground (arith, h.asks, h.now); now = h.now },
  )

  stale-Proven :
      (delays : List ℕ) (p : Progress) → Proven p → Proven (merge_with_stale_retry env delays p).1
  unfolding merge_with_stale_retry
  stale-Proven [] p h =
      let (landed_ok, refused_ok) = asked-Proven p h in
      settle-Proven (env.merge_pull_request p.clock) (ask env p) _ landed_ok (
        refusal-Proven (refusal_of env p) _ _ refused_ok (tick-Proven (refusal_of env p) refused_ok)
          refused_ok)
  stale-Proven (d ∷ ds) p h =
      let (landed_ok, refused_ok) = asked-Proven p h in
      settle-Proven (env.merge_pull_request p.clock) (ask env p) _ landed_ok (
        refusal-Proven (refusal_of env p) _ _ refused_ok
          (stale-Proven ds (tick (refusal_of env p)) (tick-Proven (refusal_of env p) refused_ok))
          (stale-Proven ds (refusal_of env p) refused_ok))

  abbrev SoundEnd : {A : Type 0} → A × Progress → Type 0
  SoundEnd (end, p) = Sound p

  Proven-Sound : (p : Progress) → Proven p → Sound p
  Proven-Sound p h = record { asks = h.asks; covered = λ e. h.now }

  ask_forge-Sound : (p : Progress) → Proven p → SoundEnd (ask_forge_to_merge env p)
  unfolding ask_forge_to_merge
  ask_forge-Sound p h =
      Proven-Sound (merge_with_stale_retry env stale_merge_retry_delays_ms p).1
        (stale-Proven stale_merge_retry_delays_ms p h)

  -- Where the scenarios passed and the base stayed, the branch is proven; any other end is sound.
  rerun-Sound :
      (m : MergedInBase) (v : PostMergeVerdict) (p : Progress)
      → Sound p
      → p.untested ≡ some m
      → SoundEnd (then_ask env (after_rerun env m v p))
  rerun-Sound m (red failures) p h u = record { asks = h.asks; covered = λ e. cc (e, u) }
  rerun-Sound m green p h u = elim (Bool-cases (base_moved_past env (suc p.clock))) [
    | inl moved ↦ rw moved (record { asks = h.asks; covered = λ e. refl })
    | inr stayed ↦ rw stayed (ask_forge-Sound _ (record { asks = h.asks; now = refl }))
  ]

  prove-Sound :
      (o : Option MergedInBase) (p : Progress)
      → Sound p
      → p.untested ≡ o
      → SoundEnd (then_ask env (prove env o p))
  prove-Sound none p h u = ask_forge-Sound p (record { asks = h.asks; now = h.covered u })
  prove-Sound (some m) p h u = rerun-Sound m (env.rerun_scenarios p.clock) p h u

  push-Sound : (p : Progress) → Sound p → SoundEnd (push_and_prove env p)
  unfolding push_and_prove prove_merged_in_base
  push-Sound p h = elim (Bool-cases (env.push_ok p.clock)) [
    | inl ok ↦
        rw ok (
          prove-Sound p.untested (log pushed p) (record { asks = h.asks; covered = h.covered })
            refl)
    | inr failed ↦ rw failed (record { asks = h.asks; covered = h.covered })
  ]

  module _ (clean : (t : ℕ) → env.base_left_in t ≡ false) where
    integrate-Sound : (b : BaseIntegration) (p : Progress) → Sound p → SoundEnd (integrate env b p)
    integrate-Sound unresolved p h =
        rw (clean p.clock) (record { asks = h.asks; covered = h.covered })
    integrate-Sound current p h =
        push-Sound (tick p) (record { asks = h.asks; covered = h.covered })
    integrate-Sound (brought_in m) p h =
        push-Sound _ (record { asks = h.asks; covered = λ e. absurd (cc (e)) })

    attempt-Sound : (p : Progress) → Sound p → SoundEnd (run_attempt env p)
    unfolding run_attempt
    attempt-Sound p h =
        integrate-Sound (integration env (check_local_merge env p.clock) (suc p.clock)) _
          (record { asks = h.asks; covered = h.covered })

    conclude-Sound :
        (end : AttemptEnd) (q : Progress) (rest : MergeOutcome × Progress)
        → Sound q
        → SoundEnd rest
        → SoundEnd (conclude env end q rest)
    conclude-Sound merged q rest h k = h
    conclude-Sound retry q rest h k = k
    conclude-Sound give_up q rest h k = h
    conclude-Sound (red_proof r) q rest h k = h

    loop-Sound : (n : ℕ) (p : Progress) → Sound p → SoundEnd (merge_loop env n p)
    unfolding merge_loop
    loop-Sound zero p h = h
    loop-Sound (suc n) p h =
        conclude-Sound (run_attempt env p).0 (run_attempt env p).1
          (merge_loop env n (run_attempt env p).1) (attempt-Sound p h)
          (loop-Sound n (run_attempt env p).1 (attempt-Sound p h))

    -- If no integration that fails leaves the base merged in, then whatever git, the resolver, the scenarios and the forge
    -- answer: every time the forge is asked to merge, the scenarios have passed since the base branch was last brought in,
    -- if it ever was.
    pub merge_with_conflict_resolution_proven :
        asks_are_proven (merge_with_conflict_resolution env).1.trace ≡ true
    unfolding merge_with_conflict_resolution
    merge_with_conflict_resolution_proven =
        (loop-Sound 3 start (record { asks = refl; covered = λ e. refl })).asks
