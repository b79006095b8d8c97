-- ===== src/AutoMerge/Bounds.antt =====
-- How often the forge is asked, and what a success is.
use ai_dev_workflow.Prelude.{
  ◌≡◌, refl, sym, ap, ◌∙◌, inl, inr, Bool, true, false, ◌||◌, Option, none, some, List, [], ◌∷◌, ℕ,
  zero, suc, ◌+◌, ◌*◌, ◌≤◌, length, Bool-cases, arith,
}
use ai_dev_workflow.AutoMerge.World.{
  MergedInBase, PostMergeVerdict, green, red, BaseIntegration, current, unresolved, brought_in,
  MergeEvent, pushed, asked, landed, MergeEnv, Progress, tick, log, check_local_merge,
  base_moved_past,
}
use ai_dev_workflow.AutoMerge.Attempt.{
  StepKind, step_merged, step_conflicts, step_stale_retries_exhausted, step_base_moved, AttemptEnd,
  merged, retry, give_up, red_proof, stale_merge_retry_delays_ms, refusal_of,
  merge_with_stale_retry, end_of_step, ask_forge_to_merge, after_rerun, prove, prove_merged_in_base,
  then_ask, push_and_prove, integrate, integration, run_attempt, MergeOutcome, conclude, merge_loop,
  start, merge_with_conflict_resolution,
}

-- The calls to the forge on the trace.
abbrev pub asks : List MergeEvent → ℕ
asks [] = 0
asks (asked ∷ es) = suc (asks es)
asks (e ∷ es) = asks es

abbrev pub has_landed : List MergeEvent → Bool
has_landed [] = false
has_landed (landed ∷ es) = true
has_landed (e ∷ es) = has_landed es

abbrev is_step_merged : StepKind → Bool
is_step_merged step_merged = true
is_step_merged _ = false

abbrev pub is_merged : AttemptEnd → Bool
is_merged merged = true
is_merged _ = false

-- From `p` to `q` the forge was asked at most `n` times, each call counted, and the pull request landed
-- exactly if `done`.
record Within (n : ℕ) (p : Progress) (done : Bool) (q : Progress) : Type 0 where
  counted : q.merge_attempts + asks p.trace ≡ p.merge_attempts + asks q.trace
  bounded : asks q.trace ≤ asks p.trace + n
  landing : has_landed q.trace ≡ (has_landed p.trace || done)

module _ (p q : Progress) where
  -- A way from `p` on which the forge is not asked and nothing lands.
  record IsSilent : Type 0 where
    no_count : q.merge_attempts ≡ p.merge_attempts
    no_asks : asks q.trace ≡ asks p.trace
    no_landing : has_landed q.trace ≡ has_landed p.trace

  silent-Within : (n : ℕ) → IsSilent → Within n p false q
  silent-Within n i = record {
    counted = omega (arith, i.no_count, i.no_asks);
    bounded = omega (arith, i.no_asks);
    landing = ground (arith, i.no_landing);
  }

  after_silent-Within :
      {n : ℕ} {done : Bool} {r : Progress} → IsSilent → Within n q done r → Within n p done r
  after_silent-Within {done = done} i h = record {
    counted = omega (arith, h.counted, i.no_count, i.no_asks);
    bounded = omega (arith, h.bounded, i.no_asks);
    landing = h.landing ∙ ap (λ b. b || done) i.no_landing;
  }

abbrev silent :
    {p q : Progress}
    → q.merge_attempts ≡ p.merge_attempts
    → asks q.trace ≡ asks p.trace
    → has_landed q.trace ≡ has_landed p.trace
    → IsSilent p q
silent a b c = record { no_count = a; no_asks = b; no_landing = c }

wider-Within :
    {n : ℕ} {p q : Progress} {done : Bool} (m : ℕ) → Within n p done q → Within (n + m) p done q
wider-Within m h = record {
  counted = h.counted;
  bounded = omega (arith, h.bounded);
  landing = h.landing;
}

module _ (env : MergeEnv) where
  stale-Within :
      (delays : List ℕ) (p : Progress)
      → let r = merge_with_stale_retry env delays p in
        Within (suc (length delays)) p (is_step_merged r.0) r.1
  unfolding merge_with_stale_retry
  stale-Within [] p = record {
    counted = ground arith;
    bounded = ground arith;
    landing = ground arith;
  }
  stale-Within (d ∷ ds) p =
      let h = stale-Within ds (tick (refusal_of env p)) in
      let k = stale-Within ds (refusal_of env p) in
      record {
        counted = ground (arith, h.counted, k.counted);
        bounded = ground (arith, h.bounded, k.bounded);
        landing = ground (arith, h.landing, k.landing);
      }

  ask_forge-Within :
      (p : Progress) → let r = ask_forge_to_merge env p in Within 5 p (is_merged r.0) r.1
  unfolding ask_forge_to_merge
  ask_forge-Within p =
      let h = stale-Within stale_merge_retry_delays_ms p in
      record {
        counted = h.counted;
        bounded = h.bounded;
        landing =
            h.landing
            ∙ ap (λ b. has_landed p.trace || b)
                (same (merge_with_stale_retry env stale_merge_retry_delays_ms p).0);
      }
    where
      same : (k : StepKind) → is_step_merged k ≡ is_merged (end_of_step env k)
      same step_merged = refl
      same step_conflicts = refl
      same step_stale_retries_exhausted = refl
      same step_base_moved = refl

  abbrev EndsWithin : Progress → AttemptEnd × Progress → Type 0
  EndsWithin p (end, q) = Within 5 p (is_merged end) q

  rerun-Within :
      (m : MergedInBase) (v : PostMergeVerdict) (p : Progress)
      → EndsWithin p (then_ask env (after_rerun env m v p))
  rerun-Within m (red failures) p = silent-Within p _ 5 (silent refl refl refl)
  rerun-Within m green p = elim (Bool-cases (base_moved_past env (suc p.clock))) [
    | inl moved ↦ rw moved (silent-Within p _ 5 (silent refl refl refl))
    | inr stayed ↦ rw stayed (after_silent-Within p _ (silent refl refl refl) (ask_forge-Within _))
  ]

  prove-Within :
      (o : Option MergedInBase) (p : Progress) → EndsWithin p (then_ask env (prove env o p))
  prove-Within none p = ask_forge-Within p
  prove-Within (some m) p = rerun-Within m (env.rerun_scenarios p.clock) p

  push-Within : (p : Progress) → EndsWithin p (push_and_prove env p)
  unfolding push_and_prove prove_merged_in_base
  push-Within p = elim (Bool-cases (env.push_ok p.clock)) [
    | inl ok ↦
        rw ok
          (after_silent-Within p _ (silent refl refl refl) (prove-Within p.untested (log pushed p)))
    | inr failed ↦ rw failed (silent-Within p _ 5 (silent refl refl refl))
  ]

  integrate-Within : (b : BaseIntegration) (p : Progress) → EndsWithin p (integrate env b p)
  integrate-Within unresolved p = elim (Bool-cases (env.base_left_in p.clock)) [
    | inl left ↦ rw left (silent-Within p _ 5 (silent refl refl refl))
    | inr kept ↦ rw kept (silent-Within p _ 5 (silent refl refl refl))
  ]
  integrate-Within current p =
      after_silent-Within p _ (silent refl refl refl) (push-Within (tick p))
  integrate-Within (brought_in m) p =
      after_silent-Within p _ (silent refl refl refl) (push-Within _)

  attempt-Within : (p : Progress) → EndsWithin p (run_attempt env p)
  unfolding run_attempt
  attempt-Within p =
      after_silent-Within p _ (silent refl refl refl)
        (integrate-Within (integration env (check_local_merge env p.clock) (suc p.clock)) _)

  conclude-Within :
      (n : ℕ) (p : Progress) (end : AttemptEnd) (q : Progress) (rest : MergeOutcome × Progress)
      → EndsWithin p (end, q)
      → Within n q rest.0.success rest.1
      → let r = conclude env end q rest in Within (5 + n) p r.0.success r.1
  conclude-Within n p merged q rest h k = wider-Within n h
  conclude-Within n p retry q rest h k = record {
    counted = omega (arith, h.counted, k.counted);
    bounded = omega (arith, h.bounded, k.bounded);
    landing = ground (arith, h.landing, k.landing);
  }
  conclude-Within n p give_up q rest h k = wider-Within n h
  conclude-Within n p (red_proof r) q rest h k = wider-Within n h

  loop-Within :
      (n : ℕ) (p : Progress) → let r = merge_loop env n p in Within (5 * n) p r.0.success r.1
  unfolding merge_loop
  loop-Within zero p = record { counted = refl; bounded = omega arith; landing = ground arith }
  loop-Within (suc n) p =
      let h =
        conclude-Within (5 * n) p (run_attempt env p).0 (run_attempt env p).1
          (merge_loop env n (run_attempt env p).1) (attempt-Within p)
          (loop-Within n (run_attempt env p).1) in
      record { counted = h.counted; bounded = omega (arith, h.bounded); landing = h.landing }

  -- Whatever the calls answer: the run reports success exactly if the forge merged the pull request, it
  -- counts every call to the forge, and it makes at most 15 of them.
  pub merge_with_conflict_resolution_lem :
      let (outcome, p) = merge_with_conflict_resolution env in
      (outcome.success ≡ has_landed p.trace)
      × (p.merge_attempts ≡ asks p.trace)
      × (p.merge_attempts ≤ 15)
  unfolding merge_with_conflict_resolution
  merge_with_conflict_resolution_lem =
      let h = loop-Within 3 start in
      (sym h.landing, ground (arith, h.counted), ground (arith, h.counted, h.bounded))
