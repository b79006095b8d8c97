-- ===== src/AutoMerge/Resolver.antt =====
-- A resolver that fails after it has committed its merge.
use ai_dev_workflow.Prelude.{
  Bool-cases, List, if◌then◌else◌, inl, inr, tests, ◌≡◌, refl, ap, ◌≢◌, true, false, none, some, [],
  ◌∷◌, ℕ, suc, String, text_eq, arith,
}
use ai_dev_workflow.AutoMerge.World.{
  MergeEvent, base_brought_in, current, unresolved, Progress, clean, conflicts, pushed, asked,
  landed, MergeEnv, check_local_merge, resolve_conflicts_via_agent, merge_base_in, bring_base_in,
}
use ai_dev_workflow.AutoMerge.Attempt.{
  merged, retry, start, merge_with_stale_retry, ask_forge_to_merge, prove_merged_in_base,
  push_and_prove, run_attempt, merge_loop, merge_with_conflict_resolution,
}

module _ (env : MergeEnv) (a b : String) where
  check_conflicts :
      (t : ℕ)
      → env.fetch_ok t ≡ true
      → env.dry_merge_ok t ≡ false
      → check_local_merge env t ≡ conflicts
  unfolding check_local_merge
  check_conflicts t f d = rw (f, d) refl

  check_clean :
      (t : ℕ) → env.fetch_ok t ≡ true → env.dry_merge_ok t ≡ true → check_local_merge env t ≡ clean
  unfolding check_local_merge
  check_clean t f d = rw (f, d) refl

  resolver_fails :
      (t : ℕ)
      → env.head_short t ≡ some a
      → env.real_merge_ok t ≡ false
      → env.resolver_ok t ≡ false
      → bring_base_in env true t ≡ unresolved
  unfolding bring_base_in merge_base_in resolve_conflicts_via_agent
  resolver_fails t h m r = ground arith

  nothing_to_merge :
      (t : ℕ)
      → env.head_short t ≡ some b
      → env.real_merge_ok t ≡ true
      → env.head_short (suc t) ≡ some b
      → bring_base_in env false t ≡ current
  unfolding bring_base_in merge_base_in
  nothing_to_merge t h m h' = grind tests

  -- The merge that the failed resolver may have committed.
  abbrev pub left_in : List MergeEvent
  left_in = if env.base_left_in 1 then base_brought_in ∷ [] else []

  abbrev after_first : Progress
  after_first = record start {
    trace = left_in;
    clock = 2;
    local_merge_check = conflicts;
    conflict_resolution_ran = true;
  }

  first_attempt :
      check_local_merge env 0 ≡ conflicts
      → bring_base_in env true 1 ≡ unresolved
      → run_attempt env start ≡ (retry, after_first)
  unfolding run_attempt
  first_attempt c u = elim (Bool-cases (env.base_left_in 1)) [
    | inl left ↦ rw (c, u, left) refl
    | inr kept ↦ rw (c, u, kept) refl
  ]

  abbrev after_second : Progress
  after_second = record start {
    merge_attempts = 1;
    clock = 7;
    local_merge_check = clean;
    conflict_resolution_ran = true;
    trace = landed ∷ asked ∷ pushed ∷ left_in;
  }

  second_attempt :
      check_local_merge env 2 ≡ clean
      → bring_base_in env false 3 ≡ current
      → env.push_ok 4 ≡ true
      → env.merge_pull_request 5 ≡ none
      → run_attempt env after_first ≡ (merged, after_second)
  unfolding run_attempt push_and_prove prove_merged_in_base ask_forge_to_merge
      merge_with_stale_retry
  second_attempt c u p m = rw (c, u, p, m) refl

  two_attempts :
      run_attempt env start ≡ (retry, after_first)
      → run_attempt env after_first ≡ (merged, after_second)
      → (merge_with_conflict_resolution env).1 ≡ after_second
  unfolding merge_with_conflict_resolution merge_loop
  two_attempts f s = rw (f, s) refl

-- The first attempt finds conflicts and the resolver fails, yet HEAD has moved from `a` to `b` when the
-- second attempt reads it. Where that attempt finds nothing left to merge and the push and the forge
-- accept, the pull request lands without any run of the scenarios, also if the resolver has brought the base in.
pub failed_resolver_lands_unproven :
    (env : MergeEnv) (a b : String)
    → env.fetch_ok 0 ≡ true
    → env.dry_merge_ok 0 ≡ false
    → env.head_short 1 ≡ some a
    → env.real_merge_ok 1 ≡ false
    → env.resolver_ok 1 ≡ false
    → a ≢ b
    → env.fetch_ok 2 ≡ true
    → env.dry_merge_ok 2 ≡ true
    → env.head_short 3 ≡ some b
    → env.real_merge_ok 3 ≡ true
    → env.head_short 4 ≡ some b
    → env.push_ok 4 ≡ true
    → env.merge_pull_request 5 ≡ none
    → (merge_with_conflict_resolution env).1.trace ≡ landed ∷ asked ∷ pushed ∷ left_in env a b
failed_resolver_lands_unproven env a b f0 d0 h1 m1 r1 ne f2 d2 h3 m3 h4 p4 merge5 =
    ap (λ (p : Progress). p.trace)
      (two_attempts env a b
        (first_attempt env a b (check_conflicts env a b 0 f0 d0)
          (resolver_fails env a b 1 h1 m1 r1))
        (second_attempt env a b (check_clean env a b 2 f2 d2) (nothing_to_merge env a b 3 h3 m3 h4)
          p4 merge5))
