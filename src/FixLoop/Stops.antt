-- ===== src/FixLoop/Stops.antt =====
-- What the loop of fixes keeps, how it ends, and that it ends.
use ai_dev_workflow.Prelude.{
  ◌≡◌, ◌≢◌, refl, if_rule, true, false, List, [], ◌∷◌, ℕ, zero, suc, ◌+◌, text_eq, eq_iff, arith,
}
use mathlib.Core.Path.{subst}
use ai_dev_workflow.Checks.{combined_check_output}
use ai_dev_workflow.Guard.{FixRoundGuardConfig, accepted, rejected, evaluate_fix_round}
use ai_dev_workflow.FixLoop.Loop.{
  FixLoopResult, green, stalled, threw, out_of_fuel, identical_output, rejected_round, RoundEvent,
  fix, keep_round, discard_round, check, kept, discarded, FixRounds, failed_checks, is_clean,
  fix_loop, run_static_check_fix_loop,
}

module _ (rounds : FixRounds) (config : FixRoundGuardConfig) where
  -- Up to round `n` no call threw, no checks were clean, each change was accepted, and each round changed the output.
  abbrev pub ProgressTo : ℕ → Type 0
  ProgressTo zero = rounds.fails check 0 ≡ false
  ProgressTo (suc n) =
      ProgressTo n
      × (is_clean (rounds.run_checks n) ≡ false)
      × (rounds.fails fix (suc n) ≡ false)
      × (evaluate_fix_round config (rounds.diff_of (suc n)) ≡ accepted)
      × (rounds.fails keep_round (suc n) ≡ false)
      × (rounds.fails check (suc n) ≡ false)
      × (combined_check_output (rounds.run_checks (suc n))
          ≢ combined_check_output (rounds.run_checks n))

  abbrev pub all_kept : ℕ → List RoundEvent
  all_kept zero = []
  all_kept (suc n) = kept (suc n) ∷ all_kept n

  -- How the loop ends, by its answer and the trace of its rounds.
  abbrev pub IsEnd : ℕ → FixLoopResult × List RoundEvent → Type 0
  IsEnd fuel (green verdicts n, trace) =
      (verdicts ≡ rounds.run_checks n)
      × (is_clean verdicts ≡ true)
      × (trace ≡ all_kept n)
      × ProgressTo n
  IsEnd fuel (stalled identical_output failed reasons zero, trace) = ⊥
  IsEnd fuel (stalled identical_output failed reasons (suc n), trace) =
      (failed ≡ failed_checks (rounds.run_checks (suc n)))
      × (is_clean (rounds.run_checks n) ≡ false)
      × (evaluate_fix_round config (rounds.diff_of (suc n)) ≡ accepted)
      × (combined_check_output (rounds.run_checks (suc n))
          ≡ combined_check_output (rounds.run_checks n))
      × (trace ≡ all_kept (suc n))
      × ProgressTo n
  IsEnd fuel (stalled rejected_round failed reasons zero, trace) = ⊥
  IsEnd fuel (stalled rejected_round failed reasons (suc n), trace) =
      (failed ≡ failed_checks (rounds.run_checks n))
      × (is_clean (rounds.run_checks n) ≡ false)
      × (evaluate_fix_round config (rounds.diff_of (suc n)) ≡ rejected reasons)
      × (trace ≡ discarded (suc n) ∷ all_kept n)
      × ProgressTo n
  IsEnd fuel (threw check zero, trace) = (rounds.fails check 0 ≡ true) × (trace ≡ [])
  IsEnd fuel (threw check (suc n), trace) =
      (rounds.fails check (suc n) ≡ true)
      × (is_clean (rounds.run_checks n) ≡ false)
      × (evaluate_fix_round config (rounds.diff_of (suc n)) ≡ accepted)
      × (trace ≡ all_kept (suc n))
      × ProgressTo n
  IsEnd fuel (threw fix zero, trace) = ⊥
  IsEnd fuel (threw fix (suc n), trace) =
      (rounds.fails fix (suc n) ≡ true)
      × (is_clean (rounds.run_checks n) ≡ false)
      × (trace ≡ all_kept n)
      × ProgressTo n
  IsEnd fuel (threw keep_round zero, trace) = ⊥
  IsEnd fuel (threw keep_round (suc n), trace) =
      (rounds.fails keep_round (suc n) ≡ true)
      × (is_clean (rounds.run_checks n) ≡ false)
      × (evaluate_fix_round config (rounds.diff_of (suc n)) ≡ accepted)
      × (trace ≡ all_kept n)
      × ProgressTo n
  IsEnd fuel (threw discard_round zero, trace) = ⊥
  IsEnd fuel (threw discard_round (suc n), trace) =
      (rounds.fails discard_round (suc n) ≡ true)
      × (is_clean (rounds.run_checks n) ≡ false)
      × (evaluate_fix_round config (rounds.diff_of (suc n)) ≢ accepted)
      × (trace ≡ all_kept n)
      × ProgressTo n
  IsEnd fuel (out_of_fuel, trace) = ProgressTo fuel

  fix_loop_ends :
      (fuel round : ℕ)
      → ProgressTo round
      → IsEnd
          (fuel + round)
          (fix_loop rounds config fuel round (rounds.run_checks round) (all_kept round))
  unfolding fix_loop
  fix_loop_ends zero round h = ground arith
  fix_loop_ends (suc fuel) round h = ground (
    arith,
    eq_iff (combined_check_output (rounds.run_checks (suc round)))
        (combined_check_output (rounds.run_checks round)),
    fix_loop_ends fuel (suc round),
  )

  -- How a run of the loop ends: green after rounds that were all accepted, kept in their order and each changed the
  -- output of the checks; or stalled at the first round that left the output as it was, which is kept; or at the
  -- first change that the guard rejects, which is discarded, with the guard's reasons; or with the error of the first
  -- call that throws, behind such rounds: the fix, the keep of an accepted change, the discard of a rejected one, or the
  -- checks, whose round is then kept already. It uses up its fuel only on rounds that all made progress.
  pub run_static_check_fix_loop_lem :
      (fuel : ℕ) → IsEnd fuel (run_static_check_fix_loop rounds config fuel)
  unfolding run_static_check_fix_loop
  run_static_check_fix_loop_lem fuel =
      if_rule (IsEnd fuel) (rounds.fails check 0) _ _ (λ e. (e, refl))
        (λ e.
          subst (λ k. IsEnd k (fix_loop rounds config fuel 0 (rounds.run_checks 0) []))
            (omega arith) (fix_loop_ends fuel 0 e))
