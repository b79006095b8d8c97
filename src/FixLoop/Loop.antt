-- ===== src/FixLoop/Loop.antt =====
-- `runStaticCheckFixLoop`. What the fix agent changes in a round, and what the checks answer after it, come from
-- outside; the trace holds what was done with each round, newest first.
use ai_dev_workflow.Prelude.{
  Bool, true, false, List, [], ◌∷◌, ℕ, zero, suc, String, ◌==◌, text_eq, if◌then◌else◌, keep,
}
use ai_dev_workflow.Checks.{CheckVerdict, is_failed, combined_check_output}
use ai_dev_workflow.Guard.{
  GuardRejection, FixRoundGuardConfig, accepted, rejected, evaluate_fix_round,
}

pub data FixLoopStall : Type 0 where
  identical_output rejected_round : FixLoopStall

pub data RoundEvent : Type 0 where
  kept discarded : ℕ → RoundEvent

-- The calls of a round that may throw. `discard` throws where it cannot revert the round. The error of any of them ends
-- the loop.
pub data RoundCall : Type 0 where
  fix keep_round discard_round check : RoundCall

pub data FixLoopResult : Type 0 where
  green : List CheckVerdict → ℕ → FixLoopResult
  stalled : FixLoopStall → List CheckVerdict → List GuardRejection → ℕ → FixLoopResult
  threw : RoundCall → ℕ → FixLoopResult
  out_of_fuel : FixLoopResult

pub record FixRounds : Type 0 where
  pub diff_of : ℕ → String
  pub run_checks : ℕ → List CheckVerdict
  pub fails : RoundCall → ℕ → Bool

abbrev pub failed_checks : List CheckVerdict → List CheckVerdict
failed_checks verdicts = keep is_failed verdicts

abbrev pub is_empty {ℓ} : {A : Type ℓ} → List A → Bool
is_empty [] = true
is_empty (x ∷ xs) = false

abbrev pub is_clean : List CheckVerdict → Bool
is_clean verdicts = is_empty (failed_checks verdicts)

module _ (rounds : FixRounds) (config : FixRoundGuardConfig) where
  -- `runRound` for a rejected change: it is discarded, and the loop ends.
  abbrev pub discard :
      ℕ
      → List CheckVerdict
      → List GuardRejection
      → List RoundEvent
      → FixLoopResult × List RoundEvent
  discard round verdicts reasons trace =
      if rounds.fails discard_round round
      then (threw discard_round round, trace)
      else (stalled rejected_round (failed_checks verdicts) reasons round, discarded round ∷ trace)

  -- The loop before round `round`, with the verdicts so far.
  unfoldable pub fix_loop :
      ℕ → ℕ → List CheckVerdict → List RoundEvent → FixLoopResult × List RoundEvent
  fix_loop zero round verdicts trace =
      if is_clean verdicts then (green verdicts round, trace) else (out_of_fuel, trace)
  fix_loop (suc fuel) round verdicts trace =
      let next = rounds.run_checks (suc round) in
      let again = fix_loop fuel (suc round) next (kept (suc round) ∷ trace) in
      if is_clean verdicts
      then (green verdicts round, trace)
      else if rounds.fails fix (suc round)
      then (threw fix (suc round), trace)
      else elim (evaluate_fix_round config (rounds.diff_of (suc round))) [
        | rejected reasons ↦ discard (suc round) verdicts reasons trace
        | accepted ↦
            if rounds.fails keep_round (suc round)
            then (threw keep_round (suc round), trace)
            else if rounds.fails check (suc round)
            then (threw check (suc round), kept (suc round) ∷ trace)
            else if combined_check_output next == combined_check_output verdicts
            then (
              stalled identical_output (failed_checks next) [] (suc round),
              kept (suc round) ∷ trace,
            )
            else again
      ]

  unfoldable pub run_static_check_fix_loop : ℕ → FixLoopResult × List RoundEvent
  unfolding fix_loop
  run_static_check_fix_loop fuel =
      let looped = fix_loop fuel 0 (rounds.run_checks 0) [] in
      if rounds.fails check 0 then (threw check 0, []) else looped
