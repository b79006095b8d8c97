-- ===== src/Retry/Loop.antt =====
-- `retryWithResolution`. Costs are floating-point sums and are left out.
use ai_dev_workflow.Prelude.{Bool, true, false, List, [], ℕ, zero, suc, ◌+◌, if◌then◌else◌, ltb}

-- What one round of the loop meets: the run, and the resolver that a failing run is handed to. The
-- flags of a compaction are false where no handler of compactions is configured.
pub record Round (F : Type 0) : Type 0 where
  pub compacted : Bool
  pub success : Bool
  pub passed : Bool
  pub failures : List F
  pub resolver_compacted : Bool

pub record RetryConfig : Type 0 where
  pub max_retries : ℕ
  pub max_context_resets : ℕ

pub record RetryState (F : Type 0) : Type 0 where
  pub retry_count : ℕ
  pub context_reset_count : ℕ
  pub last_failures : List F

pub record RetryResult (F : Type 0) : Type 0 where
  pub passed : Bool
  pub total_retries : ℕ
  pub failures : List F
  pub context_reset_count : ℕ

-- `threw` is the error that too many compactions raise.
pub data LoopEnd (F : Type 0) : Type 0 where
  returned : RetryResult F → LoopEnd F
  threw out_of_fuel : LoopEnd F

module _ {F : Type 0} (config : RetryConfig) (rounds : ℕ → Round F) where
  abbrev pub exhausted : RetryState F → LoopEnd F
  exhausted s = returned (record {
    passed = false;
    total_retries = s.retry_count;
    failures = s.last_failures;
    context_reset_count = s.context_reset_count;
  })

  abbrev pub passed_in : RetryState F → LoopEnd F
  passed_in s = returned (record {
    passed = true;
    total_retries = s.retry_count;
    failures = [];
    context_reset_count = s.context_reset_count;
  })

  abbrev pub retried : RetryState F → RetryState F
  retried s = record s { retry_count = suc s.retry_count }

  abbrev pub reset_in : RetryState F → RetryState F
  reset_in s = record s { context_reset_count = suc s.context_reset_count }

  abbrev pub with_failures : RetryState F → List F → RetryState F
  with_failures s fs = record s { last_failures = fs }

  -- The loop from its `n`-th round on; the number beside the end counts the rounds that ran.
  unfoldable pub retry_loop : ℕ → ℕ → RetryState F → LoopEnd F × ℕ
  retry_loop zero n s =
      if ltb s.retry_count config.max_retries then (out_of_fuel, n) else (exhausted s, n)
  retry_loop (suc fuel) n s =
      let r = rounds n in
      let failed = with_failures s r.failures in
      let after_reset = retry_loop fuel (suc n) (reset_in s) in
      let after_failure = retry_loop fuel (suc n) (retried s) in
      let after_resolver_reset = retry_loop fuel (suc n) (reset_in failed) in
      let after_resolution = retry_loop fuel (suc n) (retried failed) in
      let too_many = ltb config.max_context_resets (suc s.context_reset_count) in
      if ltb s.retry_count config.max_retries
      then if r.compacted
        then if too_many then (threw, suc n) else after_reset
        else if r.success
        then if r.passed
          then (passed_in s, suc n)
          else if r.resolver_compacted
          then if too_many then (threw, suc n) else after_resolver_reset
          else after_resolution
        else after_failure
      else (exhausted s, n)

  -- Each round spends a retry or a reset, and one reset more than allowed throws.
  abbrev pub enough_fuel : ℕ
  enough_fuel = config.max_retries + config.max_context_resets

  -- `retryWithResolution`
  unfoldable pub retry_with_resolution : LoopEnd F × ℕ
  unfolding retry_loop
  retry_with_resolution =
      retry_loop enough_fuel 0
        (record { retry_count = 0; context_reset_count = 0; last_failures = [] })
