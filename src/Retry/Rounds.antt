-- ===== src/Retry/Rounds.antt =====
-- The loop ends, and what it answers.
use ai_dev_workflow.Prelude.{◌≡◌, ◌⊎◌, true, false, [], ℕ, zero, suc, ◌+◌, ◌≤◌, ◌<◌, arith}
use ai_dev_workflow.Retry.Loop.{
  Round, RetryConfig, RetryState, LoopEnd, returned, threw, out_of_fuel, retried, reset_in,
  with_failures, retry_loop, enough_fuel, retry_with_resolution,
}

module _ {F : Type 0} (config : RetryConfig) (rounds : ℕ → Round F) where
  -- How a run that began in state `s` before round `n` may end after round `m`.
  abbrev EndsWell : LoopEnd F × ℕ → ℕ → RetryState F → Type 0
  EndsWell (returned r, m) n s =
      (r.context_reset_count ≤ config.max_context_resets)
      × (((r.passed ≡ true)
            × (r.total_retries < config.max_retries)
            × (m + s.retry_count + s.context_reset_count
                ≡ suc (n + r.total_retries + r.context_reset_count)))
          ⊎ ((r.passed ≡ false)
              × (r.total_retries ≡ config.max_retries)
              × (m + s.retry_count + s.context_reset_count
                  ≡ n + r.total_retries + r.context_reset_count)))
  EndsWell (threw, m) n s =
      m + s.retry_count + s.context_reset_count
      ≤ suc (n + config.max_retries + config.max_context_resets)
  EndsWell (out_of_fuel, m) n s = ⊥

  loop_ends :
      (fuel n : ℕ) (s : RetryState F)
      → config.max_retries + config.max_context_resets
        ≤ fuel + s.retry_count + s.context_reset_count
      → s.context_reset_count ≤ config.max_context_resets
      → s.retry_count ≤ config.max_retries
      → EndsWell (retry_loop config rounds fuel n s) n s
  unfolding retry_loop
  loop_ends zero n s enough few within = ground arith
  loop_ends (suc fuel) n s enough few within = ground (
    arith,
    loop_ends fuel (suc n) (reset_in config rounds s),
    loop_ends fuel (suc n) (retried config rounds s),
    loop_ends fuel (suc n)
        (reset_in config rounds (with_failures config rounds s (rounds n).failures)),
    loop_ends fuel (suc n)
        (retried config rounds (with_failures config rounds s (rounds n).failures)),
  )

  -- What a run answers, and after how many rounds: a pass before the retries are used up, a failure when
  -- they are, or an error; never more than one round for each retry, each reset and the last try.
  abbrev pub IsAnswer : LoopEnd F × ℕ → Type 0
  IsAnswer (returned r, m) =
      (r.context_reset_count ≤ config.max_context_resets)
      × (((r.passed ≡ true)
            × (r.total_retries < config.max_retries)
            × (m ≡ suc (r.total_retries + r.context_reset_count)))
          ⊎ ((r.passed ≡ false)
              × (r.total_retries ≡ config.max_retries)
              × (m ≡ r.total_retries + r.context_reset_count)))
  IsAnswer (threw, m) = m ≤ suc (config.max_retries + config.max_context_resets)
  IsAnswer (out_of_fuel, m) = ⊥

  ends-IsAnswer :
      (e : LoopEnd F × ℕ)
      → EndsWell e 0 (record { retry_count = 0; context_reset_count = 0; last_failures = [] })
      → IsAnswer e
  ends-IsAnswer (returned r, m) h = ground arith
  ends-IsAnswer (threw, m) h = ground arith
  ends-IsAnswer (out_of_fuel, m) h = h

  -- The loop always ends: it returns a pass with retries left, or a failure after exactly the allowed
  -- retries, with no more context resets than allowed, or it throws; and the rounds that ran are the
  -- retries and resets, plus one for a pass or an error at most.
  pub retry_with_resolution_lem : IsAnswer (retry_with_resolution config rounds)
  unfolding retry_with_resolution
  retry_with_resolution_lem = ends-IsAnswer _ (
      loop_ends (enough_fuel config rounds) 0
        (record { retry_count = 0; context_reset_count = 0; last_failures = [] }) (omega arith)
        (omega arith) (omega arith))
