-- ===== src/Tests/RateLimitRuns.antt =====
-- adws/core/rateLimitWaitPolicy.ts: limits that are waited out and limits that are queued.
use ai_dev_workflow.Prelude.{◌≡◌, refl, ◌+◌, none, some, [], ◌∷◌, ℕ, text_eq}
use ai_dev_workflow.RateLimit.{
  RateLimitFacts, wait_in_process, enqueue, decide_rate_limit_wait, min_rate_limit_wait_ms,
  sleep_loop, sleep_until,
}

abbrev five_hour : RateLimitFacts
five_hour = record { rate_limit_type = some "five_hour"; resets_at = some 200 }

-- A timer that fires on time.
abbrev on_time : ℕ → ℕ → ℕ
on_time now ms = now + ms

waits_for_reset :
    decide_rate_limit_wait five_hour 60000 min_rate_limit_wait_ms ≡ wait_in_process 200000
unfolding decide_rate_limit_wait
waits_for_reset = refl

stale_reset_waits_a_minute :
    decide_rate_limit_wait five_hour 300000 min_rate_limit_wait_ms ≡ wait_in_process 360000
unfolding decide_rate_limit_wait
stale_reset_waits_a_minute = refl

weekly_limit_is_queued :
    decide_rate_limit_wait (record five_hour { rate_limit_type = some "seven_day" }) 0 60000
    ≡ enqueue (some 200)
unfolding decide_rate_limit_wait
weekly_limit_is_queued = refl

no_reset_is_queued :
    decide_rate_limit_wait (record five_hour { resets_at = none }) 0 60000 ≡ enqueue none
unfolding decide_rate_limit_wait
no_reset_is_queued = refl

three_slices : sleep_until on_time 10 4 0 ≡ some (10, 4 ∷ 4 ∷ 2 ∷ [])
unfolding sleep_until sleep_loop
three_slices = refl
