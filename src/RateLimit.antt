-- ===== src/RateLimit.antt =====
-- adws/core/rateLimitWaitPolicy.ts, and the wait of adws/core/phaseRunner.ts: a rate limit that is ridden
-- out in the process.
pub mod Sleep
use ai_dev_workflow.Prelude.{
  ◌≡◌, ◌⊎◌, Bool, true, false, ◌||◌, not, Option, none, some, List, [], ◌∷◌, ℕ, zero, suc, ◌+◌, ◌-◌,
  ◌*◌, ◌≤◌, ◌<◌, String, ◌==◌, text_eq, if◌then◌else◌, ltb, leb, is_some_of, In, arith,
}

-- `resetsAt` is in seconds; a value that is missing or not finite is `none`.
pub record RateLimitFacts : Type 0 where
  pub rate_limit_type : Option String
  pub resets_at : Option ℕ

-- `wait_in_process` carries the milliseconds of `until`.
pub data RateLimitWaitDecision : Type 0 where
  wait_in_process : ℕ → RateLimitWaitDecision
  enqueue : Option ℕ → RateLimitWaitDecision

abbrev pub min_rate_limit_wait_ms : ℕ
min_rate_limit_wait_ms = 60000

abbrev pub max_sleep_slice_ms : ℕ
max_sleep_slice_ms = 60000

-- The last instant of a `Date`, in milliseconds; beyond it `getTime` is NaN, and no comparison with it holds.
abbrev pub max_time : ℕ
max_time = 8640000000000000

abbrev pub is_later : ℕ → ℕ → Bool
is_later reset_instant now = if leb reset_instant max_time then ltb now reset_instant else false

abbrev pub wait_for_reset : Option ℕ → ℕ → ℕ → RateLimitWaitDecision
wait_for_reset none now min_wait_ms = enqueue none
wait_for_reset (some resets_at) now min_wait_ms =
    if is_later (resets_at * 1000) now
    then wait_in_process (resets_at * 1000)
    else wait_in_process (now + min_wait_ms)

unfoldable pub decide_rate_limit_wait : RateLimitFacts → ℕ → ℕ → RateLimitWaitDecision
decide_rate_limit_wait facts now min_wait_ms =
    if not (is_some_of facts.rate_limit_type "five_hour")
    then enqueue facts.resets_at
    else wait_for_reset facts.resets_at now min_wait_ms

abbrev pub smaller : ℕ → ℕ → ℕ
smaller a b = if ltb b a then b else a

-- The time when a sleep is over, and the sleeps asked for, the first one first.
abbrev pub Slept : Type 0
Slept = ℕ × List ℕ

abbrev pub after_sleep : ℕ → Option Slept → Option Slept
after_sleep ms none = none
after_sleep ms (some (now, asked)) = some (now, ms ∷ asked)

-- `elapse now ms` is what the clock reads after a sleep of `ms` that began at `now`.
module _ (elapse : ℕ → ℕ → ℕ) where
  -- The loop of `sleepUntil`, on fuel.
  unfoldable pub sleep_loop : ℕ → ℕ → ℕ → ℕ → Option Slept
  sleep_loop zero slice until now = if leb until now then some (now, []) else none
  sleep_loop (suc fuel) slice until now =
      let ms = smaller (until - now) slice in
      let rest = sleep_loop fuel slice until (elapse now ms) in
      if leb until now then some (now, []) else after_sleep ms rest

  -- One round for each millisecond that is left.
  unfoldable pub sleep_until : ℕ → ℕ → ℕ → Option Slept
  unfolding sleep_loop
  sleep_until until max_slice_ms now =
      sleep_loop (until - now) (if ltb 1 max_slice_ms then max_slice_ms else 1) until now

  -- `waitForRateLimitReset` on the system clock, which it reads twice: at `asked`, for the time that is
  -- left, and at `began`, when the sleep starts.
  unfoldable pub wait_for_rate_limit_reset : ℕ → ℕ → ℕ → Option Slept
  unfolding sleep_until
  wait_for_rate_limit_reset until asked began =
      sleep_until (began + (until - asked)) max_sleep_slice_ms began
