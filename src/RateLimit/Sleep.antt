-- ===== src/RateLimit/Sleep.antt =====
-- A wait that is decided ends, and not before the reset.
use ai_dev_workflow.Prelude.{
  ◌≡◌, ◌⊎◌, Option, none, some, List, [], ◌∷◌, ℕ, ◌+◌, ◌*◌, ◌≤◌, ◌<◌, text_eq,
}
use ai_dev_workflow.RateLimit.{max_time, Slept}

-- Each sleep is at least a millisecond and at most a slice.
abbrev pub InSlice : ℕ → List ℕ → Type 0
InSlice slice [] = Unit
InSlice slice (ms ∷ asked) = (1 ≤ ms) × (ms ≤ slice) × InSlice slice asked

-- The sleep is over, at `until` or later.
abbrev pub EndsAfter : ℕ → ℕ → Option Slept → Type 0
EndsAfter slice until none = ⊥
EndsAfter slice until (some (now, asked)) = (until ≤ now) × InSlice slice asked

-- A timer may fire early, but not before a millisecond has passed.
abbrev pub MovesOn : (ℕ → ℕ → ℕ) → Type 0
MovesOn elapse = (now ms : ℕ) → 1 ≤ ms → now < elapse now ms

-- Where a wait ends that is decided at `now`: at a reset that is still to come, or after the least wait.
abbrev pub IsUntil : ℕ → ℕ → ℕ → Option ℕ → Type 0
IsUntil now min_wait_ms until none = ⊥
IsUntil now min_wait_ms until (some resets_at) =
    ((until ≡ resets_at * 1000) × (now < until))
    ⊎ ((until ≡ now + min_wait_ms) × ((resets_at * 1000 ≤ now) ⊎ (max_time < resets_at * 1000)))
