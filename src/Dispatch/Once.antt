-- ===== src/Dispatch/Once.antt =====
-- A tick launches at most one process for an issue.
use ai_dev_workflow.Prelude.{
  inl, inr, List, [], ◌∷◌, ℕ, ◌+◌, ◌≤◌, ◌==◌, number_eq, if◌then◌else◌, arith,
}
use ai_dev_workflow.Cron.{EligibleIssue}
use ai_dev_workflow.Dispatch.Defs.{Launched, TickWorld, TickEnv, Step, dispatch, dispatch_all}
use ai_dev_workflow.Dispatch.Launches.{issue_of, Adds, Grounds, dispatch_lem}

abbrev pub launches_for : ℕ → List Launched → ℕ
launches_for n [] = 0
launches_for n (l ∷ ls) = (if issue_of l == n then 1 else 0) + launches_for n ls

abbrev pub turns_of : ℕ → List EligibleIssue → ℕ
turns_of n [] = 0
turns_of n (e ∷ es) = (if e.issue.number == n then 1 else 0) + turns_of n es

module _ (env : TickEnv) (n : ℕ) where
  turn-Adds :
      (e : EligibleIssue) (w : TickWorld) (out : Step × TickWorld)
      → Adds env (Grounds env e w) w out
      → launches_for n out.1.launches
        ≤ (if e.issue.number == n then 1 else 0) + launches_for n w.launches
  turn-Adds e w out (inl same) = rw same (ground arith)
  turn-Adds e w out (inr (l, more, g)) = rw more (ground arith)

  -- In a tick, each turn of an issue among the candidates launches one process at most, so that an issue that stands
  -- once among them is launched once at most, however the tick ends.
  pub dispatch_all-once :
      (es : List EligibleIssue) (w : TickWorld)
      → launches_for n (dispatch_all env es w).1.launches
        ≤ turns_of n es + launches_for n w.launches
  unfolding dispatch_all
  dispatch_all-once [] w = omega arith
  dispatch_all-once (e ∷ es) w = ground (
    arith,
    turn-Adds e w (dispatch env e w) (dispatch_lem env e w),
    dispatch_all-once es (dispatch env e w).1,
  )
