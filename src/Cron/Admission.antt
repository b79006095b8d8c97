-- ===== src/Cron/Admission.antt =====
-- Which issues `evaluateIssue` lets through, and as what.
use ai_dev_workflow.Prelude.{
  ◌≡◌, refl, sym, ap, ◌∙◌, ◌≢◌, ◌⊎◌, ◌↔◌, inl, inr, true, false, Option, none, some, String, ◌==◌,
  text_eq, number_eq, Bool-cases, arith, eq_iff,
}
use ai_dev_workflow.Stage.{
  StageClass, active, retriable, is_active, is_retriable, classify_stage_string, retriable_iff,
}
use ai_dev_workflow.Process.{is_truthy}
use ai_dev_workflow.Cron.Labels.{
  LabelRecoveryResult, ineligible, eligible_as, read_adw_label_names, is_none,
}
use ai_dev_workflow.Cron.Stages.{StageResolution}
use ai_dev_workflow.Cron.Filter.{
  CronIssue, spawn, merge, eligible, Tick, of_label_result, of_label_recovery, contains, is_parked,
  evaluate_fresh, evaluate_staged, in_grace, evaluate_by_stage, evaluate_issue,
}

module _ (tick : Tick) (issue : CronIssue) where
  abbrev pub resolved : StageResolution
  resolved = tick.resolve_stage issue

  -- Neither cancelled in this cycle nor opted out.
  abbrev pub IsOpen : Type 0
  IsOpen =
      (contains tick.cancelled_this_cycle issue.number ≡ false)
      × ((read_adw_label_names issue.labels).opt_out ≡ false)

  staged_merge : (s : String) (id : Option String) → evaluate_staged resolved s ≢ eligible merge id
  unfolding evaluate_staged
  staged_merge s id h = ground arith

  recovery_merge :
      (o : Option (CronIssue → LabelRecoveryResult)) (id : Option String)
      → of_label_recovery o issue ≢ eligible merge id
  recovery_merge none id h = ground arith
  recovery_merge (some recovery) id h = ground arith

  fresh_merge : (id : Option String) → evaluate_fresh tick issue resolved ≢ eligible merge id
  unfolding evaluate_fresh
  fresh_merge id h = ground (arith, recovery_merge tick.label_recovery id)

  by_stage-merge :
      (o id : Option String)
      → (evaluate_by_stage tick issue resolved o ≡ eligible merge id)
        ↔ ((o ≡ some "awaiting_merge") × (resolved.adw_id ≡ id) × (is_truthy id ≡ true))
  unfolding evaluate_by_stage
  by_stage-merge none id = ground (arith, fresh_merge id)
  by_stage-merge (some s) id = ground (arith, staged_merge s id, eq_iff s "awaiting_merge")

  -- An issue goes to a merge exactly if it is neither cancelled nor opted out, its stage is
  -- `awaiting_merge` and an adw-id is known; the grace period does not matter.
  pub evaluate_issue-merge :
      (id : Option String)
      → (evaluate_issue tick issue ≡ eligible merge id) ↔ (
          IsOpen
          × (resolved.stage ≡ some "awaiting_merge")
          × (resolved.adw_id ≡ id)
          × (is_truthy id ≡ true))
  unfolding evaluate_issue
  evaluate_issue-merge id = ground (arith, by_stage-merge resolved.stage id)

-- A text of an active stage is none of the texts that have a branch of their own.
differs :
    (s t : String)
    → classify_stage_string s ≡ active
    → classify_stage_string t ≢ active
    → (s == t) ≡ false
differs s t e n = elim (Bool-cases (s == t)) [
  | inl same ↦ absurd (n (sym (ap classify_stage_string ((eq_iff s t).0 same)) ∙ e))
  | inr other ↦ other
]

abbrev HasNoBranch : String → Type 0
HasNoBranch s =
    ((s == "awaiting_merge") ≡ false)
    × (is_parked s ≡ false)
    × ((s == "completed") ≡ false)
    × ((s == "paused") ≡ false)

active_no_branch : (s : String) → classify_stage_string s ≡ active → HasNoBranch s
unfolding classify_stage_string
active_no_branch s e = ground (
  arith,
  differs s "awaiting_merge" e (λ h. cc),
  differs s "discarded" e (λ h. cc),
  differs s "merge_blocked" e (λ h. cc),
  differs s "human_gated" e (λ h. cc),
  differs s "review_failed" e (λ h. cc),
  differs s "worktree_lost" e (λ h. cc),
  differs s "completed" e (λ h. cc),
  differs s "paused" e (λ h. cc),
)

-- A stage that a takeover recovers.
abbrev pub IsRecoverable : StageResolution → String → Type 0
IsRecoverable resolution s =
    ((classify_stage_string s ≡ active) × (resolution.owner_dead ≡ true))
    ⊎ (s ≡ "abandoned")
    ⊎ (s ≡ "phase_timeout")

is_active_eq : (c : StageClass) → is_active c ≡ true → c ≡ active
is_active_eq c h = ground arith

is_retriable_eq : (c : StageClass) → is_retriable c ≡ true → c ≡ retriable
is_retriable_eq c h = ground arith

staged-IsRecoverable :
    (resolution : StageResolution) (s : String) (id : Option String)
    → evaluate_staged resolution s ≡ eligible spawn id
    → IsRecoverable resolution s × (resolution.adw_id ≡ id)
unfolding evaluate_staged
staged-IsRecoverable resolution s id h = ground (
  arith,
  is_active_eq (classify_stage_string s),
  is_retriable_eq (classify_stage_string s),
  retriable_iff s,
  eq_iff s "phase_timeout",
)

staged_of_recoverable :
    (resolution : StageResolution) (s : String)
    → IsRecoverable resolution s
    → (evaluate_staged resolution s ≡ eligible spawn resolution.adw_id) × HasNoBranch s
unfolding evaluate_staged classify_stage_string
staged_of_recoverable resolution s (inl (e, dead)) = ground (arith, active_no_branch s e)
staged_of_recoverable resolution s (inr (inl e)) = rw e (refl, (refl, refl, refl, refl))
staged_of_recoverable resolution s (inr (inr e)) = rw e (refl, (refl, refl, refl, refl))

-- What lets a fresh issue through where its comments name no adw-id.
abbrev pub IsAllowed : Option (CronIssue → LabelRecoveryResult) → CronIssue → Type 0
IsAllowed none issue = Unit
IsAllowed (some recovery) issue = (c : Option String) × (recovery issue ≡ eligible_as c)

recovery_spawn :
    (o : Option (CronIssue → LabelRecoveryResult)) (issue : CronIssue) (id : Option String)
    → (of_label_recovery o issue ≡ eligible spawn id) ↔ (IsAllowed o issue × (id ≡ none))
recovery_spawn none issue id = ground arith
recovery_spawn (some recovery) issue id = by_result (recovery issue) refl
  where
    by_result :
        (r : LabelRecoveryResult)
        → recovery issue ≡ r
        → (of_label_result (recovery issue) ≡ eligible spawn id)
          ↔ (IsAllowed (some recovery) issue × (id ≡ none))
    by_result (ineligible reason) e = rw e ground arith
    by_result (eligible_as c) e = rw e ground arith

module _ (tick : Tick) (issue : CronIssue) where
  -- A fresh issue that this process has not just spawned, and that its labels allow unless its comments
  -- name an adw-id; or a stage that a takeover recovers.
  abbrev pub IsSpawnable : Option String → Option String → Type 0
  IsSpawnable none id =
      (contains tick.spawns issue.number ≡ false)
      × ((is_none (resolved tick issue).adw_id ≡ false) ⊎ IsAllowed tick.label_recovery issue)
      × (id ≡ none)
  IsSpawnable (some s) id =
      IsRecoverable (resolved tick issue) s × ((resolved tick issue).adw_id ≡ id)

  fresh_spawn :
      (id : Option String)
      → (evaluate_fresh tick issue (resolved tick issue) ≡ eligible spawn id) ↔ IsSpawnable none id
  unfolding evaluate_fresh
  fresh_spawn id = ground (arith, recovery_spawn tick.label_recovery issue id)

  past_grace :
      (s : String) (id : Option String)
      → evaluate_by_stage tick issue (resolved tick issue) (some s) ≡ eligible spawn id
      → (in_grace tick issue (resolved tick issue) ≡ false)
        × (evaluate_staged (resolved tick issue) s ≡ eligible spawn id)
  unfolding evaluate_by_stage
  past_grace s id h = ground arith

  by_staged :
      (s : String)
      → HasNoBranch s
      → in_grace tick issue (resolved tick issue) ≡ false
      → evaluate_by_stage tick issue (resolved tick issue) (some s)
        ≡ evaluate_staged (resolved tick issue) s
  unfolding evaluate_by_stage
  by_staged s n g = ground arith

  by_stage-spawn :
      (o id : Option String)
      → (evaluate_by_stage tick issue (resolved tick issue) o ≡ eligible spawn id)
        ↔ ((in_grace tick issue (resolved tick issue) ≡ false) × IsSpawnable o id)
  unfolding evaluate_by_stage
  by_stage-spawn none id = ground (arith, fresh_spawn id)
  by_stage-spawn (some s) id = (
    λ h. let (g, e) = past_grace s id h in (g, staged-IsRecoverable (resolved tick issue) s id e),
    λ (g, (r, e)).
        let (q, n) = staged_of_recoverable (resolved tick issue) s r in
        by_staged s n g ∙ q ∙ ap (eligible spawn) e,
  )

  -- An issue is spawned exactly if it is neither cancelled nor opted out, its grace period is over, and
  -- it is fresh and allowed, or its stage is abandoned, timed out, or active with a dead owner.
  pub evaluate_issue-spawn :
      (id : Option String)
      → (evaluate_issue tick issue ≡ eligible spawn id) ↔ (
          IsOpen tick issue
          × (in_grace tick issue (resolved tick issue) ≡ false)
          × IsSpawnable (resolved tick issue).stage id)
  unfolding evaluate_issue
  evaluate_issue-spawn id = ground (arith, by_stage-spawn (resolved tick issue).stage id)
