-- ===== src/Cron/Parallel.antt =====
-- Which issues one tick lets run side by side.
use ai_dev_workflow.Prelude.{
  ◌≡◌, refl, sym, ap, ◌≢◌, ◌⊎◌, inl, inr, true, false, not, Option, List, [], ◌∷◌, ◌<◌, String,
  number_eq, keep, length, ltb, In, In-keep, In-keep_of, Bool-cases, arith,
}
use mathlib.Core.Path.{subst}
use ai_dev_workflow.Cron.Overlap.{paths_overlap}
use ai_dev_workflow.Cron.Filter.{
  CronIssue, CronAction, eligible, Tick, evaluate_issue, EligibleIssue, OverlapDeferral,
  evaluate_each, is_spawn, is_deferred, filter_eligible_issues,
}
use ai_dev_workflow.Cron.Deferral.{sort-In}
use ai_dev_workflow.Cron.Candidates.{
  sole, touched, all_deferrals, initial_of, deferral-IsBehind, kept_apart, some_kept, each-In,
  each_of,
}

module _ (tick : Tick) (issues : List CronIssue) where
  abbrev candidates : List EligibleIssue
  candidates = keep is_spawn (initial_of tick issues)

  -- The two branches of the filter: too few candidates for the pass, or the pass.
  outcome :
      ((ltb (length candidates) 2 ≡ true)
        × ((filter_eligible_issues tick issues).eligible_issues ≡ initial_of tick issues)
        × ((filter_eligible_issues tick issues).overlap_deferrals ≡ []))
      ⊎ ((ltb (length candidates) 2 ≡ false)
          × ((filter_eligible_issues tick issues).eligible_issues
              ≡ keep
                  (λ e. not (is_deferred (all_deferrals tick candidates) e))
                  (initial_of tick issues))
          × ((filter_eligible_issues tick issues).overlap_deferrals
              ≡ all_deferrals tick candidates))
  unfolding filter_eligible_issues
  outcome = elim (Bool-cases (ltb (length candidates) 2)) [
    | inl few ↦ inl (few, rw few refl, rw few refl)
    | inr more ↦ inr (more, rw more refl, rw more refl)
  ]

  -- An admitted issue is one that the evaluation let through, and the pass did not defer it.
  admitted :
      (e : EligibleIssue)
      → In e (filter_eligible_issues tick issues).eligible_issues
      → In e (initial_of tick issues)
        × ((ltb (length candidates) 2 ≡ true)
            ⊎ (is_deferred (all_deferrals tick candidates) e ≡ false))
  admitted e i = elim outcome [
    | inl (few, p, q) ↦ (subst (In e) p i, inl few)
    | inr (more, p, q) ↦
        let (j, kept) =
          In-keep (λ x. not (is_deferred (all_deferrals tick candidates) x))
            (initial_of tick issues) e (subst (In e) p i) in
        (j, inr (ground arith))
  ]

  -- Two issues that one tick admits to spawn never touch a common file, if they have different numbers.
  pub filter_eligible_issues-apart :
      (a b : EligibleIssue)
      → In a (filter_eligible_issues tick issues).eligible_issues
      → In b (filter_eligible_issues tick issues).eligible_issues
      → is_spawn a ≡ true
      → is_spawn b ≡ true
      → a.issue.number ≢ b.issue.number
      → paths_overlap (touched tick a.issue) (touched tick b.issue) ≡ false
  filter_eligible_issues-apart a b i j spawn_a spawn_b ne =
      let (in_a, kept_a) = admitted a i in
      let (in_b, kept_b) = admitted b j in
      let i_a = In-keep_of is_spawn (initial_of tick issues) a in_a spawn_a in
      let i_b = In-keep_of is_spawn (initial_of tick issues) b in_b spawn_b in
      apart i_a i_b kept_a kept_b
    where
      alone : ltb (length candidates) 2 ≡ true → In a candidates → In b candidates → ⊥
      alone few i_a i_b =
          ne (ap (λ (x : EligibleIssue). x.issue.number) (sole candidates a b few i_a i_b))

      apart :
          In a candidates
          → In b candidates
          → (ltb (length candidates) 2 ≡ true)
            ⊎ (is_deferred (all_deferrals tick candidates) a ≡ false)
          → (ltb (length candidates) 2 ≡ true)
            ⊎ (is_deferred (all_deferrals tick candidates) b ≡ false)
          → paths_overlap (touched tick a.issue) (touched tick b.issue) ≡ false
      apart i_a i_b (inl few) kept_b = absurd (alone few i_a i_b)
      apart i_a i_b (inr k) (inl few) = absurd (alone few i_a i_b)
      apart i_a i_b (inr k) (inr l) = kept_apart tick candidates a b i_a i_b k l ne

  -- A deferral names two issues of the listing that touch a common file, and the one that waits has the
  -- greater number.
  pub filter_eligible_issues-deferral :
      (d : OverlapDeferral)
      → In d (filter_eligible_issues tick issues).overlap_deferrals
      → (d.blocked_by < d.issue_number)
        × ((waiting : CronIssue) × (first : CronIssue) × In waiting issues
            × In first issues
            × (waiting.number ≡ d.issue_number)
            × (first.number ≡ d.blocked_by)
            × (paths_overlap (touched tick waiting) (touched tick first) ≡ true))
  filter_eligible_issues-deferral d i =
      let (e, first, h) = deferral-IsBehind tick candidates d (deferred d i) in
      (
        ground (arith, h.e_number, h.first_number, h.smaller),
        (
          e.issue,
          first.issue,
          listed e h.waits,
          listed first h.goes,
          h.e_number,
          h.first_number,
          h.overlap,
        ),
      )
    where
      deferred :
          (d : OverlapDeferral)
          → In d (filter_eligible_issues tick issues).overlap_deferrals
          → In d (all_deferrals tick candidates)
      deferred d i = elim outcome [
        | inl (few, p, q) ↦ absurd (subst (In d) q i)
        | inr (more, p, q) ↦ subst (In d) q i
      ]

      listed : (e : EligibleIssue) → In e candidates → In e.issue issues
      listed e i = each-In tick issues e (
          (sort-In e (evaluate_each tick issues).0).0
            (In-keep is_spawn (initial_of tick issues) e i).0)

  -- The overlap pass never holds up everything: where some issue is eligible, some issue is admitted.
  pub filter_eligible_issues-progress :
      (issue : CronIssue) (action : CronAction) (id : Option String)
      → In issue issues
      → evaluate_issue tick issue ≡ eligible action id
      → (e : EligibleIssue) × In e (filter_eligible_issues tick issues).eligible_issues
  filter_eligible_issues-progress issue action id i h = elim outcome [
    | inl (few, p, q) ↦ (found, subst (In found) (sym p) (found-In i h))
    | inr (more, p, q) ↦
        let (e, j, kept) = some_candidate candidates refl more in
        (
          e,
          subst (In e) (sym p) (
              In-keep_of (λ x. not (is_deferred (all_deferrals tick candidates) x))
                (initial_of tick issues) e (In-keep is_spawn (initial_of tick issues) e j).0
                (ground (arith, kept))),
        )
  ]
    where
      found : EligibleIssue
      found = record { issue = issue; action = action; adw_id = id }

      found-In :
          In issue issues
          → evaluate_issue tick issue ≡ eligible action id
          → In found (initial_of tick issues)
      found-In i h =
          (sort-In found (evaluate_each tick issues).0).1 (each_of tick issues issue action id i h)

      some_candidate :
          (es : List EligibleIssue)
          → es ≡ candidates
          → ltb (length es) 2 ≡ false
          → (e : EligibleIssue) × In e es × (is_deferred (all_deferrals tick es) e ≡ false)
      some_candidate [] p more = absurd (ground arith)
      some_candidate (c ∷ cs) p more = some_kept tick (c ∷ cs) c (inl refl)
