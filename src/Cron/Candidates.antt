-- ===== src/Cron/Candidates.antt =====
-- The spawn candidates of one tick: which of them the region-overlap pass keeps.
use ai_dev_workflow.Prelude.{
  ◌≡◌, refl, sym, ap, ◌∙◌, ◌≢◌, ◌⊎◌, inl, inr, true, false, not, Option, List, [], ◌∷◌, map, ◌≤◌,
  ◌<◌, String, ◌==◌, number_eq, length, ltb, In, In-keep, In-keep_of, any-eq-true, Bool-cases,
  arith,
}
use mathlib.Core.Path.{subst}
use ai_dev_workflow.Cron.Overlap.{
  RegionSignal, shared_paths, paths_overlap, is_empty, is_overlapping, lowest,
}
use ai_dev_workflow.Cron.Filter.{
  CronIssue, CronAction, FilterResult, filtered, eligible, Tick, evaluate_issue, EligibleIssue,
  OverlapDeferral, Annotation, push, evaluate_each, sort_by_age, signal_of, siblings_of,
  deferrals_of, is_deferred,
}
use ai_dev_workflow.Cron.Serialization.{
  Precedes, decide-serialize_behind, decide-proceed, paths_overlap_sym, lowest-In, lowest_le,
}
use ai_dev_workflow.Cron.Deferral.{In-map, of_In-map, deferrals-IsDecision, deferrals-proceed}

overlap_full : (a b : List String) → paths_overlap a b ≡ true → is_empty a ≡ false
unfolding paths_overlap shared_paths
overlap_full [] b h = absurd (ground arith)
overlap_full (p ∷ ps) b h = refl

push-In :
    (issue : CronIssue) (r : FilterResult) (rest : List EligibleIssue × List Annotation)
    (e : EligibleIssue)
    → In e (push issue r rest).0
    → (e.issue ≡ issue) ⊎ In e rest.0
push-In issue (filtered reason) rest e i = inr i
push-In issue (eligible action id) rest e (inl same) =
    inl (ap (λ (x : EligibleIssue). x.issue) same)
push-In issue (eligible action id) rest e (inr i) = inr i

push_old :
    (issue : CronIssue) (r : FilterResult) (rest : List EligibleIssue × List Annotation)
    (e : EligibleIssue)
    → In e rest.0
    → In e (push issue r rest).0
push_old issue (filtered reason) rest e i = i
push_old issue (eligible action id) rest e i = inr i

pub sole :
    (es : List EligibleIssue) (a b : EligibleIssue)
    → ltb (length es) 2 ≡ true
    → In a es
    → In b es
    → a ≡ b
sole [] a b h i j = absurd i
sole (x ∷ []) a b h (inl p) (inl q) = p ∙ sym q
sole (x ∷ []) a b h (inl p) (inr j) = absurd j
sole (x ∷ []) a b h (inr i) j = absurd i
sole (x ∷ y ∷ es) a b h i j = absurd (ground arith)

module _ (tick : Tick) where
  abbrev pub touched : CronIssue → List String
  touched issue = tick.resolve_touched_files issue

  abbrev pub signals_of : List EligibleIssue → List RegionSignal
  signals_of es = map (signal_of tick) es

  abbrev pub all_deferrals : List EligibleIssue → List OverlapDeferral
  all_deferrals es = deferrals_of (signals_of es) (signals_of es)

  -- A deferral names two of the spawn candidates; the one that waits has the greater number.
  pub record IsBehind (es : List EligibleIssue) (d : OverlapDeferral) (e first : EligibleIssue)
      : Type 0 where
    pub waits : In e es
    pub goes : In first es
    pub e_number : e.issue.number ≡ d.issue_number
    pub first_number : first.issue.number ≡ d.blocked_by
    pub overlap : paths_overlap (touched e.issue) (touched first.issue) ≡ true
    pub smaller : first.issue.number < e.issue.number

  of_signals :
      (s t : RegionSignal) (e first : EligibleIssue)
      → s ≡ signal_of tick e
      → t ≡ signal_of tick first
      → paths_overlap s.paths t.paths ≡ true
      → Precedes t s
      → (paths_overlap (touched e.issue) (touched first.issue) ≡ true)
        × (first.issue.number < e.issue.number)
  of_signals s t e first q r o before = (
    cc (o, ap (λ (x : RegionSignal). x.paths) q, ap (λ (x : RegionSignal). x.paths) r),
    ground (
      arith,
      before,
      ap (λ (x : RegionSignal). x.in_flight) q,
      ap (λ (x : RegionSignal). x.in_flight) r,
      ap (λ (x : RegionSignal). x.issue_number) q,
      ap (λ (x : RegionSignal). x.issue_number) r,
    ),
  )

  pub deferral-IsBehind :
      (es : List EligibleIssue) (d : OverlapDeferral)
      → In d (all_deferrals es)
      → (e : EligibleIssue) × (first : EligibleIssue) × IsBehind es d e first
  deferral-IsBehind es d i =
      let (s, j, h) = deferrals-IsDecision (signals_of es) (signals_of es) d i in
      let (t, k, number, o, _, before) =
        decide-serialize_behind s (siblings_of (signals_of es) s) d.blocked_by d.overlap_paths
          h.decision in
      let (e, i_e, q) = of_In-map (signal_of tick) s es j in
      let (f, i_f, r) =
        of_In-map (signal_of tick) t es
          (In-keep (λ (x : RegionSignal). not (x.issue_number == s.issue_number)) (signals_of es) t
            k).0 in
      (
        e,
        f,
        record {
          waits = i_e;
          goes = i_f;
          e_number = ap (λ (x : RegionSignal). x.issue_number) (sym q) ∙ h.number;
          first_number = ap (λ (x : RegionSignal). x.issue_number) (sym r) ∙ number;
          overlap = (of_signals s t e f q r o before).0;
          smaller = (of_signals s t e f q r o before).1;
        },
      )

  abbrev pub initial_of : List CronIssue → List EligibleIssue
  initial_of issues = sort_by_age (evaluate_each tick issues).0

  -- A spawn candidate that the pass keeps proceeds, beside a candidate of another number it precedes it.
  kept_before :
      (es : List EligibleIssue) (a b : EligibleIssue)
      → In a es
      → In b es
      → is_deferred (all_deferrals es) a ≡ false
      → a.issue.number ≢ b.issue.number
      → paths_overlap (touched a.issue) (touched b.issue) ≡ true
      → a.issue.number < b.issue.number
  unfolding is_overlapping
  kept_before es a b i j kept ne o = ground (
    arith,
    decide-proceed (signal_of tick a) (signal_of tick b)
        (siblings_of (signals_of es) (signal_of tick a))
        (λ t k. ground (
          arith,
          (In-keep (λ (x : RegionSignal). not (x.issue_number == a.issue.number)) (signals_of es) t
              k).1,
        ))
        (deferrals-proceed (signals_of es) (signals_of es) (signal_of tick a)
          (In-map (signal_of tick) a es i) kept)
        (In-keep_of (λ (x : RegionSignal). not (x.issue_number == a.issue.number)) (signals_of es)
          (signal_of tick b) (In-map (signal_of tick) b es j) (ground (arith, ne)))
        (overlap_full (touched a.issue) (touched b.issue) o)
        (ground (
          arith,
          o,
          overlap_full (touched b.issue) (touched a.issue)
              (paths_overlap_sym (touched a.issue) (touched b.issue) o),
        )),
  )

  pub kept_apart :
      (es : List EligibleIssue) (a b : EligibleIssue)
      → In a es
      → In b es
      → is_deferred (all_deferrals es) a ≡ false
      → is_deferred (all_deferrals es) b ≡ false
      → a.issue.number ≢ b.issue.number
      → paths_overlap (touched a.issue) (touched b.issue) ≡ false
  kept_apart es a b i j kept_a kept_b ne =
      elim (Bool-cases (paths_overlap (touched a.issue) (touched b.issue))) [
        | inr apart ↦ apart
        | inl o ↦ absurd (
            ground (
              arith,
              kept_before es a b i j kept_a ne o,
              kept_before es b a j i kept_b (λ e. ne (sym e))
                  (paths_overlap_sym (touched a.issue) (touched b.issue) o),
            ))
      ]

  -- The candidate with the lowest number is not deferred.
  lowest_kept :
      (es : List EligibleIssue) (e : EligibleIssue)
      → ((t : EligibleIssue) → In t es → e.issue.number ≤ t.issue.number)
      → is_deferred (all_deferrals es) e ≡ false
  lowest_kept es e least = elim (Bool-cases (is_deferred (all_deferrals es) e)) [
    | inr kept ↦ kept
    | inl waits ↦
        let (d, i, same) =
          any-eq-true (λ (x : OverlapDeferral). x.issue_number == e.issue.number) (all_deferrals es)
            waits in
        let (e', first, h) = deferral-IsBehind es d i in
        absurd (ground (arith, same, h.e_number, h.smaller, least first h.goes))
  ]

  pub some_kept :
      (es : List EligibleIssue) (c : EligibleIssue)
      → In c es
      → (e : EligibleIssue) × In e es × (is_deferred (all_deferrals es) e ≡ false)
  some_kept [] c i = absurd i
  some_kept (x ∷ xs) c i =
      let (e, j, q) =
        of_In-map (signal_of tick) (lowest (signal_of tick x) (signals_of xs)) (x ∷ xs)
          (lowest-In (signal_of tick x) (signals_of xs)) in
      (
        e,
        j,
        lowest_kept (x ∷ xs) e (λ t k. ground (
          arith,
          ap (λ (y : RegionSignal). y.issue_number) q,
          lowest_le (signal_of tick x) (signal_of tick t) (signals_of xs)
              (In-map (signal_of tick) t (x ∷ xs) k),
        )),
      )

  pub each-In :
      (issues : List CronIssue) (e : EligibleIssue)
      → In e (evaluate_each tick issues).0
      → In e.issue issues
  unfolding evaluate_each
  each-In [] e i = absurd i
  each-In (issue ∷ issues) e i =
      elim (push-In issue (evaluate_issue tick issue) (evaluate_each tick issues) e i) [
        | inl same ↦ inl same
        | inr old ↦ inr (each-In issues e old)
      ]

  pub each_of :
      (issues : List CronIssue) (issue : CronIssue) (action : CronAction) (id : Option String)
      → In issue issues
      → evaluate_issue tick issue ≡ eligible action id
      → In (record { issue = issue; action = action; adw_id = id }) (evaluate_each tick issues).0
  unfolding evaluate_each
  each_of [] issue action id i h = absurd i
  each_of (x ∷ xs) issue action id (inl e) h =
      subst
        (λ y.
          In (record { issue = issue; action = action; adw_id = id })
            (push y (evaluate_issue tick y) (evaluate_each tick xs)).0)
        e (rw h (inl refl))
  each_of (x ∷ xs) issue action id (inr i) h =
      push_old x (evaluate_issue tick x) (evaluate_each tick xs) _ (each_of xs issue action id i h)
