-- ===== src/Guard/Sound.antt =====
-- What an accepted change cannot do.
use ai_dev_workflow.Prelude.{
  ◌≡◌, refl, sym, ap, ◌∙◌, inl, inr, true, false, List, [], ◌∷◌, ◌++◌, map, ℕ, ◌≤◌, String,
  number_eq, list_eq, keep, find, In, All, All-In, arith, Option-cases,
}
use ai_dev_workflow.Diff.{DiffFile, parse_unified_diff, touched_paths}
use ai_dev_workflow.Guard.Table.{
  StackLanguage, framework_suppression_patterns, ProtectedPathRule, protected_path_rules,
}
use ai_dev_workflow.Guard.Patterns.{normalise, occurrences, is_protected_by}
use ai_dev_workflow.Guard.Section.{parse_suppression_pattern_additions}
use ai_dev_workflow.Guard.Defs.{
  GuardPattern, FixRoundGuardConfig, GuardRejection, accepted, framework_pattern,
  repository_pattern, framework_patterns, seen_key, build_fix_round_guard_config,
  rejections_of_path, rejections_of_paths, protected_path_rejections, adds_suppression,
  suppression_rejections, rejections_of_files, verdict_of, evaluate_fix_round,
}
use ai_dev_workflow.Guard.Covers.{
  append-eq-nil, keep-eq-nil, find-eq-none, map-eq-nil, In-append_left, In-append_right, In-map,
  IsCovered-cases, framework_patterns-In,
}

-- The count of a change for one pattern does not grow.
abbrev pub AddsNone : DiffFile → String → Type 0
AddsNone f pattern =
    occurrences (map normalise f.added_lines) pattern
    ≤ occurrences (map normalise f.removed_lines) pattern

-- Patterns that read alike are counted alike.
AddsNone-same :
    (f : DiffFile) (p q : String) → normalise p ≡ normalise q → AddsNone f p → AddsNone f q
unfolding occurrences
AddsNone-same f p q e h = rw (sym e) h

AddsNone-blank : (f : DiffFile) (p : String) → normalise p ≡ [] → AddsNone f p
unfolding occurrences
AddsNone-blank f p e = rw e (omega arith)

seen_nothing : (key : List ℕ) → seen_key [] key ≡ true → key ≡ []
seen_nothing [] h = refl
seen_nothing (c ∷ key) h = cc

module _ (config : FixRoundGuardConfig) where
  paths-eq-nil :
      (ps : List String) (path : String)
      → rejections_of_paths config ps ≡ []
      → In path ps
      → rejections_of_path config path ≡ []
  paths-eq-nil [] path h i = absurd i
  paths-eq-nil (p ∷ ps) path h (inl e) =
      ap (rejections_of_path config) e
      ∙ (append-eq-nil (rejections_of_path config p) (rejections_of_paths config ps) h).0
  paths-eq-nil (p ∷ ps) path h (inr i) =
      paths-eq-nil ps path
        (append-eq-nil (rejections_of_path config p) (rejections_of_paths config ps) h).1 i

  path-eq-nil :
      (path : String) (r : ProtectedPathRule)
      → rejections_of_path config path ≡ []
      → In r config.protected_paths
      → is_protected_by r path ≡ false
  path-eq-nil path r h i =
      elim (Option-cases (find (λ r. is_protected_by r path) config.protected_paths)) [
        | inl e ↦ find-eq-none (λ r. is_protected_by r path) config.protected_paths r e i
        | inr (rule, e) ↦ absurd (ground (arith, e, h))
      ]

  files-eq-nil :
      (fs : List DiffFile) (f : DiffFile)
      → rejections_of_files config fs ≡ []
      → In f fs
      → (protected_path_rejections config f ≡ []) × (suppression_rejections config f ≡ [])
  files-eq-nil [] f h i = absurd i
  files-eq-nil (g ∷ fs) f h (inl e) =
      let (a, b) = append-eq-nil (protected_path_rejections config g) _ h in
      (
        ap (protected_path_rejections config) e ∙ a,
        ap (suppression_rejections config) e
            ∙ (append-eq-nil (suppression_rejections config g) (rejections_of_files config fs) b).0,
      )
  files-eq-nil (g ∷ fs) f h (inr i) =
      let (a, b) = append-eq-nil (protected_path_rejections config g) _ h in
      files-eq-nil fs f
        (append-eq-nil (suppression_rejections config g) (rejections_of_files config fs) b).1 i

  verdict-accepted : (rs : List GuardRejection) → verdict_of config rs ≡ accepted → rs ≡ []
  verdict-accepted [] h = refl
  verdict-accepted (r ∷ rs) h = cc

  suppression-eq-nil :
      (f : DiffFile) (p : GuardPattern)
      → suppression_rejections config f ≡ []
      → In p config.suppression_patterns
      → AddsNone f p.pattern
  unfolding suppression_rejections
  suppression-eq-nil f p h i =
      let quiet =
        keep-eq-nil (adds_suppression config f) config.suppression_patterns p
          (map-eq-nil _ (keep (adds_suppression config f) config.suppression_patterns) h) i in
      ground (arith, quiet)

-- What an accepted change leaves alone: the protected paths, and the count of each pattern.
abbrev pub IsHarmless : List StackLanguage → List String → DiffFile → Type 0
IsHarmless languages additions f =
    All (λ path. All (λ rule. is_protected_by rule path ≡ false) protected_path_rules)
      (touched_paths f)
    × All (λ l. All (AddsNone f) (framework_suppression_patterns l)) languages
    × All (AddsNone f) additions

module _ (languages : List StackLanguage) (section diff : String)
    (h : evaluate_fix_round (build_fix_round_guard_config languages section) diff ≡ accepted)
    (f : DiffFile) (i : In f (parse_unified_diff diff)) where
  abbrev config : FixRoundGuardConfig
  config = build_fix_round_guard_config languages section

  no_rejections : (protected_path_rejections config f ≡ []) × (suppression_rejections config f ≡ [])
  unfolding evaluate_fix_round
  no_rejections = files-eq-nil config (parse_unified_diff diff) f (verdict-accepted config _ h) i

  -- A pattern that went into the configuration is not added, whichever of its like was kept.
  pattern-AddsNone :
      (p : GuardPattern)
      → In p (
          framework_patterns languages
          ++ map repository_pattern (parse_suppression_pattern_additions section).added)
      → AddsNone f p.pattern
  unfolding build_fix_round_guard_config
  pattern-AddsNone p j = elim (IsCovered-cases [] _ p j) [
    | inl blank ↦ AddsNone-blank f p.pattern (seen_nothing _ blank)
    | inr (q, k, e) ↦
        AddsNone-same f q.pattern p.pattern e (suppression-eq-nil config f q no_rejections.1 k)
  ]

  no_path :
      (path : String) (rule : ProtectedPathRule)
      → In path (touched_paths f)
      → In rule protected_path_rules
      → is_protected_by rule path ≡ false
  unfolding protected_path_rejections build_fix_round_guard_config
  no_path path rule j k =
      path-eq-nil config path rule (paths-eq-nil config (touched_paths f) path no_rejections.0 j) k

  -- An accepted fix round touches no protected path, and adds no suppression on balance in any file: neither a
  -- pattern of the framework's tables for the languages at hand, whatever the repository's section says, nor
  -- a pattern that the section adds.
  pub evaluate_fix_round-IsHarmless :
      IsHarmless languages (parse_suppression_pattern_additions section).added f
  evaluate_fix_round-IsHarmless = (
    All-In _ (touched_paths f)
        (λ path j. All-In _ protected_path_rules (λ rule k. no_path path rule j k)),
    All-In _ languages (λ l j. All-In _ (framework_suppression_patterns l) (λ p k.
        pattern-AddsNone (framework_pattern l p) (
          In-append_left _ (framework_patterns languages) _
            (framework_patterns-In languages l p j k)))),
    All-In _ (parse_suppression_pattern_additions section).added (λ p k.
        pattern-AddsNone (repository_pattern p)
          (In-append_right _ (framework_patterns languages) _ (In-map repository_pattern p _ k))),
  )
