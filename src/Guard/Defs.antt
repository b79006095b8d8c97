-- ===== src/Guard/Defs.antt =====
-- `buildFixRoundGuardConfig` and `evaluateFixRound`.
use ai_dev_workflow.Prelude.{
  Bool, ◌||◌, Option, none, some, List, [], ◌∷◌, ◌++◌, map, ℕ, String, ◌==◌, number_eq, list_eq,
  if◌then◌else◌, keep, any, find, ltb, get_or,
}
use ai_dev_workflow.Diff.{DiffFile, parse_unified_diff, touched_paths}
use ai_dev_workflow.Guard.Table.{
  StackLanguage, javascript, python, go, rust, ruby, jvm, framework_suppression_patterns,
  ProtectedPathCategory, ProtectedPathRule, protected_path_rules,
}
use ai_dev_workflow.Guard.Patterns.{normalise, occurrences, is_protected_by}
use ai_dev_workflow.Guard.Section.{parse_suppression_pattern_additions}

pub data PatternSource : Type 0 where
  framework repository : PatternSource

pub record GuardPattern : Type 0 where
  pub pattern : String
  pub source : PatternSource
  pub language : Option StackLanguage

pub record FixRoundGuardConfig : Type 0 where
  pub suppression_patterns : List GuardPattern
  pub protected_paths : List ProtectedPathRule
  pub ignored_additions : List String

pub data GuardRejection : Type 0 where
  suppression : String → GuardPattern → GuardRejection
  protected_path : String → ProtectedPathCategory → GuardRejection

pub data FixRoundVerdict : Type 0 where
  accepted : FixRoundVerdict
  rejected : List GuardRejection → FixRoundVerdict

abbrev pub language_index : StackLanguage → ℕ
language_index javascript = 0
language_index python = 1
language_index go = 2
language_index rust = 3
language_index ruby = 4
language_index jvm = 5

-- `[...new Set(languages)]`: each language once. `seen` are those that came before.
unfoldable pub once : List ℕ → List StackLanguage → List StackLanguage
once seen [] = []
once seen (l ∷ ls) =
    let old = once seen ls in
    let new = once (language_index l ∷ seen) ls in
    if any (λ n. n == language_index l) seen then old else l ∷ new

abbrev pub framework_pattern : StackLanguage → String → GuardPattern
framework_pattern l p = record { pattern = p; source = framework; language = some l }

abbrev pub repository_pattern : String → GuardPattern
repository_pattern p = record { pattern = p; source = repository; language = none }

abbrev pub patterns_of : List StackLanguage → List GuardPattern
patterns_of [] = []
patterns_of (l ∷ ls) =
    map (framework_pattern l) (framework_suppression_patterns l) ++ patterns_of ls

-- `frameworkPatterns`
unfoldable pub framework_patterns : List StackLanguage → List GuardPattern
unfolding once framework_suppression_patterns
framework_patterns languages = patterns_of (once [] languages)

abbrev pub seen_key : List (List ℕ) → List ℕ → Bool
seen_key seen key = key == [] || any (λ k. k == key) seen

-- `withoutDuplicates`: `seen` are the keys of the patterns that came before.
unfoldable pub without_duplicates : List (List ℕ) → List GuardPattern → List GuardPattern
unfolding normalise
without_duplicates seen [] = []
without_duplicates seen (p ∷ ps) =
    let old = without_duplicates seen ps in
    let new = without_duplicates (normalise p.pattern ∷ seen) ps in
    if seen_key seen (normalise p.pattern) then old else p ∷ new

-- `buildFixRoundGuardConfig`
unfoldable pub build_fix_round_guard_config : List StackLanguage → String → FixRoundGuardConfig
unfolding framework_patterns without_duplicates parse_suppression_pattern_additions
build_fix_round_guard_config languages repository_section =
    let additions = parse_suppression_pattern_additions repository_section in
    record {
      suppression_patterns =
          without_duplicates []
            (framework_patterns languages ++ map repository_pattern additions.added);
      protected_paths = protected_path_rules;
      ignored_additions = additions.ignored;
    }

module _ (config : FixRoundGuardConfig) where
  abbrev pub rejections_of_path : String → List GuardRejection
  rejections_of_path path = elim (find (λ r. is_protected_by r path) config.protected_paths) [
    | none ↦ []
    | some rule ↦ protected_path path rule.category ∷ []
  ]

  abbrev pub rejections_of_paths : List String → List GuardRejection
  rejections_of_paths [] = []
  rejections_of_paths (p ∷ ps) = rejections_of_path p ++ rejections_of_paths ps

  -- `protectedPathRejections`
  unfoldable pub protected_path_rejections : DiffFile → List GuardRejection
  unfolding touched_paths is_protected_by
  protected_path_rejections file = rejections_of_paths (touched_paths file)

  abbrev pub adds_suppression : DiffFile → GuardPattern → Bool
  adds_suppression file p =
      ltb (occurrences (map normalise file.removed_lines) p.pattern)
        (occurrences (map normalise file.added_lines) p.pattern)

  -- `suppressionRejections`
  unfoldable pub suppression_rejections : DiffFile → List GuardRejection
  unfolding occurrences
  suppression_rejections file =
      let path = get_or file.new_path (get_or file.old_path "(unknown file)") in
      map (suppression path) (keep (adds_suppression file) config.suppression_patterns)

  abbrev pub rejections_of_files : List DiffFile → List GuardRejection
  rejections_of_files [] = []
  rejections_of_files (f ∷ fs) =
      protected_path_rejections f ++ (suppression_rejections f ++ rejections_of_files fs)

  abbrev pub verdict_of : List GuardRejection → FixRoundVerdict
  verdict_of [] = accepted
  verdict_of (r ∷ rs) = rejected (r ∷ rs)

  -- `evaluateFixRound`
  unfoldable pub evaluate_fix_round : String → FixRoundVerdict
  unfolding protected_path_rejections suppression_rejections parse_unified_diff
  evaluate_fix_round diff = verdict_of (rejections_of_files (parse_unified_diff diff))
