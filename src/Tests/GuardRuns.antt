-- ===== src/Tests/GuardRuns.antt =====
-- adws/core/unifiedDiff.ts, fixRoundGuard.ts and staticCheckFixLoop.ts: a fix that is kept, one that hides an
-- error, and one that edits the linter's configuration.
use ai_dev_workflow.Prelude.{
  ◌≡◌, refl, inl, false, none, some, List, [], ◌∷◌, ℕ, String, text_eq, number_eq, list_eq, unlines,
  split, lower, decimal, digits, eq_ignoring_case, if◌then◌else◌, ltb,
}
use ai_dev_workflow.Diff.{
  DiffFile, parse_unified_diff, read_lines, open_file, split_file_header, split_bare_header,
  split_at_new, read_line, read_header_line, read_hunk_line, apply_reader, read_header_path,
  read_quoted, quoted_escape, cut_tab, touched_paths, read_binary_notice,
}
use ai_dev_workflow.Diff.Print.{added, removed, context, Patch, print_line, print_diff, file_of}
use ai_dev_workflow.Diff.RoundTrip.{parse_unified_diff-print_diff}
use ai_dev_workflow.Guard.{
  javascript, framework_suppression_patterns, protected_path_rules, lint_configuration, normalise,
  hits, occurrences, match_parts, base_name, is_protected_by, strip_comments, entry_of,
  section_entries, parse_suppression_pattern_additions, framework, suppression, protected_path,
  accepted, rejected, FixRoundGuardConfig, once, framework_patterns, without_duplicates,
  build_fix_round_guard_config, protected_path_rejections, suppression_rejections,
  evaluate_fix_round,
}
use ai_dev_workflow.Guard.Sound.{IsHarmless, evaluate_fix_round-IsHarmless}
use ai_dev_workflow.Checks.{CheckVerdict, lint, failed, combined_check_output}
use ai_dev_workflow.FixLoop.{FixRounds, kept, discarded, run_static_check_fix_loop}
use ai_dev_workflow.FixLoop.Stops.{IsEnd, run_static_check_fix_loop_lem}

reader : Unit {0}
unfolding parse_unified_diff read_lines open_file split_file_header split_bare_header split_at_new
    read_line read_header_line read_hunk_line apply_reader read_header_path read_quoted
    quoted_escape cut_tab read_binary_notice split unlines print_line print_diff touched_paths
reader = tt

guard : Unit {0}
unfolding reader framework_suppression_patterns protected_path_rules normalise hits occurrences
    match_parts base_name is_protected_by strip_comments entry_of section_entries
    parse_suppression_pattern_additions once framework_patterns without_duplicates
    build_fix_round_guard_config protected_path_rejections suppression_rejections evaluate_fix_round
    lower eq_ignoring_case
guard = tt

-- The removed line reads like a header, and the file's path holds a space.
abbrev patch : Patch
patch = record {
  header = "a/x y.ts b/x y.ts";
  old_path = some "x y.ts";
  new_path = some "x y.ts";
  hunk = " -1 +1 @@";
  body = removed "-- old" ∷ added "let x = 1" ∷ context "end" ∷ [];
}

abbrev config : FixRoundGuardConfig
config =
    build_fix_round_guard_config (javascript ∷ []) "- `# SKIP`\n<!-- !none -->\n- !eslint-disable"

abbrev diff_with : String → String → String
diff_with path line = unlines (
    print_diff (
      record patch {
        header = "a/p b/p";
        old_path = some path;
        new_path = some path;
        body = added line ∷ [];
      }
      ∷ []))

bare_header :
    parse_unified_diff "diff --git a/bin b/bin\ndeleted file mode 100644"
    ≡ record { old_path = some "bin"; new_path = none; added_lines = []; removed_lines = [] } ∷ []
unfolding reader
bare_header = refl

quoted_header :
    (parse_unified_diff "diff --git \"a/a\\tb\" \"b/a\\tb\"")
    ≡ record {
      old_path = some "a\tb";
      new_path = some "a\tb";
      added_lines = [];
      removed_lines = [];
    }
      ∷ []
unfolding reader
quoted_header = refl

removal_is_ignored : config.ignored_additions ≡ "!eslint-disable" ∷ []
unfolding guard
removal_is_ignored = refl

clean_fix : evaluate_fix_round config (diff_with "src/a.ts" "let x = 1") ≡ accepted
unfolding guard
clean_fix = refl

hidden_error :
    evaluate_fix_round config (diff_with "src/a.ts" "// ESLint - disable")
    ≡ rejected (
        suppression "src/a.ts"
          (record { pattern = "eslint-disable"; source = framework; language = some javascript })
        ∷ [])
unfolding guard
hidden_error = refl

linter_edited :
    evaluate_fix_round config (diff_with "web/.ESLINTRC.json" "{}")
    ≡ rejected (protected_path "web/.ESLINTRC.json" lint_configuration ∷ [])
unfolding guard
linter_edited = refl

parse_unified_diff-print_diff_example :
    parse_unified_diff (unlines (print_diff (patch ∷ []))) ≡ file_of patch ∷ []
parse_unified_diff-print_diff_example =
    parse_unified_diff-print_diff (patch ∷ [])
      (refl, refl, refl, refl, (refl, (refl, (refl, tt))), tt) (refl, refl, tt)

abbrev fixed : DiffFile
fixed = record {
  old_path = some "src/a.ts";
  new_path = some "src/a.ts";
  added_lines = "let x = 1" ∷ [];
  removed_lines = [];
}

evaluate_fix_round-IsHarmless_example : IsHarmless (javascript ∷ []) ("# SKIP" ∷ []) fixed
unfolding guard
evaluate_fix_round-IsHarmless_example =
    evaluate_fix_round-IsHarmless (javascript ∷ []) "- `# SKIP`\n<!-- !none -->\n- !eslint-disable"
      (diff_with "src/a.ts" "let x = 1") refl fixed (inl refl)

abbrev verdict : ℕ → List CheckVerdict
verdict n =
    record { check = lint; command = "lint"; status = failed; exit_code = some n; output = "" } ∷ []

-- The first round fixes something, the second hides the rest.
abbrev rounds : FixRounds
rounds = record {
  diff_of = λ n. diff_with "src/a.ts" (if ltb 1 n then "// @ts-ignore" else "let x = 1");
  run_checks = verdict;
  fails = λ c n. false;
}

hiding_stalls : (run_static_check_fix_loop rounds config 5).1 ≡ discarded 2 ∷ kept 1 ∷ []
unfolding guard run_static_check_fix_loop combined_check_output decimal digits
hiding_stalls = refl

run_static_check_fix_loop_lem_example :
    IsEnd rounds config 5 (run_static_check_fix_loop rounds config 5)
run_static_check_fix_loop_lem_example = run_static_check_fix_loop_lem rounds config 5
