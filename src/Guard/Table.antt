-- ===== src/Guard/Table.antt =====
-- adws/core/fixRoundGuardTable.ts. A regular expression stands as the list of the alternatives that it spells
-- out, each of them literal texts with gaps; case is ignored, as by the flag `i`.
use ai_dev_workflow.Prelude.{List, [], ◌∷◌, String, join}

pub data StackLanguage : Type 0 where
  javascript python go rust ruby jvm : StackLanguage

-- The patterns of `FRAMEWORK_SUPPRESSION_PATTERNS`; the examples serve tests alone.
unfoldable pub framework_suppression_patterns : StackLanguage → List String
framework_suppression_patterns javascript =
    "eslint-disable" ∷ "@ts-ignore" ∷ "@ts-expect-error" ∷ "@ts-nocheck" ∷ "biome-ignore"
    ∷ "oxlint-disable" ∷ "tslint:disable" ∷ "jshint ignore" ∷ "deno-lint-ignore" ∷ "prettier-ignore"
    ∷ []
framework_suppression_patterns python =
    "noqa" ∷ "# type: ignore" ∷ "# pyright: ignore" ∷ "# pylint: disable" ∷ "# mypy: ignore-errors"
    ∷ "# nosec" ∷ "# pyre-ignore" ∷ "# pyre-fixme" ∷ "# pytype: disable" ∷ []
framework_suppression_patterns go =
    "//nolint" ∷ "//lint:ignore" ∷ "//lint:file-ignore" ∷ "#nosec" ∷ "//go:build ignore"
    ∷ "// +build ignore" ∷ []
framework_suppression_patterns rust = "#[allow(" ∷ "#![allow(" ∷ "#[expect(" ∷ "#![expect(" ∷ []
framework_suppression_patterns ruby =
    "rubocop:disable" ∷ "rubocop:todo" ∷ "standard:disable" ∷ "steep:ignore" ∷ "# typed: ignore"
    ∷ []
framework_suppression_patterns jvm =
    "@Suppress(" ∷ "@file:Suppress(" ∷ "@SuppressWarnings(" ∷ "@SuppressLint(" ∷ "//noinspection"
    ∷ "ktlint-disable" ∷ "CHECKSTYLE:OFF" ∷ []

pub data ProtectedPathCategory : Type 0 where
  lint_configuration compiler_configuration build_configuration adw_commands playwright :
      ProtectedPathCategory

pub data PathScope : Type 0 where
  base_name_scope repo_path_scope : PathScope

-- A literal text, `.*`, and `.`.
pub data Part : Type 0 where
  lit : String → Part
  any_text one_character : Part

pub record ProtectedPathRule : Type 0 where
  pub category : ProtectedPathCategory
  pub scope : PathScope
  pub matches : List (List Part)

abbrev repo_path : ProtectedPathCategory → List (List Part) → ProtectedPathRule
repo_path category matches = record {
  category = category;
  scope = repo_path_scope;
  matches = matches;
}

abbrev base_name : ProtectedPathCategory → List (List Part) → ProtectedPathRule
base_name category matches = record {
  category = category;
  scope = base_name_scope;
  matches = matches;
}

-- `[cm]?[jt]s` behind a literal text.
abbrev script_file : String → List (List Part)
script_file s =
    (lit (join s "js") ∷ [])
    ∷ (lit (join s "ts") ∷ [])
    ∷ (lit (join s "cjs") ∷ [])
    ∷ (lit (join s "cts") ∷ [])
    ∷ (lit (join s "mjs") ∷ [])
    ∷ (lit (join s "mts") ∷ [])
    ∷ []

unfoldable pub protected_path_rules : List ProtectedPathRule
protected_path_rules =
    repo_path adw_commands ((lit ".adw/commands.md" ∷ []) ∷ [])
    ∷ repo_path playwright (script_file "features/playwright.config.")
    ∷ base_name lint_configuration
        ((lit ".eslintrc" ∷ []) ∷ (lit ".eslintrc." ∷ any_text ∷ []) ∷ [])
    ∷ base_name lint_configuration (script_file "eslint.config.")
    ∷ base_name lint_configuration ((lit ".eslintignore" ∷ []) ∷ [])
    ∷ base_name lint_configuration ((lit "biome.json" ∷ []) ∷ (lit "biome.jsonc" ∷ []) ∷ [])
    ∷ base_name lint_configuration ((lit ".oxlintrc.json" ∷ []) ∷ [])
    ∷ base_name lint_configuration
        ((lit ".prettierrc" ∷ []) ∷ (lit ".prettierrc." ∷ any_text ∷ []) ∷ [])
    ∷ base_name lint_configuration (script_file "prettier.config.")
    ∷ base_name lint_configuration ((lit ".prettierignore" ∷ []) ∷ [])
    ∷ base_name lint_configuration
        ((lit ".stylelintrc" ∷ []) ∷ (lit ".stylelintrc." ∷ any_text ∷ []) ∷ [])
    ∷ base_name lint_configuration (script_file "stylelint.config.")
    ∷ base_name lint_configuration ((lit ".flake8" ∷ []) ∷ [])
    ∷ base_name lint_configuration ((lit "pylintrc" ∷ []) ∷ (lit ".pylintrc" ∷ []) ∷ [])
    ∷ base_name lint_configuration ((lit "ruff.toml" ∷ []) ∷ (lit ".ruff.toml" ∷ []) ∷ [])
    ∷ base_name lint_configuration (
        (lit ".golangci.yml" ∷ [])
        ∷ (lit ".golangci.yaml" ∷ [])
        ∷ (lit ".golangci.toml" ∷ [])
        ∷ (lit ".golangci.json" ∷ [])
        ∷ [])
    ∷ base_name lint_configuration ((lit "staticcheck.conf" ∷ []) ∷ [])
    ∷ base_name lint_configuration ((lit "clippy.toml" ∷ []) ∷ (lit ".clippy.toml" ∷ []) ∷ [])
    ∷ base_name lint_configuration ((lit "rustfmt.toml" ∷ []) ∷ (lit ".rustfmt.toml" ∷ []) ∷ [])
    ∷ base_name lint_configuration ((lit ".rubocop.yml" ∷ []) ∷ (lit ".rubocop_todo.yml" ∷ []) ∷ [])
    ∷ base_name lint_configuration ((lit ".standard.yml" ∷ []) ∷ [])
    ∷ base_name lint_configuration ((lit ".shellcheckrc" ∷ []) ∷ [])
    ∷ base_name compiler_configuration ((lit "tsconfig" ∷ any_text ∷ lit ".json" ∷ []) ∷ [])
    ∷ base_name compiler_configuration ((lit "jsconfig.json" ∷ []) ∷ [])
    ∷ base_name compiler_configuration ((lit "babel.config." ∷ one_character ∷ any_text ∷ []) ∷ [])
    ∷ base_name compiler_configuration
        ((lit ".babelrc" ∷ []) ∷ (lit ".babelrc." ∷ any_text ∷ []) ∷ [])
    ∷ base_name compiler_configuration ((lit ".swcrc" ∷ []) ∷ [])
    ∷ base_name compiler_configuration ((lit "mypy.ini" ∷ []) ∷ (lit ".mypy.ini" ∷ []) ∷ [])
    ∷ base_name compiler_configuration ((lit "pyrightconfig.json" ∷ []) ∷ [])
    ∷ base_name compiler_configuration
        ((lit "rust-toolchain" ∷ []) ∷ (lit "rust-toolchain.toml" ∷ []) ∷ [])
    ∷ base_name build_configuration ((lit "package.json" ∷ []) ∷ [])
    ∷ base_name build_configuration ((lit "pyproject.toml" ∷ []) ∷ [])
    ∷ base_name build_configuration ((lit "setup.cfg" ∷ []) ∷ [])
    ∷ base_name build_configuration ((lit "setup.py" ∷ []) ∷ [])
    ∷ base_name build_configuration ((lit "tox.ini" ∷ []) ∷ [])
    ∷ base_name build_configuration ((lit "Cargo.toml" ∷ []) ∷ [])
    ∷ base_name build_configuration ((lit "go.mod" ∷ []) ∷ [])
    ∷ base_name build_configuration ((lit "Makefile" ∷ []) ∷ [])
    ∷ base_name build_configuration (script_file "vite.config.")
    ∷ base_name build_configuration (script_file "webpack.config.")
    ∷ base_name build_configuration (script_file "rollup.config.")
    ∷ base_name build_configuration (script_file "tsup.config.")
    ∷ base_name build_configuration (script_file "next.config.")
    ∷ base_name build_configuration ((lit "turbo.json" ∷ []) ∷ [])
    ∷ base_name build_configuration ((lit "bunfig.toml" ∷ []) ∷ [])
    ∷ []
