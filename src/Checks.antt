-- ===== src/Checks.antt =====
-- adws/core/checkRunner.ts: the static checks, in their order, each run by a process from outside.
use ai_dev_workflow.Prelude.{
  Bool, true, false, not, ◌&&◌, Option, none, some, List, [], ◌∷◌, map, ℕ, String, ◌==◌, text_eq,
  if◌then◌else◌, is_some_of, number_eq, eq_ignoring_case, trim, join, unlines, decimal,
}

pub data StaticCheckName : Type 0 where
  type_check additional_type_checks lint build : StaticCheckName

pub data CheckStatus : Type 0 where
  passed failed skipped : CheckStatus

pub record StaticCheckCommands : Type 0 where
  pub type_check_command : String
  pub additional_type_checks_command : String
  pub run_linter : String
  pub run_build : String

pub record CheckVerdict : Type 0 where
  pub check : StaticCheckName
  pub command : String
  pub status : CheckStatus
  pub exit_code : Option ℕ
  pub output : String

-- A run that throws is an outcome with the error's text and no exit code.
pub record ProcessOutcome : Type 0 where
  pub exit_code : Option ℕ
  pub output : String

pub data ProcessRun : Type 0 where
  ended : ProcessOutcome → ProcessRun
  threw : String → ProcessRun

abbrev pub static_checks : List StaticCheckName
static_checks = type_check ∷ additional_type_checks ∷ lint ∷ build ∷ []

abbrev pub command_of : StaticCheckCommands → StaticCheckName → String
command_of commands type_check = commands.type_check_command
command_of commands additional_type_checks = commands.additional_type_checks_command
command_of commands lint = commands.run_linter
command_of commands build = commands.run_build

-- `isCheckConfigured`
unfoldable pub is_check_configured : String → Bool
unfolding eq_ignoring_case
is_check_configured command =
    not (trim command == "") && not (eq_ignoring_case (trim command) "n/a")

-- `execute`
abbrev pub execute : ProcessRun → ProcessOutcome
execute (ended outcome) = outcome
execute (threw error) = record { exit_code = none; output = error }

abbrev pub status_of : Option ℕ → CheckStatus
status_of exit_code = if is_some_of exit_code 0 then passed else failed

abbrev pub verdict_of : StaticCheckName → String → ProcessOutcome → CheckVerdict
verdict_of check command outcome = record {
  check = check;
  command = command;
  status = status_of outcome.exit_code;
  exit_code = outcome.exit_code;
  output = outcome.output;
}

-- `runCheck`
unfoldable pub run_check : (String → ProcessRun) → StaticCheckName → String → CheckVerdict
unfolding is_check_configured
run_check run_process check command =
    if is_check_configured command
    then verdict_of check command (execute (run_process command))
    else record {
      check = check;
      command = command;
      status = skipped;
      exit_code = none;
      output = "";
    }

-- `runStaticChecks`
unfoldable pub run_static_checks : StaticCheckCommands → (String → ProcessRun) → List CheckVerdict
unfolding run_check
run_static_checks commands run_process =
    map (λ check. run_check run_process check (command_of commands check)) static_checks

abbrev pub is_failed : CheckVerdict → Bool
is_failed v = elim v.status [ failed ↦ true | _ ↦ false ]

abbrev pub check_text : StaticCheckName → String
check_text type_check = "type check"
check_text additional_type_checks = "additional type checks"
check_text lint = "lint"
check_text build = "build"

abbrev pub status_text : CheckStatus → String
status_text passed = "passed"
status_text failed = "failed"
status_text skipped = "skipped"

-- `renderVerdict`
abbrev pub render_verdict : CheckVerdict → String
render_verdict v = join "[" (
    join (check_text v.check) (
      join "] " (
        join (status_text v.status) (
          join " (exit " (
            join (elim v.exit_code [ none ↦ "none" | some n ↦ decimal n ])
              (join ")\n" v.output))))))

-- `combinedCheckOutput`
unfoldable pub combined_check_output : List CheckVerdict → String
unfolding unlines decimal
combined_check_output verdicts = unlines (map render_verdict verdicts)
