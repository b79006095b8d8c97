-- ===== src/PauseQueue/Entry.antt =====
-- An entry of the queue, the repository that it was paused for, and the cron that owns it.
use ai_dev_workflow.Prelude.{
  Bool, ◌&&◌, ◌||◌, Option, none, some, List, [], ◌∷◌, ℕ, String, ◌==◌, text_eq, if◌then◌else◌,
  split, eq_ignoring_case,
}

pub record RepoIdentity : Type 0 where
  pub owner : String
  pub repo : String

-- `PausedWorkflow`; the fields that no modelled code reads are left out.
pub record PausedWorkflow : Type 0 where
  pub adw_id : String
  pub issue_number : ℕ
  pub orchestrator_script : String
  pub last_probe_at : Option String
  pub probe_failures : Option ℕ
  pub worktree_path : String
  pub extra_args : Option (List String)
  pub resets_at : Option String
  pub rate_limit_type : Option String

-- `sameRepoIdentity` of adws/core/repoIdentityCrossCheck.ts
unfoldable pub same_repo_identity : RepoIdentity → RepoIdentity → Bool
same_repo_identity a b = eq_ignoring_case a.owner b.owner && eq_ignoring_case a.repo b.repo

-- The argument behind the first `--target-repo`: `args[args.indexOf('--target-repo') + 1]`.
pub data FlagValue : Type 0 where
  no_flag no_value : FlagValue
  value : String → FlagValue

abbrev first_argument : List String → FlagValue
first_argument [] = no_value
first_argument (a ∷ args) = value a

unfoldable pub flag_value : List String → FlagValue
flag_value [] = no_flag
flag_value (a ∷ args) = if a == "--target-repo" then first_argument args else flag_value args

-- Exactly two parts, both not empty.
abbrev repo_of_parts : List String → Option RepoIdentity
repo_of_parts (o ∷ r ∷ []) =
    if o == "" || r == "" then none else some (record { owner = o; repo = r })
repo_of_parts _ = none

unfoldable pub repo_of_name : String → Option RepoIdentity
unfolding split
repo_of_name s = repo_of_parts (split b'/' s)

abbrev pub repo_of_flag : FlagValue → Option RepoIdentity
repo_of_flag no_flag = none
repo_of_flag no_value = none
repo_of_flag (value s) = repo_of_name s

-- `parseEntryTargetRepo`: total; a missing and a malformed value both read as null.
unfoldable pub parse_entry_target_repo : Option (List String) → Option RepoIdentity
unfolding flag_value repo_of_name
parse_entry_target_repo none = none
parse_entry_target_repo (some args) = repo_of_flag (flag_value args)

-- The outcomes of `parseTargetRepoArgs` of adws/core/orchestratorCli.ts, which ends the process on a
-- missing or malformed value.
pub data ParsedTarget : Type 0 where
  no_target exits : ParsedTarget
  target : RepoIdentity → ParsedTarget

abbrev target_or_exit : Option RepoIdentity → ParsedTarget
target_or_exit none = exits
target_or_exit (some r) = target r

abbrev pub target_of_flag : FlagValue → ParsedTarget
target_of_flag no_flag = no_target
target_of_flag no_value = exits
target_of_flag (value s) = if s == "" then exits else target_or_exit (repo_of_name s)

unfoldable pub parse_target_repo_args : List String → ParsedTarget
unfolding flag_value repo_of_name
parse_target_repo_args args = target_of_flag (flag_value args)

pub record ScanningCron : Type 0 where
  pub repo_id : RepoIdentity
  pub self_host : Bool

abbrev pub owned_target : Option RepoIdentity → ScanningCron → Bool
owned_target none cron = cron.self_host
owned_target (some r) cron = same_repo_identity r cron.repo_id

-- `isOwnedByScanningCron`
unfoldable pub is_owned_by_scanning_cron : PausedWorkflow → ScanningCron → Bool
unfolding parse_entry_target_repo same_repo_identity
is_owned_by_scanning_cron entry cron = owned_target (parse_entry_target_repo entry.extra_args) cron
