-- ===== src/AutoMerge/World.antt =====
-- What the merge loop sees of git and of the forge, and what it remembers. The n-th answer of every call
-- is free: `clock` counts the calls that were made.
use ai_dev_workflow.Prelude.{
  Bool, true, false, Option, none, some, List, [], ◌∷◌, ◌++◌, ℕ, suc, String, ◌==◌, text_eq,
  if◌then◌else◌, keep, any, not,
}

pub data LocalMergeCheck : Type 0 where
  clean conflicts unavailable : LocalMergeCheck

pub record MergedInBase : Type 0 where
  pub merged_commits : List String
  pub conflicted_files : List String

pub record PostMergeFailure : Type 0 where
  pub title : String
  pub detail : String

pub data PostMergeVerdict : Type 0 where
  green : PostMergeVerdict
  red : List PostMergeFailure → PostMergeVerdict

pub record PostMergeRed : Type 0 where
  pub merged_in : MergedInBase
  pub failures : List PostMergeFailure

pub data BaseIntegration : Type 0 where
  current unresolved : BaseIntegration
  brought_in : MergedInBase → BaseIntegration

-- What became of the branch, as far as the theorems speak of it. `base_brought_in` is put on the trace wherever the base
-- is merged into the branch, also by a resolver that then reports failure, which the loop does not see.
pub data MergeEvent : Type 0 where
  base_brought_in scenarios_passed scenarios_failed pushed asked landed : MergeEvent

-- The calls that the loop makes, by the clock. `merge_pull_request` gives the error of a refusal.
-- `base_left_in` says that an integration that fails has merged the base in all the same.
-- `listed` is the commit window that `bringBaseIn` reads before and after its merge.
pub record MergeEnv : Type 0 where
  pub fetch_ok : ℕ → Bool
  pub dry_merge_ok : ℕ → Bool
  pub real_merge_ok : ℕ → Bool
  pub resolver_ok : ℕ → Bool
  pub base_left_in : ℕ → Bool
  pub push_ok : ℕ → Bool
  pub head_short : ℕ → Option String
  pub listed : ℕ → List String
  pub conflicted_paths : ℕ → List String
  pub commits_missing : ℕ → List String
  pub merge_pull_request : ℕ → Option String
  pub rerun_scenarios : ℕ → PostMergeVerdict

-- `Progress`, with the clock and the trace, newest first.
pub record Progress : Type 0 where
  pub merge_attempts : ℕ
  pub conflict_resolution_ran : Bool
  pub local_merge_check : LocalMergeCheck
  pub last_merge_error : String
  pub untested : Option MergedInBase
  pub clock : ℕ
  pub trace : List MergeEvent

abbrev pub tick : Progress → Progress
tick p = record p { clock = suc p.clock }

abbrev pub log : MergeEvent → Progress → Progress
log e p = record p { clock = suc p.clock; trace = e ∷ p.trace }

-- `[...new Set([...a, ...b])]`, each text at its first place.
unfoldable pub without_repeats : List String → List String → List String
without_repeats seen [] = []
without_repeats seen (s ∷ ss) =
    let fresh = without_repeats (s ∷ seen) ss in
    let old = without_repeats seen ss in if any (λ t. t == s) seen then old else s ∷ fresh

abbrev commits_of : Option MergedInBase → List String
commits_of none = []
commits_of (some m) = m.merged_commits

abbrev files_of : Option MergedInBase → List String
files_of none = []
files_of (some m) = m.conflicted_files

-- `combineMergedIn` of adws/core/postMergeVerdict.ts
unfoldable pub combine_merged_in : Option MergedInBase → MergedInBase → MergedInBase
unfolding without_repeats
combine_merged_in previous next = record {
  merged_commits = commits_of previous ++ next.merged_commits;
  conflicted_files = without_repeats [] (files_of previous ++ next.conflicted_files);
}

module _ (env : MergeEnv) where
  -- `checkLocalMerge`
  unfoldable pub check_local_merge : ℕ → LocalMergeCheck
  check_local_merge t =
      if env.fetch_ok t then if env.dry_merge_ok t then clean else conflicts else unavailable

  -- `baseMovedPast`
  unfoldable pub base_moved_past : ℕ → Bool
  base_moved_past t = if env.fetch_ok t then is_nonempty (env.commits_missing t) else false
    where
      is_nonempty : List String → Bool
      is_nonempty [] = false
      is_nonempty (c ∷ cs) = true

  -- `resolveConflictsViaAgent`: a merge that goes through cleanly after all needs no agent.
  unfoldable pub resolve_conflicts_via_agent : ℕ → Bool × List String
  resolve_conflicts_via_agent t =
      if env.fetch_ok t
      then if env.real_merge_ok t then (true, []) else (env.resolver_ok t, env.conflicted_paths t)
      else (env.resolver_ok t, env.conflicted_paths t)

  -- `mergeBaseIn`
  unfoldable pub merge_base_in : Bool → ℕ → Bool × List String
  unfolding resolve_conflicts_via_agent
  merge_base_in has_conflicts t =
      if has_conflicts then resolve_conflicts_via_agent t else (env.real_merge_ok t, [])

  abbrev same_head : Option String → String → Bool
  same_head none before = false
  same_head (some after) before = after == before

  abbrev integration_of : Bool × List String → String → ℕ → BaseIntegration
  integration_of (resolved, files) before t =
      if not resolved
      then unresolved
      else if same_head (env.head_short (suc t)) before
      then current
      else brought_in (record {
        merged_commits = keep (λ l. not (any (λ m. m == l) (env.listed t))) (env.listed (suc t));
        conflicted_files = files;
      })

  abbrev bring_onto : Option String → Bool → ℕ → BaseIntegration
  bring_onto none has_conflicts t = unresolved
  bring_onto (some before) has_conflicts t = integration_of (merge_base_in has_conflicts t) before t

  -- `bringBaseIn`: a HEAD that cannot be read after the merge counts as moved.
  unfoldable pub bring_base_in : Bool → ℕ → BaseIntegration
  unfolding merge_base_in
  bring_base_in has_conflicts t = bring_onto (env.head_short t) has_conflicts t
