-- ===== src/PauseQueue/Resume.antt =====
-- The entry that ends the cron.
use ai_dev_workflow.Prelude.{
  ◌≡◌, refl, ap, ◌∙◌, inl, inr, true, false, Option, none, some, List, [], ◌∷◌, ℕ, ◌%◌, String,
  ◌==◌, text_eq, number_eq, get_or, split, Bool-cases, arith, eq_iff,
}
use ai_dev_workflow.SpawnGate.{LockFile}
use ai_dev_workflow.PauseQueue.Entry.{
  repo_of_name, PausedWorkflow, RepoIdentity, ScanningCron, FlagValue, no_flag, no_value, value,
  is_owned_by_scanning_cron, parse_entry_target_repo, parse_target_repo_args, flag_value,
  repo_of_flag, target_of_flag, exits,
}
use ai_dev_workflow.PauseQueue.Decider.{
  ProbeClassification, clear, resume, is_before_reset, decide_pause_queue_action,
}
use ai_dev_workflow.PauseQueue.Scan.{
  QueueWorld, QueueEffect, probed, Ending, done, exited, threw, ScanEnv, resume_workflow,
  execute_pause_queue_action, action_for, execute_all, scan_pause_queue,
}

repo_of_name-empty : repo_of_name "" ≡ none
unfolding repo_of_name split
repo_of_name-empty = refl

exits-none : (f : FlagValue) → target_of_flag f ≡ exits → repo_of_flag f ≡ none
exits-none no_flag h = refl
exits-none no_value h = refl
exits-none (value s) h = elim (Bool-cases (s == "")) [
  | inl empty ↦ rw ((eq_iff s "").0 empty) repo_of_name-empty
  | inr full ↦ ground (arith, full, h)
]

-- A target that the resume's parser gives up on is one that the queue's parser reads as absent.
parse-exits_none :
    (extra_args : Option (List String))
    → parse_target_repo_args (get_or extra_args []) ≡ exits
    → parse_entry_target_repo extra_args ≡ none
unfolding parse_target_repo_args parse_entry_target_repo
parse-exits_none none h = refl
parse-exits_none (some args) h = exits-none (flag_value args) h

module _ (env : ScanEnv) (cron : ScanningCron) (probe : ProbeClassification)
    (entry : PausedWorkflow) (f : parse_target_repo_args (get_or entry.extra_args []) ≡ exits)
    (s : cron.self_host ≡ true) (b : is_before_reset env.dates entry env.now ≡ false)
    (v : probe.verdict ≡ clear) where
  self_host_owns : is_owned_by_scanning_cron entry cron ≡ true
  unfolding is_owned_by_scanning_cron
  self_host_owns = rw (parse-exits_none entry.extra_args f) s

  action_for-resume : action_for env cron probe entry ≡ resume
  unfolding decide_pause_queue_action
  action_for-resume = rw (self_host_owns, b, v) refl

  resume-exits : (w : QueueWorld) → resume_workflow env entry w ≡ (exited, w)
  unfolding resume_workflow
  resume-exits w = rw f refl

  execute-exits :
      (w : QueueWorld)
      → execute_pause_queue_action env entry (action_for env cron probe entry) w ≡ (exited, w)
  unfolding execute_pause_queue_action
  execute-exits w =
      ap (λ a. execute_pause_queue_action env entry a w) action_for-resume ∙ resume-exits w

  execute_all-exits :
      (rest : List PausedWorkflow) (w : QueueWorld)
      → execute_all env cron probe (entry ∷ rest) w ≡ (exited, w)
  unfolding execute_all
  execute_all-exits rest w = ap (after rest) (execute-exits w)
    where
      after : List PausedWorkflow → Ending × QueueWorld → Ending × QueueWorld
      after rest (ending, w') = elim ending [
        | done ↦ execute_all env cron probe rest w'
        | exited ↦ (exited, w')
        | threw ↦ (threw, w')
      ]

-- On a scan that probes, a due entry at the head of the queue whose `--target-repo` is missing its value
-- or malformed ends the process of a self-hosting cron under a clear verdict: nothing is removed from
-- the queue and no entry behind it is looked at.
pub malformed_entry_ends_cron :
    (env : ScanEnv) (cron : ScanningCron) (probe : ProbeClassification) (cycle : ℕ)
    (entry : PausedWorkflow) (rest : List PausedWorkflow) (locks : RepoIdentity → ℕ → LockFile)
    (trace : List QueueEffect)
    → parse_target_repo_args (get_or entry.extra_args []) ≡ exits
    → cron.self_host ≡ true
    → is_before_reset env.dates entry env.now ≡ false
    → probe.verdict ≡ clear
    → cycle % env.probe_interval_cycles ≡ 0
    → scan_pause_queue env cron probe cycle
        (record { queue = entry ∷ rest; locks = locks; trace = trace })
      ≡ (exited, record { queue = entry ∷ rest; locks = locks; trace = probed ∷ trace })
unfolding scan_pause_queue
malformed_entry_ends_cron env cron probe cycle entry rest locks trace f s b v c =
    rw (c, self_host_owns env cron probe entry f s b v, b)
      (execute_all-exits env cron probe entry f s b v rest
        (record { queue = entry ∷ rest; locks = locks; trace = probed ∷ trace }))
