-- ===== src/PauseQueue/Decider.antt =====
-- `decidePauseQueueAction`: what one scan does with one entry.
use ai_dev_workflow.Prelude.{
  Bool, false, Option, none, some, ℕ, ◌+◌, ◌*◌, String, ◌==◌, text_eq, if◌then◌else◌, get_or, ltb,
}
use ai_dev_workflow.PauseQueue.Entry.{PausedWorkflow, ScanningCron, is_owned_by_scanning_cron}

-- The engine's `Date`: `Date.parse`, which may give NaN, and `toISOString`, in milliseconds.
pub record Dates : Type 0 where
  pub date_parse : String → Option ℕ
  pub to_iso_string : ℕ → String

pub data ProbeOutcome : Type 0 where
  clear limited failed unknown : ProbeOutcome

-- `resetsAt` is in seconds since the epoch.
pub record ProbeClassification : Type 0 where
  pub verdict : ProbeOutcome
  pub resets_at : Option ℕ
  pub rate_limit_type : Option String

pub data PauseQueueAction : Type 0 where
  skip_not_owner : PauseQueueAction
  skip_before_reset : Option String → PauseQueueAction
  resume : PauseQueueAction
  refresh_reset : Option String → Option String → PauseQueueAction
  count_strike : ℕ → ProbeOutcome → PauseQueueAction
  evict : ℕ → ProbeOutcome → PauseQueueAction

module _ (dates : Dates) where
  unfoldable pub parse_resets_at : Option String → Option ℕ
  parse_resets_at none = none
  parse_resets_at (some s) = if s == "" then none else dates.date_parse s

  abbrev pub is_later : Option ℕ → ℕ → Bool
  is_later none now = false
  is_later (some t) now = ltb now t

  -- Exactly at the reset time the entry is due.
  unfoldable pub is_before_reset : PausedWorkflow → ℕ → Bool
  unfolding parse_resets_at
  is_before_reset entry now = is_later (parse_resets_at entry.resets_at) now

  abbrev pub resets_at_iso_from_epoch_seconds : ℕ → String
  resets_at_iso_from_epoch_seconds seconds = dates.to_iso_string (seconds * 1000)

  abbrev refresh_at : Option ℕ → Option String → PauseQueueAction
  refresh_at none rate_limit_type = refresh_reset none none
  refresh_at (some t) rate_limit_type =
      refresh_reset (some (resets_at_iso_from_epoch_seconds t)) rate_limit_type

  unfoldable pub refresh_action : ProbeClassification → PauseQueueAction
  refresh_action probe = refresh_at probe.resets_at probe.rate_limit_type

  unfoldable pub strike_action : PausedWorkflow → ProbeOutcome → ℕ → PauseQueueAction
  strike_action entry verdict max_probe_failures =
      let probe_failures = get_or entry.probe_failures 0 + 1 in
      if ltb probe_failures max_probe_failures
      then count_strike probe_failures verdict
      else evict probe_failures verdict

  abbrev action_of_verdict :
      PausedWorkflow → ProbeClassification → ℕ → ProbeOutcome → PauseQueueAction
  action_of_verdict entry probe max_probe_failures clear = resume
  action_of_verdict entry probe max_probe_failures limited = refresh_action probe
  action_of_verdict entry probe max_probe_failures verdict =
      strike_action entry verdict max_probe_failures

  unfoldable pub decide_pause_queue_action :
      PausedWorkflow → ProbeClassification → ℕ → ℕ → ScanningCron → PauseQueueAction
  unfolding is_before_reset refresh_action strike_action
  decide_pause_queue_action entry probe now max_probe_failures cron =
      if is_owned_by_scanning_cron entry cron
      then if is_before_reset entry now
        then skip_before_reset entry.resets_at
        else action_of_verdict entry probe max_probe_failures probe.verdict
      else skip_not_owner
