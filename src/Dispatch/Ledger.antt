-- ===== src/Dispatch/Ledger.antt =====
-- adws/triggers/cronLaunchLedger.ts: the launches of this cron that may still be starting up.
use ai_dev_workflow.Prelude.{
  Bool, true, false, ◌&&◌, Option, none, some, ℕ, ◌+◌, String, ◌==◌, number_eq, if◌then◌else◌, ltb,
}
use ai_dev_workflow.Process.{Host, get_process_start_time, is_process_live}

abbrev pub launch_startup_window_ms : ℕ
launch_startup_window_ms = 60000

pub record Launch : Type 0 where
  pub pid : ℕ
  pub pid_started_at : String
  pub launched_at_ms : ℕ

-- The map `launches`, by issue.
abbrev pub Ledger : Type 0
Ledger = ℕ → Option Launch

abbrev pub put : Ledger → ℕ → Option Launch → Ledger
put ledger n l m = if m == n then l else ledger m

-- `record`: a spawn without a pid, or whose process is gone, leaves no launch.
abbrev pub launch_of : Host → ℕ → Option ℕ → Option Launch
launch_of host now none = none
launch_of host now (some pid) = elim (get_process_start_time host pid) [
  | none ↦ none
  | some started ↦ some (record { pid = pid; pid_started_at = started; launched_at_ms = now })
]

unfoldable pub record_launch : Host → ℕ → ℕ → Option ℕ → Ledger → Ledger
record_launch host now n pid ledger = put ledger n (launch_of host now pid)

-- `deps.now() - launch.launchedAtMs < LAUNCH_STARTUP_WINDOW_MS && deps.isLive(…)`
abbrev pub in_startup : Host → ℕ → Launch → Bool
in_startup host now launch =
    ltb now (launch.launched_at_ms + launch_startup_window_ms)
    && is_process_live host launch.pid launch.pid_started_at

-- `isStarting`: a launch that is not starting any more is forgotten.
unfoldable pub is_starting : Host → ℕ → ℕ → Ledger → Bool × Ledger
unfolding is_process_live
is_starting host now n ledger = elim (ledger n) [
  | none ↦ (false, ledger)
  | some launch ↦ if in_startup host now launch then (true, ledger) else (false, put ledger n none)
]
