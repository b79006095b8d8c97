-- ===== src/Process.antt =====
-- adws/core/processLiveness.ts: a process is the recorded one only if its pid is alive and its start
-- time is the recorded text. The operating system's two reads are the record `Host`.
use ai_dev_workflow.Prelude.{
  tests, ◌≡◌, ◌↔◌, Bool, true, false, Option, none, some, ℕ, String, ◌==◌, text_eq, if◌then◌else◌,
  is_some_of, not,
}

-- `process.kill(pid, 0)` does not throw; the platform's start-time token, null where it has none.
pub record Host : Type 0 where
  pub kill_0 : ℕ → Bool
  pub start_time : ℕ → Option String

abbrev pub get_process_start_time : Host → ℕ → Option String
get_process_start_time host pid = host.start_time pid

-- `isProcessLive`
unfoldable pub is_process_live : Host → ℕ → String → Bool
is_process_live host pid recorded_start_time =
    if host.kill_0 pid
    then is_some_of (get_process_start_time host pid) recorded_start_time
    else false

-- `!text` is true of an absent and of an empty text.
abbrev pub is_truthy : Option String → Bool
is_truthy none = false
is_truthy (some s) = not (s == "")

-- `isRecordedOwnerLive`, over the liveness test that it is handed.
unfoldable pub is_recorded_owner_live : (ℕ → String → Bool) → Option ℕ → Option String → Bool
is_recorded_owner_live is_live none started = false
is_recorded_owner_live is_live (some pid) none = false
is_recorded_owner_live is_live (some pid) (some started) =
    if started == "" then false else is_live pid started

-- A recycled pid never counts: live means alive with exactly the recorded start time.
pub is_process_live_iff :
    (host : Host) (pid : ℕ) (recorded : String)
    → (is_process_live host pid recorded ≡ true)
      ↔ ((host.kill_0 pid ≡ true) × (host.start_time pid ≡ some recorded))
unfolding is_process_live
is_process_live_iff host pid recorded = grind tests
