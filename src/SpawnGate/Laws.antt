-- ===== src/SpawnGate/Laws.antt =====
-- The spawn lock with no other process between the steps of a call.
use ai_dev_workflow.Prelude.{
  ◌≡◌, refl, ◌≢◌, ◌↔◌, Bool, true, false, some, ℕ, String, number_eq, text_eq, if◌then◌else◌, arith,
  eq_iff,
}
use ai_dev_workflow.Process.{Host, is_process_live, is_process_live_iff}
use ai_dev_workflow.SpawnGate.Defs.{
  LockRecord, LockFile, absent, malformed, held, record_for, read_spawn_lock, is_live_record,
  acquire_issue_spawn_lock, is_issue_lock_held_by_live_process, returned, should_dispatch_merge,
}

-- The lock file names a process that is still the one that took it.
unfoldable pub is_held_live : Host → LockFile → Bool
unfolding is_live_record
is_held_live host absent = false
is_held_live host malformed = false
is_held_live host (held r) = is_live_record host r

-- A call succeeds exactly when no live process holds the lock. It then leaves the caller's record,
-- over an absent, a malformed and a stale file alike; a refused call leaves the file as it was.
pub acquire_issue_spawn_lock_lem :
    (host : Host) (own_pid : ℕ) (file : LockFile)
    → acquire_issue_spawn_lock host own_pid file
      ≡ (if is_held_live host file then (false, file) else (true, held (record_for host own_pid)))
unfolding acquire_issue_spawn_lock is_held_live
acquire_issue_spawn_lock_lem host own_pid absent = refl
acquire_issue_spawn_lock_lem host own_pid malformed = refl
acquire_issue_spawn_lock_lem host own_pid (held r) = ground arith

-- Once a live process with a readable start time has taken the lock, every later call is refused,
-- the holder's own included, until it is released.
pub acquire-acquire :
    (host : Host) (p q : ℕ) (file : LockFile) {started : String}
    → host.kill_0 p ≡ true
    → host.start_time p ≡ some started
    → started ≢ ""
    → (acquire_issue_spawn_lock host p file).0 ≡ true
    → acquire_issue_spawn_lock host q (acquire_issue_spawn_lock host p file).1
      ≡ (false, (acquire_issue_spawn_lock host p file).1)
unfolding is_held_live
acquire-acquire host p q file alive start ne got = ground (
  arith,
  acquire_issue_spawn_lock_lem host p file,
  acquire_issue_spawn_lock_lem host q (held (record_for host p)),
  eq_iff (record_for host p).pid_started_at "",
  is_process_live_iff host p (record_for host p).pid_started_at,
)

-- The merge dispatch gate lets a merge through exactly when taking the lock would succeed.
pub should_dispatch_merge-acquire :
    (host : Host) (own_pid : ℕ) (file : LockFile)
    → should_dispatch_merge (is_process_live host) (returned (read_spawn_lock file))
      ≡ (acquire_issue_spawn_lock host own_pid file).0
unfolding should_dispatch_merge acquire_issue_spawn_lock
should_dispatch_merge-acquire host own_pid absent = refl
should_dispatch_merge-acquire host own_pid malformed = refl
should_dispatch_merge-acquire host own_pid (held r) = ground arith

-- The sweepers' test is the same but for the caller's own lock, which never counts.
pub is_issue_lock_held_by_live_process_lem :
    (host : Host) (own_pid : ℕ) (file : LockFile)
    → (is_issue_lock_held_by_live_process host own_pid file ≡ true)
      ↔ ((is_held_live host file ≡ true) × ((r : LockRecord) → file ≡ held r → r.pid ≢ own_pid))
unfolding is_issue_lock_held_by_live_process is_held_live
is_issue_lock_held_by_live_process_lem host own_pid absent = (λ h. cc, λ h. cc)
is_issue_lock_held_by_live_process_lem host own_pid malformed = (λ h. cc, λ h. cc)
is_issue_lock_held_by_live_process_lem host own_pid (held r) =
    (λ h. (ground arith, λ r' e. ground arith), λ h. ground (arith, h.1 r refl))
