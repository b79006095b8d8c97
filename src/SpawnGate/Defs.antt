-- ===== src/SpawnGate/Defs.antt =====
-- The lock file of one issue, and the calls that read, take and release it.
use ai_dev_workflow.Prelude.{
  Bool, true, false, ◌&&◌, ◌||◌, not, Option, none, some, ℕ, String, ◌==◌, number_eq, text_eq,
  if◌then◌else◌, get_or,
}
use ai_dev_workflow.Process.{Host, get_process_start_time, is_process_live}

-- The fields of `IssueSpawnLockRecord` that are read; the others are written for people.
pub record LockRecord : Type 0 where
  pub pid : ℕ
  pub pid_started_at : String

pub data LockFile : Type 0 where
  absent malformed : LockFile
  held : LockRecord → LockFile

abbrev pub record_for : Host → ℕ → LockRecord
record_for host own_pid = record {
  pid = own_pid;
  pid_started_at = get_or (get_process_start_time host own_pid) "";
}

-- `readSpawnLock`: null where the file is missing or does not parse.
unfoldable pub read_spawn_lock : LockFile → Option LockRecord
read_spawn_lock absent = none
read_spawn_lock malformed = none
read_spawn_lock (held r) = some r

-- `tryExclusiveCreate`: the `wx` flag creates the file or fails with EEXIST.
unfoldable pub try_exclusive_create : LockRecord → LockFile → Bool × LockFile
try_exclusive_create r absent = (true, held r)
try_exclusive_create r file = (false, file)

-- `removeSpawnLock`
abbrev pub remove_spawn_lock : LockFile → LockFile
remove_spawn_lock file = absent

-- `existing.pidStartedAt && isProcessLive(existing.pid, existing.pidStartedAt)`
unfoldable pub is_live_record : Host → LockRecord → Bool
is_live_record host r = not (r.pid_started_at == "") && is_process_live host r.pid r.pid_started_at

-- The part of `acquireIssueSpawnLock` behind the failed first creation.
unfoldable pub reclaim_stale : Host → LockRecord → Option LockRecord → LockFile → Bool × LockFile
unfolding try_exclusive_create is_live_record
reclaim_stale host r none file = try_exclusive_create r (remove_spawn_lock file)
reclaim_stale host r (some existing) file =
    if is_live_record host existing
    then (false, file)
    else try_exclusive_create r (remove_spawn_lock file)

-- `acquireIssueSpawnLock`, with no other process between its steps.
unfoldable pub acquire_issue_spawn_lock : Host → ℕ → LockFile → Bool × LockFile
unfolding read_spawn_lock try_exclusive_create reclaim_stale
acquire_issue_spawn_lock host own_pid file =
    let r = record_for host own_pid in
    let (created, file') = try_exclusive_create r file in
    if created then (true, file') else reclaim_stale host r (read_spawn_lock file') file'

-- `releaseIssueSpawnLock`
abbrev pub release_issue_spawn_lock : LockFile → LockFile
release_issue_spawn_lock file = remove_spawn_lock file

-- `isIssueLockHeldByLiveProcess`
unfoldable pub is_issue_lock_held_by_live_process : Host → ℕ → LockFile → Bool
unfolding read_spawn_lock is_process_live
is_issue_lock_held_by_live_process host own_pid file = elim (read_spawn_lock file) [
  | none ↦ false
  | some holder ↦
      if holder.pid == own_pid || holder.pid_started_at == ""
      then false
      else is_process_live host holder.pid holder.pid_started_at
]

-- `shouldDispatchMerge` of adws/triggers/mergeDispatchGate.ts; a read that throws counts as no lock.
pub data LockRead : Type 0 where
  threw : LockRead
  returned : Option LockRecord → LockRead

unfoldable pub should_dispatch_merge : (ℕ → String → Bool) → LockRead → Bool
should_dispatch_merge is_live threw = true
should_dispatch_merge is_live (returned none) = true
should_dispatch_merge is_live (returned (some r)) =
    if r.pid_started_at == "" then true else not (is_live r.pid r.pid_started_at)
