-- ===== src/SpawnGate/Race.antt =====
-- Several processes in `acquireIssueSpawnLock` at once: each file operation is one step, and a schedule
-- says whose step comes next. The exclusive creation is two operations: `writeFileSync` opens the file, which is empty
-- then, and writes the record after that. No process releases the lock.
use ai_dev_workflow.Prelude.{
  Bool, false, Option, none, some, List, [], ◌∷◌, ℕ, ◌==◌, number_eq, if◌then◌else◌,
}
use ai_dev_workflow.Process.{Host}
use ai_dev_workflow.SpawnGate.Defs.{
  LockRecord, LockFile, absent, malformed, held, read_spawn_lock, is_live_record,
}

-- Where a process stands in the body of `acquireIssueSpawnLock`: before the first creation, before the
-- read, before the removal, before the second creation, between a creation and its write, or returned.
pub data Pc : Type 0 where
  creating reading removing recreating writing won lost : Pc

unfoldable pub after_read : Host → Option LockRecord → Pc
unfolding is_live_record
after_read host none = removing
after_read host (some existing) = if is_live_record host existing then lost else removing

-- The file, and the process that has opened it and not written it yet, if that file is still there.
pub record Shared : Type 0 where
  pub file : LockFile
  pub opened_by : Option ℕ

-- The `wx` flag creates an empty file, which does not parse, or fails with EEXIST.
abbrev pub open_exclusive : ℕ → Pc → LockFile → Option ℕ → Pc × Shared
open_exclusive i refused absent opened_by =
    (writing, record { file = malformed; opened_by = some i })
open_exclusive i refused malformed opened_by =
    (refused, record { file = malformed; opened_by = opened_by })
open_exclusive i refused (held r) opened_by =
    (refused, record { file = held r; opened_by = opened_by })

abbrev pub is_mine : ℕ → Option ℕ → Bool
is_mine i none = false
is_mine i (some j) = j == i

-- The write goes to the file that was opened, which may have been unlinked since.
abbrev pub write_opened : ℕ → LockRecord → Shared → Shared
write_opened i r s = if is_mine i s.opened_by then record { file = held r; opened_by = none } else s

-- The next file operation of process `i`, whose record is `r`.
unfoldable pub acquire_step : Host → ℕ → LockRecord → Pc → Shared → Pc × Shared
unfolding read_spawn_lock after_read
acquire_step host i r creating s = open_exclusive i reading s.file s.opened_by
acquire_step host i r reading s = (after_read host (read_spawn_lock s.file), s)
acquire_step host i r removing s = (recreating, record { file = absent; opened_by = none })
acquire_step host i r recreating s = open_exclusive i lost s.file s.opened_by
acquire_step host i r writing s = (won, write_opened i r s)
acquire_step host i r won s = (won, s)
acquire_step host i r lost s = (lost, s)

pub record System : Type 0 where
  pub shared : Shared
  pub pc : ℕ → Pc

abbrev pub update : (ℕ → Pc) → ℕ → Pc → ℕ → Pc
update pc i p j = if j == i then p else pc j

-- All processes stand before their first creation.
abbrev pub start : LockFile → System
start file = record { shared = record { file = file; opened_by = none }; pc = λ i. creating }

module _ (host : Host) (who : ℕ → LockRecord) where
  unfoldable pub step : ℕ → System → System
  unfolding acquire_step
  step i s =
      let (p, shared') = acquire_step host i (who i) (s.pc i) s.shared in
      record { shared = shared'; pc = update s.pc i p }

  unfoldable pub run : System → List ℕ → System
  unfolding step
  run s [] = s
  run s (i ∷ is) = run (step i s) is
