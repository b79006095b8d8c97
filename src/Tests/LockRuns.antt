-- ===== src/Tests/LockRuns.antt =====
-- adws/triggers/spawnGate.ts: calls alone and interleaved.
use ai_dev_workflow.Prelude.{◌≡◌, ◌≢◌, refl, some, [], ◌∷◌, ℕ, leb, number_eq, arith, ◌+◌}
use ai_dev_workflow.Process.{Host, is_process_live}
use ai_dev_workflow.SpawnGate.{
  LockRecord, LockFile, absent, held, acquire_issue_spawn_lock, should_dispatch_merge,
  should_dispatch_merge-acquire, returned, read_spawn_lock, is_held_live, is_live_record,
}
use ai_dev_workflow.SpawnGate.Race.{won, lost, start, run}
use ai_dev_workflow.SpawnGate.Exclusion.{live_lock_stays, empty_lock_race, stale_lock_race}

abbrev host : Host
host = record { kill_0 = λ pid. leb 10 pid; start_time = λ pid. some "boot" }

-- Process `i` has pid 10 + i.
abbrev who : ℕ → LockRecord
who i = record { pid = 10 + i; pid_started_at = "boot" }

abbrev stale : LockFile
stale = held (record { pid = 3; pid_started_at = "boot" })

taken_in_turn :
    ((run host who (start absent) (0 ∷ 0 ∷ 1 ∷ 1 ∷ 1 ∷ [])).pc 0 ≡ won)
    × ((run host who (start absent) (0 ∷ 0 ∷ 1 ∷ 1 ∷ 1 ∷ [])).pc 1 ≡ lost)
unfolding run is_process_live
taken_in_turn = (refl, refl)

should_dispatch_merge-acquire_example :
    should_dispatch_merge (is_process_live host) (returned (read_spawn_lock stale))
    ≡ (acquire_issue_spawn_lock host 10 stale).0
should_dispatch_merge-acquire_example = should_dispatch_merge-acquire host 10 stale

abbrev running : LockFile
running = held (record { pid = 12; pid_started_at = "boot" })

live_lock_stays_example :
    ((run host who (start running) (0 ∷ 1 ∷ 0 ∷ 1 ∷ [])).shared.file ≡ running)
    × ((i : ℕ) → (run host who (start running) (0 ∷ 1 ∷ 0 ∷ 1 ∷ [])).pc i ≢ won)
unfolding is_live_record is_process_live
live_lock_stays_example =
    live_lock_stays host who (record { pid = 12; pid_started_at = "boot" }) (0 ∷ 1 ∷ 0 ∷ 1 ∷ [])
      refl

empty_lock_race_example :
    let s = run host who (start absent) (0 ∷ 1 ∷ 1 ∷ 1 ∷ 1 ∷ 1 ∷ 0 ∷ []) in
    (s.pc 0 ≡ won) × (s.pc 1 ≡ won) × (s.shared.file ≡ held (who 1))
empty_lock_race_example = empty_lock_race host who 0 1 (omega arith)

stale_lock_race_example :
    let s = run host who (start stale) (0 ∷ 0 ∷ 1 ∷ 1 ∷ 0 ∷ 0 ∷ 0 ∷ 1 ∷ 1 ∷ 1 ∷ []) in
    (s.pc 0 ≡ won) × (s.pc 1 ≡ won) × (s.shared.file ≡ held (who 1))
unfolding is_held_live is_process_live
stale_lock_race_example = stale_lock_race host who stale 0 1 (omega arith) (λ e. cc) refl
