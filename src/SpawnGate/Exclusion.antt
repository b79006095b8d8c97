-- ===== src/SpawnGate/Exclusion.antt =====
-- Who can win the lock when the calls of several processes interleave.
use ai_dev_workflow.Prelude.{
  ◌≡◌, refl, ◌≢◌, ◌⊎◌, true, false, some, none, List, [], ◌∷◌, ℕ, number_eq, arith,
}
use ai_dev_workflow.Process.{Host}
use ai_dev_workflow.SpawnGate.Defs.{LockRecord, LockFile, absent, malformed, held, is_live_record}
use ai_dev_workflow.SpawnGate.Laws.{is_held_live}
use ai_dev_workflow.SpawnGate.Race.{
  reading, removing, recreating, writing, won, System, start, step, run,
}

module _ (host : Host) (who : ℕ → LockRecord) where
  -- What holds while a live process outside the schedule has the lock.
  record Kept (r : LockRecord) (s : System) : Type 0 where
    file_kept : s.shared.file ≡ held r
    no_removal : (i : ℕ) → (s.pc i ≢ removing) × (s.pc i ≢ recreating)
    no_winner : (i : ℕ) → (s.pc i ≢ writing) × (s.pc i ≢ won)

  step-Kept :
      (r : LockRecord) (i : ℕ) (s : System)
      → is_live_record host r ≡ true
      → Kept r s
      → Kept r (step host who i s)
  unfolding step
  step-Kept r i s live k = record {
    file_kept = ground (arith, live, k.file_kept, k.no_removal i, k.no_winner i);
    no_removal = λ j. (
      ground (arith, live, k.file_kept, k.no_removal i, k.no_winner i, k.no_removal j),
      ground (arith, live, k.file_kept, k.no_removal i, k.no_winner i, k.no_removal j),
    );
    no_winner = λ j. (
      ground (arith, live, k.file_kept, k.no_removal i, k.no_winner i, k.no_winner j),
      ground (arith, live, k.file_kept, k.no_removal i, k.no_winner i, k.no_winner j),
    );
  }

  run-Kept :
      (r : LockRecord) (s : System) (is : List ℕ)
      → is_live_record host r ≡ true
      → Kept r s
      → Kept r (run host who s is)
  unfolding run
  run-Kept r s [] live k = k
  run-Kept r s (i ∷ is) live k = run-Kept r (step host who i s) is live (step-Kept r i s live k)

  -- Whatever the schedule of the file operations of calls that take the lock, also between a creation and its write: if
  -- the record of a live process is in the file when they begin, and nobody releases it, the file stays as it is and no
  -- call wins.
  pub live_lock_stays :
      (r : LockRecord) (is : List ℕ)
      → is_live_record host r ≡ true
      → ((run host who (start (held r)) is).shared.file ≡ held r)
        × ((i : ℕ) → (run host who (start (held r)) is).pc i ≢ won)
  live_lock_stays r is live =
      let k = run-Kept r (start (held r)) is live (record {
        file_kept = refl;
        no_removal = λ i. (λ e. cc, λ e. cc);
        no_winner = λ i. (λ e. cc, λ e. cc);
      }) in
      (k.file_kept, λ i. (k.no_winner i).1)

  -- No other process comes between a creation and its write.
  abbrev pub IsUncut : System → List ℕ → Type 0
  IsUncut s [] = Unit
  IsUncut s (i ∷ is) = ((j : ℕ) → s.pc j ≡ writing → i ≡ j) × IsUncut (step host who i s) is

  -- What holds while the file is absent, held by a live process, or opened and not written yet.
  record Inv (s : System) : Type 0 where
    quiet :
        s.shared.opened_by ≡ none
        → (s.shared.file ≡ absent) ⊎ (is_held_live host s.shared.file ≡ true)
    opened :
        (k : ℕ) → s.shared.opened_by ≡ some k → (s.pc k ≡ writing) × (s.shared.file ≡ malformed)
    writers : (i : ℕ) → s.pc i ≡ writing → s.shared.opened_by ≡ some i
    no_removal : (i : ℕ) → (s.pc i ≢ removing) × (s.pc i ≢ recreating)
    readers : (i : ℕ) → s.pc i ≡ reading → is_held_live host s.shared.file ≡ true
    winners : (i : ℕ) → s.pc i ≡ won → s.shared.file ≡ held (who i)

-- From an absent file, two processes can both win: the second reads the file that the first has created and not written
-- yet, which does not parse, removes it and creates its own. The write of the first then goes to the removed file.
pub empty_lock_race :
    (host : Host) (who : ℕ → LockRecord) (i j : ℕ)
    → i ≢ j
    → let s = run host who (start absent) (i ∷ j ∷ j ∷ j ∷ j ∷ j ∷ i ∷ []) in
      (s.pc i ≡ won) × (s.pc j ≡ won) × (s.shared.file ≡ held (who j))
unfolding run
empty_lock_race host who i j ne = ground arith

-- Two processes that meet a stale or malformed lock can both win: each reads the stale record, the
-- first removes it and creates its own, and the second removes that one and creates its own.
pub stale_lock_race :
    (host : Host) (who : ℕ → LockRecord) (file : LockFile) (i j : ℕ)
    → i ≢ j
    → file ≢ absent
    → is_held_live host file ≡ false
    → let s = run host who (start file) (i ∷ i ∷ j ∷ j ∷ i ∷ i ∷ i ∷ j ∷ j ∷ j ∷ []) in
      (s.pc i ≡ won) × (s.pc j ≡ won) × (s.shared.file ≡ held (who j))
unfolding run is_held_live
stale_lock_race host who absent i j ne there stale = absurd (there refl)
stale_lock_race host who malformed i j ne there stale = ground (arith)
stale_lock_race host who (held r) i j ne there stale = ground (arith)
