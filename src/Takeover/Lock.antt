-- ===== src/Takeover/Lock.antt =====
-- Who holds the issue's lock when `evaluateCandidate` returns or throws.
use ai_dev_workflow.Prelude.{
  ◌≡◌, refl, sym, ap, Bool, ℕ, if◌then◌else◌, eq_iff, ◌⊎◌, inl, inr, true, false, Option, none,
  some, ◌∷◌, String, text_eq, number_eq, get_or, arith,
}
use mathlib.Core.Path.{subst}
use ai_dev_workflow.State.{AgentState, Store}
use ai_dev_workflow.SpawnGate.{
  LockFile, absent, held, record_for, acquire_issue_spawn_lock_lem, is_held_live, read_spawn_lock,
}
use ai_dev_workflow.Takeover.Calls.{
  CandidateDecision, spawn_fresh, take_over_adw_id, defer_live_holder, skip_terminal,
  escalate_human_gated, killed, Outcome, ok, thrown, World, TakeoverDeps,
}
use ai_dev_workflow.Takeover.Defs.{
  recover_starting_stage, recover_active_stage, recover_phase_timeout, decide_for_state,
  decide_for_adw_id, decide_for_read, decide_holding_lock, release_on_throw, acquire_or_reclaim,
  reclaim_own_leaked_lock, evaluate_candidate, holder_pid, owner_live, is_own_leaked_lock,
}
use ai_dev_workflow.Takeover.Recovery.{Recovers, reset-Recovers, resume-Recovers}

-- The workflow is starting, and the process on file, which is live, is the one that is deferred to.
abbrev pub IsStarting : TakeoverDeps → AgentState → ℕ → Type 0
IsStarting d state pid =
    (get_or state.workflow_stage "" ≡ "starting")
    × (owner_live d state ≡ true)
    × (pid ≡ get_or state.pid 0)

-- With the lock taken: kept for a spawn or a takeover, released for the three other decisions, and a deferral is to a
-- process of which `Q` holds.
abbrev LockAfter : (ℕ → Type 0) → LockFile → Outcome CandidateDecision → LockFile → Type 0
LockAfter Q taken (ok spawn_fresh) after = after ≡ taken
LockAfter Q taken (ok (take_over_adw_id id stage)) after = after ≡ taken
LockAfter Q taken (ok (defer_live_holder pid)) after = (after ≡ absent) × Q pid
LockAfter Q taken (ok (skip_terminal id stage)) after = after ≡ absent
LockAfter Q taken (ok (escalate_human_gated id)) after = after ≡ absent
LockAfter Q taken thrown after = (after ≡ taken) ⊎ (after ≡ absent)

abbrev KeepsDiscipline : (ℕ → Type 0) → World → Outcome CandidateDecision × World → Type 0
KeepsDiscipline Q w (r, w') = LockAfter Q w.lock r w'.lock

module _ (d : TakeoverDeps) (adw_id : String) (state : AgentState) where
  of_Recovers :
      (w : World) (out : Outcome CandidateDecision × World)
      → Recovers adw_id w out
      → KeepsDiscipline (IsStarting d state) w out
  of_Recovers w (r, w') h = ground (arith, h.lock_kept, h.taken)

  IsStarting-lock :
      (w : World)
      → get_or state.workflow_stage "" ≡ "starting"
      → KeepsDiscipline (IsStarting d state) w (recover_starting_stage d adw_id state w)
  unfolding recover_starting_stage
  IsStarting-lock w at = ground (arith, of_Recovers w _ (resume-Recovers d adw_id state w))

  active_lock :
      (w : World) → KeepsDiscipline (IsStarting d state) w (recover_active_stage d adw_id state w)
  unfolding recover_active_stage
  active_lock w =
      let w' : World = record w { trace = killed (get_or state.pid 0) ∷ w.trace } in
      ground (
        arith,
        IsStarting-lock w,
        eq_iff (get_or state.workflow_stage "") "starting",
        of_Recovers w _ (reset-Recovers d adw_id state w),
        of_Recovers w' _ (reset-Recovers d adw_id state w'),
      )

  phase_timeout_lock :
      (w : World) → KeepsDiscipline (IsStarting d state) w (recover_phase_timeout d adw_id state w)
  unfolding recover_phase_timeout
  phase_timeout_lock w = ground (arith, of_Recovers w _ (resume-Recovers d adw_id state w))

  decide_for_state_lock :
      (w : World) → KeepsDiscipline (IsStarting d state) w (decide_for_state d adw_id state w)
  unfolding decide_for_state
  decide_for_state_lock w = ground (
    arith,
    phase_timeout_lock w,
    active_lock w,
    of_Recovers w _ (resume-Recovers d adw_id state w),
  )

module _ (d : TakeoverDeps) where
  -- The candidate's workflow is starting under a live process with this pid.
  abbrev pub IsStartingFor : Store → ℕ → Type 0
  IsStartingFor store pid =
      (id : String) × (state : AgentState) × (d.resolve_adw_id ≡ some id)
      × (store id ≡ some state)
      × IsStarting d state pid

  widen :
      (Q R : ℕ → Type 0) (w : World) (out : Outcome CandidateDecision × World)
      → ((pid : ℕ) → Q pid → R pid)
      → KeepsDiscipline Q w out
      → KeepsDiscipline R w out
  widen Q R w (ok spawn_fresh, w') f h = h
  widen Q R w (ok (take_over_adw_id id stage), w') f h = h
  widen Q R w (ok (defer_live_holder pid), w') f (h, q) = (h, f pid q)
  widen Q R w (ok (skip_terminal id stage), w') f h = h
  widen Q R w (ok (escalate_human_gated id), w') f h = h
  widen Q R w (thrown, w') f h = h

  read_lock :
      (adw_id : String) (o : Option AgentState) (w : World)
      → d.resolve_adw_id ≡ some adw_id
      → w.store adw_id ≡ o
      → KeepsDiscipline (IsStartingFor w.store) w (decide_for_read d adw_id o w)
  read_lock adw_id none w n e = refl
  read_lock adw_id (some state) w n e =
      widen (IsStarting d state) (IsStartingFor w.store) w (decide_for_state d adw_id state w)
        (λ pid q. (adw_id, state, n, e, q)) (decide_for_state_lock d adw_id state w)

  id_lock :
      (id : Option String) (w : World)
      → d.resolve_adw_id ≡ id
      → KeepsDiscipline (IsStartingFor w.store) w (decide_for_adw_id d id w)
  id_lock none w n = refl
  id_lock (some adw_id) w n = read_lock adw_id (w.store adw_id) w n refl

  decide_lock : (w : World) → KeepsDiscipline (IsStartingFor w.store) w (decide_holding_lock d w)
  unfolding decide_holding_lock
  decide_lock w = id_lock d.resolve_adw_id w refl

  -- A leaked lock of this process is taken again; otherwise nothing changes.
  reclaim_cases :
      (w : World)
      → (reclaim_own_leaked_lock d w ≡ (false, w))
        ⊎ (reclaim_own_leaked_lock d w
            ≡ (true, record w { lock = held (record_for d.host d.own_pid) }))
  unfolding reclaim_own_leaked_lock is_held_live
  reclaim_cases w = ground (arith, acquire_issue_spawn_lock_lem d.host d.own_pid absent)

  -- Either this process holds the lock, or a live process does and the world is as it was.
  pub acquire_cases :
      (w : World)
      → (acquire_or_reclaim d w ≡ (true, record w { lock = held (record_for d.host d.own_pid) }))
        ⊎ ((acquire_or_reclaim d w ≡ (false, w)) × (is_held_live d.host w.lock ≡ true))
  unfolding acquire_or_reclaim
  acquire_cases w =
      ground (arith, acquire_issue_spawn_lock_lem d.host d.own_pid w.lock, reclaim_cases w)

-- The world in which `decideHoldingLock` runs.
abbrev pub locked : TakeoverDeps → World → World
locked d w = record w { lock = held (record_for d.host d.own_pid) }

-- The lock file after a call of `evaluateCandidate` in the world `w`.
abbrev pub LockDiscipline : TakeoverDeps → World → Outcome CandidateDecision → LockFile → Type 0
LockDiscipline d w (ok spawn_fresh) after = after ≡ held (record_for d.host d.own_pid)
LockDiscipline d w (ok (take_over_adw_id id stage)) after =
    after ≡ held (record_for d.host d.own_pid)
LockDiscipline d w (ok (defer_live_holder pid)) after =
    ((after ≡ w.lock)
      × (is_held_live d.host w.lock ≡ true)
      × (pid ≡ holder_pid (read_spawn_lock w.lock)))
    ⊎ ((after ≡ absent)
        × ((is_held_live d.host w.lock ≡ false) ⊎ (is_own_leaked_lock d w ≡ true))
        × IsStartingFor d w.store pid)
LockDiscipline d w (ok (skip_terminal id stage)) after = after ≡ absent
LockDiscipline d w (ok (escalate_human_gated id)) after = after ≡ absent
LockDiscipline d w thrown after = after ≡ absent

-- The lock could be had: no live process held it, or it is one that this process has leaked.
could_be_had :
    (d : TakeoverDeps) (w : World)
    → (acquire_or_reclaim d w).0 ≡ true
    → (is_held_live d.host w.lock ≡ false) ⊎ (is_own_leaked_lock d w ≡ true)
unfolding acquire_or_reclaim reclaim_own_leaked_lock
could_be_had d w h = ground (arith, h, acquire_issue_spawn_lock_lem d.host d.own_pid w.lock)

of_taken :
    (d : TakeoverDeps) (w : World) (out : Outcome CandidateDecision × World)
    → (is_held_live d.host w.lock ≡ false) ⊎ (is_own_leaked_lock d w ≡ true)
    → KeepsDiscipline (IsStartingFor d w.store) (locked d w) out
    → LockDiscipline d w (release_on_throw out).0 (release_on_throw out).1.lock
unfolding release_on_throw
of_taken d w (ok spawn_fresh, w') free h = h
of_taken d w (ok (take_over_adw_id id stage), w') free h = h
of_taken d w (ok (defer_live_holder pid), w') free (h, q) = inr (h, free, q)
of_taken d w (ok (skip_terminal id stage), w') free h = h
of_taken d w (ok (escalate_human_gated id), w') free h = h
of_taken d w (thrown, w') free h = refl

-- `evaluateCandidate` behind the attempt at the lock.
abbrev decided : TakeoverDeps → Bool × World → Outcome CandidateDecision × World
decided d (acquired, w') =
    if acquired
    then release_on_throw (decide_holding_lock d w')
    else (ok (defer_live_holder (holder_pid (read_spawn_lock w'.lock))), w')

-- Whatever the calls do, the decision says who holds the lock when `evaluateCandidate` returns. After a spawn or a
-- takeover it is this process. After a terminal stage, an escalation and a throw the file is gone. A deferral comes in two
-- kinds. Either a live process, which may be this one itself, held the lock at the call; then its file is as it was, and
-- its process is the one named. Or the lock could be had, and the workflow on file is starting under the live process
-- that is named; then the file is gone.
pub evaluate_candidate_lock :
    (d : TakeoverDeps) (w : World)
    → LockDiscipline d w (evaluate_candidate d w).0 (evaluate_candidate d w).1.lock
unfolding evaluate_candidate
evaluate_candidate_lock d w = elim (acquire_cases d w) [
  | inl got ↦
      subst (λ (x : Bool × World). LockDiscipline d w (decided d x).0 (decided d x).1.lock)
        (sym got)
        (of_taken d w (decide_holding_lock d (locked d w)) (could_be_had d w (ap (λ x. x.0) got))
          (decide_lock d (locked d w)))
  | inr (refused, live) ↦
      subst (λ (x : Bool × World). LockDiscipline d w (decided d x).0 (decided d x).1.lock)
        (sym refused) (inl (refl, live, refl))
]

pub evaluate_cases :
    (d : TakeoverDeps) (w : World)
    → (evaluate_candidate d w ≡ release_on_throw (decide_holding_lock d (locked d w)))
      ⊎ ((evaluate_candidate d w
            ≡ (ok (defer_live_holder (holder_pid (read_spawn_lock w.lock))), w))
          × (is_held_live d.host w.lock ≡ true))
unfolding evaluate_candidate
evaluate_cases d w = elim (acquire_cases d w) [
  | inl got ↦ inl (rw got)
  | inr (refused, live) ↦ inr (rw refused, live)
]

pub release_on_throw_kept :
    (out : Outcome CandidateDecision × World)
    → ((release_on_throw out).1.trace ≡ out.1.trace)
      × ((release_on_throw out).1.store ≡ out.1.store)
      × ((release_on_throw out).0 ≡ out.0)
unfolding release_on_throw
release_on_throw_kept (ok decision, w) = (refl, refl, refl)
release_on_throw_kept (thrown, w) = (refl, refl, refl)
