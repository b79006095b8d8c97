-- ===== src/Auth/Leak.antt =====
-- A lock that `scanAuthQueue` takes and does not give back.
use ai_dev_workflow.Prelude.{
  ◌≡◌, ◌≢◌, refl, ap, ◌∙◌, inl, inr, true, false, none, some, ℕ, String, number_eq, eq_iff, arith,
}
use ai_dev_workflow.State.{AgentState}
use ai_dev_workflow.Process.{Host, is_process_live_iff}
use ai_dev_workflow.SpawnGate.{
  LockFile, held, record_for, is_held_live, acquire_issue_spawn_lock_lem, read_spawn_lock,
  is_live_record,
}
use ai_dev_workflow.Takeover.{
  spawn_fresh, defer_live_holder, ok, World, TakeoverDeps, locked, evaluate_cases,
  evaluate_candidate, acquire_or_reclaim, reclaim_own_leaked_lock, is_own_leaked_lock,
  decide_holding_lock, release_on_throw, holder_pid,
}
use ai_dev_workflow.Auth.Scan.{
  ScanWorld, ScanEnv, lock_set, world_of, with_world, abandon, resume_waiting, visit,
}

module _ (d : TakeoverDeps) where
  fresh_decision :
      (w : World)
      → d.resolve_adw_id ≡ none
      → release_on_throw (decide_holding_lock d w) ≡ (ok spawn_fresh, w)
  unfolding decide_holding_lock release_on_throw
  fresh_decision w unnamed = rw unnamed refl

  -- A free lock is taken for an issue that names no workflow.
  takes_fresh :
      (w : World)
      → is_held_live d.host w.lock ≡ false
      → d.resolve_adw_id ≡ none
      → evaluate_candidate d w ≡ (ok spawn_fresh, locked d w)
  takes_fresh w free unnamed = elim (evaluate_cases d w) [
    | inl decided ↦ decided ∙ fresh_decision (locked d w) unnamed
    | inr (refused, live) ↦ ground (arith, free, live)
  ]

  not_leaked : (w : World) → d.resolve_adw_id ≡ none → is_own_leaked_lock d w ≡ false
  unfolding is_own_leaked_lock
  not_leaked w unnamed = rw unnamed ground arith

  defers :
      (w : World)
      → is_held_live d.host w.lock ≡ true
      → d.resolve_adw_id ≡ none
      → evaluate_candidate d w ≡ (ok (defer_live_holder (holder_pid (read_spawn_lock w.lock))), w)
  unfolding evaluate_candidate acquire_or_reclaim reclaim_own_leaked_lock
  defers w live unnamed =
      rw (acquire_issue_spawn_lock_lem d.host d.own_pid w.lock, live, not_leaked w unnamed) refl

own_is_live :
    (host : Host) (pid : ℕ) {started : String}
    → host.kill_0 pid ≡ true
    → host.start_time pid ≡ some started
    → started ≢ ""
    → is_held_live host (held (record_for host pid)) ≡ true
unfolding is_held_live is_live_record
own_is_live host pid alive start ne = ground (
  arith,
  eq_iff (record_for host pid).pid_started_at "",
  is_process_live_iff host pid (record_for host pid).pid_started_at,
)

own_lock : (n : ℕ) (file : LockFile) (locks : ℕ → LockFile) → lock_set n file locks n ≡ file
own_lock n file locks = ground arith

module _ (env : ScanEnv) (id : String) (state : AgentState) (n : ℕ) (w : ScanWorld) where
  visited :
      w.store id ≡ some state
      → state.workflow_stage ≡ some "paused_auth"
      → state.issue_number ≡ some n
      → visit env id w ≡ resume_waiting env id state n w
  unfolding visit
  visited file stage issue = rw (file, stage, issue) refl

  resumed_fresh :
      env.write_fails id ≡ false
      → is_held_live (env.takeover n).host (w.locks n) ≡ false
      → (env.takeover n).resolve_adw_id ≡ none
      → resume_waiting env id state n w
        ≡ with_world n (locked (env.takeover n) (world_of n (abandon env id w))) (abandon env id w)
  unfolding resume_waiting
  resumed_fresh writes free unnamed =
      rw (takes_fresh (env.takeover n) (world_of n (abandon env id w)) free unnamed, writes) refl

-- A workflow that waits for a login, of an issue whose comments name no workflow: once the login is back and its state
-- file can be written, its visit spawns nothing and leaves the issue's lock, which no live process held, to the cron
-- itself. While the cron runs, with a start time that can be read, it defers the issue to its own process: a later
-- evaluation changes nothing.
pub scan_leaks_lock :
    (env : ScanEnv) (id : String) (state : AgentState) (n : ℕ) (w : ScanWorld) {started : String}
    → w.store id ≡ some state
    → state.workflow_stage ≡ some "paused_auth"
    → state.issue_number ≡ some n
    → env.write_fails id ≡ false
    → is_held_live (env.takeover n).host (w.locks n) ≡ false
    → (env.takeover n).resolve_adw_id ≡ none
    → (env.takeover n).host.kill_0 (env.takeover n).own_pid ≡ true
    → (env.takeover n).host.start_time (env.takeover n).own_pid ≡ some started
    → started ≢ ""
    → ((visit env id w).spawned ≡ w.spawned)
      × ((visit env id w).locks n
          ≡ held (record_for (env.takeover n).host (env.takeover n).own_pid))
      × (evaluate_candidate (env.takeover n) (world_of n (visit env id w))
          ≡ (ok (defer_live_holder (env.takeover n).own_pid), world_of n (visit env id w)))
unfolding read_spawn_lock
scan_leaks_lock env id state n w file stage issue writes free unnamed alive start ne =
    let d = env.takeover n in
    let e =
      visited env id state n w file stage issue
      ∙ resumed_fresh env id state n w writes free unnamed in
    let kept = ap (λ v. v.locks n) e ∙ own_lock n (held (record_for d.host d.own_pid)) w.locks in
    (
      ap (λ v. v.spawned) e,
      kept,
      defers d (world_of n (visit env id w))
            (ap (is_held_live d.host) kept ∙ own_is_live d.host d.own_pid alive start ne) unnamed
          ∙ ap
              (λ k. (
                ok (defer_live_holder (holder_pid (read_spawn_lock k))),
                world_of n (visit env id w),
              ))
              kept,
    )
