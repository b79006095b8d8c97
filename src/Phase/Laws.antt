-- ===== src/Phase/Laws.antt =====
-- How a phase ends, and that a completed phase is not run again.
use ai_dev_workflow.Prelude.{
  ◌≡◌, ◌≢◌, ◌⊎◌, refl, sym, ap, ◌∙◌, inl, inr, true, Option, none, some, ℕ, zero, suc, ◌+◌, ◌≤◌,
  String, text_eq, get_or, ltb, Bool-cases, if_rule, arith,
}
use mathlib.Core.Path.{subst}
use ai_dev_workflow.State.{write_top_level_state}
use ai_dev_workflow.RateLimit.{wait_in_process, enqueue, RateLimitWaitDecision}
use ai_dev_workflow.Phase.World.{
  WorkflowConfig, PhaseError, rate_limit_error, agent_timeout_error, auth_required_error,
  other_error, came_back, threw, ended_process, Attempt, PhaseWorld, PhaseClock, PhaseFn, post,
  stage_patch, phase_patch, waiting,
}
use ai_dev_workflow.Phase.Runner.{
  PhaseEnd, returned, skipped, exited_paused, exited_timeout, exited_itself, rethrown, out_of_fuel,
  entry_in, is_phase_already_completed, mark_phase_running, mark_phase_completed, mark_phase_failed,
  handle_rate_limit_pause, handle_phase_timeout, fail_phase, decide_on_phase_error, after_error,
  after_attempt, attempt_loop, run_phase, phase_of, marks, ended_entry, has_date, paused_entry,
  completed_patch, is_listed,
}
use ai_dev_workflow.Phase.Files.{
  stage_of_file, status_of_file, is_queued, write_stage, write_stage_status, write_entry_status,
  append-is_queued, by_entry_completed,
}

module _ (config : WorkflowConfig) (clock : PhaseClock) (script : String → String) where
  abbrev pub status_at : String → PhaseWorld → Option String
  status_at name w = status_of_file name (w.store config.adw_id)

  abbrev pub stage_at : PhaseWorld → Option String
  stage_at w = stage_of_file (w.store config.adw_id)

  -- A phase that leaves marks is marked as failed.
  abbrev pub IsFailed : Option String → PhaseWorld → Type 0
  IsFailed name w = marks config name ≡ true → status_at (get_or name "") w ≡ some "failed"

  mark-IsFailed :
      (name reason : Option String) (n : ℕ) (w : PhaseWorld)
      → IsFailed name (mark_phase_failed config clock name reason n w)
  unfolding mark_phase_failed
  mark-IsFailed name reason n w m =
      let entry = ended_entry config clock "failed" reason n in
      rw m (
        write_entry_status w.store config.adw_id (get_or name "") "failed" entry
          (phase_patch (get_or name "") entry) refl refl)

  -- How an attempt that ends the phase leaves the state file and the queue.
  -- The phase has ended the process itself, and left `w`.
  abbrev pub HasExited : PhaseFn → PhaseWorld → Type 0
  HasExited fn w = (n : ℕ) × (v : PhaseWorld) × (fn n v ≡ (ended_process, w))

  abbrev pub IsPhaseEnd : Type 0 → PhaseFn → Option String → PhaseEnd × PhaseWorld → Type 0
  IsPhaseEnd Q fn name (returned, w) =
      marks config name ≡ true → is_phase_already_completed config name w.store ≡ true
  IsPhaseEnd Q fn name (skipped, w) = is_phase_already_completed config name w.store ≡ true
  IsPhaseEnd Q fn name (exited_paused, w) =
      (stage_at w ≡ some "paused") × (is_queued config.adw_id w.queue ≡ true) × IsFailed name w
  IsPhaseEnd Q fn name (exited_timeout, w) = (stage_at w ≡ some "phase_timeout") × IsFailed name w
  IsPhaseEnd Q fn name (exited_itself, w) = HasExited fn w
  IsPhaseEnd Q fn name (rethrown err, w) = IsFailed name w
  IsPhaseEnd Q fn name (out_of_fuel, w) = Q

  fail-IsPhaseEnd :
      (Q : Type 0) (fn : PhaseFn) (name : Option String) (n : ℕ) (err : PhaseError) (w : PhaseWorld)
      → IsPhaseEnd Q fn name (fail_phase config clock script name n err w)
  unfolding fail_phase handle_phase_timeout handle_rate_limit_pause
  fail-IsPhaseEnd Q fn name n (rate_limit_error phase facts) w =
      let v = mark_phase_failed config clock name none n w in
      let still_failed : marks config name ≡ true
          → status_of_file (get_or name "")
              (write_top_level_state v.store config.adw_id (stage_patch "paused") config.adw_id)
            ≡ some "failed" =
        λ m.
          write_stage_status v.store config.adw_id "paused" (get_or name "")
          ∙ mark-IsFailed name none n w m in
      if_rule (IsPhaseEnd Q fn name) (has_date config clock facts.resets_at) _ _
        (λ h. (
          write_stage v.store config.adw_id "paused",
          append-is_queued (paused_entry config clock facts script) v.queue,
          still_failed,
        ))
        (λ h. still_failed)
  fail-IsPhaseEnd Q fn name n (agent_timeout_error phase ms) w =
      let v = mark_phase_failed config clock name (some "agent_timeout") n w in
      (
        write_stage v.store config.adw_id "phase_timeout",
        λ m.
            write_stage_status v.store config.adw_id "phase_timeout" (get_or name "")
            ∙ mark-IsFailed name (some "agent_timeout") n w m,
      )
  fail-IsPhaseEnd Q fn name n (auth_required_error agent) w = mark-IsFailed name none n w
  fail-IsPhaseEnd Q fn name n (other_error message) w = mark-IsFailed name none n w

  complete-IsPhaseEnd :
      (Q : Type 0) (fn : PhaseFn) (name : Option String) (n : ℕ) (w : PhaseWorld)
      → IsPhaseEnd Q fn name (returned, mark_phase_completed config clock name n w)
  unfolding mark_phase_completed is_phase_already_completed
  complete-IsPhaseEnd Q fn none n w m = cc
  complete-IsPhaseEnd Q fn (some name) n w m =
      let entry = ended_entry config clock "completed" none n in
      let status =
        write_entry_status w.store config.adw_id name "completed" entry
          (completed_patch config clock name n) refl refl in
      let by =
        by_entry_completed
          (entry_in
            (write_top_level_state w.store config.adw_id (completed_patch config clock name n)
              config.adw_id)
            name)
          (is_listed config.completed_phases name) status in
      ground (arith, m, by)

  pair_of : (out : Attempt × PhaseWorld) → out.0 ≡ ended_process → out ≡ (ended_process, out.1)
  pair_of (a, w) e = ap (λ k. (k, w)) e

  -- No wait in the process follows attempt `last`.
  abbrev pub Settles : ℕ → PhaseFn → Type 0
  Settles last fn =
      (w : PhaseWorld) (err : PhaseError) (until : ℕ)
      → (fn last w).0 ≡ threw err
      → decide_on_phase_error config clock script err (clock.now last)
        ≢ some (wait_in_process until)

  module _ (Q : Type 0) (fn : PhaseFn) (name : Option String) where
    of_decision :
        (n : ℕ) (err : PhaseError) (again : PhaseWorld → PhaseEnd × PhaseWorld) (w : PhaseWorld)
        (d : Option RateLimitWaitDecision)
        → ((until : ℕ)
            → d ≡ some (wait_in_process until)
            → (v : PhaseWorld) → IsPhaseEnd Q fn name (again v))
        → IsPhaseEnd Q fn name (after_error config clock script d name n err again w)
    of_decision n err again w none h = fail-IsPhaseEnd Q fn name n err w
    of_decision n err again w (some (enqueue resets_at)) h = fail-IsPhaseEnd Q fn name n err w
    of_decision n err again w (some (wait_in_process until)) h =
        h until refl (post (waiting (get_or name (phase_of config clock script err)) until n) w)

    of_attempt :
        (n : ℕ) (again : PhaseWorld → PhaseEnd × PhaseWorld) (w : PhaseWorld) (o : Attempt)
        → (o ≡ ended_process → HasExited fn w)
        → ((err : PhaseError) (until : ℕ)
            → o ≡ threw err
            → decide_on_phase_error config clock script err (clock.now n)
              ≡ some (wait_in_process until)
            → (v : PhaseWorld) → IsPhaseEnd Q fn name (again v))
        → IsPhaseEnd Q fn name (after_attempt config clock script o name n again w)
    of_attempt n again w came_back x h = complete-IsPhaseEnd Q fn name n w
    of_attempt n again w ended_process x h = x refl
    of_attempt n again w (threw err) x h =
        of_decision n err again w (decide_on_phase_error config clock script err (clock.now n))
          (λ until e. h err until refl e)

    loop_ends :
        (last fuel n : ℕ) (w : PhaseWorld)
        → Q ⊎ ((fuel + n ≡ suc last) × (n ≤ last) × Settles last fn)
        → IsPhaseEnd Q fn name (attempt_loop config clock script fuel fn name n w)
    unfolding attempt_loop
    loop_ends last zero n w (inl q) = q
    loop_ends last zero n w (inr (e, l, s)) = absurd (omega arith)
    loop_ends last (suc fuel) n w (inl q) =
        of_attempt n (λ v. attempt_loop config clock script fuel fn name (suc n) v) (fn n w).1
          (fn n w).0 (λ e. (n, w, pair_of (fn n w) e))
          (λ err until o d v. loop_ends last fuel (suc n) v (inl q))
    loop_ends last (suc fuel) n w (inr (e, l, s)) =
        of_attempt n (λ v. attempt_loop config clock script fuel fn name (suc n) v) (fn n w).1
          (fn n w).0 (λ e. (n, w, pair_of (fn n w) e))
          (λ err until o d v. elim (Bool-cases (ltb n last)) [
            | inl less ↦ loop_ends last fuel (suc n) v (inr (ground arith, ground arith, s))
            | inr more ↦
                let same : n ≡ last = ground arith in
                absurd (subst (λ k. Settles k fn) (sym same) s w err until o d)
          ])

    run_ends :
        (fuel : ℕ) (w : PhaseWorld)
        → Q ⊎ ((1 ≤ fuel) × Settles fuel fn)
        → IsPhaseEnd Q fn name (run_phase config clock script fuel fn name w)
    unfolding run_phase
    run_ends fuel w h =
        if_rule (IsPhaseEnd Q fn name) (is_phase_already_completed config name w.store) _ _ (λ e. e)
          (λ e.
            loop_ends fuel fuel 1 (mark_phase_running config clock name w)
              (elim h [ inl q ↦ inl q | inr (l, s) ↦ inr (omega arith, l, s) ]))

  -- A phase that is run once and at last settles ends in one of six ways. It returns, and a phase that leaves marks,
  -- which has a name, is then on file as completed. It is skipped, being on file as completed. The process pauses with
  -- the stage `paused` and an entry in the queue, or times out with the stage `phase_timeout`, or the error is thrown on,
  -- and a phase that leaves marks is then on file as failed. Or the phase has ended the process itself, in one of its
  -- attempts, and the runner adds nothing to what it left.
  pub run_phase_lem :
      (name : Option String) (fn : PhaseFn) (fuel : ℕ) (w : PhaseWorld)
      → 1 ≤ fuel
      → Settles fuel fn
      → IsPhaseEnd ⊥ fn name (run_phase config clock script fuel fn name w)
  run_phase_lem name fn fuel w l s = run_ends ⊥ fn name fuel w (inr (l, s))

  rerun :
      (more : ℕ) (later : PhaseFn) (name : Option String) (v : PhaseWorld)
      → is_phase_already_completed config name v.store ≡ true
      → run_phase config clock script more later name v ≡ (skipped, v)
  unfolding run_phase
  rerun more later name v h = rw h refl

  returned_completed :
      (fn : PhaseFn) (name : Option String) (out : PhaseEnd × PhaseWorld)
      → IsPhaseEnd Unit fn name out
      → out.0 ≡ returned
      → marks config name ≡ true
      → is_phase_already_completed config name out.1.store ≡ true
  returned_completed fn name (returned, w) h e m = h m
  returned_completed fn name (skipped, w) h e m = h
  returned_completed fn name (exited_paused, w) h e m = ground (arith, e)
  returned_completed fn name (exited_timeout, w) h e m = ground (arith, e)
  returned_completed fn name (exited_itself, w) h e m = ground (arith, e)
  returned_completed fn name (rethrown err, w) h e m = ground (arith, e)
  returned_completed fn name (out_of_fuel, w) h e m = ground (arith, e)

  -- A phase that leaves marks and has returned is not run again: a later run on the world it left skips it and
  -- changes nothing, whatever the phase would do then.
  pub run_phase-run_phase :
      (name : Option String) (fn later : PhaseFn) (fuel more : ℕ) (w : PhaseWorld)
      → marks config name ≡ true
      → (run_phase config clock script fuel fn name w).0 ≡ returned
      → run_phase config clock script more later name
          (run_phase config clock script fuel fn name w).1
        ≡ (skipped, (run_phase config clock script fuel fn name w).1)
  run_phase-run_phase name fn later fuel more w m e =
      let out = run_phase config clock script fuel fn name w in
      let done = returned_completed fn name out (run_ends Unit fn name fuel w (inl tt)) e m in
      rerun more later name out.1 done
