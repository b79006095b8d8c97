-- ===== src/Dispatch/Launches.antt =====
-- What a candidate's turn may launch, and on which grounds.
use ai_dev_workflow.Prelude.{
  ◌≡◌, ◌⊎◌, refl, ap, inl, inr, true, false, Option, none, some, ◌∷◌, ℕ, ◌<◌, String, ◌==◌, text_eq,
  number_eq, All, Bool-cases, arith, if_rule, any,
}
use ai_dev_workflow.Process.{Host, is_process_live}
use ai_dev_workflow.SpawnGate.{
  LockFile, absent, malformed, held, read_spawn_lock, should_dispatch_merge, returned, is_held_live,
}
use ai_dev_workflow.Takeover.{
  CandidateDecision, spawn_fresh, take_over_adw_id, defer_live_holder, skip_terminal,
  escalate_human_gated, Outcome, ok, thrown, World, evaluate_candidate,
}
use ai_dev_workflow.Cron.{CronIssue, CronAction, spawn, merge, EligibleIssue, read_adw_label_names}
use ai_dev_workflow.Eligibility.{
  Cache, EligibilityResult, is_eligible, concurrency_limit, open_dependencies, closed_issue,
  extract_dependencies, get_in_progress_issue_count,
}
use ai_dev_workflow.Eligibility.Laws.{check_issue_eligibility_iff}
use ai_dev_workflow.Dispatch.Ledger.{Ledger, is_starting}
use ai_dev_workflow.Dispatch.Defs.{
  Launched, launched_merge, launched_takeover, launched_upgrade, launched_fresh, TickWorld, TickEnv,
  Classification, auth_required, classify_threw, classified, Step, next, mark_processed,
  after_classification, take_over_existing_adw_id, spawn_take_over, candidate_world,
  with_candidate_world, classification_of, classify_and_spawn_workflow, act_on, decide_and_act,
  after_eligibility, eligibility_in, dispatch_standard, dispatch_merge, dispatch_by, dispatch,
}

abbrev pub issue_of : Launched → ℕ
issue_of (launched_merge n adw_id) = n
issue_of (launched_takeover n resumed) = n
issue_of (launched_upgrade n) = n
issue_of (launched_fresh n issue_type) = n

dispatchable :
    (host : Host) (file : LockFile)
    → should_dispatch_merge (is_process_live host) (returned (read_spawn_lock file)) ≡ true
    → is_held_live host file ≡ false
unfolding should_dispatch_merge read_spawn_lock is_held_live
dispatchable host absent h = refl
dispatchable host malformed h = refl
dispatchable host (held r) h = ground arith

module _ (env : TickEnv) where
  -- Every dependency of the issue is closed, and the repository has room.
  abbrev pub IsUnblocked : CronIssue → TickWorld → Type 0
  IsUnblocked issue w =
      All (λ k. (env.eligibility issue.number).get_issue_state k ≡ closed_issue)
        (extract_dependencies (env.eligibility issue.number) (env.body issue.number) w.cache).0
      × (get_in_progress_issue_count (env.listings issue.number).issues
            (env.listings issue.number).prs
          < (env.listings issue.number).limit)

  abbrev decision_in : CronIssue → TickWorld → Outcome CandidateDecision
  decision_in issue w =
      (evaluate_candidate (env.takeover issue.number) (candidate_world issue.number w)).0

  abbrev world_after : CronIssue → TickWorld → World
  world_after issue w =
      (evaluate_candidate (env.takeover issue.number) (candidate_world issue.number w)).1

  -- The grounds of a launch, in the world before the candidate's turn.
  abbrev pub IsJustified : EligibleIssue → TickWorld → Launched → Type 0
  IsJustified e w (launched_merge n adw_id) =
      (e.action ≡ merge) × (e.adw_id ≡ some adw_id) × (is_held_live env.host (w.locks n) ≡ false)
  IsJustified e w (launched_takeover n resumed) =
      IsUnblocked e.issue w
      × ((is_starting env.host env.now n w.ledger).0 ≡ false)
      × (adw_id : String) × (stage : String) × (decision_in e.issue w
          ≡ ok (take_over_adw_id adw_id stage))
      × (resumed ≡ spawn_take_over (world_after e.issue w).store e.issue.number adw_id)
  IsJustified e w (launched_upgrade n) =
      IsUnblocked e.issue w
      × ((is_starting env.host env.now n w.ledger).0 ≡ false)
      × (decision_in e.issue w ≡ ok spawn_fresh)
  IsJustified e w (launched_fresh n issue_type) =
      IsUnblocked e.issue w
      × ((is_starting env.host env.now n w.ledger).0 ≡ false)
      × (decision_in e.issue w ≡ ok spawn_fresh)
      × (env.auth_gate_set n ≡ false)
      × (env.is_adw_running n ≡ false)
      × (classification_of env e.issue ≡ classified issue_type)

  -- Nothing is launched between two worlds, or one thing on the grounds `P`.
  abbrev pub Adds : (Launched → Type 0) → TickWorld → Step × TickWorld → Type 0
  Adds P w out =
      (out.1.launches ≡ w.launches) ⊎ ((l : Launched) × (out.1.launches ≡ l ∷ w.launches) × P l)

  module _ (e : EligibleIssue) (w : TickWorld) where
    abbrev pub Grounds : Launched → Type 0
    Grounds l = (issue_of l ≡ e.issue.number) × IsJustified e w l

    module _ (u : IsUnblocked e.issue w)
        (s : (is_starting env.host env.now e.issue.number w.ledger).0 ≡ false) where
      of_classification :
          (v : TickWorld) (c : Classification)
          → v.launches ≡ w.launches
          → decision_in e.issue w ≡ ok spawn_fresh
          → env.auth_gate_set e.issue.number ≡ false
          → classification_of env e.issue ≡ c
          → Adds Grounds w (after_classification env e.issue.number c v)
      of_classification v auth_required k d g h = inl k
      of_classification v classify_threw k d g h = inl k
      of_classification v (classified t) k d g h =
          if_rule (Adds Grounds w) (env.is_adw_running e.issue.number) _ _ (λ r. inl k)
            (λ r. inr (
              launched_fresh e.issue.number t,
              ap (λ ls. launched_fresh e.issue.number t ∷ ls) k,
              (refl, (u, s, d, g, r, h)),
            ))

      of_fresh :
          (v : TickWorld)
          → v.launches ≡ w.launches
          → decision_in e.issue w ≡ ok spawn_fresh
          → Adds Grounds w (classify_and_spawn_workflow env e.issue v)
      unfolding classify_and_spawn_workflow
      of_fresh v k d = elim (Bool-cases (env.auth_gate_set e.issue.number)) [
        | inl g ↦ rw g (inl k)
        | inr g ↦
            elim (Bool-cases (read_adw_label_names (env.live_labels e.issue.number)).opt_out) [
              | inl o ↦ rw (g, o) (inl k)
              | inr o ↦
                  elim (Bool-cases
                    (any (λ l. l == "adw:upgrade") (env.live_labels e.issue.number))) [
                      | inl m ↦
                          rw (g, o, m)
                            (inr (
                              launched_upgrade e.issue.number,
                              ap (λ ls. launched_upgrade e.issue.number ∷ ls) k,
                              (refl, (u, s, d)),
                            ))
                      | inr m ↦
                          rw (g, o, m)
                            (of_classification v (classification_of env e.issue) k d g refl)
                    ]
            ]
      ]

      of_take :
          (v : TickWorld) (id stage : String)
          → v.launches ≡ w.launches
          → v.store ≡ (world_after e.issue w).store
          → decision_in e.issue w ≡ ok (take_over_adw_id id stage)
          → Adds Grounds w (
            next,
            take_over_existing_adw_id env e.issue.number id (mark_processed env e.issue.number v),
          )
      unfolding take_over_existing_adw_id
      of_take v id stage k st d = inr (
        launched_takeover e.issue.number (spawn_take_over v.store e.issue.number id),
        ap (λ ls. launched_takeover e.issue.number (spawn_take_over v.store e.issue.number id) ∷ ls)
            k,
        (refl, (u, s, id, stage, d, ap (λ store. spawn_take_over store e.issue.number id) st)),
      )

      of_decision :
          (v : TickWorld) (o : Outcome CandidateDecision)
          → v.launches ≡ w.launches
          → v.store ≡ (world_after e.issue w).store
          → decision_in e.issue w ≡ o
          → Adds Grounds w (act_on env e.issue o v)
      unfolding act_on
      of_decision v thrown k st d = inl k
      of_decision v (ok (defer_live_holder pid)) k st d = inl k
      of_decision v (ok (skip_terminal id stage)) k st d = inl k
      of_decision v (ok (escalate_human_gated id)) k st d = inl k
      of_decision v (ok (take_over_adw_id id stage)) k st d = of_take v id stage k st d
      of_decision v (ok spawn_fresh) k st d = of_fresh (mark_processed env e.issue.number v) k d

    -- The same world but for the ledger and the cache.
    abbrev with_ledger : Ledger → TickWorld
    with_ledger ledger = record w { ledger = ledger }

    of_eligibility :
        (ledger : Ledger) (r : EligibilityResult × Cache)
        → (is_starting env.host env.now e.issue.number w.ledger).0 ≡ false
        → (r.0 ≡ is_eligible → IsUnblocked e.issue w)
        → Adds Grounds w (after_eligibility env e.issue r (with_ledger ledger))
    unfolding decide_and_act
    of_eligibility ledger (is_eligible, cache) s u =
        let out =
          evaluate_candidate (env.takeover e.issue.number) (candidate_world e.issue.number w) in
        of_decision (u refl) s
          (with_candidate_world e.issue.number out.1 (record w { ledger = ledger; cache = cache }))
          out.0 refl refl refl
    of_eligibility ledger (concurrency_limit, cache) s u = inl refl
    of_eligibility ledger (open_dependencies ns, cache) s u = inl refl

    unblocked : (eligibility_in env e.issue w).0 ≡ is_eligible → IsUnblocked e.issue w
    unblocked h =
        (check_issue_eligibility_iff (env.eligibility e.issue.number) (env.listings e.issue.number)
            (env.body e.issue.number) w.cache).0
          h

    of_standard : Adds Grounds w (dispatch_standard env e.issue w)
    unfolding dispatch_standard
    of_standard = elim (Bool-cases (is_starting env.host env.now e.issue.number w.ledger).0) [
      | inl starting ↦ rw starting (inl refl)
      | inr s ↦ rw s (
          of_eligibility (is_starting env.host env.now e.issue.number w.ledger).1
            (eligibility_in env e.issue w) s unblocked)
    ]

    of_merge :
        (adw_id : String)
        → e.action ≡ merge
        → e.adw_id ≡ some adw_id
        → Adds Grounds w (dispatch_merge env e.issue.number adw_id w)
    unfolding dispatch_merge
    of_merge adw_id a i =
        elim (Bool-cases (
          should_dispatch_merge (is_process_live env.host)
            (returned (read_spawn_lock (w.locks e.issue.number))))) [
              | inl free ↦ rw free (
                  inr (
                    launched_merge e.issue.number adw_id,
                    refl,
                    (refl, (a, i, dispatchable env.host (w.locks e.issue.number) free)),
                  ))
              | inr busy ↦ rw busy (inl refl)
            ]

    of_action :
        (action : CronAction) (adw_id : Option String)
        → e.action ≡ action
        → e.adw_id ≡ adw_id
        → Adds Grounds w (dispatch_by env action adw_id e.issue w)
    of_action spawn adw_id a i = of_standard
    of_action merge none a i = of_standard
    of_action merge (some adw_id) a i =
        if_rule (Adds Grounds w) (adw_id == "") (dispatch_standard env e.issue w)
          (dispatch_merge env e.issue.number adw_id w) (λ h. of_standard) (λ h. of_merge adw_id a i)

    -- A candidate's turn launches nothing, or one process for that candidate. A merge is launched only for a merge
    -- candidate whose lock no live process holds. An orchestrator is launched only where every dependency found
    -- for the issue is closed, the repository has room, no earlier launch of this cron is still starting, and
    -- the takeover decision is a takeover, whose script and arguments the state file then gives, or a fresh spawn; a fresh workflow besides only while
    -- the auth gate is clear and no other workflow runs, and by the type of its label or of the classifier.
    pub dispatch_lem : Adds Grounds w (dispatch env e w)
    dispatch_lem = of_action e.action e.adw_id refl refl
