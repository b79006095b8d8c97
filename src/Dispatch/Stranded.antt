-- ===== src/Dispatch/Stranded.antt =====
-- A fresh issue whose classification fails is marked as processed, and never looked at again.
use ai_dev_workflow.Prelude.{
  ◌≡◌, ◌⊎◌, refl, ap, ◌∙◌, inl, inr, true, false, none, ◌∷◌, ◌==◌, text_eq, number_eq, any, if_rule,
  arith,
}
use ai_dev_workflow.Takeover.{spawn_fresh, ok, evaluate_candidate}
use ai_dev_workflow.Cron.{
  CronIssue, Tick, contains, in_grace, filtered, processed, read_adw_label_names, evaluate_issue,
  evaluate_by_stage, evaluate_fresh,
}
use ai_dev_workflow.Eligibility.{
  EligibilityResult, is_eligible, concurrency_limit, open_dependencies, Cache,
}
use ai_dev_workflow.Dispatch.Ledger.{is_starting}
use ai_dev_workflow.Dispatch.Defs.{
  TickWorld, TickEnv, auth_required, classify_threw, candidate_world, with_candidate_world,
  eligibility_in, classification_of, classify_and_spawn_workflow, mark_processed, after_eligibility,
  act_on, decide_and_act, dispatch_standard,
}

module _ (env : TickEnv) (issue : CronIssue) (w : TickWorld)
    (s : (is_starting env.host env.now issue.number w.ledger).0 ≡ false)
    (u : (eligibility_in env issue w).0 ≡ is_eligible)
    (d : (evaluate_candidate (env.takeover issue.number) (candidate_world issue.number w)).0
      ≡ ok spawn_fresh)
    (f : (classification_of env issue ≡ auth_required)
      ⊎ (classification_of env issue ≡ classify_threw)) where
  classify_spawns : (v : TickWorld) → (classify_and_spawn_workflow env issue v).1.spawns ≡ v.spawns
  unfolding classify_and_spawn_workflow
  classify_spawns v = elim f [ inl a ↦ ground (arith, a) | inr b ↦ ground (arith, b) ]

  classify_launches :
      (v : TickWorld)
      → any (λ l. l == "adw:upgrade") (env.live_labels issue.number) ≡ false
      → (classify_and_spawn_workflow env issue v).1.launches ≡ v.launches
  unfolding classify_and_spawn_workflow
  classify_launches v m = elim f [ inl a ↦ ground (arith, a, m) | inr b ↦ ground (arith, b, m) ]

  -- The worlds in which the decision is acted on, and the classification is asked for.
  abbrev decided : TickWorld
  decided =
      let out = evaluate_candidate (env.takeover issue.number) (candidate_world issue.number w) in
      with_candidate_world issue.number out.1 (record w {
        ledger = (is_starting env.host env.now issue.number w.ledger).1;
        cache = (eligibility_in env issue w).1;
      })

  abbrev marked : TickWorld
  marked = mark_processed env issue.number decided

  eligible_turn :
      (r : EligibilityResult × Cache) (v : TickWorld)
      → r.0 ≡ is_eligible
      → after_eligibility env issue r v ≡ decide_and_act env issue (record v { cache = r.1 })
  eligible_turn (is_eligible, cache) v h = refl
  eligible_turn (concurrency_limit, cache) v h = ground (arith, h)
  eligible_turn (open_dependencies ns, cache) v h = ground (arith, h)

  turn : dispatch_standard env issue w ≡ classify_and_spawn_workflow env issue marked
  unfolding dispatch_standard decide_and_act act_on
  turn =
      rw s (eligible_turn (eligibility_in env issue w) _ u ∙ ap (λ o. act_on env issue o decided) d)

  marked-contains : contains marked.spawns issue.number ≡ true
  marked-contains =
      if_rule (λ ns. contains ns issue.number ≡ true) (contains w.spawns issue.number) w.spawns
        (issue.number ∷ w.spawns) (λ h. h) (λ h. ground arith)

  -- A fresh spawn whose classification asks for a login or fails launches nothing, if the issue does not carry
  -- `adw:upgrade`, yet the issue stays marked as processed: each later tick with the marks that this turn leaves
  -- filters the issue out as processed, once its grace period is over, unless it is cancelled in that tick, opted
  -- out, or has got a stage.
  pub dispatch_standard-strands :
      (tick : Tick)
      → any (λ l. l == "adw:upgrade") (env.live_labels issue.number) ≡ false
      → tick.spawns ≡ (dispatch_standard env issue w).1.spawns
      → contains tick.cancelled_this_cycle issue.number ≡ false
      → (read_adw_label_names issue.labels).opt_out ≡ false
      → (tick.resolve_stage issue).stage ≡ none
      → in_grace tick issue (tick.resolve_stage issue) ≡ false
      → ((dispatch_standard env issue w).1.launches ≡ w.launches)
        × (evaluate_issue tick issue ≡ filtered processed)
  unfolding evaluate_issue evaluate_by_stage evaluate_fresh
  dispatch_standard-strands tick m p c o n g = (
    ap (λ out. out.1.launches) turn ∙ classify_launches marked m,
    ground (
      arith,
      c,
      o,
      n,
      g,
      p ∙ ap (λ out. out.1.spawns) turn ∙ classify_spawns marked,
      marked-contains,
    ),
  )
