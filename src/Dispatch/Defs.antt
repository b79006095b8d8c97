-- ===== src/Dispatch/Defs.antt =====
-- The loop of `checkAndTrigger` over the candidates, with `classifyAndSpawnWorkflow`.
use ai_dev_workflow.Prelude.{
  Bool, Option, none, some, List, [], ◌∷◌, ℕ, String, ◌==◌, text_eq, number_eq, if◌then◌else◌, any,
  get_or,
}
use ai_dev_workflow.State.{AgentState, Store, read_top_level_state}
use ai_dev_workflow.Process.{Host, is_process_live}
use ai_dev_workflow.SpawnGate.{
  LockFile, read_spawn_lock, release_issue_spawn_lock, should_dispatch_merge, returned,
}
use ai_dev_workflow.Takeover.{
  CandidateDecision, spawn_fresh, take_over_adw_id, defer_live_holder, skip_terminal,
  escalate_human_gated, Effect, Outcome, ok, thrown, World, TakeoverDeps, evaluate_candidate,
}
use ai_dev_workflow.Cron.{CronIssue, CronAction, spawn, merge, EligibleIssue, read_adw_label_names}
use ai_dev_workflow.Eligibility.{
  EligibilityDeps, Listings, Cache, EligibilityResult, is_eligible, concurrency_limit,
  open_dependencies, check_issue_eligibility,
}
use ai_dev_workflow.Dispatch.Ledger.{Ledger, is_starting, record_launch}

-- `ResumeSpawnDescriptor`: the script and its two arguments, which the state file may lack.
pub record ResumeSpawn : Type 0 where
  pub script : String
  pub issue_number : Option ℕ
  pub adw_id : Option String

-- What the tick has started: the merge of an issue, the orchestrator of a takeover, the upgrade orchestrator, and a
-- fresh workflow by its type, without the adw-id that it is given.
pub data Launched : Type 0 where
  launched_merge : ℕ → String → Launched
  launched_takeover : ℕ → ResumeSpawn → Launched
  launched_upgrade : ℕ → Launched
  launched_fresh : ℕ → String → Launched

-- What outlives an iteration. `locks` are the lock files by issue; `launches` are in the order of time, newest first.
pub record TickWorld : Type 0 where
  pub locks : ℕ → LockFile
  pub store : Store
  pub effects : List Effect
  pub spawns : List ℕ
  pub ledger : Ledger
  pub cache : Cache
  pub launches : List Launched

-- The answer of the classifier: it may throw, for a login that is gone or for another reason.
pub data Classification : Type 0 where
  auth_required classify_threw : Classification
  classified : String → Classification

-- The machine, this process, the forge and the agents as the tick meets them, by issue. `spawned_pid` is what
-- `spawnDetached` returns: none for a spawn that failed.
pub record TickEnv : Type 0 where
  pub host : Host
  pub own_pid : ℕ
  pub now : ℕ
  pub takeover : ℕ → TakeoverDeps
  pub eligibility : ℕ → EligibilityDeps
  pub listings : ℕ → Listings
  pub body : ℕ → String
  pub auth_gate_set : ℕ → Bool
  pub live_labels : ℕ → List String
  pub classify : ℕ → Classification
  pub is_adw_running : ℕ → Bool
  pub spawned_pid : ℕ → Option ℕ

-- How an iteration ends: with the next one, with the tick's early return, or with an error that ends the tick.
pub data Step : Type 0 where
  next : Step
  auth_gate_set_here tick_threw : Step

abbrev pub set_lock : (ℕ → LockFile) → ℕ → LockFile → ℕ → LockFile
set_lock locks n file m = if m == n then file else locks m

abbrev pub release : ℕ → TickWorld → TickWorld
release n w = record w { locks = set_lock w.locks n (release_issue_spawn_lock (w.locks n)) }

abbrev pub launch : Launched → TickWorld → TickWorld
launch l w = record w { launches = l ∷ w.launches }

-- `evaluateCandidateForTick`: the issue's lock, the state files and the effects, in and out.
abbrev pub candidate_world : ℕ → TickWorld → World
candidate_world n w = record { lock = w.locks n; store = w.store; trace = w.effects }

abbrev pub with_candidate_world : ℕ → World → TickWorld → TickWorld
with_candidate_world n c w = record w {
  locks = set_lock w.locks n c.lock;
  store = c.store;
  effects = c.trace;
}

-- `resolveResumeSpawn`
abbrev pub resolve_resume_spawn : AgentState → ResumeSpawn
resolve_resume_spawn state = record {
  script = get_or state.orchestrator_script "adws/adwSdlc.tsx";
  issue_number = state.issue_number;
  adw_id = state.adw_id;
}

-- `spawnTakeOver`: what it spawns; without a state file, the default script.
abbrev pub spawn_take_over : Store → ℕ → String → ResumeSpawn
spawn_take_over store n adw_id = elim (read_top_level_state store adw_id) [
  | none ↦ record { script = "adws/adwSdlc.tsx"; issue_number = some n; adw_id = some adw_id }
  | some state ↦ resolve_resume_spawn state
]

module _ (env : TickEnv) where
  -- `takeOverExistingAdwId`
  unfoldable pub take_over_existing_adw_id : ℕ → String → TickWorld → TickWorld
  unfolding record_launch
  take_over_existing_adw_id n adw_id w =
      let launched =
        release n (launch (launched_takeover n (spawn_take_over w.store n adw_id)) w) in
      record launched {
        ledger = record_launch env.host env.now n (env.spawned_pid n) launched.ledger;
      }

  -- What the classifier's answer leads to; each way out releases the lock.
  abbrev pub after_classification : ℕ → Classification → TickWorld → Step × TickWorld
  after_classification n auth_required w = (auth_gate_set_here, release n w)
  after_classification n classify_threw w = (tick_threw, release n w)
  after_classification n (classified issue_type) w =
      if env.is_adw_running n
      then (next, release n w)
      else (next, release n (launch (launched_fresh n issue_type) w))

  -- The classification that a single `adw:<type>` label gives, or the classifier's.
  abbrev pub classification_of : CronIssue → Classification
  classification_of issue = elim (read_adw_label_names issue.labels).classification [
    | some issue_type ↦ classified issue_type
    | none ↦ env.classify issue.number
  ]

  -- `classifyAndSpawnWorkflow` for a precomputed `spawn_fresh`
  unfoldable pub classify_and_spawn_workflow : CronIssue → TickWorld → Step × TickWorld
  unfolding read_adw_label_names
  classify_and_spawn_workflow issue w =
      let n = issue.number in
      if env.auth_gate_set n
      then (next, release n w)
      else if (read_adw_label_names (env.live_labels n)).opt_out
      then (next, release n w)
      else if any (λ l. l == "adw:upgrade") (env.live_labels n)
      then (next, release n (launch (launched_upgrade n) w))
      else after_classification n (classification_of issue) w

  abbrev pub mark_processed : ℕ → TickWorld → TickWorld
  mark_processed n w = record w {
    spawns = if any (λ m. m == n) w.spawns then w.spawns else n ∷ w.spawns;
  }

  -- The branches on the takeover decision.
  unfoldable pub act_on : CronIssue → Outcome CandidateDecision → TickWorld → Step × TickWorld
  unfolding take_over_existing_adw_id classify_and_spawn_workflow
  act_on issue thrown w = (next, w)
  act_on issue (ok (defer_live_holder pid)) w = (next, w)
  act_on issue (ok (skip_terminal adw_id stage)) w = (next, w)
  act_on issue (ok (escalate_human_gated adw_id)) w = (next, w)
  act_on issue (ok (take_over_adw_id adw_id stage)) w =
      (next, take_over_existing_adw_id issue.number adw_id (mark_processed issue.number w))
  act_on issue (ok spawn_fresh) w =
      classify_and_spawn_workflow issue (mark_processed issue.number w)

  unfoldable pub decide_and_act : CronIssue → TickWorld → Step × TickWorld
  unfolding act_on
  decide_and_act issue w =
      let (decision, c) =
        evaluate_candidate (env.takeover issue.number) (candidate_world issue.number w) in
      act_on issue decision (with_candidate_world issue.number c w)

  abbrev pub after_eligibility :
      CronIssue → EligibilityResult × Cache → TickWorld → Step × TickWorld
  after_eligibility issue (is_eligible, cache) w = decide_and_act issue (record w { cache = cache })
  after_eligibility issue (concurrency_limit, cache) w = (next, record w { cache = cache })
  after_eligibility issue (open_dependencies ns, cache) w = (next, record w { cache = cache })

  abbrev pub eligibility_in : CronIssue → TickWorld → EligibilityResult × Cache
  eligibility_in issue w =
      check_issue_eligibility (env.eligibility issue.number) (env.listings issue.number)
        (env.body issue.number) w.cache

  -- A candidate that is not for the merge orchestrator.
  unfoldable pub dispatch_standard : CronIssue → TickWorld → Step × TickWorld
  unfolding decide_and_act
  dispatch_standard issue w =
      let (starting, ledger) = is_starting env.host env.now issue.number w.ledger in
      let w' : TickWorld = record w { ledger = ledger } in
      if starting then (next, w') else after_eligibility issue (eligibility_in issue w') w'

  unfoldable pub dispatch_merge : ℕ → String → TickWorld → Step × TickWorld
  dispatch_merge n adw_id w =
      if should_dispatch_merge (is_process_live env.host) (returned (read_spawn_lock (w.locks n)))
      then (next, launch (launched_merge n adw_id) w)
      else (next, w)

  abbrev pub dispatch_by : CronAction → Option String → CronIssue → TickWorld → Step × TickWorld
  dispatch_by spawn adw_id issue w = dispatch_standard issue w
  dispatch_by merge none issue w = dispatch_standard issue w
  dispatch_by merge (some adw_id) issue w =
      if adw_id == "" then dispatch_standard issue w else dispatch_merge issue.number adw_id w

  abbrev pub dispatch : EligibleIssue → TickWorld → Step × TickWorld
  dispatch e w = dispatch_by e.action e.adw_id e.issue w

  -- `for (const candidate of candidates)`
  unfoldable pub dispatch_all : List EligibleIssue → TickWorld → Step × TickWorld
  unfolding dispatch_standard dispatch_merge
  dispatch_all [] w = (next, w)
  dispatch_all (e ∷ es) w =
      let (step, w') = dispatch e w in
      elim step [
        | next ↦ dispatch_all es w'
        | auth_gate_set_here ↦ (auth_gate_set_here, w')
        | tick_threw ↦ (tick_threw, w')
      ]
