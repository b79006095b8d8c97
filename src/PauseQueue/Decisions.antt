-- ===== src/PauseQueue/Decisions.antt =====
-- What a scan leaves alone, and which cron owns an entry.
use ai_dev_workflow.Prelude.{
  tests, ◌≡◌, sym, ap, ◌∙◌, ◌≢◌, ◌⊎◌, ◌↔◌, inl, inr, true, false, not, Option, none, some, List, [],
  ◌∷◌, ◌++◌, ℕ, String, ◌==◌, text_eq, any, In, In-keep_of, Bool-cases, arith, eq_iff,
  eq_ignoring_case_sym, eq_ignoring_case_trans,
}
use ai_dev_workflow.PauseQueue.Entry.{
  PausedWorkflow, RepoIdentity, ScanningCron, is_owned_by_scanning_cron, parse_entry_target_repo,
  same_repo_identity, owned_target,
}
use ai_dev_workflow.PauseQueue.Queue.{
  Updates, append_to_pause_queue, remove_from_pause_queue, update_pause_queue_entry,
}
use ai_dev_workflow.PauseQueue.Decider.{
  Dates, ProbeClassification, PauseQueueAction, skip_not_owner, skip_before_reset, resume,
  refresh_reset, count_strike, evict, is_before_reset, decide_pause_queue_action,
}
use ai_dev_workflow.PauseQueue.Scan.{
  QueueWorld, ScanEnv, struck, resume_in, execute_pause_queue_action, action_for, scan_pause_queue,
}
use ai_dev_workflow.PauseQueue.Rules.{resume_rule, evict_entry-queue, scan_rule}
use ai_dev_workflow.PauseQueue.Uniqueness.{has_id, Distinct}

-- Actions that a probe's verdict may not have influenced.
abbrev pub IsSkip : PauseQueueAction → Type 0
IsSkip skip_not_owner = Unit
IsSkip (skip_before_reset t) = Unit
IsSkip _ = ⊥

module _ (dates : Dates) (entry : PausedWorkflow) (probe : ProbeClassification) (now max : ℕ)
    (cron : ScanningCron) where
  -- An entry is skipped exactly when this cron does not own it or its reset time is still to come.
  pub decide-IsSkip_iff :
      IsSkip (decide_pause_queue_action dates entry probe now max cron)
      ↔ ((is_owned_by_scanning_cron entry cron ≡ false) ⊎ (is_before_reset dates entry now ≡ true))
  unfolding decide_pause_queue_action
  decide-IsSkip_iff = ground arith

-- Two crons that own one entry scan the same repository, or are both self-hosting.
pub owners_agree :
    (entry : PausedWorkflow) (a b : ScanningCron)
    → is_owned_by_scanning_cron entry a ≡ true
    → is_owned_by_scanning_cron entry b ≡ true
    → (same_repo_identity a.repo_id b.repo_id ≡ true)
      ⊎ ((a.self_host ≡ true) × (b.self_host ≡ true))
unfolding is_owned_by_scanning_cron
owners_agree entry a b owned_a owned_b =
    go (parse_entry_target_repo entry.extra_args) owned_a owned_b
  where
    go :
        (o : Option RepoIdentity)
        → owned_target o a ≡ true
        → owned_target o b ≡ true
        → (same_repo_identity a.repo_id b.repo_id ≡ true)
          ⊎ ((a.self_host ≡ true) × (b.self_host ≡ true))
    go none p q = inr (p, q)
    go (some r) p q = inl (
        ground (
          arith,
          eq_ignoring_case_sym r.owner a.repo_id.owner,
          eq_ignoring_case_sym r.repo a.repo_id.repo,
          eq_ignoring_case_trans a.repo_id.owner r.owner b.repo_id.owner,
          eq_ignoring_case_trans a.repo_id.repo r.repo b.repo_id.repo,
        ))

has_id_of_In : (es : List PausedWorkflow) (e : PausedWorkflow) → In e es → has_id e.adw_id es ≡ true
unfolding has_id
has_id_of_In [] e i = absurd i
has_id_of_In (x ∷ es) e (inl p) =
    ground (arith, ap (λ (y : PausedWorkflow). y.adw_id) p, eq_iff x.adw_id e.adw_id)
has_id_of_In (x ∷ es) e (inr i) = ground (arith, has_id_of_In es e i)

-- In a queue with distinct adw-ids an adw-id names one entry.
entry_of_id :
    (es : List PausedWorkflow) (a b : PausedWorkflow)
    → Distinct es
    → In a es
    → In b es
    → a.adw_id ≡ b.adw_id
    → a ≡ b
entry_of_id [] a b d i j p = absurd i
entry_of_id (x ∷ es) a b d (inl i) (inl j) p = i ∙ sym j
entry_of_id (x ∷ es) a b d (inl i) (inr j) p =
    absurd (cc (d.0, has_id_of_In es b j, ap (λ (y : PausedWorkflow). y.adw_id) i, p))
entry_of_id (x ∷ es) a b d (inr i) (inl j) p =
    absurd (cc (d.0, has_id_of_In es a i, ap (λ (y : PausedWorkflow). y.adw_id) j, p))
entry_of_id (x ∷ es) a b d (inr i) (inr j) p = entry_of_id es a b d.1 i j p

In-concat_left : (e : PausedWorkflow) (es fs : List PausedWorkflow) → In e es → In e (es ++ fs)
In-concat_left e [] fs i = absurd i
In-concat_left e (y ∷ es) fs (inl p) = inl p
In-concat_left e (y ∷ es) fs (inr i) = inr (In-concat_left e es fs i)

In-append :
    (e x : PausedWorkflow) (es : List PausedWorkflow) → In e es → In e (append_to_pause_queue x es)
unfolding append_to_pause_queue
In-append e x es i = elim (Bool-cases (any (λ y. y.adw_id == x.adw_id) es)) [
  | inl old ↦ rw old i
  | inr new ↦ rw new (In-concat_left e es (x ∷ []) i)
]

In-remove :
    (e : PausedWorkflow) (k : String) (es : List PausedWorkflow)
    → e.adw_id ≢ k
    → In e es
    → In e (remove_from_pause_queue k es)
unfolding remove_from_pause_queue
In-remove e k es n i = In-keep_of (λ y. not (y.adw_id == k)) es e i (grind tests)

In-update :
    (e : PausedWorkflow) (k : String) (u : Updates) (es : List PausedWorkflow)
    → e.adw_id ≢ k
    → In e es
    → In e (update_pause_queue_entry k u es)
unfolding update_pause_queue_entry
In-update e k u [] n i = absurd i
In-update e k u (x ∷ es) n (inl p) = inl (rw (other n p) p)
  where
    other : e.adw_id ≢ k → e ≡ x → (x.adw_id == k) ≡ false
    other n p = ground (arith, ap (λ (y : PausedWorkflow). y.adw_id) p, eq_iff x.adw_id k)
In-update e k u (x ∷ es) n (inr i) = inr (In-update e k u es n i)

module _ (env : ScanEnv) (e : PausedWorkflow) where
  resume_in-In :
      (repo : RepoIdentity) (entry : PausedWorkflow) (w : QueueWorld)
      → e.adw_id ≢ entry.adw_id
      → In e w.queue
      → In e (resume_in env repo entry w).1.queue
  unfolding resume_in
  resume_in-In repo entry w n i = ground (
    arith,
    In-remove e entry.adw_id w.queue n i,
    In-append e (struck env entry) (remove_from_pause_queue entry.adw_id w.queue),
  )

  execute-In :
      (entry : PausedWorkflow) (action : PauseQueueAction) (w : QueueWorld)
      → e.adw_id ≢ entry.adw_id
      → In e w.queue
      → In e (execute_pause_queue_action env entry action w).1.queue
  unfolding execute_pause_queue_action
  execute-In entry skip_not_owner w n i = i
  execute-In entry (skip_before_reset t) w n i = i
  execute-In entry resume w n i =
      resume_rule env (λ w'. In e w'.queue) entry w i (λ repo. resume_in-In repo entry w n i)
  execute-In entry (refresh_reset t r) w n i = In-update e entry.adw_id _ w.queue n i
  execute-In entry (count_strike f v) w n i = In-update e entry.adw_id _ w.queue n i
  execute-In entry (evict f v) w n i =
      rw (evict_entry-queue env entry w) (In-remove e entry.adw_id w.queue n i)

  execute-IsSkip :
      (entry : PausedWorkflow) (action : PauseQueueAction) (w : QueueWorld)
      → IsSkip action
      → In e w.queue
      → In e (execute_pause_queue_action env entry action w).1.queue
  unfolding execute_pause_queue_action
  execute-IsSkip entry skip_not_owner w s i = i
  execute-IsSkip entry (skip_before_reset t) w s i = i
  execute-IsSkip entry resume w s i = absurd s
  execute-IsSkip entry (refresh_reset t r) w s i = absurd s
  execute-IsSkip entry (count_strike f v) w s i = absurd s
  execute-IsSkip entry (evict f v) w s i = absurd s

  -- If no two entries of the queue have the same adw-id: an entry that this cron does not own, or whose reset time is
  -- still to come, stays in the queue unchanged through a scan, however the scan ends and whatever it does with the
  -- other entries.
  pub scan_untouched :
      (cron : ScanningCron) (classification : ProbeClassification) (cycle_count : ℕ)
      (w : QueueWorld)
      → Distinct w.queue
      → In e w.queue
      → (is_owned_by_scanning_cron e cron ≡ false) ⊎ (is_before_reset env.dates e env.now ≡ true)
      → In e (scan_pause_queue env cron classification cycle_count w).1.queue
  scan_untouched cron classification cycle_count w d i s =
      scan_rule env (λ w'. In e w'.queue) cron classification cycle_count w i i
        (λ entry w' j i'. elim (Bool-cases (e.adw_id == entry.adw_id)) [
          | inl same ↦
              execute-IsSkip entry (action_for env cron classification entry) w'
                (skips entry (same_entry entry j same)) i'
          | inr other ↦
              execute-In entry (action_for env cron classification entry) w' (differs entry other)
                i'
        ])
    where
      same_entry :
          (entry : PausedWorkflow)
          → In entry w.queue
          → (e.adw_id == entry.adw_id) ≡ true
          → e ≡ entry
      same_entry entry j same =
          entry_of_id w.queue e entry d i j ((eq_iff e.adw_id entry.adw_id).0 same)

      differs :
          (entry : PausedWorkflow) → (e.adw_id == entry.adw_id) ≡ false → e.adw_id ≢ entry.adw_id
      differs entry other = grind tests

      skips :
          (entry : PausedWorkflow) → e ≡ entry → IsSkip (action_for env cron classification entry)
      skips entry p =
          rw (sym p)
            ((decide-IsSkip_iff env.dates e classification env.now env.max_probe_failures cron).1 s)
