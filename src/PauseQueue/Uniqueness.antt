-- ===== src/PauseQueue/Uniqueness.antt =====
-- No two entries of the queue share an adw-id, whatever a scan does.
use ai_dev_workflow.Prelude.{
  ◌≡◌, refl, inl, inr, Bool, false, ◌||◌, List, [], ◌∷◌, ◌++◌, ℕ, String, ◌==◌, text_eq, any,
  Bool-cases, arith, eq_iff,
}
use ai_dev_workflow.PauseQueue.Entry.{PausedWorkflow, RepoIdentity, ScanningCron}
use ai_dev_workflow.PauseQueue.Queue.{
  Updates, append_to_pause_queue, remove_from_pause_queue, update_pause_queue_entry,
}
use ai_dev_workflow.PauseQueue.Decider.{
  ProbeClassification, PauseQueueAction, skip_not_owner, skip_before_reset, resume, refresh_reset,
  count_strike, evict,
}
use ai_dev_workflow.PauseQueue.Rules.{resume_rule, evict_entry-queue, scan_rule}
use ai_dev_workflow.PauseQueue.Scan.{
  QueueWorld, ScanEnv, struck, resume_in, resume_workflow, execute_pause_queue_action, action_for,
  scan_pause_queue,
}

-- Some entry has this adw-id.
unfoldable pub has_id : String → List PausedWorkflow → Bool
has_id k [] = false
has_id k (e ∷ es) = e.adw_id == k || has_id k es

abbrev pub Distinct : List PausedWorkflow → Type 0
Distinct [] = Unit
Distinct (e ∷ es) = (has_id e.adw_id es ≡ false) × Distinct es

pub any-has_id : (k : String) (es : List PausedWorkflow) → any (λ e. e.adw_id == k) es ≡ has_id k es
unfolding has_id
any-has_id k [] = refl
any-has_id k (e ∷ es) = rw (any-has_id k es)

has_id-concat :
    (k : String) (es : List PausedWorkflow) (x : PausedWorkflow)
    → has_id k (es ++ x ∷ []) ≡ (has_id k es || x.adw_id == k)
unfolding has_id
has_id-concat k [] x = ground arith
has_id-concat k (e ∷ es) x = ground (arith, has_id-concat k es x)

concat-Distinct :
    (es : List PausedWorkflow) (x : PausedWorkflow)
    → Distinct es
    → has_id x.adw_id es ≡ false
    → Distinct (es ++ x ∷ [])
unfolding has_id
concat-Distinct [] x d h = (refl, tt)
concat-Distinct (e ∷ es) x d h = ground (
  arith,
  has_id-concat e.adw_id es x,
  concat-Distinct es x,
  eq_iff e.adw_id x.adw_id,
  eq_iff x.adw_id e.adw_id,
)

pub append-Distinct :
    (x : PausedWorkflow) (es : List PausedWorkflow)
    → Distinct es
    → Distinct (append_to_pause_queue x es)
unfolding append_to_pause_queue
append-Distinct x es d = elim (Bool-cases (has_id x.adw_id es)) [
  | inl old ↦ rw (any-has_id x.adw_id es) (rw old d)
  | inr new ↦ rw (any-has_id x.adw_id es) (rw new (concat-Distinct es x d new))
]

has_id-remove :
    (k j : String) (es : List PausedWorkflow)
    → has_id k es ≡ false
    → has_id k (remove_from_pause_queue j es) ≡ false
unfolding has_id remove_from_pause_queue
has_id-remove k j [] h = refl
has_id-remove k j (e ∷ es) h = ground (arith, has_id-remove k j es)

pub remove-Distinct :
    (j : String) (es : List PausedWorkflow) → Distinct es → Distinct (remove_from_pause_queue j es)
unfolding remove_from_pause_queue
remove-Distinct j [] d = tt
remove-Distinct j (e ∷ es) d = ground (arith, remove-Distinct j es, has_id-remove e.adw_id j es)

has_id-update :
    (k j : String) (u : Updates) (es : List PausedWorkflow)
    → has_id k (update_pause_queue_entry j u es) ≡ has_id k es
unfolding has_id update_pause_queue_entry
has_id-update k j u [] = refl
has_id-update k j u (e ∷ es) = ground (arith, has_id-update k j u es)

pub update-Distinct :
    (j : String) (u : Updates) (es : List PausedWorkflow)
    → Distinct es
    → Distinct (update_pause_queue_entry j u es)
unfolding update_pause_queue_entry
update-Distinct j u [] d = tt
update-Distinct j u (e ∷ es) d =
    ground (arith, update-Distinct j u es, has_id-update e.adw_id j u es)

module _ (env : ScanEnv) where
  resume_in-Distinct :
      (repo : RepoIdentity) (entry : PausedWorkflow) (w : QueueWorld)
      → Distinct w.queue
      → Distinct (resume_in env repo entry w).1.queue
  unfolding resume_in
  resume_in-Distinct repo entry w d = ground (
    arith,
    remove-Distinct entry.adw_id w.queue,
    append-Distinct (struck env entry) (remove_from_pause_queue entry.adw_id w.queue),
  )

  resume-Distinct :
      (entry : PausedWorkflow) (w : QueueWorld)
      → Distinct w.queue
      → Distinct (resume_workflow env entry w).1.queue
  resume-Distinct entry w d =
      resume_rule env (λ w'. Distinct w'.queue) entry w d
        (λ repo. resume_in-Distinct repo entry w d)

  execute-Distinct :
      (entry : PausedWorkflow) (action : PauseQueueAction) (w : QueueWorld)
      → Distinct w.queue
      → Distinct (execute_pause_queue_action env entry action w).1.queue
  unfolding execute_pause_queue_action
  execute-Distinct entry skip_not_owner w d = d
  execute-Distinct entry (skip_before_reset t) w d = d
  execute-Distinct entry resume w d = resume-Distinct entry w d
  execute-Distinct entry (refresh_reset t r) w d = update-Distinct entry.adw_id _ w.queue d
  execute-Distinct entry (count_strike n v) w d = update-Distinct entry.adw_id _ w.queue d
  execute-Distinct entry (evict n v) w d =
      rw (evict_entry-queue env entry w) (remove-Distinct entry.adw_id w.queue d)

  -- A scan keeps the adw-ids of the queue distinct, however it ends.
  pub scan-Distinct :
      (cron : ScanningCron) (classification : ProbeClassification) (cycle_count : ℕ)
      (w : QueueWorld)
      → Distinct w.queue
      → Distinct (scan_pause_queue env cron classification cycle_count w).1.queue
  scan-Distinct cron classification cycle_count w d =
      scan_rule env (λ w'. Distinct w'.queue) cron classification cycle_count w d d
        (λ entry w' i d'. execute-Distinct entry (action_for env cron classification entry) w' d')
