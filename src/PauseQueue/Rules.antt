-- ===== src/PauseQueue/Rules.antt =====
-- Rules for what holds after a resume, after the loop of a scan, and after a scan.
use ai_dev_workflow.Prelude.{
  ◌≡◌, refl, inl, inr, Option, none, some, List, [], ◌∷◌, ℕ, ◌%◌, ◌==◌, number_eq, get_or, In,
  Bool-cases,
}
use ai_dev_workflow.PauseQueue.Entry.{
  PausedWorkflow, RepoIdentity, ScanningCron, ParsedTarget, no_target, exits, target,
  parse_target_repo_args,
}
use ai_dev_workflow.PauseQueue.Queue.{remove_from_pause_queue}
use ai_dev_workflow.PauseQueue.Decider.{ProbeClassification}
use ai_dev_workflow.PauseQueue.Scan.{
  QueueWorld, probed, Ending, done, exited, threw, ScanEnv, resume_in, resume_local, resume_for,
  resume_workflow, evict_for, evict_entry, execute_pause_queue_action, action_for, execute_all,
  scan_pause_queue, nothing_due,
}

-- An eviction takes the entry off the queue, also where the comment that follows ends the process.
pub evict_entry-queue :
    (env : ScanEnv) (entry : PausedWorkflow) (w : QueueWorld)
    → (evict_entry env entry w).1.queue ≡ remove_from_pause_queue entry.adw_id w.queue
unfolding evict_entry
evict_entry-queue env entry w = by_target (parse_target_repo_args (get_or entry.extra_args []))
  where
    by_target :
        (t : ParsedTarget)
        → (evict_for env t entry w).1.queue ≡ remove_from_pause_queue entry.adw_id w.queue
    by_target no_target = refl
    by_target exits = refl
    by_target (target r) = refl

module _ (env : ScanEnv) (P : QueueWorld → Type 0) where
  -- A resume leaves the world, or runs for some repository.
  pub resume_rule :
      (entry : PausedWorkflow) (w : QueueWorld)
      → P w
      → ((repo : RepoIdentity) → P (resume_in env repo entry w).1)
      → P (resume_workflow env entry w).1
  unfolding resume_workflow
  resume_rule entry w h k = by_target (parse_target_repo_args (get_or entry.extra_args []))
    where
      by_local : (o : Option RepoIdentity) → P (resume_local env o entry w).1
      by_local none = h
      by_local (some r) = k r

      by_target : (t : ParsedTarget) → P (resume_for env t entry w).1
      by_target no_target = by_local env.local_repo
      by_target exits = h
      by_target (target r) = k r

  module _ (cron : ScanningCron) (classification : ProbeClassification) where
    abbrev Step : PausedWorkflow → QueueWorld → Type 0
    Step entry w =
        P w
        → P (execute_pause_queue_action env entry (action_for env cron classification entry) w).1

    execute_all_rule :
        (entries : List PausedWorkflow) (w : QueueWorld)
        → P w
        → ((entry : PausedWorkflow) (w' : QueueWorld) → In entry entries → Step entry w')
        → P (execute_all env cron classification entries w).1
    unfolding execute_all
    execute_all_rule [] w h step = h
    execute_all_rule (entry ∷ entries) w h step =
        go (execute_pause_queue_action env entry (action_for env cron classification entry) w)
          (step entry w (inl refl) h)
          (λ w' h'. execute_all_rule entries w' h' (λ e w'' i. step e w'' (inr i)))
      where
        go :
            (out : Ending × QueueWorld)
            → P out.1
            → ((w' : QueueWorld) → P w' → P (execute_all env cron classification entries w').1)
            → P
                ((elim out.0 as (λ (x : Ending). Ending × QueueWorld) [
                  | done ↦ execute_all env cron classification entries out.1
                  | exited ↦ (exited, out.1)
                  | threw ↦ (threw, out.1)
                ])).1
        go (done, w') h' rest = rest w' h'
        go (exited, w') h' rest = h'
        go (threw, w') h' rest = h'

    -- What every executed action keeps, a scan keeps.
    pub scan_rule :
        (cycle_count : ℕ) (w : QueueWorld)
        → P w
        → P (record w { trace = probed ∷ w.trace })
        → ((entry : PausedWorkflow) (w' : QueueWorld) → In entry w.queue → Step entry w')
        → P (scan_pause_queue env cron classification cycle_count w).1
    unfolding scan_pause_queue
    scan_rule cycle_count w h h' step =
        elim (Bool-cases (cycle_count % env.probe_interval_cycles == 0)) [
          | inr off ↦ rw off h
          | inl on ↦ rw on (elim (Bool-cases (nothing_due env cron classification w.queue)) [
            | inl quiet ↦ rw quiet h
            | inr due ↦
                rw due (execute_all_rule w.queue (record w { trace = probed ∷ w.trace }) h' step)
          ])
        ]
