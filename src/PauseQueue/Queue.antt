-- ===== src/PauseQueue/Queue.antt =====
-- The queue file: every operation reads it whole and writes it whole.
use ai_dev_workflow.Prelude.{
  not, Option, List, [], ◌∷◌, ◌++◌, map, ℕ, String, ◌==◌, text_eq, if◌then◌else◌, keep, any,
}
use ai_dev_workflow.State.{over}
use ai_dev_workflow.PauseQueue.Entry.{PausedWorkflow}

-- `Partial<PausedWorkflow>` over the fields that an update may set.
pub record Updates : Type 0 where
  pub last_probe_at : Option String
  pub probe_failures : Option ℕ
  pub resets_at : Option String
  pub rate_limit_type : Option String

-- `{ ...e, ...updates }`
abbrev pub with_updates : PausedWorkflow → Updates → PausedWorkflow
with_updates e u = record e {
  last_probe_at = over e.last_probe_at u.last_probe_at;
  probe_failures = over e.probe_failures u.probe_failures;
  resets_at = over e.resets_at u.resets_at;
  rate_limit_type = over e.rate_limit_type u.rate_limit_type;
}

unfoldable pub append_to_pause_queue : PausedWorkflow → List PausedWorkflow → List PausedWorkflow
append_to_pause_queue entry existing =
    if any (λ e. e.adw_id == entry.adw_id) existing then existing else existing ++ entry ∷ []

unfoldable pub remove_from_pause_queue : String → List PausedWorkflow → List PausedWorkflow
remove_from_pause_queue adw_id existing = keep (λ e. not (e.adw_id == adw_id)) existing

unfoldable pub update_pause_queue_entry :
    String → Updates → List PausedWorkflow → List PausedWorkflow
update_pause_queue_entry adw_id updates existing =
    map (λ e. if e.adw_id == adw_id then with_updates e updates else e) existing
