-- ===== src/Tests/HungRuns.antt =====
-- adws/core/hungOrchestratorDetector.ts: one orchestrator that hangs and one that reports.
use ai_dev_workflow.Prelude.{
  ◌≡◌, refl, inl, none, some, [], ◌∷◌, String, ◌==◌, text_eq, if◌then◌else◌, In,
}
use ai_dev_workflow.State.{AgentState, no_fields}
use ai_dev_workflow.Hung.{
  HungOrchestrator, HungDetectorDeps, live, IsHung, report_each, find_hung_orchestrators,
  find_hung_orchestrators-IsHung,
}

abbrev running : String → AgentState
running seen = record no_fields {
  pid = some 20;
  pid_started_at = some "boot";
  workflow_stage = some "build_running";
  last_seen_at = some seen;
}

abbrev deps : HungDetectorDeps
deps = record {
  adw_ids = "a1" ∷ "a2" ∷ [];
  store = λ id. some (running (if id == "a1" then "old" else "new"));
  is_process_live = λ pid started. live;
  date_parse = λ s. if s == "old" then some 100 else some 990;
}

abbrev hung : HungOrchestrator
hung = record {
  adw_id = "a1";
  pid = 20;
  pid_started_at = "boot";
  last_seen_at = "old";
  workflow_stage = "build_running";
  issue_number = none;
}

one_hangs : find_hung_orchestrators 1000 50 deps ≡ hung ∷ []
unfolding find_hung_orchestrators report_each
one_hangs = refl

find_hung_orchestrators-IsHung_example :
    In "a1" deps.adw_ids
    × ((state : AgentState) × (deps.store "a1" ≡ some state) × IsHung 1000 50 deps hung state)
unfolding find_hung_orchestrators report_each
find_hung_orchestrators-IsHung_example = find_hung_orchestrators-IsHung 1000 50 deps hung (inl refl)
