-- ===== src/Tests/StageRuns.antt =====
-- adws/core/stageClassifier.ts and adws/core/agentState.ts.
use ai_dev_workflow.Prelude.{◌≡◌, refl, some, String, text_eq}
use ai_dev_workflow.Stage.{active, resumable, classify_stage_string}
use ai_dev_workflow.State.{PhaseState, no_phase}

dynamic_stages :
    (classify_stage_string "plan_running" ≡ active)
    × (classify_stage_string "step-def_completed" ≡ resumable)
    × (classify_stage_string "no_such_stage" ≡ resumable)
unfolding classify_stage_string
dynamic_stages = (refl, refl, refl)

abbrev built : String
built = "build_completed"

abbrev rejected : String
rejected = "review_failed"

abbrev running : PhaseState
running = record no_phase { status = some "running"; started_at = some "t0" }

abbrev failed : PhaseState
failed = record no_phase { status = some "failed"; completed_at = some "t1" }

abbrev plan : String
plan = "plan"
