-- ===== src/State/Defs.antt =====
-- The state file `agents/<adwId>/state.json`, its reads and its merging writes. A field that the file
-- may lack is an `Option`; the fields that no modelled code reads are left out.
use ai_dev_workflow.Prelude.{
  Option, none, some, List, [], ◌∷◌, ℕ, String, ◌==◌, text_eq, if◌then◌else◌, get_or,
}

pub record PhaseState : Type 0 where
  pub status : Option String
  pub started_at : Option String
  pub completed_at : Option String
  pub failure_reason : Option String

pub record AgentState : Type 0 where
  pub adw_id : Option String
  pub issue_number : Option ℕ
  pub branch_name : Option String
  pub pid : Option ℕ
  pub pid_started_at : Option String
  pub last_seen_at : Option String
  pub workflow_stage : Option String
  pub merge_retry_count : Option ℕ
  pub resume_attempts : Option ℕ
  pub orchestrator_script : Option String
  pub phases : Option (List (String × PhaseState))

-- `{}`, and also a `Partial<AgentState>` with no key.
abbrev pub no_fields : AgentState
no_fields = record {
  adw_id = none;
  issue_number = none;
  branch_name = none;
  pid = none;
  pid_started_at = none;
  last_seen_at = none;
  workflow_stage = none;
  merge_retry_count = none;
  resume_attempts = none;
  orchestrator_script = none;
  phases = none;
}

abbrev pub no_phase : PhaseState
no_phase = record { status = none; started_at = none; completed_at = none; failure_reason = none }

-- One key of `{ ...old, ...new }`.
abbrev pub over {ℓ} : {A : Type ℓ} → Option A → Option A → Option A
over old none = old
over old (some a) = some a

abbrev pub merge_phase : PhaseState → PhaseState → PhaseState
merge_phase old new = record {
  status = over old.status new.status;
  started_at = over old.started_at new.started_at;
  completed_at = over old.completed_at new.completed_at;
  failure_reason = over old.failure_reason new.failure_reason;
}

module _ {ℓ} {V : Type ℓ} where
  unfoldable pub lookup : String → List (String × V) → Option V
  lookup k [] = none
  lookup k ((j, v) ∷ m) = if j == k then some v else lookup k m

  unfoldable pub assign : String → V → List (String × V) → List (String × V)
  assign k v [] = (k, v) ∷ []
  assign k v ((j, w) ∷ m) = if j == k then (k, v) ∷ m else (j, w) ∷ assign k v m

-- The loop over `Object.entries(newPhases)`: each entry is merged into the entry that the file has.
unfoldable pub merge_entries :
    List (String × PhaseState)
    → List (String × PhaseState)
    → List (String × PhaseState)
    → List (String × PhaseState)
unfolding lookup assign
merge_entries existing merged [] = merged
merge_entries existing merged ((name, entry) ∷ rest) =
    merge_entries existing
      (assign name (merge_phase (get_or (lookup name existing) no_phase) entry) merged) rest

abbrev pub merge_phases :
    Option (List (String × PhaseState))
    → Option (List (String × PhaseState))
    → Option (List (String × PhaseState))
merge_phases existing none = existing
merge_phases existing (some new) =
    some (merge_entries (get_or existing []) (get_or existing []) new)

-- The merge of `writeTopLevelState`: shallow, but for the phases.
unfoldable pub merge_state : AgentState → AgentState → AgentState
merge_state old new = record {
  adw_id = over old.adw_id new.adw_id;
  issue_number = over old.issue_number new.issue_number;
  branch_name = over old.branch_name new.branch_name;
  pid = over old.pid new.pid;
  pid_started_at = over old.pid_started_at new.pid_started_at;
  last_seen_at = over old.last_seen_at new.last_seen_at;
  workflow_stage = over old.workflow_stage new.workflow_stage;
  merge_retry_count = over old.merge_retry_count new.merge_retry_count;
  resume_attempts = over old.resume_attempts new.resume_attempts;
  orchestrator_script = over old.orchestrator_script new.orchestrator_script;
  phases = merge_phases old.phases new.phases;
}

-- The state files by adw-id. `none` is a file that is missing or does not parse.
abbrev pub Store : Type 0
Store = String → Option AgentState

abbrev pub read_top_level_state : Store → String → Option AgentState
read_top_level_state store adw_id = store adw_id

unfoldable pub write_top_level_state : Store → String → AgentState → Store
unfolding merge_state
write_top_level_state store adw_id state other =
    if other == adw_id
    then some (merge_state (get_or (store adw_id) no_fields) state)
    else store other
