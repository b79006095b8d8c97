-- ===== src/Phase/Files.antt =====
-- What the writes of the runner leave in the state file and in the queue.
use ai_dev_workflow.Prelude.{
  ◌≡◌, refl, ap, ◌∙◌, Bool, true, Option, none, some, List, [], ◌∷◌, ◌++◌, String, ◌==◌, text_eq,
  eq_iff, if◌then◌else◌, any, is_some_of, get_or, if_rule, arith,
}
use ai_dev_workflow.State.{
  Store, AgentState, PhaseState, no_fields, no_phase, over, merge_state, merge_phases, merge_phase,
  lookup, entries, lookup-merge_phases, write_top_level_state, write_top_level_state_self,
}
use ai_dev_workflow.PauseQueue.{PausedWorkflow, append_to_pause_queue}
use ai_dev_workflow.Phase.World.{stage_patch}
use ai_dev_workflow.Phase.Runner.{entry_in, by_entry}

-- The stage on file, and the status of a phase.
abbrev pub stage_of_file : Option AgentState → Option String
stage_of_file none = none
stage_of_file (some state) = state.workflow_stage

abbrev pub status_of : Option PhaseState → Option String
status_of none = none
status_of (some entry) = entry.status

abbrev pub status_of_file : String → Option AgentState → Option String
status_of_file name file = status_of (entry_in file name)

abbrev pub is_queued : String → List PausedWorkflow → Bool
is_queued adw_id queue = any (λ e. e.adw_id == adw_id) queue

pub text_same : (s : String) → (s == s) ≡ true
text_same s = (eq_iff s s).1 refl

pub write_stage :
    (store : Store) (adw_id stage : String)
    → stage_of_file (write_top_level_state store adw_id (stage_patch stage) adw_id) ≡ some stage
unfolding merge_state
write_stage store adw_id stage =
    ap stage_of_file (write_top_level_state_self store adw_id (stage_patch stage)) ∙ refl

merged_stage_status :
    (file : Option AgentState) (stage name : String)
    → status_of_file name (some (merge_state (get_or file no_fields) (stage_patch stage)))
      ≡ status_of_file name file
unfolding merge_state lookup
merged_stage_status none stage name = refl
merged_stage_status (some state) stage name = refl

pub write_stage_status :
    (store : Store) (adw_id stage name : String)
    → status_of_file name (write_top_level_state store adw_id (stage_patch stage) adw_id)
      ≡ status_of_file name (store adw_id)
write_stage_status store adw_id stage name =
    ap (status_of_file name) (write_top_level_state_self store adw_id (stage_patch stage))
    ∙ merged_stage_status (store adw_id) stage name

-- A write of one phase's entry, with or without a stage.
pub write_entry_status :
    (store : Store) (adw_id name status : String) (entry : PhaseState) (patch : AgentState)
    → patch.phases ≡ some ((name, entry) ∷ [])
    → entry.status ≡ some status
    → status_of_file name (write_top_level_state store adw_id patch adw_id) ≡ some status
unfolding merge_state
write_entry_status store adw_id name status entry patch p e =
    let old = (get_or (store adw_id) no_fields).phases in
    ap (status_of_file name) (write_top_level_state_self store adw_id patch)
    ∙ ap (λ new. status_of (lookup name (entries (merge_phases old new)))) p
    ∙ ap status_of (lookup-merge_phases old name name entry)
    ∙ ap
        (λ b. status_of (
          if b
          then some (merge_phase (get_or (lookup name (entries old)) no_phase) entry)
          else lookup name (entries old)))
        (text_same name)
    ∙ ap (over (get_or (lookup name (entries old)) no_phase).status) e

any-append {ℓ} :
    {A : Type ℓ} (p : A → Bool) (xs : List A) (y : A) → p y ≡ true → any p (xs ++ y ∷ []) ≡ true
any-append p [] y h = ground (arith, h)
any-append p (x ∷ xs) y h = ground (arith, any-append p xs y h)

pub append-is_queued :
    (entry : PausedWorkflow) (queue : List PausedWorkflow)
    → is_queued entry.adw_id (append_to_pause_queue entry queue) ≡ true
unfolding append_to_pause_queue
append-is_queued entry queue =
    if_rule (λ q. is_queued entry.adw_id q ≡ true) (is_queued entry.adw_id queue) queue
      (queue ++ entry ∷ []) (λ h. h)
      (λ h. any-append (λ e. e.adw_id == entry.adw_id) queue entry (text_same entry.adw_id))

pub by_entry_completed :
    (o : Option PhaseState) (listed : Bool)
    → status_of o ≡ some "completed"
    → by_entry o listed ≡ true
by_entry_completed none listed h = cc
by_entry_completed (some entry) listed h =
    ap (λ s. is_some_of s "completed") h ∙ text_same "completed"
