-- ===== src/State/Files.antt =====
-- What a write to a state file changes, and what it leaves.
use ai_dev_workflow.Prelude.{
  tests, ◌≡◌, refl, ◌∙◌, ◌≢◌, inl, inr, Option, none, some, List, [], ◌∷◌, String, ◌==◌, text_eq,
  if◌then◌else◌, get_or, Bool-cases, arith,
}
use ai_dev_workflow.State.Defs.{
  PhaseState, AgentState, no_fields, no_phase, merge_phase, lookup, assign, merge_entries,
  merge_phases, merge_state, Store, write_top_level_state,
}

pub lookup-assign {ℓ} :
    {V : Type ℓ} (k j : String) (v : V) (m : List (String × V))
    → lookup j (assign k v m) ≡ (if k == j then some v else lookup j m)
unfolding lookup assign
lookup-assign k j v [] = refl
lookup-assign k j v ((i, w) ∷ m) = grind (tests, lookup-assign k j v m)

-- A phase that the update does not name keeps its entry.
lookup-merge_entries_absent :
    (name : String) (existing merged new : List (String × PhaseState))
    → lookup name new ≡ none
    → lookup name (merge_entries existing merged new) ≡ lookup name merged
unfolding merge_entries lookup
lookup-merge_entries_absent name existing merged [] h = refl
lookup-merge_entries_absent name existing merged ((n, e) ∷ rest) h = elim (Bool-cases (n == name)) [
  | inl same ↦ absurd (ground arith)
  | inr other ↦
      lookup-merge_entries_absent name existing
        (assign n (merge_phase (get_or (lookup n existing) no_phase) e) merged) rest (ground arith)
      ∙ lookup-assign n name (merge_phase (get_or (lookup n existing) no_phase) e) merged
      ∙ rw other
]

abbrev pub entries : Option (List (String × PhaseState)) → List (String × PhaseState)
entries none = []
entries (some m) = m

-- The update that the phase runner makes, of one phase: its entry is merged into the one on file, and
-- every other phase keeps its entry.
pub lookup-merge_phases :
    (existing : Option (List (String × PhaseState))) (name other : String) (entry : PhaseState)
    → lookup other (entries (merge_phases existing (some ((name, entry) ∷ [])))) ≡ (
        if name == other
        then some (merge_phase (get_or (lookup name (entries existing)) no_phase) entry)
        else lookup other (entries existing))
unfolding merge_entries
lookup-merge_phases none name other entry = lookup-assign name other _ []
lookup-merge_phases (some m) name other entry = lookup-assign name other _ m

pub write_top_level_state_other :
    (store : Store) (adw_id other : String) (state : AgentState)
    → other ≢ adw_id
    → write_top_level_state store adw_id state other ≡ store other
unfolding write_top_level_state
write_top_level_state_other store adw_id other state h = grind tests

pub write_top_level_state_self :
    (store : Store) (adw_id : String) (state : AgentState)
    → write_top_level_state store adw_id state adw_id
      ≡ some (merge_state (get_or (store adw_id) no_fields) state)
unfolding write_top_level_state
write_top_level_state_self store adw_id state = grind tests
