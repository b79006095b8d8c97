-- ===== src/Auth/Pause.antt =====
-- The orchestrators that run while the login is gone.
use ai_dev_workflow.Prelude.{
  ◌≡◌, ◌⊎◌, refl, sym, ap, ◌∙◌, inl, inr, false, Bool, Option, none, some, List, [], ◌∷◌, ℕ, String,
  ◌==◌, text_eq, eq_iff, In, Bool-cases, Option-cases, get_or, arith,
}
use mathlib.Core.Path.{subst}
use ai_dev_workflow.State.{
  AgentState, Store, no_fields, merge_state, write_top_level_state, write_top_level_state_self,
  write_top_level_state_other,
}
use ai_dev_workflow.Process.{Host}
use ai_dev_workflow.Auth.Gate.{
  owner_in, paused_auth_patch, mark_paused_auth, pause_owner, pause_live_orchestrators,
}

abbrev pub stage_of_file : Option AgentState → Option String
stage_of_file none = none
stage_of_file (some state) = state.workflow_stage

module _ (host : Host) (write_fails : String → Bool) where
  -- The mark changes the file of its workflow alone, if the write does not fail.
  marked_file :
      (d id : String) (store : Store)
      → (mark_paused_auth host write_fails d store id ≡ store id)
        ⊎ ((d ≡ id)
            × (mark_paused_auth host write_fails d store id
                ≡ some (merge_state (get_or (store id) no_fields) paused_auth_patch)))
  marked_file d id store = elim (Bool-cases (write_fails d)) [
    | inl fails ↦ rw fails (inl refl)
    | inr ok ↦ elim (Bool-cases (id == d)) [
      | inl same ↦
          let e = (eq_iff id d).0 same in
          rw ok (
            inr (
              sym e,
              subst
                  (λ k.
                    write_top_level_state store d paused_auth_patch k
                    ≡ some (merge_state (get_or (store k) no_fields) paused_auth_patch))
                  (sym e) (write_top_level_state_self store d paused_auth_patch),
            ))
      | inr other ↦ rw ok (
          inl (
            write_top_level_state_other store d id paused_auth_patch
              (λ e. ground (arith, other, (eq_iff id d).1 e))))
    ]
  ]

  merged_owner :
      (file : Option AgentState)
      → owner_in host (some (merge_state (get_or file no_fields) paused_auth_patch))
        ≡ owner_in host file
  unfolding merge_state
  merged_owner none = refl
  merged_owner (some state) = refl

  marked_owner :
      (d id : String) (store : Store)
      → owner_in host (mark_paused_auth host write_fails d store id) ≡ owner_in host (store id)
  marked_owner d id store = elim (marked_file d id store) [
    | inl same ↦ ap (owner_in host) same
    | inr (e, merged) ↦ ap (owner_in host) merged ∙ merged_owner (store id)
  ]

  marked_stage :
      (d id : String) (store : Store)
      → stage_of_file (store id) ≡ some "paused_auth"
      → stage_of_file (mark_paused_auth host write_fails d store id) ≡ some "paused_auth"
  unfolding merge_state
  marked_stage d id store h = elim (marked_file d id store) [
    | inl same ↦ ap stage_of_file same ∙ h
    | inr (e, merged) ↦ ap stage_of_file merged
  ]

  own_stage :
      (d : String) (store : Store)
      → write_fails d ≡ false
      → stage_of_file (mark_paused_auth host write_fails d store d) ≡ some "paused_auth"
  unfolding merge_state
  own_stage d store ok =
      rw ok (ap stage_of_file (write_top_level_state_self store d paused_auth_patch))

  -- One turn of the loop, given what the owner is.
  pause_turn :
      (dirs : List String) (d : String) (w : Store × List ℕ) (o : Option ℕ)
      → owner_in host (w.0 d) ≡ o
      → pause_live_orchestrators host write_fails (d ∷ dirs) w
        ≡ pause_live_orchestrators host write_fails dirs (pause_owner host write_fails d o w)
  unfolding pause_live_orchestrators
  pause_turn dirs d w o e =
      ap (λ k. pause_live_orchestrators host write_fails dirs (pause_owner host write_fails d k w))
        e

  -- The process was sent SIGTERM, and the file is at `paused_auth`.
  abbrev pub Stopped : ℕ → String → Store × List ℕ → Type 0
  Stopped pid id w = In pid w.1 × (stage_of_file (w.0 id) ≡ some "paused_auth")

  -- What later turns of the loop keep.
  kept_after :
      (dirs : List String) (id : String) (pid : ℕ) (w : Store × List ℕ)
      → Stopped pid id w
      → Stopped pid id (pause_live_orchestrators host write_fails dirs w)
  unfolding pause_live_orchestrators
  kept_after [] id pid w s = s
  kept_after (d ∷ dirs) id pid (store, killed) s = elim (Option-cases (owner_in host (store d))) [
    | inl none_there ↦
        subst (Stopped pid id) (sym (pause_turn dirs d (store, killed) none none_there))
          (kept_after dirs id pid (store, killed) s)
    | inr (p, owner) ↦
        subst (Stopped pid id) (sym (pause_turn dirs d (store, killed) (some p) owner)) (
          kept_after dirs id pid (mark_paused_auth host write_fails d store, p ∷ killed)
            (inr s.0, marked_stage d id store s.1))
  ]

  -- While the login is gone, an orchestrator whose state file is in the list, names a live process and can be
  -- written is sent SIGTERM and left at `paused_auth`, whatever other directories the loop goes through, before or
  -- after it, and however often it is listed.
  pub pause_live_orchestrators_lem :
      (dirs : List String) (id : String) (pid : ℕ) (w : Store × List ℕ)
      → In id dirs
      → owner_in host (w.0 id) ≡ some pid
      → write_fails id ≡ false
      → Stopped pid id (pause_live_orchestrators host write_fails dirs w)
  pause_live_orchestrators_lem [] id pid w i o ok = absurd i
  pause_live_orchestrators_lem (d ∷ dirs) id pid (store, killed) (inl e) o ok =
      let owner = ap (λ k. owner_in host (store k)) (sym e) ∙ o in
      subst (Stopped pid id) (sym (pause_turn dirs d (store, killed) (some pid) owner)) (
        kept_after dirs id pid (mark_paused_auth host write_fails d store, pid ∷ killed)
          (
            inl refl,
            subst
                (λ k.
                  stage_of_file (mark_paused_auth host write_fails k store id) ≡ some "paused_auth")
                e (own_stage id store ok),
          ))
  pause_live_orchestrators_lem (d ∷ dirs) id pid (store, killed) (inr i) o ok =
      elim (Option-cases (owner_in host (store d))) [
        | inl none_there ↦
            subst (Stopped pid id) (sym (pause_turn dirs d (store, killed) none none_there))
              (pause_live_orchestrators_lem dirs id pid (store, killed) i o ok)
        | inr (p, owner) ↦
            subst (Stopped pid id) (sym (pause_turn dirs d (store, killed) (some p) owner)) (
              pause_live_orchestrators_lem dirs id pid
                (mark_paused_auth host write_fails d store, p ∷ killed) i
                (marked_owner d id store ∙ o) ok)
      ]
