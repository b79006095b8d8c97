-- ===== src/Stage/Classes.antt =====
-- Which texts fall into which class.
use ai_dev_workflow.Prelude.{
  ◌≡◌, refl, sym, ap, ◌∙◌, ◌≢◌, ◌↔◌, ◌⊎◌, inl, inr, Bool, true, false, Option, none, some, String,
  ◌==◌, text_eq, if◌then◌else◌, find-eq-some, ends_with, arith, eq_iff,
}
use ai_dev_workflow.Stage.Defs.{
  WorkflowStage, StageClass, completed, discarded, paused, paused_auth, abandoned, starting,
  resuming, build_running, test_running, review_running, document_running, install_running,
  merge_blocked, review_failed, worktree_lost, terminal, active, resumable, retriable, stage_name,
  all_stages, stage_of, classify_stage, classify_cast, classify_stage_string,
}

stage_name_of : (s : String) (w : WorkflowStage) → stage_of s ≡ some w → stage_name w ≡ s
unfolding stage_of
stage_name_of s w e = (eq_iff _ _).0 (find-eq-some (λ v. stage_name v == s) all_stages w e).1

-- The adapter for texts agrees with the table on every literal of `WorkflowStage`.
pub classify_stage_string-stage_name :
    (w : WorkflowStage) → classify_stage_string (stage_name w) ≡ classify_stage w
unfolding classify_stage_string
classify_stage_string-stage_name starting = refl
classify_stage_string-stage_name w = refl

-- A class that neither family of texts has comes from a literal.
cast_of_class :
    (is_running is_completed : Bool) (o : Option WorkflowStage) (c : StageClass)
    → (if is_running then active else if is_completed then resumable else classify_cast o) ≡ c
    → c ≢ active
    → c ≢ resumable
    → (w : WorkflowStage) × (o ≡ some w) × (classify_stage w ≡ c)
cast_of_class true b o c e n m = absurd (n (sym e))
cast_of_class false true o c e n m = absurd (m (sym e))
cast_of_class false false none c e n m = absurd (m (sym e))
cast_of_class false false (some w) c e n m = (w, refl, e)

literal_of_class :
    (s : String) (c : StageClass)
    → classify_stage_string s ≡ c
    → c ≢ active
    → c ≢ resumable
    → (w : WorkflowStage) × (stage_name w ≡ s) × (classify_stage w ≡ c)
unfolding classify_stage_string
literal_of_class s c e n m =
    let (w, found, same) =
      cast_of_class (ends_with s "_running") (ends_with s "_completed") (stage_of s) c e n m in
    (w, stage_name_of s w found, same)

terminal_literals :
    (w : WorkflowStage)
    → classify_stage w ≡ terminal
    → (w ≡ completed) ⊎ (w ≡ discarded) ⊎ (w ≡ paused) ⊎ (w ≡ paused_auth)
unfolding classify_stage
terminal_literals starting h = ground arith
terminal_literals _ h = ground arith

human_gated_literals :
    (w : WorkflowStage)
    → classify_stage w ≡ StageClass.human_gated
    → (w ≡ merge_blocked)
      ⊎ (w ≡ WorkflowStage.human_gated)
      ⊎ (w ≡ review_failed)
      ⊎ (w ≡ worktree_lost)
unfolding classify_stage
human_gated_literals starting h = ground arith
human_gated_literals _ h = ground arith

retriable_literals : (w : WorkflowStage) → classify_stage w ≡ retriable → w ≡ abandoned
unfolding classify_stage
retriable_literals starting h = ground arith
retriable_literals _ h = ground arith

merge_literals :
    (w : WorkflowStage)
    → classify_stage w ≡ StageClass.awaiting_merge
    → w ≡ WorkflowStage.awaiting_merge
unfolding classify_stage
merge_literals starting h = ground arith
merge_literals _ h = ground arith

-- Of all texts, exactly four are terminal.
pub terminal_iff :
    (s : String)
    → (classify_stage_string s ≡ terminal)
      ↔ ((s ≡ "completed") ⊎ (s ≡ "discarded") ⊎ (s ≡ "paused") ⊎ (s ≡ "paused_auth"))
unfolding stage_name classify_stage_string
terminal_iff s = (
  λ h.
      let (w, named, cls) = literal_of_class s terminal h (λ e. cc) (λ e. cc) in
      elim (terminal_literals w cls) [
        | inl e ↦ inl (sym named ∙ ap stage_name e)
        | inr (inl e) ↦ inr (inl (sym named ∙ ap stage_name e))
        | inr (inr (inl e)) ↦ inr (inr (inl (sym named ∙ ap stage_name e)))
        | inr (inr (inr e)) ↦ inr (inr (inr (sym named ∙ ap stage_name e)))
      ],
  elim [ inl e ↦ rw e | inr (inl e) ↦ rw e | inr (inr (inl e)) ↦ rw e | inr (inr (inr e)) ↦ rw e ],
)

-- Of all texts, exactly four wait for a human.
pub human_gated_iff :
    (s : String)
    → (classify_stage_string s ≡ StageClass.human_gated) ↔ (
        (s ≡ "merge_blocked") ⊎ (s ≡ "human_gated") ⊎ (s ≡ "review_failed") ⊎ (s ≡ "worktree_lost"))
unfolding stage_name classify_stage_string
human_gated_iff s = (
  λ h.
      let (w, named, cls) = literal_of_class s StageClass.human_gated h (λ e. cc) (λ e. cc) in
      elim (human_gated_literals w cls) [
        | inl e ↦ inl (sym named ∙ ap stage_name e)
        | inr (inl e) ↦ inr (inl (sym named ∙ ap stage_name e))
        | inr (inr (inl e)) ↦ inr (inr (inl (sym named ∙ ap stage_name e)))
        | inr (inr (inr e)) ↦ inr (inr (inr (sym named ∙ ap stage_name e)))
      ],
  elim [ inl e ↦ rw e | inr (inl e) ↦ rw e | inr (inr (inl e)) ↦ rw e | inr (inr (inr e)) ↦ rw e ],
)

pub retriable_iff : (s : String) → (classify_stage_string s ≡ retriable) ↔ (s ≡ "abandoned")
unfolding stage_name classify_stage_string
retriable_iff s = (
  λ h.
      let (w, named, cls) = literal_of_class s retriable h (λ e. cc) (λ e. cc) in
      sym named ∙ ap stage_name (retriable_literals w cls),
  λ e. rw e,
)

pub awaiting_merge_iff :
    (s : String) → (classify_stage_string s ≡ StageClass.awaiting_merge) ↔ (s ≡ "awaiting_merge")
unfolding stage_name classify_stage_string
awaiting_merge_iff s = (
  λ h.
      let (w, named, cls) = literal_of_class s StageClass.awaiting_merge h (λ e. cc) (λ e. cc) in
      sym named ∙ ap stage_name (merge_literals w cls),
  λ e. rw e,
)

active_literals :
    (w : WorkflowStage)
    → classify_stage w ≡ active
    → (ends_with (stage_name w) "_running" ≡ true) ⊎ (w ≡ starting) ⊎ (w ≡ resuming)
unfolding classify_stage stage_name
active_literals starting h = inr (inl refl)
active_literals resuming h = inr (inr refl)
active_literals build_running h = inl refl
active_literals test_running h = inl refl
active_literals review_running h = inl refl
active_literals document_running h = inl refl
active_literals install_running h = inl refl
active_literals _ h = absurd (ground arith)

-- A text is active exactly if it ends in `_running` or is `starting` or `resuming`.
pub active_iff :
    (s : String)
    → (classify_stage_string s ≡ active)
      ↔ ((ends_with s "_running" ≡ true) ⊎ (s ≡ "starting") ⊎ (s ≡ "resuming"))
unfolding stage_name classify_stage_string
active_iff s = (
  λ h. forward (ends_with s "_running") (ends_with s "_completed") (stage_of s) refl refl h,
  elim [ inl e ↦ rw e refl | inr (inl e) ↦ rw e refl | inr (inr e) ↦ rw e refl ],
)
  where
    literal :
        (w : WorkflowStage)
        → stage_of s ≡ some w
        → classify_stage w ≡ active
        → (ends_with s "_running" ≡ true) ⊎ (s ≡ "starting") ⊎ (s ≡ "resuming")
    literal w named cls = elim (active_literals w cls) [
      | inl e ↦ inl (ap (λ t. ends_with t "_running") (sym (stage_name_of s w named)) ∙ e)
      | inr (inl e) ↦ inr (inl (sym (stage_name_of s w named) ∙ ap stage_name e))
      | inr (inr e) ↦ inr (inr (sym (stage_name_of s w named) ∙ ap stage_name e))
    ]

    forward :
        (running completed : Bool) (o : Option WorkflowStage)
        → ends_with s "_running" ≡ running
        → stage_of s ≡ o
        → (if running then active else if completed then resumable else classify_cast o) ≡ active
        → (ends_with s "_running" ≡ true) ⊎ (s ≡ "starting") ⊎ (s ≡ "resuming")
    forward true b o e f h = inl e
    forward false true o e f h = absurd (ground arith)
    forward false false none e f h = absurd (ground arith)
    forward false false (some w) e f h = literal w f h

pub completed_class :
    (s : String)
    → ends_with s "_running" ≡ false
    → ends_with s "_completed" ≡ true
    → classify_stage_string s ≡ resumable
unfolding classify_stage_string
completed_class s e f = rw (e, f) refl
