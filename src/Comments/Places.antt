-- ===== src/Comments/Places.antt =====
-- How far the comments get in the order of the stages.
use Prim.Native.Nat.{ℕ, zero, suc}
use ai_dev_workflow.Prelude.{
  ◌≡◌, ◌↔◌, ◌⊎◌, refl, sym, ap, ◌∙◌, inl, inr, false, Option, none, some, List, [], ◌∷◌, ◌≤◌, ◌<◌,
  String, text_eq, eq_iff, In, arith,
}
use ai_dev_workflow.Comments.Markers.{parse_workflow_stage_from_comment}
use ai_dev_workflow.Comments.Recovery.{
  IssueComment, RecoveryState, place_of, stage_order, stage_place, place_or_none, insert_by_date,
  sort_by_date, is_passed_over, read_stage, read_comments,
}

insert-In :
    (a c : IssueComment) (cs : List IssueComment) → In a (insert_by_date c cs) ↔ In a (c ∷ cs)
unfolding insert_by_date
insert-In a c [] = (λ h. h, λ h. h)
insert-In a c (d ∷ ds) = ground (arith, insert-In a c ds)

pub sort-In : (a : IssueComment) (cs : List IssueComment) → In a (sort_by_date cs) ↔ In a cs
unfolding sort_by_date
sort-In a [] = (λ h. h, λ h. h)
sort-In a (c ∷ cs) = ground (arith, sort-In a cs, insert-In a c (sort_by_date cs))

-- A comment shows a stage of the order that counts as progress.
abbrev pub Shows : IssueComment → String → Type 0
Shows c stage =
    (parse_workflow_stage_from_comment c.body ≡ some stage)
    × (is_passed_over stage ≡ false)
    × (0 < stage_place stage)

read_stage_mono :
    (o : Option String) (c : IssueComment) (s : RecoveryState)
    → place_or_none s.last_completed_stage ≤ place_or_none (read_stage o c s).last_completed_stage
read_stage_mono none c s = omega arith
read_stage_mono (some stage) c s = ground arith

read_stage-upper :
    (stage : String) (c : IssueComment) (s : RecoveryState)
    → is_passed_over stage ≡ false
    → stage_place stage ≤ place_or_none (read_stage (some stage) c s).last_completed_stage
read_stage-upper stage c s h = ground arith

pub read_comments-upper :
    (c : IssueComment) (stage : String) (cs : List IssueComment)
    → Shows c stage
    → In c cs
    → stage_place stage ≤ place_or_none (read_comments cs).last_completed_stage
unfolding read_comments
read_comments-upper c stage [] s i = absurd i
read_comments-upper c stage (d ∷ ds) (p, k, z) (inl e) =
    rw (ap (λ (x : IssueComment). parse_workflow_stage_from_comment x.body) (sym e) ∙ p)
      (read_stage-upper stage d (read_comments ds) k)
read_comments-upper c stage (d ∷ ds) s (inr i) =
    let up = read_comments-upper c stage ds s i in
    let mono = read_stage_mono (parse_workflow_stage_from_comment d.body) d (read_comments ds) in
    omega arith

read_stage-source :
    (o : Option String) (stage : String) (c : IssueComment) (s : RecoveryState)
    → (read_stage o c s).last_completed_stage ≡ some stage
    → (s.last_completed_stage ≡ some stage)
      ⊎ ((o ≡ some stage) × (is_passed_over stage ≡ false) × (0 < stage_place stage))
read_stage-source none stage c s h = inl h
read_stage-source (some st) stage c s h = ground arith

pub read_comments-Shows :
    (stage : String) (cs : List IssueComment)
    → (read_comments cs).last_completed_stage ≡ some stage
    → (c : IssueComment) × In c cs × Shows c stage
unfolding read_comments
read_comments-Shows stage [] h = cc
read_comments-Shows stage (d ∷ ds) h =
    elim (read_stage-source (parse_workflow_stage_from_comment d.body) stage d (read_comments ds)
      h) [
        | inl e ↦ let (c, i, s) = read_comments-Shows stage ds e in (c, inr i, s)
        | inr s ↦ (d, inl refl, s)
      ]

abbrev dropped : ℕ → List String → List String
dropped zero ts = ts
dropped (suc n) [] = []
dropped (suc n) (t ∷ ts) = dropped n ts

place_of-dropped :
    (s : String) (n : ℕ) (ts : List String) → n < place_of s ts → 0 < place_of s (dropped n ts)
unfolding place_of
place_of-dropped s zero ts h = h
place_of-dropped s (suc n) [] h = absurd (omega arith)
place_of-dropped s (suc n) (t ∷ ts) h = place_of-dropped s n ts (ground arith)

place_of-In : (s : String) (ts : List String) → 0 < place_of s ts → In s ts
unfolding place_of
place_of-In s [] h = absurd (omega arith)
place_of-In s (t ∷ ts) h = ground (arith, eq_iff t s, place_of-In s ts)

not_passed_over :
    (s : String)
    → In s ("completed" ∷ "paused" ∷ "resumed" ∷ [])
    → is_passed_over s ≡ false
    → s ≡ "completed"
not_passed_over s i h = ground (arith, eq_iff s "paused", eq_iff s "resumed")

pub top_place : (s : String) → is_passed_over s ≡ false → 15 < stage_place s → s ≡ "completed"
top_place s h k = not_passed_over s (place_of-In s _ (place_of-dropped s 15 stage_order k)) h
