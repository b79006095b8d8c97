-- ===== src/Comments/Progress.antt =====
-- Which stages a run skips, for the comments that stand on the issue.
use ai_dev_workflow.Prelude.{
  ◌≡◌, ◌≢◌, ◌↔◌, refl, ap, ◌∙◌, inl, inr, Bool, true, false, Option, none, some, List, [], ◌∷◌, ◌≤◌,
  String, text_eq, eq_iff, if◌then◌else◌, In, In-keep, In-keep_of, keep, is_some, is_some_of,
  Option-cases, arith, is_some_of_iff,
}
use mathlib.Core.Path.{subst}
use ai_dev_workflow.Comments.Markers.{parse_workflow_stage_from_comment}
use ai_dev_workflow.Comments.Recovery.{
  IssueComment, RecoveryState, place_of, stage_place, place_or_none, sort_by_date, is_stage_comment,
  read_comments, recovered, detect_recovery_state, executes, should_execute_stage, resumes_from,
  fresh_state,
}
use ai_dev_workflow.Comments.Places.{
  Shows, sort-In, read_comments-upper, read_comments-Shows, top_place,
}

-- A run skips the stage, for the last stage that the comments show.
abbrev IsSkipped : String → Option String → Type 0
IsSkipped stage o =
    (last : String) × (o ≡ some last)
    × (last ≢ "completed")
    × (stage_place stage ≤ stage_place last)

executes_iff :
    (stage : String) (o : Option String)
    → (executes stage (resumes_from o) o ≡ false) ↔ IsSkipped stage o
executes_iff stage none = (λ h. cc, λ h. ground (arith, h))
executes_iff stage (some last) = (
  λ h. (
    last,
    refl,
    ground (arith, eq_iff last "completed", h),
    ground (arith, eq_iff last "completed", h),
  ),
  λ (l, e, n, k). ground (arith, e, n, k, eq_iff last "completed"),
)

recovered_iff :
    (stage : String) (b : Bool) (state : RecoveryState)
    → (should_execute_stage stage (
          if b
          then fresh_state
          else record state { can_resume = resumes_from state.last_completed_stage })
        ≡ false)
      ↔ ((b ≡ false) × IsSkipped stage state.last_completed_stage)
unfolding should_execute_stage
recovered_iff stage true state = (λ h. cc, λ h. cc)
recovered_iff stage false state =
    let iff = executes_iff stage state.last_completed_stage in
    (λ h. (refl, iff.0 h), λ h. iff.1 h.1)

-- No comment of the list shows the end of a workflow.
abbrev pub IsUnfinished : List IssueComment → Type 0
IsUnfinished cs =
    (c : IssueComment) → In c cs → parse_workflow_stage_from_comment c.body ≢ some "completed"

-- Some comment shows progress up to a stage, and none shows the end of a workflow.
abbrev pub IsPast : List IssueComment → String → Type 0
IsPast cs stage =
    ((c : IssueComment) × (shown : String) × In c cs
      × Shows c shown
      × (stage_place stage ≤ stage_place shown))
    × IsUnfinished cs

completed_place : stage_place "completed" ≡ 16
unfolding place_of
completed_place = refl

unfinished :
    (cs : List IssueComment) (last : String)
    → (read_comments cs).last_completed_stage ≡ some last
    → last ≢ "completed"
    → IsUnfinished cs
unfinished cs last e n c i p =
    let z = completed_place in
    let up = read_comments-upper c "completed" cs (p, refl, omega arith) i in
    let up' = subst (λ o. stage_place "completed" ≤ place_or_none o) e up in
    let (d, j, shows) = read_comments-Shows last cs e in n (top_place last shows.1 (omega arith))

to_past :
    (stage : String) (cs : List IssueComment)
    → should_execute_stage stage (recovered cs) ≡ false
    → IsPast cs stage
unfolding should_execute_stage
to_past stage [] h = cc
to_past stage (c ∷ cs) h =
    let (b, (last, e, n, k)) =
      (recovered_iff stage (is_some_of (parse_workflow_stage_from_comment c.body) "completed")
          (read_comments (c ∷ cs))).0
        h in
    let (d, i, shows) = read_comments-Shows last (c ∷ cs) e in
    ((d, last, i, shows, k), unfinished (c ∷ cs) last e n)

-- Where a comment shows progress, the last stage is one that a comment shows.
shown_last :
    (c : IssueComment) (shown stage : String) (cs : List IssueComment)
    → Shows c shown
    → In c cs
    → IsUnfinished cs
    → stage_place stage ≤ stage_place shown
    → IsSkipped stage (read_comments cs).last_completed_stage
shown_last c shown stage cs shows i u k =
    let up = read_comments-upper c shown cs shows i in
    elim (Option-cases (read_comments cs).last_completed_stage) [
      | inl e ↦
          let up' = subst (λ o. stage_place shown ≤ place_or_none o) e up in
          let positive = shows.2 in absurd (omega arith)
      | inr (last, e) ↦
          let up' = subst (λ o. stage_place shown ≤ place_or_none o) e up in
          let (d, j, of_d) = read_comments-Shows last cs e in
          (last, e, λ end. u d j (of_d.0 ∙ ap some end), omega arith)
    ]

from_past :
    (stage : String) (cs : List IssueComment)
    → IsPast cs stage
    → should_execute_stage stage (recovered cs) ≡ false
from_past stage [] ((c, shown, i, shows, k), u) = absurd i
from_past stage (c ∷ cs) ((d, shown, i, shows, k), u) =
    (recovered_iff stage (is_some_of (parse_workflow_stage_from_comment c.body) "completed")
        (read_comments (c ∷ cs))).1
      (
        ground (
          arith,
          is_some_of_iff (parse_workflow_stage_from_comment c.body) "completed",
          u c (inl refl),
        ),
        shown_last d shown stage (c ∷ cs) shows i u k,
      )

module _ (comments : List IssueComment) where
  abbrev stage_comments : List IssueComment
  stage_comments = sort_by_date (keep is_stage_comment comments)

  to_stage_comments :
      (c : IssueComment) (stage : String)
      → parse_workflow_stage_from_comment c.body ≡ some stage
      → In c comments
      → In c stage_comments
  to_stage_comments c stage p i =
      (sort-In c (keep is_stage_comment comments)).1
        (In-keep_of is_stage_comment comments c i (ap is_some p))

  of_stage_comments : (c : IssueComment) → In c stage_comments → In c comments
  of_stage_comments c i =
      (In-keep is_stage_comment comments c ((sort-In c (keep is_stage_comment comments)).0 i)).0

  same-IsPast : (stage : String) → IsPast stage_comments stage ↔ IsPast comments stage
  same-IsPast stage = (
    λ ((c, shown, i, shows, k), u). (
      (c, shown, of_stage_comments c i, shows, k),
      λ d j p. u d (to_stage_comments d "completed" p j) p,
    ),
    λ ((c, shown, i, shows, k), u). (
      (c, shown, to_stage_comments c shown shows.0 i, shows, k),
      λ d j. u d (of_stage_comments d j),
    ),
  )

  -- A run skips a stage exactly if some comment of the issue shows that stage or a later one, other than an error and
  -- a pause or its end, and no comment at all shows a completed workflow.
  pub should_execute-detect_iff :
      (stage : String)
      → (should_execute_stage stage (detect_recovery_state comments) ≡ false)
        ↔ IsPast comments stage
  unfolding detect_recovery_state
  should_execute-detect_iff stage = (
    λ h. (same-IsPast stage).0 (to_past stage stage_comments h),
    λ p. from_past stage stage_comments ((same-IsPast stage).1 p),
  )
