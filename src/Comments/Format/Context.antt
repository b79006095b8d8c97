-- ===== src/Comments/Format/Context.antt =====
-- What the comments of a workflow are made of. Numbers with separators, the cost and proof sections and the screenshots
-- are formatted elsewhere, and stand here as texts.
use Prim.Native.Nat.{◌/◌, ◌+◌}
use ai_dev_workflow.Prelude.{
  Bool, false, ◌&&◌, not, Option, none, some, List, [], ◌∷◌, map, ℕ, String, ◌==◌, text_eq,
  number_eq, if◌then◌else◌, keep, length, ltb, get_or, join, take_text, text_length, decimal,
}
use ai_dev_workflow.Process.{is_truthy}
use ai_dev_workflow.State.{lookup}

pub record ReviewIssue : Type 0 where
  pub review_issue_number : ℕ
  pub issue_description : String
  pub issue_resolution : String
  pub issue_severity : String

pub record BuildProgress : Type 0 where
  pub turn_count : ℕ
  pub tool_count : ℕ
  pub last_tool_name : Option String
  pub last_text : Option String

-- `scenario_proof` holds the sections of the proof comment behind its header.
pub record WorkflowContext : Type 0 where
  pub adw_id : String
  pub branch_name : Option String
  pub issue_type : Option String
  pub plan_path : Option String
  pub plan_output : Option String
  pub build_output : Option String
  pub pr_url : Option String
  pub error_message : Option String
  pub resume_from : Option String
  pub build_progress : Option BuildProgress
  pub cost_section : String
  pub running_token_footer : String
  pub token_continuation_number : Option ℕ
  pub token_usage : Option String
  pub review_summary : Option String
  pub review_issues : List ReviewIssue
  pub patching_issue : Option ReviewIssue
  pub review_attempt : Option ℕ
  pub max_review_attempts : Option ℕ
  pub screenshot_section : String
  pub scenario_proof : Option (List String)
  pub completed_phases : List String
  pub paused_at_phase : Option String
  pub pause_reason : Option String
  pub timeout_phase_name : Option String
  pub timeout_ms : Option ℕ
  pub coherence_warnings : List String

abbrev pub concat : List String → String
concat [] = ""
concat (s ∷ ss) = join s (concat ss)

-- `xs.join(sep)`
abbrev pub join_with : String → List String → String
join_with sep [] = ""
join_with sep (s ∷ []) = s
join_with sep (s ∷ t ∷ ts) = join s (join sep (join_with sep (t ∷ ts)))

-- `ADW_SIGNATURE`
abbrev pub adw_signature : String
adw_signature = "\n\n---\n_Posted by ADW (AI Developer Workflow) automation_ <!-- adw-bot -->"

abbrev pub adw_line : String → String
adw_line adw_id = concat ("**ADW ID:** `" ∷ adw_id ∷ "`" ∷ [])

-- `truncateText`
abbrev pub truncate_text : String → ℕ → String
truncate_text text max_length =
    if ltb max_length (text_length text) then join (take_text max_length text) "..." else text

-- How a template prints a field that is not set.
abbrev pub or_undefined : Option String → String
or_undefined o = get_or o "undefined"

-- `a || b` on texts
abbrev pub or_text : Option String → String → String
or_text o default = if is_truthy o then get_or o default else default

-- `a ? f(a) : ''`
abbrev pub when_set : Option String → (String → String) → String
when_set none f = ""
when_set (some s) f = if s == "" then "" else f s

abbrev issue_type_labels : List (String × String)
issue_type_labels =
    ("/feature", "feature")
    ∷ ("/bug", "bug")
    ∷ ("/chore", "chore")
    ∷ ("/pr_review", "pr-review")
    ∷ ("/adw_init", "adw-init")
    ∷ []

unfoldable pub type_label : Option String → String
unfolding lookup
type_label none = "unknown"
type_label (some issue_type) = or_undefined (lookup issue_type issue_type_labels)

abbrev pub last_action : BuildProgress → String
last_action progress =
    when_set progress.last_tool_name (λ tool. concat ("Last action: `" ∷ tool ∷ "`" ∷ []))

abbrev status_of : String → String
status_of text = if text == "" then "" else join "**Status:**\n" text

abbrev pub status_section : BuildProgress → String
status_section progress = status_of (when_set progress.last_text (λ t. truncate_text t 300))

abbrev pub positive : Option ℕ → Bool
positive none = false
positive (some n) = ltb 0 n

abbrev pub attempt_info : WorkflowContext → String
attempt_info ctx =
    if positive ctx.review_attempt && positive ctx.max_review_attempts
    then concat (
        "\n**Attempt:** "
        ∷ decimal (get_or ctx.review_attempt 0)
        ∷ "/"
        ∷ decimal (get_or ctx.max_review_attempts 0)
        ∷ [])
    else ""

-- `formatReviewIssueItem`
abbrev pub format_review_issue_item : ReviewIssue → String
format_review_issue_item issue = concat (
    "- **#"
    ∷ decimal issue.review_issue_number
    ∷ "** ["
    ∷ issue.issue_severity
    ∷ "]: "
    ∷ issue.issue_description
    ∷ [])

abbrev pub is_blocker : ReviewIssue → Bool
is_blocker issue = issue.issue_severity == "blocker"

abbrev items : List ReviewIssue → String
items issues = join_with "\n" (map format_review_issue_item issues)

abbrev pub summary_section : WorkflowContext → String
summary_section ctx = when_set ctx.review_summary (λ s. join "\n\n" (truncate_text s 2000))

abbrev pub non_blocker_section : WorkflowContext → String
non_blocker_section ctx =
    let found = keep (λ i. not (is_blocker i)) ctx.review_issues in
    if ltb 0 (length found)
    then concat (
        "\n\n<details>\n<summary>Non-blocker issues ("
        ∷ decimal (length found)
        ∷ ")</summary>\n\n"
        ∷ items found
        ∷ "\n\n</details>"
        ∷ [])
    else ""

abbrev pub blocker_list : WorkflowContext → String
blocker_list ctx =
    let found = keep is_blocker ctx.review_issues in
    if ltb 0 (length found)
    then concat
        ("\n\n**Remaining blocker issues (" ∷ decimal (length found) ∷ "):**\n" ∷ items found ∷ [])
    else ""

abbrev pub branch_line : WorkflowContext → String
branch_line ctx = when_set ctx.branch_name (λ b. concat ("\n**Branch:** `" ∷ b ∷ "`" ∷ []))

abbrev pub retry_line : String
retry_line =
    "\n\nPush a fix to the branch above, then post `## Retry` on this issue to re-run the review."

abbrev pub resolution_line : ReviewIssue → String
resolution_line issue =
    when_set (some issue.issue_resolution)
      (λ r. join "\n**Proposed resolution:** " (truncate_text r 500))

abbrev pub completed_list : WorkflowContext → String
completed_list ctx =
    if ltb 0 (length ctx.completed_phases)
    then join "\n\n**Completed phases:** " (join_with ", " ctx.completed_phases)
    else ""

abbrev pub paused_at_line : WorkflowContext → String
paused_at_line ctx =
    when_set ctx.paused_at_phase (λ p. concat ("\n**Paused at phase:** `" ∷ p ∷ "`" ∷ []))

abbrev pub reason_line : WorkflowContext → String
reason_line ctx = when_set ctx.pause_reason (λ r. join "\n**Reason:** " r)

abbrev pub resuming_line : WorkflowContext → String
resuming_line ctx =
    when_set ctx.paused_at_phase (λ p. concat ("\n**Resuming from phase:** `" ∷ p ∷ "`" ∷ []))

abbrev pub bullet_list : WorkflowContext → String
bullet_list ctx =
    if ltb 0 (length ctx.coherence_warnings)
    then join "\n\n" (join_with "\n" (map (λ w. join "- " w) ctx.coherence_warnings))
    else ""

-- `Math.round(ms / 60_000)`
abbrev pub timeout_minutes : WorkflowContext → String
timeout_minutes ctx = elim ctx.timeout_ms [
  | none ↦ "?"
  | some ms ↦ if ms == 0 then "?" else decimal ((ms + 30000) / 60000)
]

-- Each section of the proof comment stands behind an empty line.
abbrev pub after_header : List String → String
after_header [] = ""
after_header (s ∷ ss) = join "\n\n" (join s (after_header ss))
