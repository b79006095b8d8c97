-- ===== src/Comments/Markers.antt =====
-- What is read out of one comment. The regular expressions are written out as readers of the text at a place; a line ends
-- at a line feed or a carriage return.
use Prim.Native.Char.{code}
use ai_dev_workflow.Prelude.{
  Bool, true, false, ◌&&◌, ◌||◌, not, Option, none, some, List, [], ◌∷◌, ◌++◌, ℕ, ◌-◌, String, ◌==◌,
  text_eq, number_eq, if◌then◌else◌, any, leb, ltb, split, after, text_length, take_text,
  trim_start, eq_ignoring_case, ends_with, is_some,
}
use ai_dev_workflow.State.{lookup}
use ai_dev_workflow.Eligibility.{is_digit, starts_with_digit, behind_segment, then_segment}

-- `STAGE_HEADER_MAP`
abbrev pub stage_header_map : List (String × String)
stage_header_map =
    (":rocket: ADW Workflow Started", "starting")
    ∷ (":arrows_counterclockwise: ADW Workflow Resuming", "resuming")
    ∷ (":mag: Issue Classified", "classified")
    ∷ (":seedling: Branch Created", "branch_created")
    ∷ (":pencil: Building Implementation Plan", "plan_building")
    ∷ (":white_check_mark: Implementation Plan Created", "plan_created")
    ∷ (":page_facing_up: Plan File Created", "planFile_created")
    ∷ (":mag: Validating Plan-Scenario Alignment", "plan_validating")
    ∷ (":arrows_counterclockwise: Aligning Plan and Scenarios", "plan_aligning")
    ∷ (":hammer_and_wrench: Running Build", "build_running")
    ∷ (":white_check_mark: Build Completed", "build_completed")
    ∷ (":floppy_disk: Committing Build", "build_committing")
    ∷ (":memo: Creating Pull Request", "pr_creating")
    ∷ (":link: Pull Request Created", "pr_created")
    ∷ (":tada: ADW Workflow Completed", "completed")
    ∷ (":x: ADW Workflow Error", "error")
    ∷ (":no_entry: ADW Workflow Discarded", "discarded")
    ∷ (":pause_button: ADW Workflow Paused", "paused")
    ∷ (":arrow_forward: ADW Workflow Resuming", "resumed")
    ∷ (":warning: Token Limit Recovery", "token_limit_recovery")
    ∷ (":warning: Context Compaction Recovery", "compaction_recovery")
    ∷ (":warning: Test Compaction Recovery", "test_compaction_recovery")
    ∷ []

-- `match`, for an expression that `at` reads at a place: the first place where it reads something.
unfoldable pub first_match : (String → Option String) → String → Option String
first_match at String.[] = at ""
first_match at (String.◌∷◌ c s) =
    let later = first_match at s in
    elim (at (String.◌∷◌ c s)) [ some found ↦ some found | none ↦ later ]

-- `s.includes(t)`
abbrev pub includes_text : String → String → Bool
includes_text s t = is_some (first_match (λ r. after r t) s)

abbrev split_each : ℕ → List String → List String
split_each sep [] = []
split_each sep (s ∷ ss) = split sep s ++ split_each sep ss

abbrev pub lines_of : String → List String
lines_of s = split_each b'\r' (split b'\n' s)

abbrev pub is_name_char : ℕ → Bool
is_name_char n = (leb b'a' n && leb n b'z') || n == b'_'

-- `[a-z_]+: .+` behind the first colon: the flag says whether a letter was read.
unfoldable pub is_heading_name : Bool → String → Bool
is_heading_name started String.[] = false
is_heading_name started (String.◌∷◌ c s) =
    let more = is_heading_name true s in
    if code c == b':'
    then started && (elim (after s " ") [ none ↦ false | some title ↦ ltb 0 (text_length title) ])
    else is_name_char (code c) && more

-- `^## (:[a-z_]+: .+)$` on a line
abbrev pub header_in : String → Option String
header_in line = elim (after line "## ") [
  | none ↦ none
  | some header ↦ elim (after header ":") [
    | none ↦ none
    | some name ↦ if is_heading_name false name then some header else none
  ]
]

abbrev pub first_header : List String → Option String
first_header [] = none
first_header (line ∷ lines) = elim (header_in line) [
  | some header ↦ some header
  | none ↦ first_header lines
]

abbrev pub stage_of_header : Option String → Option String
stage_of_header none = none
stage_of_header (some header) = lookup header stage_header_map

-- `parseWorkflowStageFromComment`
unfoldable pub parse_workflow_stage_from_comment : String → Option String
unfolding first_match split is_heading_name lookup
parse_workflow_stage_from_comment body =
    if includes_text body "ADW ID:" then stage_of_header (first_header (lines_of body)) else none

-- The text up to the next backtick.
unfoldable pub until_tick : String → Option String
until_tick String.[] = none
until_tick (String.◌∷◌ c s) =
    let more = until_tick s in
    if code c == b'`' then some "" else elim more [ none ↦ none | some t ↦ some (String.◌∷◌ c t) ]

-- `[a-z0-9-]`
abbrev pub is_slug_char : ℕ → Bool
is_slug_char n = (leb b'a' n && leb n b'z') || is_digit n || n == b'-'

abbrev pub is_slug : String → Bool
is_slug String.[] = true
is_slug (String.◌∷◌ c s) = is_slug_char (code c) && is_slug s

abbrev starts_with_dash : String → Bool
starts_with_dash String.[] = false
starts_with_dash (String.◌∷◌ c s) = code c == b'-'

-- `[a-z0-9][a-z0-9-]*[a-z0-9]`
abbrev pub is_adw_id : String → Bool
is_adw_id s =
    is_slug s && ltb 1 (text_length s) && not (starts_with_dash s) && not (ends_with s "-")

-- The text between backticks that begin here, if it passes the test.
abbrev pub quoted : (String → Bool) → Option String → Option String
quoted test none = none
quoted test (some s) = elim (after s "`") [
  | none ↦ none
  | some rest ↦ elim (until_tick rest) [ none ↦ none | some t ↦ if test t then some t else none ]
]

abbrev skip_space : Option String → Option String
skip_space none = none
skip_space (some s) = some (trim_start s)

abbrev pub adw_id_at : String → Option String
adw_id_at s = quoted is_adw_id (skip_space (after s "**ADW ID:**"))

-- `extractAdwIdFromComment`
unfoldable pub extract_adw_id_from_comment : String → Option String
unfolding first_match until_tick
extract_adw_id_from_comment body = first_match adw_id_at body

-- `-issue-\d+[a-z0-9-]*`
abbrev is_issue_suffix : Option String → Bool
is_issue_suffix none = false
is_issue_suffix (some s) = elim (after s "-issue-") [
  | none ↦ false
  | some rest ↦ starts_with_digit rest && is_slug rest
]

abbrev pub is_branch_name : String → Bool
is_branch_name s =
    any (λ kind. is_issue_suffix (after s kind)) ("feat" ∷ "bug" ∷ "chore" ∷ "review" ∷ "test" ∷ [])

-- `extractBranchNameFromComment`
unfoldable pub extract_branch_name_from_comment : String → Option String
unfolding first_match until_tick
extract_branch_name_from_comment body = first_match (λ s. quoted is_branch_name (some s)) body

abbrev pub drop_digits : String → String
drop_digits String.[] = ""
drop_digits (String.◌∷◌ c s) = if is_digit (code c) then drop_digits s else String.◌∷◌ c s

abbrev then_pull : Option String → Option String
then_pull none = none
then_pull (some s) = elim (after s "pull/") [
  | none ↦ none
  | some rest ↦ if starts_with_digit rest then some (drop_digits rest) else none
]

-- The part of a text before its suffix.
abbrev before_suffix : String → Option String → Option String
before_suffix s none = none
before_suffix s (some rest) = some (take_text (text_length s - text_length rest) s)

-- `https://github.com/<owner>/<repo>/pull/<n>`
abbrev pub pr_url_at : String → Option String
pr_url_at s =
    before_suffix s (then_pull (then_segment (then_segment (after s "https://github.com/"))))

-- `extractPrUrlFromComment`
unfoldable pub extract_pr_url_from_comment : String → Option String
unfolding first_match behind_segment
extract_pr_url_from_comment body = first_match pr_url_at body

-- The longest start of slug characters, and what follows it.
abbrev pub slug_start : String → String
slug_start String.[] = ""
slug_start (String.◌∷◌ c s) = if is_slug_char (code c) then String.◌∷◌ c (slug_start s) else ""

abbrev pub drop_slug : String → String
drop_slug String.[] = ""
drop_slug (String.◌∷◌ c s) = if is_slug_char (code c) then drop_slug s else String.◌∷◌ c s

-- `[a-z0-9-]+-sdlc_planner-[a-z0-9-]+\.md`; an underscore ends the first run, which thus ends with `-sdlc`.
abbrev is_planned : Option String → Bool
is_planned none = false
is_planned (some s) =
    ltb 5 (text_length (slug_start s))
    && ends_with (slug_start s) "-sdlc"
    && (elim (after (drop_slug s) "_planner-") [
      | none ↦ false
      | some name ↦ ltb 0 (text_length (slug_start name)) && drop_slug name == ".md"
    ])

abbrev pub is_plan_path : String → Bool
is_plan_path s = elim (after s "specs/issue-") [
  | none ↦ false
  | some rest ↦ starts_with_digit rest && (elim (after (drop_digits rest) "-") [
    | none ↦ false
    | some name ↦ name == "plan.md" || is_planned (after name "adw-")
  ])
]

-- `extractPlanPathFromComment`
unfoldable pub extract_plan_path_from_comment : String → Option String
unfolding first_match until_tick
extract_plan_path_from_comment body = first_match (λ s. quoted is_plan_path (some s)) body

-- `isCancelComment`, `isRetryComment` and `isActionableComment`: a line that is the heading, in any case.
abbrev pub has_line : String → String → Bool
has_line body heading = any (λ line. eq_ignoring_case line heading) (lines_of body)

unfoldable pub is_cancel_comment : String → Bool
unfolding split eq_ignoring_case
is_cancel_comment body = has_line body "## Cancel"

unfoldable pub is_retry_comment : String → Bool
unfolding split eq_ignoring_case
is_retry_comment body = has_line body "## Retry"

unfoldable pub is_actionable_comment : String → Bool
unfolding split eq_ignoring_case
is_actionable_comment body = has_line body "## Continue"
