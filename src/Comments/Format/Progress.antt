-- ===== src/Comments/Format/Progress.antt =====
-- The comments of the plan, the build and the pull request. A comment is the list of its pieces.
use ai_dev_workflow.Prelude.{Option, none, some, List, [], ◌∷◌, String, get_or, decimal}
use ai_dev_workflow.Comments.Format.Context.{
  WorkflowContext, BuildProgress, adw_line, adw_signature, last_action, or_undefined,
  status_section, truncate_text, type_label,
}

-- `formatStartingComment`
abbrev pub format_starting_comment : WorkflowContext → List String
format_starting_comment ctx =
    "## :rocket: ADW Workflow Started\n\nStarting automated development workflow for this issue.\n\n"
    ∷ adw_line ctx.adw_id
    ∷ "\n\n_Processing issue..._"
    ∷ ctx.running_token_footer
    ∷ adw_signature
    ∷ []

-- `formatClassifiedComment`
abbrev pub format_classified_comment : WorkflowContext → List String
format_classified_comment ctx =
    "## :mag: Issue Classified\n\nIssue classified as: **"
    ∷ type_label ctx.issue_type
    ∷ "**\n\n"
    ∷ adw_line ctx.adw_id
    ∷ ctx.running_token_footer
    ∷ adw_signature
    ∷ []

-- `formatBranchCreatedComment`
abbrev pub format_branch_created_comment : WorkflowContext → List String
format_branch_created_comment ctx =
    "## :seedling: Branch Created\n\nWorking on branch: `"
    ∷ or_undefined ctx.branch_name
    ∷ "`\n\n"
    ∷ adw_line ctx.adw_id
    ∷ ctx.running_token_footer
    ∷ adw_signature
    ∷ []

-- `formatPlanBuildingComment`
abbrev pub format_plan_building_comment : WorkflowContext → List String
format_plan_building_comment ctx =
    "## :pencil: Building Implementation Plan\n\nGenerating implementation plan...\n\n"
    ∷ adw_line ctx.adw_id
    ∷ ctx.running_token_footer
    ∷ adw_signature
    ∷ []

-- `formatPlanCreatedComment`
abbrev pub format_plan_created_comment : WorkflowContext → List String
format_plan_created_comment ctx =
    "## :white_check_mark: Implementation Plan Created\n\nAn implementation plan has been generated for this issue.\n\n**Plan file:** `"
    ∷ or_undefined ctx.plan_path
    ∷ "`\n**Branch:** `"
    ∷ or_undefined ctx.branch_name
    ∷ "`\n"
    ∷ adw_line ctx.adw_id
    ∷ "\n\n<details>\n<summary>Plan Summary</summary>\n\n"
    ∷ truncate_text (get_or ctx.plan_output "") 2000
    ∷ "\n\n</details>\n\nGenerated by ADW Plan Agent"
    ∷ ctx.running_token_footer
    ∷ adw_signature
    ∷ []

-- `formatPlanFileCreatedComment`
abbrev pub format_plan_file_created_comment : WorkflowContext → List String
format_plan_file_created_comment ctx =
    "## :page_facing_up: Plan File Created\n\nPlan file confirmed at: `"
    ∷ or_undefined ctx.plan_path
    ∷ "`\n\n"
    ∷ adw_line ctx.adw_id
    ∷ ctx.running_token_footer
    ∷ adw_signature
    ∷ []

-- `formatBuildRunningComment`
abbrev pub format_build_running_comment : WorkflowContext → List String
format_build_running_comment ctx =
    "## :hammer_and_wrench: Running Build\n\nRunning Build Agent to implement the solution...\n\n"
    ∷ adw_line ctx.adw_id
    ∷ ctx.running_token_footer
    ∷ adw_signature
    ∷ []

-- `formatBuildProgressComment`
abbrev pub format_build_progress_comment_of : WorkflowContext → Option BuildProgress → List String
format_build_progress_comment_of ctx none =
    "## :gear: Build Progress\n\nBuild in progress...\n\n"
    ∷ adw_line ctx.adw_id
    ∷ ctx.running_token_footer
    ∷ adw_signature
    ∷ []
format_build_progress_comment_of ctx (some progress) =
    "## :gear: Build Progress\n\n**Turns completed:** "
    ∷ decimal progress.turn_count
    ∷ "\n**Tool calls made:** "
    ∷ decimal progress.tool_count
    ∷ "\n"
    ∷ last_action progress
    ∷ "\n\n"
    ∷ status_section progress
    ∷ "\n\n"
    ∷ adw_line ctx.adw_id
    ∷ ctx.running_token_footer
    ∷ adw_signature
    ∷ []

abbrev pub format_build_progress_comment : WorkflowContext → List String
format_build_progress_comment ctx = format_build_progress_comment_of ctx ctx.build_progress

-- `formatBuildCompletedComment`
abbrev pub format_build_completed_comment : WorkflowContext → List String
format_build_completed_comment ctx =
    "## :white_check_mark: Build Completed\n\nThe build for this issue has been completed.\n\n**Branch:** `"
    ∷ or_undefined ctx.branch_name
    ∷ "`\n"
    ∷ adw_line ctx.adw_id
    ∷ "\n\n<details>\n<summary>Build Summary</summary>\n\n"
    ∷ truncate_text (get_or ctx.build_output "") 2000
    ∷ "\n\n</details>\n\nGenerated by ADW Build Agent"
    ∷ ctx.running_token_footer
    ∷ adw_signature
    ∷ []

-- `formatBuildCommittingComment`
abbrev pub format_build_committing_comment : WorkflowContext → List String
format_build_committing_comment ctx =
    "## :floppy_disk: Committing Build\n\nCommitting build changes to branch...\n\n"
    ∷ adw_line ctx.adw_id
    ∷ ctx.running_token_footer
    ∷ adw_signature
    ∷ []

-- `formatPrCreatingComment`
abbrev pub format_pr_creating_comment : WorkflowContext → List String
format_pr_creating_comment ctx =
    "## :memo: Creating Pull Request\n\nCreating pull request for review...\n\n"
    ∷ adw_line ctx.adw_id
    ∷ ctx.running_token_footer
    ∷ adw_signature
    ∷ []

-- `formatPrCreatedComment`
abbrev pub format_pr_created_comment : WorkflowContext → List String
format_pr_created_comment ctx =
    "## :link: Pull Request Created\n\nA pull request has been created for this issue.\n\n**PR:** "
    ∷ or_undefined ctx.pr_url
    ∷ "\n"
    ∷ adw_line ctx.adw_id
    ∷ ctx.running_token_footer
    ∷ adw_signature
    ∷ []

-- `formatCompletedComment`
abbrev pub format_completed_comment : WorkflowContext → List String
format_completed_comment ctx =
    "## :tada: ADW Workflow Completed\n\nAutomated development workflow completed successfully!\n\n**Branch:** `"
    ∷ or_undefined ctx.branch_name
    ∷ "`\n**PR:** "
    ∷ or_undefined ctx.pr_url
    ∷ "\n"
    ∷ adw_line ctx.adw_id
    ∷ ctx.cost_section
    ∷ ctx.running_token_footer
    ∷ adw_signature
    ∷ []
