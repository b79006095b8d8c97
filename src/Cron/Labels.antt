-- ===== src/Cron/Labels.antt =====
-- adws/core/adwLabels.ts and adws/triggers/cronLabelEligibility.ts: what an issue's labels say.
use ai_dev_workflow.Prelude.{
  Bool, true, false, ◌&&◌, Option, none, some, List, [], ◌∷◌, String, ◌==◌, text_eq, number_eq,
  if◌then◌else◌, keep, any, find, length, ltb, starts_with,
}

abbrev pub adw_none_label : String
adw_none_label = "adw:none"

abbrev pub regression_promotion_label : String
regression_promotion_label = "regression-promotion"

-- `ADW_CLASSIFICATION_LABELS`, as label and slash command.
abbrev pub adw_classification_labels : List (String × String)
adw_classification_labels =
    ("adw:chore", "/chore")
    ∷ ("adw:bug", "/bug")
    ∷ ("adw:feature", "/feature")
    ∷ ("adw:pr_review", "/pr_review")
    ∷ []

pub record AdwLabelReading : Type 0 where
  pub opt_out : Bool
  pub classification : Option String
  pub conflict : Bool

abbrev pub has : List String → String → Bool
has names l = any (λ n. n == l) names

abbrev pub sole_command : List (String × String) → Option String
sole_command ((l, cmd) ∷ []) = some cmd
sole_command _ = none

-- `readAdwLabelNames`
unfoldable pub read_adw_label_names : List String → AdwLabelReading
read_adw_label_names names =
    let matched = keep (λ (l : String × String). has names l.0) adw_classification_labels in
    record {
      opt_out = has names adw_none_label;
      conflict = ltb 1 (length matched);
      classification = sole_command matched;
    }

abbrev label_of : Option (String × String) → Option String
label_of none = none
label_of (some (l, cmd)) = some l

-- `issueTypeToAdwLabel`
unfoldable pub issue_type_to_adw_label : String → Option String
issue_type_to_adw_label issue_type =
    label_of (find (λ (l : String × String). l.1 == issue_type) adw_classification_labels)

-- `scenarioAuthoringSkipReason`
unfoldable pub scenario_authoring_skip_reason : List String → Option String
scenario_authoring_skip_reason names =
    if has names regression_promotion_label
    then some regression_promotion_label
    else if has names adw_none_label
    then some adw_none_label
    else none

pub data LabelRecoveryReason : Type 0 where
  opt_out multi_label reserved_label in_progress_comment linked_closed_pr : LabelRecoveryReason

pub data LabelRecoveryResult : Type 0 where
  ineligible : LabelRecoveryReason → LabelRecoveryResult
  eligible_as : Option String → LabelRecoveryResult

abbrev pub is_none {ℓ} : {A : Type ℓ} → Option A → Bool
is_none none = true
is_none (some a) = false

-- `decideLabelRecovery`
unfoldable pub decide_label_recovery : AdwLabelReading → Bool → Bool → Bool → LabelRecoveryResult
decide_label_recovery reading has_in_progress_comment has_linked_closed_pr has_adw_label =
    if reading.opt_out
    then ineligible LabelRecoveryReason.opt_out
    else if reading.conflict
    then ineligible multi_label
    else if is_none reading.classification && has_adw_label
    then ineligible reserved_label
    else if has_in_progress_comment
    then ineligible in_progress_comment
    else if has_linked_closed_pr
    then ineligible linked_closed_pr
    else eligible_as reading.classification

-- `evaluateLabelRecovery`; whether a comment is one of ADW's and whether a closed pull request is linked
-- are read elsewhere.
unfoldable pub evaluate_label_recovery : List String → Bool → Bool → LabelRecoveryResult
unfolding read_adw_label_names decide_label_recovery
evaluate_label_recovery names has_in_progress_comment has_linked_closed_pr =
    decide_label_recovery (read_adw_label_names names) has_in_progress_comment has_linked_closed_pr
      (any (λ n. starts_with n "adw:") names)
