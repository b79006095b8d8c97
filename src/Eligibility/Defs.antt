-- ===== src/Eligibility/Defs.antt =====
-- adws/triggers/issueDependencies.ts, concurrencyGuard.ts and issueEligibility.ts: whether an issue may be worked on
-- now. The hash of a body, the agent that reads dependencies, and the forge are arguments.
use ai_dev_workflow.Prelude.{
  Bool, true, false, ◌&&◌, ◌||◌, not, Option, none, some, List, [], ◌∷◌, ℕ, String, text_eq,
  number_eq, if◌then◌else◌, any, keep, length, ltb, leb,
}
use ai_dev_workflow.State.{lookup}
use ai_dev_workflow.Eligibility.Parse.{parse_keyword_proximity_dependencies, count_refs}

-- The agent's run: it may throw, fail, or answer numbers.
pub data AgentAnswer : Type 0 where
  agent_threw agent_failed : AgentAnswer
  dependencies : List ℕ → AgentAnswer

pub data IssueStateRead : Type 0 where
  open_issue closed_issue read_threw : IssueStateRead

-- The forge and the agent, at one moment.
pub record EligibilityDeps : Type 0 where
  pub hash_body : String → String
  pub run_dependency_extraction_agent : String → AgentAnswer
  pub get_issue_state : ℕ → IssueStateRead

-- `dependencyCache`, newest first; the callers here pass no issue number, so that the body's hash is the key.
abbrev pub Cache : Type 0
Cache = List (String × List ℕ)

abbrev pub agent_or : AgentAnswer → List ℕ → List ℕ
agent_or agent_threw near = near
agent_or agent_failed near = near
agent_or (dependencies []) near = near
agent_or (dependencies (n ∷ ns)) near = n ∷ ns

abbrev pub needs_llm : String → Bool
needs_llm body =
    ltb 0 (count_refs body)
    && ltb (length (parse_keyword_proximity_dependencies body)) (count_refs body)

module _ (deps : EligibilityDeps) where
  -- What is found out where the cache has nothing.
  abbrev pub fresh_dependencies : String → List ℕ
  fresh_dependencies body =
      if needs_llm body
      then agent_or (deps.run_dependency_extraction_agent body)
          (parse_keyword_proximity_dependencies body)
      else parse_keyword_proximity_dependencies body

  abbrev pub extracted : String → Option (List ℕ) → Cache → List ℕ × Cache
  extracted body (some cached) cache = (cached, cache)
  extracted body none cache =
      (fresh_dependencies body, (deps.hash_body body, fresh_dependencies body) ∷ cache)

  -- `extractDependencies`
  unfoldable pub extract_dependencies : String → Cache → List ℕ × Cache
  unfolding lookup
  extract_dependencies body cache = extracted body (lookup (deps.hash_body body) cache) cache

  -- A state that cannot be read counts as open.
  abbrev pub is_open : ℕ → Bool
  is_open n = elim (deps.get_issue_state n) [
    | open_issue ↦ true
    | closed_issue ↦ false
    | read_threw ↦ true
  ]

  -- `findOpenDependencies`
  unfoldable pub find_open_dependencies : String → Cache → List ℕ × Cache
  unfolding extract_dependencies
  find_open_dependencies body cache =
      let (found, cache') = extract_dependencies body cache in (keep is_open found, cache')

-- An open issue as the concurrency check lists it: its number, and whether a comment is ADW's.
pub record ListedIssue : Type 0 where
  pub number : ℕ
  pub has_adw_comment : Bool

-- `LinkedPRRef`; `links` says which issues its body closes.
pub record LinkedPr : Type 0 where
  pub links : ℕ → Bool
  pub is_closed : Bool
  pub is_merged : Bool

-- `hasLinkedMergedOrClosedPR`
unfoldable pub has_linked_merged_or_closed_pr : ℕ → List LinkedPr → Bool
has_linked_merged_or_closed_pr n prs =
    any (λ (pr : LinkedPr). pr.links n && (pr.is_merged || pr.is_closed)) prs

abbrev pub is_in_progress : List LinkedPr → ListedIssue → Bool
is_in_progress prs issue =
    issue.has_adw_comment && not (has_linked_merged_or_closed_pr issue.number prs)

-- A listing that throws is an empty one.
abbrev pub listed {ℓ} : {A : Type ℓ} → Option (List A) → List A
listed none = []
listed (some xs) = xs

-- `getInProgressIssueCount`
unfoldable pub get_in_progress_issue_count : Option (List ListedIssue) → Option (List LinkedPr) → ℕ
unfolding has_linked_merged_or_closed_pr
get_in_progress_issue_count issues prs = length (keep (is_in_progress (listed prs)) (listed issues))

-- `isConcurrencyLimitReachedAt`
unfoldable pub is_concurrency_limit_reached_at :
    Option (List ListedIssue) → Option (List LinkedPr) → ℕ → Bool
unfolding get_in_progress_issue_count
is_concurrency_limit_reached_at issues prs limit =
    leb limit (get_in_progress_issue_count issues prs)

pub data EligibilityResult : Type 0 where
  is_eligible concurrency_limit : EligibilityResult
  open_dependencies : List ℕ → EligibilityResult

-- What the two listings of the forge answer, and the cap of the repository.
pub record Listings : Type 0 where
  pub issues : Option (List ListedIssue)
  pub prs : Option (List LinkedPr)
  pub limit : ℕ

abbrev pub eligibility_of : Listings → List ℕ → EligibilityResult
eligibility_of forge (n ∷ ns) = open_dependencies (n ∷ ns)
eligibility_of forge [] =
    if is_concurrency_limit_reached_at forge.issues forge.prs forge.limit
    then concurrency_limit
    else is_eligible

-- `checkIssueEligibility`
unfoldable pub check_issue_eligibility :
    EligibilityDeps → Listings → String → Cache → EligibilityResult × Cache
unfolding find_open_dependencies is_concurrency_limit_reached_at
check_issue_eligibility deps forge body cache =
    let (blockers, cache') = find_open_dependencies deps body cache in
    (eligibility_of forge blockers, cache')
