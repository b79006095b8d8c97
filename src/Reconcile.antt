-- ===== src/Reconcile.antt =====
-- adws/core/remoteReconcile.ts: the stage of a workflow read off its branch and pull request, with a
-- mandatory second read.
use ai_dev_workflow.Prelude.{
  ◌≡◌, refl, ap, ◌∙◌, ◌⊎◌, inl, inr, Bool, true, false, Option, none, some, ℕ, zero, suc, ◌+◌, ◌<◌,
  String, ◌==◌, text_eq, if◌then◌else◌, get_or, Bool-cases, Option-cases, arith, eq_iff,
}
use ai_dev_workflow.State.{AgentState, Store, read_top_level_state}
use ai_dev_workflow.Process.{is_truthy}

-- `pr.state`
pub data PrState : Type 0 where
  pr_open pr_merged pr_closed pr_other : PrState

-- One read of the remote: does the branch exist, and which pull request has it?
pub record RemoteRead : Type 0 where
  pub branch_exists : Bool
  pub pr : Option PrState

abbrev pub stage_of_pr : Option PrState → Option String
stage_of_pr none = some "branch_created"
stage_of_pr (some pr_open) = some "awaiting_merge"
stage_of_pr (some pr_merged) = some "completed"
stage_of_pr (some pr_closed) = some "discarded"
stage_of_pr (some pr_other) = none

unfoldable pub map_artifacts_to_stage : RemoteRead → Option String
map_artifacts_to_stage r = if r.branch_exists then stage_of_pr r.pr else none

abbrev pub max_reconcile_verification_retries : ℕ
max_reconcile_verification_retries = 3

-- The loop of `deriveStageFromRemote` with `rounds` rounds left; `reads n` is what the n-th read finds.
unfoldable pub verify : (ℕ → RemoteRead) → String → ℕ → ℕ → String → String
unfolding map_artifacts_to_stage
verify reads fallback zero n prev = fallback
verify reads fallback (suc rounds) n prev = elim (map_artifacts_to_stage (reads n)) [
  | none ↦ fallback
  | some next ↦ if next == prev then prev else verify reads fallback rounds (n + 1) next
]

-- `state?.workflowStage ?? 'starting'`
abbrev pub state_fallback : Option AgentState → String
state_fallback none = "starting"
state_fallback (some state) = get_or state.workflow_stage "starting"

abbrev pub branch_of : Option AgentState → Option String
branch_of none = none
branch_of (some state) = state.branch_name

unfoldable pub derive_stage_from_remote : Store → (ℕ → RemoteRead) → String → String
unfolding verify
derive_stage_from_remote store reads adw_id =
    let state = read_top_level_state store adw_id in
    if is_truthy (branch_of state)
    then elim (map_artifacts_to_stage (reads 0)) [
      | none ↦ state_fallback state
      | some prev ↦
          verify reads (state_fallback state) (suc max_reconcile_verification_retries) 1 prev
    ]
    else state_fallback state

-- Two consecutive reads found this stage.
abbrev pub IsConfirmed : (ℕ → RemoteRead) → ℕ → String → Type 0
IsConfirmed reads n stage =
    (map_artifacts_to_stage (reads n) ≡ some stage)
    × (map_artifacts_to_stage (reads (n + 1)) ≡ some stage)

module _ (reads : ℕ → RemoteRead) (fallback : String) where
  verify_nothing :
      (rounds n : ℕ) (prev : String)
      → map_artifacts_to_stage (reads n) ≡ none
      → verify reads fallback (suc rounds) n prev ≡ fallback
  unfolding verify
  verify_nothing rounds n prev e = rw (e, verify)

  verify_agreed :
      (rounds n : ℕ) (prev : String)
      → map_artifacts_to_stage (reads n) ≡ some prev
      → verify reads fallback (suc rounds) n prev ≡ prev
  unfolding verify
  verify_agreed rounds n prev e = rw (e, verify) (rw ((eq_iff prev prev).1 refl))

  verify_differed :
      (rounds n : ℕ) (prev next : String)
      → map_artifacts_to_stage (reads n) ≡ some next
      → (next == prev) ≡ false
      → verify reads fallback (suc rounds) n prev ≡ verify reads fallback rounds (n + 1) next
  unfolding verify
  verify_differed rounds n prev next e ne = rw (e, verify) (rw ne)

  -- The loop answers with the fallback, or with a stage that two consecutive reads agree on.
  verify_sound :
      (rounds n : ℕ) (prev : String)
      → map_artifacts_to_stage (reads n) ≡ some prev
      → (verify reads fallback rounds (n + 1) prev ≡ fallback)
        ⊎ ((k : ℕ) × (k < n + rounds)
            × IsConfirmed reads k (verify reads fallback rounds (n + 1) prev))
  unfolding verify
  verify_sound zero n prev h = inl refl
  verify_sound (suc rounds) n prev h =
      elim (Option-cases (map_artifacts_to_stage (reads (n + 1)))) [
        | inl nothing ↦ inl (verify_nothing rounds (n + 1) prev nothing)
        | inr (next, found) ↦ elim (Bool-cases (next == prev)) [
          | inl same ↦
              let e = (eq_iff _ _).0 same in
              inr (
                n,
                omega arith,
                rw (verify_agreed rounds (n + 1) prev (found ∙ ap some e)) (h, found ∙ ap some e),
              )
          | inr other ↦ elim (verify_sound rounds (n + 1) next found) [
            | inl fell ↦ inl (verify_differed rounds (n + 1) prev next found other ∙ fell)
            | inr (k, below, agreed) ↦
                inr
                  (k, omega arith, rw (verify_differed rounds (n + 1) prev next found other) agreed)
          ]
        ]
      ]

derive_started :
    (store : Store) (reads : ℕ → RemoteRead) (adw_id prev : String)
    → is_truthy (branch_of (store adw_id)) ≡ true
    → map_artifacts_to_stage (reads 0) ≡ some prev
    → derive_stage_from_remote store reads adw_id
      ≡ verify reads (state_fallback (store adw_id)) 4 1 prev
unfolding derive_stage_from_remote
derive_started store reads adw_id prev branch first = rw branch (rw first)

derive_kept :
    (store : Store) (reads : ℕ → RemoteRead) (adw_id : String)
    → (is_truthy (branch_of (store adw_id)) ≡ false) ⊎ (map_artifacts_to_stage (reads 0) ≡ none)
    → derive_stage_from_remote store reads adw_id ≡ state_fallback (store adw_id)
unfolding derive_stage_from_remote
derive_kept store reads adw_id h = ground arith

-- The stage is the one on file (`starting` where there is none), or one that two consecutive reads
-- among the first five found.
pub derive_stage_from_remote_sound :
    (store : Store) (reads : ℕ → RemoteRead) (adw_id : String)
    → (derive_stage_from_remote store reads adw_id ≡ state_fallback (store adw_id))
      ⊎ ((k : ℕ) × (k < 4) × IsConfirmed reads k (derive_stage_from_remote store reads adw_id))
derive_stage_from_remote_sound store reads adw_id =
    elim (Bool-cases (is_truthy (branch_of (store adw_id)))) [
      | inr no_branch ↦ inl (derive_kept store reads adw_id (inl no_branch))
      | inl branch ↦ elim (Option-cases (map_artifacts_to_stage (reads 0))) [
        | inl nothing ↦ inl (derive_kept store reads adw_id (inr nothing))
        | inr (prev, found) ↦
            rw (derive_started store reads adw_id prev branch found)
              (verify_sound reads (state_fallback (store adw_id)) 4 0 prev found)
      ]
    ]

-- A remote whose first two reads agree on a stage of a recorded branch decides the stage.
pub derive_stage_from_remote_agreed :
    (store : Store) (reads : ℕ → RemoteRead) (adw_id stage : String)
    → is_truthy (branch_of (store adw_id)) ≡ true
    → map_artifacts_to_stage (reads 0) ≡ some stage
    → map_artifacts_to_stage (reads 1) ≡ some stage
    → derive_stage_from_remote store reads adw_id ≡ stage
derive_stage_from_remote_agreed store reads adw_id stage branch first second =
    derive_started store reads adw_id stage branch first
    ∙ verify_agreed reads (state_fallback (store adw_id)) 3 1 stage second
