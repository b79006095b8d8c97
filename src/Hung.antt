-- ===== src/Hung.antt =====
-- adws/core/hungOrchestratorDetector.ts: the orchestrators that are alive and have stopped reporting.
use ai_dev_workflow.Prelude.{
  ◌≡◌, refl, sym, ◌∙◌, ap, ◌⊎◌, inl, inr, Bool, true, false, ◌&&◌, Option, none, some, List, [],
  ◌∷◌, ℕ, ◌+◌, String, ◌==◌, text_eq, if◌then◌else◌, ltb, ends_with, In, arith,
}
use mathlib.Core.Path.{subst}
use ai_dev_workflow.State.{AgentState, Store, read_top_level_state}

pub record HungOrchestrator : Type 0 where
  pub adw_id : String
  pub pid : ℕ
  pub pid_started_at : String
  pub last_seen_at : String
  pub workflow_stage : String
  pub issue_number : Option ℕ

-- A call of the liveness test may throw.
pub data Liveness : Type 0 where
  live dead failed : Liveness

pub record HungDetectorDeps : Type 0 where
  pub adw_ids : List String
  pub store : Store
  pub is_process_live : ℕ → String → Liveness
  pub date_parse : String → Option ℕ

abbrev pub is_live : Liveness → Bool
is_live live = true
is_live _ = false

-- A text that is present and not empty.
abbrev pub present : Option String → Option String
present none = none
present (some s) = if s == "" then none else some s

module _ (now stale_threshold_ms : ℕ) (deps : HungDetectorDeps) where
  -- `now - lastSeenMs <= staleThresholdMs`, negated
  abbrev pub is_stale : Option ℕ → Bool
  is_stale none = false
  is_stale (some last_seen_ms) = ltb (last_seen_ms + stale_threshold_ms) now

  abbrev pub report :
      String
      → AgentState
      → Option String
      → Option ℕ
      → Option String
      → Option String
      → Option HungOrchestrator
  report adw_id state (some stage) (some pid) (some started) (some seen) =
      if ends_with stage "_running"
        && is_stale (deps.date_parse seen)
        && is_live (deps.is_process_live pid started)
      then some (record {
        adw_id = adw_id;
        pid = pid;
        pid_started_at = started;
        last_seen_at = seen;
        workflow_stage = stage;
        issue_number = state.issue_number;
      })
      else none
  report adw_id state stage pid started seen = none

  abbrev pub report_state : String → Option AgentState → Option HungOrchestrator
  report_state adw_id none = none
  report_state adw_id (some state) =
      report adw_id state (present state.workflow_stage) state.pid (present state.pid_started_at)
        (present state.last_seen_at)

  abbrev pub push_report : Option HungOrchestrator → List HungOrchestrator → List HungOrchestrator
  push_report none rest = rest
  push_report (some h) rest = h ∷ rest

  -- The loop over the adw-ids; a listing that throws is the empty list.
  unfoldable pub report_each : List String → List HungOrchestrator
  report_each [] = []
  report_each (id ∷ ids) =
      push_report (report_state id (read_top_level_state deps.store id)) (report_each ids)

  -- `findHungOrchestrators`
  unfoldable pub find_hung_orchestrators : List HungOrchestrator
  unfolding report_each
  find_hung_orchestrators = report_each deps.adw_ids

  -- A workflow whose state records a running stage, a live owner and a report that is too old.
  pub record IsHung (h : HungOrchestrator) (state : AgentState) : Type 0 where
    pub stage : state.workflow_stage ≡ some h.workflow_stage
    pub running : ends_with h.workflow_stage "_running" ≡ true
    pub pid : state.pid ≡ some h.pid
    pub started : state.pid_started_at ≡ some h.pid_started_at
    pub alive : deps.is_process_live h.pid h.pid_started_at ≡ live
    pub seen : state.last_seen_at ≡ some h.last_seen_at
    pub stale : is_stale (deps.date_parse h.last_seen_at) ≡ true

  present-eq-some : (o : Option String) (s : String) → present o ≡ some s → o ≡ some s
  present-eq-some none s h = cc h
  present-eq-some (some t) s h = ground arith

  report-IsHung :
      (id : String) (state : AgentState) (h : HungOrchestrator) (stage : Option String)
      (pid : Option ℕ) (started seen : Option String)
      → present state.workflow_stage ≡ stage
      → state.pid ≡ pid
      → present state.pid_started_at ≡ started
      → present state.last_seen_at ≡ seen
      → report id state stage pid started seen ≡ some h
      → (h.adw_id ≡ id) × IsHung h state
  report-IsHung id state h (some stage) (some pid) (some started) (some seen) a b c d e =
      let (r, t, l, same) =
        parts (ends_with stage "_running") (is_stale (deps.date_parse seen))
          (deps.is_process_live pid started) e in
      subst (λ (x : HungOrchestrator). (x.adw_id ≡ id) × IsHung x state) same
        (
          refl,
          record {
            stage = present-eq-some state.workflow_stage stage a;
            running = r;
            pid = b;
            started = present-eq-some state.pid_started_at started c;
            alive = l;
            seen = present-eq-some state.last_seen_at seen d;
            stale = t;
          },
        )
    where
      parts :
          (running stale : Bool) (v : Liveness) {g : HungOrchestrator}
          → (if running && stale && is_live v then some g else none) ≡ some h
          → (running ≡ true) × (stale ≡ true) × (v ≡ live) × (g ≡ h)
      parts true true live e = (refl, refl, refl, ground arith)
      parts true true dead e = absurd (ground arith)
      parts true true failed e = absurd (ground arith)
      parts true false v e = absurd (ground arith)
      parts false s v e = absurd (ground arith)
  report-IsHung id state h none pid started seen a b c d e = absurd (ground arith)
  report-IsHung id state h (some s) none started seen a b c d e = absurd (ground arith)
  report-IsHung id state h (some s) (some p) none seen a b c d e = absurd (ground arith)
  report-IsHung id state h (some s) (some p) (some t) none a b c d e = absurd (ground arith)

  push-cases :
      (o : Option HungOrchestrator) (rest : List HungOrchestrator) (h : HungOrchestrator)
      → In h (push_report o rest)
      → (o ≡ some h) ⊎ In h rest
  push-cases none rest h i = inr i
  push-cases (some g) rest h (inl e) = inl (ap some (sym e))
  push-cases (some g) rest h (inr i) = inr i

  state-IsHung :
      (id : String) (o : Option AgentState) (h : HungOrchestrator)
      → report_state id o ≡ some h
      → (h.adw_id ≡ id) × ((state : AgentState) × (o ≡ some state) × IsHung h state)
  state-IsHung id none h e = absurd (ground arith)
  state-IsHung id (some state) h e =
      let (same, hung) =
        report-IsHung id state h (present state.workflow_stage) state.pid
          (present state.pid_started_at) (present state.last_seen_at) refl refl refl refl e in
      (same, (state, refl, hung))

  report_each-IsHung :
      (ids : List String) (h : HungOrchestrator)
      → In h (report_each ids)
      → In h.adw_id ids
        × ((state : AgentState) × (deps.store h.adw_id ≡ some state) × IsHung h state)
  unfolding report_each
  report_each-IsHung [] h i = absurd i
  report_each-IsHung (id ∷ ids) h i =
      elim (push-cases (report_state id (deps.store id)) (report_each ids) h i) [
        | inl e ↦
            let (same, (state, found, hung)) = state-IsHung id (deps.store id) h e in
            (inl same, (state, ap deps.store same ∙ found, hung))
        | inr j ↦ let (k, r) = report_each-IsHung ids h j in (inr k, r)
      ]

  -- Whatever is reported as hung is: its state on file records a running stage, an owner that is confirmed
  -- live, and a last report that is older than the threshold.
  pub find_hung_orchestrators-IsHung :
      (h : HungOrchestrator)
      → In h find_hung_orchestrators
      → In h.adw_id deps.adw_ids
        × ((state : AgentState) × (deps.store h.adw_id ≡ some state) × IsHung h state)
  unfolding find_hung_orchestrators
  find_hung_orchestrators-IsHung h i = report_each-IsHung deps.adw_ids h i
