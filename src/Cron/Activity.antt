-- ===== src/Cron/Activity.antt =====
-- Which stages count as in progress, and what the last activity of a workflow is.
use ai_dev_workflow.Prelude.{
  tests, ◌≡◌, refl, sym, ap, ◌∙◌, ◌⊎◌, ◌↔◌, inl, inr, Bool, true, false, Option, none, some, List,
  [], ◌∷◌, ℕ, ◌≤◌, ◌<◌, String, ◌==◌, text_eq, if◌then◌else◌, ltb, ends_with, get_or, In,
  Bool-cases, arith, eq_iff,
}
use mathlib.Core.Path.{subst}
use ai_dev_workflow.Stage.{
  StageClass, active, awaiting_merge, retriable, resumable, terminal, human_gated,
  classify_stage_string, active_iff, completed_class,
}
use ai_dev_workflow.State.{PhaseState, AgentState}
use ai_dev_workflow.Cron.Stages.{
  by_class, is_active_stage, later, latest_of, get_last_activity_from_state,
}

clash : (b : Bool) → b ≡ true → b ≡ false → ⊥
clash b p q = cc (p, q)

-- `resuming` is neither a running stage nor `starting`.
not_resuming :
    (s : String) → (ends_with s "_running" ≡ true) ⊎ (s ≡ "starting") → (s == "resuming") ≡ false
not_resuming s h = elim (Bool-cases (s == "resuming")) [
  | inr other ↦ other
  | inl same ↦ absurd (conflict ((eq_iff s "resuming").0 same) h)
]
  where
    conflict : s ≡ "resuming" → (ends_with s "_running" ≡ true) ⊎ (s ≡ "starting") → ⊥
    conflict e (inl r) = cc (r, ap (λ t. ends_with t "_running") e)
    conflict e (inr r) =
        clash (ends_with s "starting") (ap (λ t. ends_with t "starting") r)
          (ap (λ t. ends_with t "starting") e)

-- A stage is in progress exactly if it ends in `_running` or `_completed` or is `starting`.
pub is_active_stage_iff :
    (s : String)
    → (is_active_stage s ≡ true)
      ↔ ((ends_with s "_running" ≡ true) ⊎ (ends_with s "_completed" ≡ true) ⊎ (s ≡ "starting"))
unfolding is_active_stage
is_active_stage_iff s = (
  λ h. of_class (classify_stage_string s) refl h,
  elim [
    | inl r ↦ rw ((active_iff s).1 (inl r), not_resuming s (inl r)) refl
    | inr (inl c) ↦ elim (Bool-cases (ends_with s "_running")) [
      | inl r ↦ rw ((active_iff s).1 (inl r), not_resuming s (inl r)) refl
      | inr r ↦ rw (completed_class s r c, c) refl
    ]
    | inr (inr e) ↦ rw ((active_iff s).1 (inr (inl e)), not_resuming s (inr e)) refl
  ],
)
  where
    of_class :
        (c : StageClass)
        → classify_stage_string s ≡ c
        → by_class c s ≡ true
        → (ends_with s "_running" ≡ true) ⊎ (ends_with s "_completed" ≡ true) ⊎ (s ≡ "starting")
    of_class active e h = elim ((active_iff s).0 e) [
      | inl r ↦ inl r
      | inr (inl r) ↦ inr (inr r)
      | inr (inr r) ↦ absurd (grind (tests, h, r))
    ]
    of_class resumable e h = inr (inl h)
    of_class awaiting_merge e h = absurd (ground arith)
    of_class retriable e h = absurd (ground arith)
    of_class terminal e h = absurd (ground arith)
    of_class human_gated e h = absurd (ground arith)

module _ (date_parse : String → Option ℕ) where
  -- A time that the text records: an empty text records none.
  abbrev pub Records : Option String → ℕ → Type 0
  Records none t = ⊥
  Records (some s) t = ((s == "") ≡ false) × (date_parse s ≡ some t)

  abbrev pub PhaseRecords : PhaseState → ℕ → Type 0
  PhaseRecords phase t = Records phase.started_at t ⊎ Records phase.completed_at t

  later_lem :
      (o : Option String) (latest : ℕ)
      → (latest ≤ later date_parse o latest)
        × ((later date_parse o latest ≡ latest) ⊎ Records o (later date_parse o latest))
        × ((t : ℕ) → Records o t → t ≤ later date_parse o latest)
  unfolding later
  later_lem none latest = ground arith
  later_lem (some s) latest = parsed (date_parse s) refl
    where
      parsed :
          (o : Option ℕ)
          → date_parse s ≡ o
          → (latest ≤ later date_parse (some s) latest)
            × ((later date_parse (some s) latest ≡ latest)
                ⊎ Records (some s) (later date_parse (some s) latest))
            × ((t : ℕ) → Records (some s) t → t ≤ later date_parse (some s) latest)
      parsed none e = ground arith
      parsed (some t) e = ground arith

  latest_of_lem :
      (phases : List (String × PhaseState)) (latest : ℕ)
      → (latest ≤ latest_of date_parse phases latest)
        × ((latest_of date_parse phases latest ≡ latest)
            ⊎ ((p : String × PhaseState) × In p phases
                × PhaseRecords p.1 (latest_of date_parse phases latest)))
        × ((p : String × PhaseState) (t : ℕ)
            → In p phases
            → PhaseRecords p.1 t
            → t ≤ latest_of date_parse phases latest)
  unfolding latest_of
  latest_of_lem [] latest = (omega arith, inl refl, λ p t i. absurd i)
  latest_of_lem (p ∷ ps) latest =
      let a = later date_parse p.1.started_at latest in
      let b = later date_parse p.1.completed_at a in
      let (la, ra, ma) = later_lem p.1.started_at latest in
      let (lb, rb, mb) = later_lem p.1.completed_at a in
      let (lc, rc, mc) = latest_of_lem ps b in
      (
        omega (arith, la, lb, lc),
        elim rc [
          | inr (q, i, r) ↦ inr (q, inr i, r)
          | inl same ↦ elim rb [
            | inr r ↦ inr (p, inl refl, inr (subst (Records p.1.completed_at) (sym same) r))
            | inl same' ↦ elim ra [
              | inr r ↦
                  inr (p, inl refl, inl (subst (Records p.1.started_at) (sym (same ∙ same')) r))
              | inl same'' ↦ inl (same ∙ same' ∙ same'')
            ]
          ]
        ],
        λ q t i r. bound q t i r ma mb mc lb lc,
      )
    where
      bound :
          {a b c : ℕ} (q : String × PhaseState) (t : ℕ)
          → In q (p ∷ ps)
          → PhaseRecords q.1 t
          → ((u : ℕ) → Records p.1.started_at u → u ≤ a)
          → ((u : ℕ) → Records p.1.completed_at u → u ≤ b)
          → ((q : String × PhaseState) (u : ℕ) → In q ps → PhaseRecords q.1 u → u ≤ c)
          → a ≤ b
          → b ≤ c
          → t ≤ c
      bound q t (inr i) r ma mb mc lb lc = mc q t i r
      bound q t (inl e) r ma mb mc lb lc =
          elim (subst (λ (x : String × PhaseState). PhaseRecords x.1 t) e r) [
            | inl s ↦ omega (arith, ma t s, lb, lc)
            | inr s ↦ omega (arith, mb t s, lc)
          ]

  -- The last activity is a time that some phase records, and no phase records a later one.
  pub get_last_activity_from_state_lem :
      (state : AgentState) (t : ℕ)
      → get_last_activity_from_state date_parse state ≡ some t
      → ((p : String × PhaseState) × In p (get_or state.phases []) × PhaseRecords p.1 t)
        × ((p : String × PhaseState) (u : ℕ)
            → In p (get_or state.phases [])
            → PhaseRecords p.1 u
            → u ≤ t)
  unfolding get_last_activity_from_state
  get_last_activity_from_state_lem state t h =
      let (same, positive) = of_latest (latest_of date_parse (get_or state.phases []) 0) h in
      let (_, r, m) = latest_of_lem (get_or state.phases []) 0 in
      (
        elim r [
          | inl zero_time ↦ absurd (omega (arith, zero_time, positive))
          | inr (p, i, q) ↦ (p, i, subst (PhaseRecords p.1) same q)
        ],
        λ p u i q. omega (arith, m p u i q, same),
      )
    where
      of_latest : (n : ℕ) → (if ltb 0 n then some n else none) ≡ some t → (n ≡ t) × (0 < n)
      of_latest n h = ground arith
