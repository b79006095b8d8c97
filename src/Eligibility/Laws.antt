-- ===== src/Eligibility/Laws.antt =====
-- When an issue is eligible, and what the cache answers.
use Prim.Native.Char.{code}
use ai_dev_workflow.Prelude.{
  ◌≡◌, ◌↔◌, refl, inl, inr, Bool, true, false, ◌||◌, Option, none, some, List, [], ◌∷◌, ◌++◌, ℕ,
  ◌<◌, String, ◌==◌, text_eq, number_eq, eq_iff, keep, any, All, Option-cases, lower, ap, ◌∙◌,
  arith,
}
use ai_dev_workflow.State.{lookup}
use ai_dev_workflow.Eligibility.Parse.{
  add_number, collect, collect_near, add_near, has_keyword, ref_at, url_at, of_section,
  find_heading, section_of, parse_dependencies, parse_keyword_proximity_dependencies,
}
use ai_dev_workflow.Eligibility.Defs.{
  EligibilityDeps, closed_issue, Cache, extracted, extract_dependencies, is_open,
  find_open_dependencies, get_in_progress_issue_count, is_concurrency_limit_reached_at, is_eligible,
  Listings, eligibility_of, check_issue_eligibility,
}

module _ (deps : EligibilityDeps) where
  AreClosed_iff :
      (ns : List ℕ)
      → (keep (is_open deps) ns ≡ []) ↔ All (λ n. deps.get_issue_state n ≡ closed_issue) ns
  AreClosed_iff [] = (λ h. tt, λ h. refl)
  AreClosed_iff (n ∷ ns) = ground (arith, AreClosed_iff ns)

  eligibility_iff :
      (forge : Listings) (ns : List ℕ)
      → (eligibility_of forge ns ≡ is_eligible)
        ↔ ((ns ≡ []) × (get_in_progress_issue_count forge.issues forge.prs < forge.limit))
  unfolding is_concurrency_limit_reached_at
  eligibility_iff forge [] = ground arith
  eligibility_iff forge (n ∷ ns) = ground arith

  -- An issue is eligible exactly if the forge answers of every dependency found for its body that it is closed,
  -- and fewer issues than the cap are in progress; a dependency whose state cannot be read keeps it waiting.
  pub check_issue_eligibility_iff :
      (forge : Listings) (body : String) (cache : Cache)
      → ((check_issue_eligibility deps forge body cache).0 ≡ is_eligible) ↔ (
          All (λ n. deps.get_issue_state n ≡ closed_issue) (extract_dependencies deps body cache).0
          × (get_in_progress_issue_count forge.issues forge.prs < forge.limit))
  unfolding check_issue_eligibility find_open_dependencies
  check_issue_eligibility_iff forge body cache = ground (
    arith,
    eligibility_iff forge (keep (is_open deps) (extract_dependencies deps body cache).0),
    AreClosed_iff (extract_dependencies deps body cache).0,
  )

  -- Once read, the dependencies of a body are settled: a later reading gives the same, whatever the agent would
  -- answer then, and leaves the cache.
  pub extract-extract :
      (later : EligibilityDeps) (body : String) (cache : Cache)
      → later.hash_body body ≡ deps.hash_body body
      → extract_dependencies later body (extract_dependencies deps body cache).1
        ≡ extract_dependencies deps body cache
  unfolding extract_dependencies lookup
  extract-extract later body cache e =
      ap
        (λ k.
          extracted later body (lookup k (extract_dependencies deps body cache).1)
            (extract_dependencies deps body cache).1)
        e
      ∙ elim (Option-cases (lookup (deps.hash_body body) cache)) [
        | inl miss ↦ rw miss (rw ((eq_iff (deps.hash_body body) (deps.hash_body body)).1 refl) refl)
        | inr (found, hit) ↦ rw hit (rw hit refl)
      ]

-- No number twice, and none that is zero.
abbrev pub IsNumberSet : List ℕ → Type 0
IsNumberSet [] = Unit
IsNumberSet (n ∷ ns) = (0 < n) × (any (λ m. m == n) ns ≡ false) × IsNumberSet ns

any-append_one :
    (n m : ℕ) (ns : List ℕ) → any (λ k. k == n) (ns ++ m ∷ []) ≡ (any (λ k. k == n) ns || m == n)
any-append_one n m [] = ground arith
any-append_one n m (k ∷ ns) = ground (arith, any-append_one n m ns)

append-IsNumberSet :
    (ns : List ℕ) (n : ℕ)
    → IsNumberSet ns
    → 0 < n
    → any (λ m. m == n) ns ≡ false
    → IsNumberSet (ns ++ n ∷ [])
append-IsNumberSet [] n s p h = (p, refl, tt)
append-IsNumberSet (m ∷ ns) n s p h = ground (arith, append-IsNumberSet ns n, any-append_one m n ns)

add-IsNumberSet : (ns : List ℕ) (o : Option ℕ) → IsNumberSet ns → IsNumberSet (add_number ns o)
add-IsNumberSet ns none s = s
add-IsNumberSet ns (some n) s = ground (arith, append-IsNumberSet ns n)

collect-IsNumberSet :
    (at : String → Option ℕ) (ns : List ℕ) (s : String)
    → IsNumberSet ns
    → IsNumberSet (collect at ns s)
unfolding collect
collect-IsNumberSet at ns String.[] h = h
collect-IsNumberSet at ns (String.◌∷◌ c s) h =
    collect-IsNumberSet at (add_number ns (at (String.◌∷◌ c s))) s
      (add-IsNumberSet ns (at (String.◌∷◌ c s)) h)

add_near-IsNumberSet :
    (near : Bool) (ns : List ℕ) (o : Option ℕ) → IsNumberSet ns → IsNumberSet (add_near near ns o)
add_near-IsNumberSet false ns o h = h
add_near-IsNumberSet true ns o h = add-IsNumberSet ns o h

collect_near-IsNumberSet :
    (before ns : List ℕ) (s : String) → IsNumberSet ns → IsNumberSet (collect_near before ns s)
unfolding collect_near
collect_near-IsNumberSet before ns String.[] h = h
collect_near-IsNumberSet before ns (String.◌∷◌ c s) h =
    collect_near-IsNumberSet (lower (code c) ∷ before)
      (add_near (has_keyword before) ns (ref_at (String.◌∷◌ c s))) s
      (add_near-IsNumberSet (has_keyword before) ns (ref_at (String.◌∷◌ c s)) h)

of_section-IsNumberSet : (o : Option String) → IsNumberSet (of_section o)
of_section-IsNumberSet none = tt
of_section-IsNumberSet (some rest) =
    collect-IsNumberSet url_at (collect ref_at [] (section_of true rest)) (section_of true rest)
      (collect-IsNumberSet ref_at [] (section_of true rest) tt)

-- Membership that survives more numbers.
abbrev Holds : ℕ → List ℕ → Type 0
Holds n ns = any (λ m. m == n) ns ≡ true

add-Holds : (n : ℕ) (ns : List ℕ) (o : Option ℕ) → Holds n ns → Holds n (add_number ns o)
add-Holds n ns none h = h
add-Holds n ns (some m) h = ground (arith, any-append_one n m ns)

add_near-Holds :
    (near : Bool) (n : ℕ) (ns : List ℕ) (o : Option ℕ) → Holds n ns → Holds n (add_near near ns o)
add_near-Holds false n ns o h = h
add_near-Holds true n ns o h = add-Holds n ns o h

collect_near-Holds :
    (before ns : List ℕ) (s : String) (n : ℕ) → Holds n ns → Holds n (collect_near before ns s)
unfolding collect_near
collect_near-Holds before ns String.[] n h = h
collect_near-Holds before ns (String.◌∷◌ c s) n h =
    collect_near-Holds (lower (code c) ∷ before)
      (add_near (has_keyword before) ns (ref_at (String.◌∷◌ c s))) s n
      (add_near-Holds (has_keyword before) n ns (ref_at (String.◌∷◌ c s)) h)

-- The numbers read off a body are positive and each stands once, and every number of the dependency section is among
-- them, wherever else the body names issues.
pub parse_keyword_proximity_lem :
    (body : String) (n : ℕ)
    → IsNumberSet (parse_keyword_proximity_dependencies body)
      × (any (λ m. m == n) (parse_dependencies body) ≡ true
          → any (λ m. m == n) (parse_keyword_proximity_dependencies body) ≡ true)
unfolding parse_keyword_proximity_dependencies parse_dependencies
parse_keyword_proximity_lem body n = (
  collect_near-IsNumberSet [] (of_section (find_heading true body)) body
      (of_section-IsNumberSet (find_heading true body)),
  collect_near-Holds [] (of_section (find_heading true body)) body n,
)
