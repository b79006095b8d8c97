-- ===== src/Cron/Deferral.antt =====
-- What the region-overlap pass of `filterEligibleIssues` defers and what it keeps.
use ai_dev_workflow.Prelude.{
  ◌≡◌, refl, sym, ap, ◌∙◌, ◌⊎◌, ◌↔◌, inl, inr, Bool, false, List, [], ◌∷◌, map, ℕ, ◌==◌, number_eq,
  any, In, arith,
}
use mathlib.Core.Path.{subst}
use ai_dev_workflow.Cron.Overlap.{
  RegionSignal, SerializationDecision, proceed, serialize_behind, decide_serialization,
}
use ai_dev_workflow.Cron.Filter.{
  EligibleIssue, OverlapDeferral, insert_by_age, sort_by_age, siblings_of, push_deferral,
  deferrals_of,
}

insert-In :
    (e x : EligibleIssue) (xs : List EligibleIssue)
    → In x (insert_by_age e xs) ↔ ((x ≡ e) ⊎ In x xs)
unfolding insert_by_age
insert-In e x [] = ground arith
insert-In e x (y ∷ ys) = ground (arith, insert-In e x ys)

pub sort-In : (x : EligibleIssue) (xs : List EligibleIssue) → In x (sort_by_age xs) ↔ In x xs
unfolding sort_by_age
sort-In x [] = ground arith
sort-In x (y ∷ ys) = ground (arith, sort-In x ys, insert-In y x (sort_by_age ys))

pub In-map : {A B : Type 0} (f : A → B) (x : A) (xs : List A) → In x xs → In (f x) (map f xs)
In-map f x [] i = absurd i
In-map f x (y ∷ ys) (inl e) = inl (ap f e)
In-map f x (y ∷ ys) (inr i) = inr (In-map f x ys i)

pub of_In-map :
    {A B : Type 0} (f : A → B) (y : B) (xs : List A)
    → In y (map f xs)
    → (x : A) × In x xs × (y ≡ f x)
of_In-map f y [] i = absurd i
of_In-map f y (x ∷ xs) (inl e) = (x, inl refl, e)
of_In-map f y (x ∷ xs) (inr i) = let (x', j, e) = of_In-map f y xs i in (x', inr j, e)

-- A deferral records the decision of one signal.
pub record IsDecision (all : List RegionSignal) (s : RegionSignal) (d : OverlapDeferral)
    : Type 0 where
  pub number : s.issue_number ≡ d.issue_number
  pub decision :
      decide_serialization s (siblings_of all s) ≡ serialize_behind d.blocked_by d.overlap_paths

module _ (all : List RegionSignal) where
  push-IsDecision :
      (s : RegionSignal) (v : SerializationDecision) (rest : List OverlapDeferral)
      (d : OverlapDeferral)
      → decide_serialization s (siblings_of all s) ≡ v
      → In d (push_deferral s v rest)
      → IsDecision all s d ⊎ In d rest
  push-IsDecision s proceed rest d e i = inr i
  push-IsDecision s (serialize_behind n ps) rest d e (inl same) = inl (record {
    number = ap (λ (x : OverlapDeferral). x.issue_number) (sym same);
    decision =
        e ∙ ap (λ (x : OverlapDeferral). serialize_behind x.blocked_by x.overlap_paths) (sym same);
  })
  push-IsDecision s (serialize_behind n ps) rest d e (inr i) = inr i

  pub deferrals-IsDecision :
      (ss : List RegionSignal) (d : OverlapDeferral)
      → In d (deferrals_of all ss)
      → (s : RegionSignal) × In s ss × IsDecision all s d
  unfolding deferrals_of
  deferrals-IsDecision [] d i = absurd i
  deferrals-IsDecision (s ∷ ss) d i =
      elim (push-IsDecision s (decide_serialization s (siblings_of all s)) (deferrals_of all ss) d
        refl i) [
          | inl h ↦ (s, inl refl, h)
          | inr j ↦ let (t, k, h) = deferrals-IsDecision ss d j in (t, inr k, h)
        ]

  -- A signal whose number is on no deferral proceeds.
  abbrev pub is_numbered : ℕ → List OverlapDeferral → Bool
  is_numbered n ds = any (λ (d : OverlapDeferral). d.issue_number == n) ds

  push-proceeds :
      (s : RegionSignal) (v : SerializationDecision) (rest : List OverlapDeferral)
      → is_numbered s.issue_number (push_deferral s v rest) ≡ false
      → v ≡ proceed
  push-proceeds s proceed rest h = refl
  push-proceeds s (serialize_behind n ps) rest h = absurd (ground arith)

  push-rest :
      (s : RegionSignal) (v : SerializationDecision) (rest : List OverlapDeferral) (n : ℕ)
      → is_numbered n (push_deferral s v rest) ≡ false
      → is_numbered n rest ≡ false
  push-rest s proceed rest n h = h
  push-rest s (serialize_behind m ps) rest n h = ground arith

  pub deferrals-proceed :
      (ss : List RegionSignal) (s : RegionSignal)
      → In s ss
      → is_numbered s.issue_number (deferrals_of all ss) ≡ false
      → decide_serialization s (siblings_of all s) ≡ proceed
  unfolding deferrals_of
  deferrals-proceed [] s i h = absurd i
  deferrals-proceed (t ∷ ts) s (inl e) h =
      subst (λ x. decide_serialization x (siblings_of all x) ≡ proceed) (sym e)
        (push-proceeds t (decide_serialization t (siblings_of all t)) (deferrals_of all ts) (
          subst
            (λ (x : RegionSignal). is_numbered x.issue_number (deferrals_of all (t ∷ ts)) ≡ false) e
            h))
  deferrals-proceed (t ∷ ts) s (inr i) h = deferrals-proceed ts s i (
      push-rest t (decide_serialization t (siblings_of all t)) (deferrals_of all ts) s.issue_number
        h)
