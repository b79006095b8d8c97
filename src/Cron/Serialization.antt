-- ===== src/Cron/Serialization.antt =====
-- Which of two overlapping issues waits.
use ai_dev_workflow.Prelude.{
  ◌≡◌, refl, sym, ap, ◌≢◌, ◌⊎◌, inl, inr, Bool, true, false, not, List, [], ◌∷◌, map, ℕ, ◌≤◌, ◌<◌,
  String, ◌==◌, number_eq, list_eq, keep, any, In, In-keep, In-keep_of, any-eq-true, any_of_In,
  Bool-cases, arith,
}
use mathlib.Core.Path.{subst}
use ai_dev_workflow.Cron.Overlap.{
  RegionSignal, proceed, serialize_behind, normalize_path, shared_paths, paths_overlap, is_empty,
  lowest, anchor_among, anchor, is_overlapping, behind, decide_in_cluster, decide_serialization,
}

pub lowest-In : (m : RegionSignal) (ss : List RegionSignal) → In (lowest m ss) (m ∷ ss)
unfolding lowest
lowest-In m [] = inl refl
lowest-In m (s ∷ ss) = ground (arith, lowest-In s ss, lowest-In m ss)

lowest_le_first :
    (m : RegionSignal) (ss : List RegionSignal) → (lowest m ss).issue_number ≤ m.issue_number
unfolding lowest
lowest_le_first m [] = omega arith
lowest_le_first m (s ∷ ss) = ground (arith, lowest_le_first s ss, lowest_le_first m ss)

pub lowest_le :
    (m s : RegionSignal) (ss : List RegionSignal)
    → In s (m ∷ ss)
    → (lowest m ss).issue_number ≤ s.issue_number
unfolding lowest
lowest_le m s ss (inl e) = rw e (lowest_le_first m ss)
lowest_le m s [] (inr i) = absurd i
lowest_le m s (t ∷ ss) (inr (inl e)) =
    ground (
      arith,
      ap (λ (x : RegionSignal). x.issue_number) e,
      lowest_le_first t ss,
      lowest_le_first m ss,
    )
lowest_le m s (t ∷ ss) (inr (inr i)) =
    ground (arith, lowest_le t s ss (inr i), lowest_le m s ss (inr i))

-- In flight comes before not in flight, and a smaller number before a greater one.
abbrev pub Precedes : RegionSignal → RegionSignal → Type 0
Precedes s t =
    ((s.in_flight ≡ true) × (t.in_flight ≡ false))
    ⊎ ((s.in_flight ≡ t.in_flight) × (s.issue_number < t.issue_number))

-- The anchor of a cluster is one of its members, and no member with another number precedes it.
record IsFirst (s : RegionSignal) (cluster : List RegionSignal) : Type 0 where
  member : In s cluster
  least : (t : RegionSignal) → In t cluster → s.issue_number ≢ t.issue_number → Precedes s t

module _ (candidate : RegionSignal) (overlapping : List RegionSignal) where
  abbrev flies : RegionSignal → Bool
  flies s = s.in_flight

  abbrev cluster : List RegionSignal
  cluster = candidate ∷ overlapping

  flying-In :
      (flying : List RegionSignal)
      → flying ≡ keep flies cluster
      → (t : RegionSignal) → In t cluster
      → (t.in_flight ≡ false) ⊎ ((t.in_flight ≡ true) × In t flying)
  flying-In flying e t i = elim (Bool-cases t.in_flight) [
    | inl up ↦ inr (up, subst (In t) (sym e) (In-keep_of flies cluster t i up))
    | inr down ↦ inl down
  ]

  anchor_among-IsFirst :
      (flying : List RegionSignal)
      → flying ≡ keep flies cluster
      → IsFirst (anchor_among flying candidate overlapping) cluster
  anchor_among-IsFirst [] e = record {
    member = lowest-In candidate overlapping;
    least = λ t i n. inr (
      ground (
        arith,
        flying-In [] e t i,
        flying-In [] e (lowest candidate overlapping) (lowest-In candidate overlapping),
      ),
      ground (arith, lowest_le candidate t overlapping i, n),
    );
  }
  anchor_among-IsFirst (m ∷ ms) e = record {
    member = (lowest_flying m ms e).0;
    least = λ t i n.
        ground (arith, (lowest_flying m ms e).1, flying-In (m ∷ ms) e t i, lowest_le m t ms, n);
  }
    where
      lowest_flying :
          (m : RegionSignal) (ms : List RegionSignal)
          → (m ∷ ms) ≡ keep flies cluster
          → In (lowest m ms) cluster × ((lowest m ms).in_flight ≡ true)
      lowest_flying m ms e =
          In-keep flies cluster (lowest m ms) (subst (In (lowest m ms)) e (lowest-In m ms))

  anchor-IsFirst : IsFirst (anchor candidate overlapping) cluster
  unfolding anchor
  anchor-IsFirst = anchor_among-IsFirst (keep flies cluster) refl

abbrev WaitsFor : RegionSignal → List RegionSignal → ℕ → List (List ℕ) → Type 0
WaitsFor candidate siblings n ps =
    (s : RegionSignal) × In s siblings
    × (s.issue_number ≡ n)
    × (paths_overlap candidate.paths s.paths ≡ true)
    × (ps ≡ shared_paths candidate.paths s.paths)
    × Precedes s candidate

module _ (candidate : RegionSignal) (siblings : List RegionSignal) (n : ℕ)
    (ps : List (List ℕ)) where
  overlapping-cases :
      (s : RegionSignal)
      → In s (keep (is_overlapping candidate) siblings)
      → In s siblings × (paths_overlap candidate.paths s.paths ≡ true)
  unfolding is_overlapping
  overlapping-cases s i = ground (arith, In-keep (is_overlapping candidate) siblings s i)

  behind-waits :
      (first : RegionSignal)
      → IsFirst first (candidate ∷ keep (is_overlapping candidate) siblings)
      → behind candidate first ≡ serialize_behind n ps
      → WaitsFor candidate siblings n ps
  behind-waits first f h = elim f.member [
    | inl e ↦ absurd (ground (arith, ap (λ (x : RegionSignal). x.issue_number) e))
    | inr i ↦ (
      first,
      (overlapping-cases first i).0,
      (differ f h).1,
      (overlapping-cases first i).1,
      (differ f h).2,
      f.least candidate (inl refl) (differ f h).0,
    )
  ]
    where
      differ :
          IsFirst first (candidate ∷ keep (is_overlapping candidate) siblings)
          → behind candidate first ≡ serialize_behind n ps
          → (first.issue_number ≢ candidate.issue_number)
            × (first.issue_number ≡ n)
            × (ps ≡ shared_paths candidate.paths first.paths)
      differ f h = (ground arith, ground arith, ground arith)

  cluster-waits :
      (overlapping : List RegionSignal)
      → overlapping ≡ keep (is_overlapping candidate) siblings
      → decide_in_cluster candidate overlapping ≡ serialize_behind n ps
      → WaitsFor candidate siblings n ps
  cluster-waits [] e h = absurd (ground arith)
  cluster-waits (t ∷ ts) e h =
      behind-waits (anchor candidate (t ∷ ts))
        (subst (λ os. IsFirst (anchor candidate (t ∷ ts)) (candidate ∷ os)) e
          (anchor-IsFirst candidate (t ∷ ts)))
        h

-- A candidate waits only for a sibling that touches a common file and precedes it: in flight before not in
-- flight, and a smaller number before a greater one. The paths of the decision are the shared ones.
pub decide-serialize_behind :
    (candidate : RegionSignal) (siblings : List RegionSignal) (n : ℕ) (ps : List (List ℕ))
    → decide_serialization candidate siblings ≡ serialize_behind n ps
    → (s : RegionSignal) × In s siblings
      × (s.issue_number ≡ n)
      × (paths_overlap candidate.paths s.paths ≡ true)
      × (ps ≡ shared_paths candidate.paths s.paths)
      × Precedes s candidate
unfolding decide_serialization
decide-serialize_behind candidate siblings n ps h = elim (Bool-cases (is_empty candidate.paths)) [
  | inl empty ↦ absurd (ground arith)
  | inr full ↦
      cluster-waits candidate siblings n ps (keep (is_overlapping candidate) siblings) refl
        (ground arith)
]

-- The other way round: a candidate that proceeds precedes every sibling that touches a common file, if no
-- sibling has the candidate's number.
pub decide-proceed :
    (candidate s : RegionSignal) (siblings : List RegionSignal)
    → ((t : RegionSignal) → In t siblings → t.issue_number ≢ candidate.issue_number)
    → decide_serialization candidate siblings ≡ proceed
    → In s siblings
    → is_empty candidate.paths ≡ false
    → is_overlapping candidate s ≡ true
    → Precedes candidate s
unfolding decide_serialization
decide-proceed candidate s siblings others h i full o =
    proceeds (keep (is_overlapping candidate) siblings)
      (λ t j. others t (In-keep (is_overlapping candidate) siblings t j).0)
      (In-keep_of (is_overlapping candidate) siblings s i o) (ground arith)
  where
    of_first :
        (first : RegionSignal) (os : List RegionSignal)
        → ((t : RegionSignal) → In t os → t.issue_number ≢ candidate.issue_number)
        → IsFirst first (candidate ∷ os)
        → In s os
        → behind candidate first ≡ proceed
        → Precedes candidate s
    of_first first os others f j g = elim f.member [
      | inl e ↦
          subst (λ x. Precedes x s) e
            (f.least s (inr j)
              (ground (arith, others s j, ap (λ (x : RegionSignal). x.issue_number) e)))
      | inr k ↦ absurd (ground (arith, others first k))
    ]

    proceeds :
        (os : List RegionSignal)
        → ((t : RegionSignal) → In t os → t.issue_number ≢ candidate.issue_number)
        → In s os
        → decide_in_cluster candidate os ≡ proceed
        → Precedes candidate s
    proceeds [] others j g = absurd j
    proceeds (t ∷ ts) others j g =
        of_first (anchor candidate (t ∷ ts)) (t ∷ ts) others (anchor-IsFirst candidate (t ∷ ts)) j g

module _ (a b : List String) where
  -- What it is for two lists of paths to overlap: a normalized path of both.
  abbrev Common : Type 0
  Common = (p : List ℕ) × In p (map normalize_path a) × In p (map normalize_path b)

  common_of : paths_overlap a b ≡ true → Common
  unfolding paths_overlap shared_paths
  common_of h =
      first (keep (λ p. any (λ q. q == p) (map normalize_path b)) (map normalize_path a)) refl
        (ground arith)
    where
      first :
          (ps : List (List ℕ))
          → ps ≡ keep (λ p. any (λ q. q == p) (map normalize_path b)) (map normalize_path a)
          → is_empty ps ≡ false
          → Common
      first [] e h = absurd (ground arith)
      first (p ∷ ps) e h =
          let (i, q) =
            In-keep (λ p. any (λ q. q == p) (map normalize_path b)) (map normalize_path a) p
              (subst (In p) e (inl refl)) in
          let (q', j, same) = any-eq-true (λ q. q == p) (map normalize_path b) q in
          (p, i, subst (λ x. In x (map normalize_path b)) ((list_eq.same_iff q' p).1 same) j)

  of_common : Common → paths_overlap a b ≡ true
  unfolding paths_overlap shared_paths
  of_common (p, i, j) =
      full p (keep (λ p. any (λ q. q == p) (map normalize_path b)) (map normalize_path a)) (
        In-keep_of (λ p. any (λ q. q == p) (map normalize_path b)) (map normalize_path a) p i
          (any_of_In (λ q. q == p) (map normalize_path b) p j ((list_eq.same_iff p p).0 refl)))
    where
      full : (p : List ℕ) (ps : List (List ℕ)) → In p ps → not (is_empty ps) ≡ true
      full p [] i = absurd i
      full p (q ∷ ps) i = refl

-- Overlap is symmetric.
pub paths_overlap_sym : (a b : List String) → paths_overlap a b ≡ true → paths_overlap b a ≡ true
paths_overlap_sym a b h = let (p, i, j) = common_of a b h in of_common b a (p, j, i)
