-- ===== src/Cron/Overlap.antt =====
-- adws/triggers/regionOverlap.ts: two issues that touch a common file are put one behind the other.
-- `parseRelevantFilesSection` is left to regular expressions; its result is an argument.
use ai_dev_workflow.Prelude.{
  Bool, true, false, not, ◌&&◌, ◌||◌, List, [], ◌∷◌, map, ℕ, String, ◌==◌, number_eq, list_eq,
  if◌then◌else◌, ◌++◌, keep, any, ltb, leb, codes, lower,
}

pub record RegionSignal : Type 0 where
  pub issue_number : ℕ
  pub paths : List String
  pub in_flight : Bool

-- `shared` holds the normalized paths, as code points.
pub data SerializationDecision : Type 0 where
  proceed : SerializationDecision
  serialize_behind : ℕ → List (List ℕ) → SerializationDecision

-- `trim` and the pattern `[`'"]` on ASCII.
abbrev is_space : ℕ → Bool
is_space c = c == 32 || (leb 9 c && leb c 13)

abbrev is_quote : ℕ → Bool
is_quote c = c == b'`' || c == b'\'' || c == b'"'

abbrev drop_while : (ℕ → Bool) → List ℕ → List ℕ
drop_while p [] = []
drop_while p (c ∷ s) = if p c then drop_while p s else c ∷ s

abbrev reverse_onto : List ℕ → List ℕ → List ℕ
reverse_onto [] acc = acc
reverse_onto (c ∷ s) acc = reverse_onto s (c ∷ acc)

abbrev strip : (ℕ → Bool) → List ℕ → List ℕ
strip p s = reverse_onto (drop_while p (reverse_onto (drop_while p s) [])) []

abbrev slash_of : ℕ → ℕ
slash_of c = if c == b'\\' then b'/' else c

-- `normalizePath`
unfoldable pub normalize_path : String → List ℕ
unfolding lower
normalize_path p =
    strip is_space (map lower (map slash_of (strip is_quote (strip is_space (codes p)))))

-- `pathsOverlap`: its `shared` and its `overlap`.
unfoldable pub shared_paths : List String → List String → List (List ℕ)
unfolding normalize_path
shared_paths a b =
    let norm_b = map normalize_path b in keep (λ p. any (λ q. q == p) norm_b) (map normalize_path a)

abbrev pub is_empty {ℓ} : {A : Type ℓ} → List A → Bool
is_empty [] = true
is_empty (x ∷ xs) = false

unfoldable pub paths_overlap : List String → List String → Bool
unfolding shared_paths
paths_overlap a b = not (is_empty (shared_paths a b))

-- `reduce((min, s) => s.issueNumber < min.issueNumber ? s : min, min)`
unfoldable pub lowest : RegionSignal → List RegionSignal → RegionSignal
lowest min [] = min
lowest min (s ∷ ss) = lowest (if ltb s.issue_number min.issue_number then s else min) ss

abbrev pub anchor_among : List RegionSignal → RegionSignal → List RegionSignal → RegionSignal
anchor_among [] candidate overlapping = lowest candidate overlapping
anchor_among (m ∷ ms) candidate overlapping = lowest m ms

-- The member of the cluster that goes first.
unfoldable pub anchor : RegionSignal → List RegionSignal → RegionSignal
unfolding lowest
anchor candidate overlapping =
    anchor_among (keep (λ (s : RegionSignal). s.in_flight) (candidate ∷ overlapping)) candidate
      overlapping

unfoldable pub is_overlapping : RegionSignal → RegionSignal → Bool
is_overlapping candidate s = not (is_empty s.paths) && paths_overlap candidate.paths s.paths

abbrev pub behind : RegionSignal → RegionSignal → SerializationDecision
behind candidate first =
    if first.issue_number == candidate.issue_number
    then proceed
    else serialize_behind first.issue_number (shared_paths candidate.paths first.paths)

abbrev pub decide_in_cluster : RegionSignal → List RegionSignal → SerializationDecision
decide_in_cluster candidate [] = proceed
decide_in_cluster candidate (s ∷ ss) = behind candidate (anchor candidate (s ∷ ss))

-- `decideSerialization`
unfoldable pub decide_serialization : RegionSignal → List RegionSignal → SerializationDecision
unfolding anchor is_overlapping
decide_serialization candidate siblings =
    if is_empty candidate.paths
    then proceed
    else decide_in_cluster candidate (keep (is_overlapping candidate) siblings)

-- `scanPostPlanOverlaps`: every pair of issues in flight, each pair once.
pub record InFlightIssue : Type 0 where
  pub issue_number : ℕ
  pub relevant_files : List String

pub record OrderingRecommendation : Type 0 where
  pub issue_a : ℕ
  pub issue_b : ℕ
  pub shared : List (List ℕ)

unfoldable pub recommend_with : InFlightIssue → List InFlightIssue → List OrderingRecommendation
unfolding paths_overlap
recommend_with a [] = []
recommend_with a (b ∷ bs) =
    let rest = recommend_with a bs in
    if paths_overlap a.relevant_files b.relevant_files
    then record {
      issue_a = a.issue_number;
      issue_b = b.issue_number;
      shared = shared_paths a.relevant_files b.relevant_files;
    }
      ∷ rest
    else rest

unfoldable pub scan_post_plan_overlaps : List InFlightIssue → List OrderingRecommendation
unfolding recommend_with
scan_post_plan_overlaps [] = []
scan_post_plan_overlaps (a ∷ bs) = recommend_with a bs ++ scan_post_plan_overlaps bs
