-- ===== src/Guard/Covers.antt =====
-- Every framework pattern reads like one that the configuration keeps.
use ai_dev_workflow.Prelude.{
  ◌≡◌, refl, sym, ap, ◌∙◌, ◌⊎◌, inl, inr, Bool, true, false, none, List, [], ◌∷◌, ◌++◌, map, ℕ,
  String, ◌==◌, number_eq, list_eq, list_beq_iff, number_beq_iff, keep, any, find, In, Bool-cases,
  arith, zero, suc,
}
use mathlib.Core.Path.{subst}
use ai_dev_workflow.Guard.Table.{
  StackLanguage, javascript, python, go, rust, ruby, jvm, framework_suppression_patterns,
}
use ai_dev_workflow.Guard.Patterns.{normalise}
use ai_dev_workflow.Guard.Defs.{
  GuardPattern, language_index, once, framework_pattern, patterns_of, framework_patterns, seen_key,
  without_duplicates,
}

module _ {A : Type 0} where
  pub append-eq-nil : (xs ys : List A) → xs ++ ys ≡ [] → (xs ≡ []) × (ys ≡ [])
  append-eq-nil [] ys h = (refl, h)
  append-eq-nil (x ∷ xs) ys h = cc

  pub keep-eq-nil : (p : A → Bool) (xs : List A) (a : A) → keep p xs ≡ [] → In a xs → p a ≡ false
  keep-eq-nil p [] a h i = absurd i
  keep-eq-nil p (x ∷ xs) a h (inl e) = ground (arith, ap p e)
  keep-eq-nil p (x ∷ xs) a h (inr i) = ground (arith, keep-eq-nil p xs a)

  pub find-eq-none : (p : A → Bool) (xs : List A) (a : A) → find p xs ≡ none → In a xs → p a ≡ false
  find-eq-none p [] a h i = absurd i
  find-eq-none p (x ∷ xs) a h (inl e) = ground (arith, ap p e)
  find-eq-none p (x ∷ xs) a h (inr i) = ground (arith, find-eq-none p xs a)

  pub In-append_left : (a : A) (xs ys : List A) → In a xs → In a (xs ++ ys)
  In-append_left a [] ys i = absurd i
  In-append_left a (x ∷ xs) ys (inl e) = inl e
  In-append_left a (x ∷ xs) ys (inr i) = inr (In-append_left a xs ys i)

  pub In-append_right : (a : A) (xs ys : List A) → In a ys → In a (xs ++ ys)
  In-append_right a [] ys i = i
  In-append_right a (x ∷ xs) ys i = inr (In-append_right a xs ys i)

  pub In-map : {B : Type 0} (f : B → A) (b : B) (bs : List B) → In b bs → In (f b) (map f bs)
  In-map f b [] i = absurd i
  In-map f b (c ∷ bs) (inl e) = inl (ap f e)
  In-map f b (c ∷ bs) (inr i) = inr (In-map f b bs i)

pub map-eq-nil : {A B : Type 0} (f : A → B) (xs : List A) → map f xs ≡ [] → xs ≡ []
map-eq-nil f [] h = refl
map-eq-nil f (x ∷ xs) h = cc

-- Some pattern that is kept reads like this one.
abbrev pub Covered : List GuardPattern → List ℕ → Type 0
Covered ps key = (q : GuardPattern) × In q ps × (normalise q.pattern ≡ key)

-- What was seen before a pattern or with it, was seen before it or reads like it.
widen :
    (seen : List (List ℕ)) (x : GuardPattern) (rest : List GuardPattern) (key : List ℕ)
    → (seen_key (normalise x.pattern ∷ seen) key ≡ true) ⊎ Covered rest key
    → (seen_key seen key ≡ true) ⊎ Covered (x ∷ rest) key
widen seen x rest key (inr (q, i, e)) = inr (q, inr i, e)
widen seen x rest key (inl h) = elim (Bool-cases (seen_key seen key)) [
  | inl old ↦ inl old
  | inr new ↦ inr (x, inl refl, ground (arith, list_beq_iff (normalise x.pattern) key))
]

-- Every pattern is kept, reads like one that is kept or was seen, or reads as nothing.
pub IsCovered-cases :
    (seen : List (List ℕ)) (ps : List GuardPattern) (p : GuardPattern)
    → In p ps
    → (seen_key seen (normalise p.pattern) ≡ true)
      ⊎ Covered (without_duplicates seen ps) (normalise p.pattern)
unfolding without_duplicates
IsCovered-cases seen [] p i = absurd i
IsCovered-cases seen (x ∷ ps) p (inl e) =
    let same = ap (λ (y : GuardPattern). normalise y.pattern) e in
    elim (Bool-cases (seen_key seen (normalise x.pattern))) [
      | inl old ↦ inl (ap (seen_key seen) same ∙ old)
      | inr new ↦ rw new (inr (x, inl refl, sym same))
    ]
IsCovered-cases seen (x ∷ ps) p (inr i) = elim (Bool-cases (seen_key seen (normalise x.pattern))) [
  | inl old ↦ rw old (IsCovered-cases seen ps p i)
  | inr new ↦ rw new (
      widen seen x (without_duplicates (normalise x.pattern ∷ seen) ps) (normalise p.pattern)
        (IsCovered-cases (normalise x.pattern ∷ seen) ps p i))
]

abbrev of_index : ℕ → StackLanguage
of_index zero = javascript
of_index (suc zero) = python
of_index (suc (suc zero)) = go
of_index (suc (suc (suc zero))) = rust
of_index (suc (suc (suc (suc zero)))) = ruby
of_index (suc (suc (suc (suc (suc n))))) = jvm

of_index_lem : (l : StackLanguage) → of_index (language_index l) ≡ l
of_index_lem javascript = refl
of_index_lem python = refl
of_index_lem go = refl
of_index_lem rust = refl
of_index_lem ruby = refl
of_index_lem jvm = refl

index_injective : (l m : StackLanguage) → language_index l ≡ language_index m → l ≡ m
index_injective l m e = sym (of_index_lem l) ∙ ap of_index e ∙ of_index_lem m

abbrev Seen : List ℕ → StackLanguage → Type 0
Seen seen l = any (λ n. n == language_index l) seen ≡ true

once_widen :
    (seen : List ℕ) (m l : StackLanguage) (rest : List StackLanguage)
    → Seen (language_index m ∷ seen) l ⊎ In l rest
    → Seen seen l ⊎ In l (m ∷ rest)
once_widen seen m l rest (inr i) = inr (inr i)
once_widen seen m l rest (inl h) = elim (Bool-cases (language_index m == language_index l)) [
  | inl same ↦ inr (
      inl
        (index_injective l m (sym ((number_beq_iff (language_index m) (language_index l)).0 same))))
  | inr other ↦ inl (ground (arith, other, h))
]

-- Every language is kept, or was seen.
once-In :
    (seen : List ℕ) (ls : List StackLanguage) (l : StackLanguage)
    → In l ls
    → Seen seen l ⊎ In l (once seen ls)
unfolding once
once-In seen [] l i = absurd i
once-In seen (m ∷ ls) l (inl e) = elim (Bool-cases (any (λ n. n == language_index m) seen)) [
  | inl old ↦ inl (ap (λ k. any (λ n. n == language_index k) seen) e ∙ old)
  | inr new ↦ rw new (inr (inl e))
]
once-In seen (m ∷ ls) l (inr i) = elim (Bool-cases (any (λ n. n == language_index m) seen)) [
  | inl old ↦ rw old (once-In seen ls l i)
  | inr new ↦ rw new (
      once_widen seen m l (once (language_index m ∷ seen) ls)
        (once-In (language_index m ∷ seen) ls l i))
]

patterns_of-In :
    (ls : List StackLanguage) (l : StackLanguage) (p : String)
    → In l ls
    → In p (framework_suppression_patterns l)
    → In (framework_pattern l p) (patterns_of ls)
patterns_of-In [] l p i j = absurd i
patterns_of-In (m ∷ ls) l p (inl e) j =
    In-append_left _ (map (framework_pattern m) (framework_suppression_patterns m)) (patterns_of ls)
      (subst
        (λ k.
          In (framework_pattern l p) (map (framework_pattern k) (framework_suppression_patterns k)))
        e (In-map (framework_pattern l) p (framework_suppression_patterns l) j))
patterns_of-In (m ∷ ls) l p (inr i) j =
    In-append_right _ (map (framework_pattern m) (framework_suppression_patterns m))
      (patterns_of ls) (patterns_of-In ls l p i j)

pub framework_patterns-In :
    (ls : List StackLanguage) (l : StackLanguage) (p : String)
    → In l ls
    → In p (framework_suppression_patterns l)
    → In (framework_pattern l p) (framework_patterns ls)
unfolding framework_patterns
framework_patterns-In ls l p i j = elim (once-In [] ls l i) [
  | inl seen ↦ absurd (cc seen)
  | inr k ↦ patterns_of-In (once [] ls) l p k j
]
