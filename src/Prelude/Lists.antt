-- ===== src/Prelude/Lists.antt =====
-- Lists measured by native numbers, and the array methods of the source, with their lemmas.
use Prim.Native.Nat.{ℕ, suc, ◌≤◌}
use mathlib.Core.Path.{◌≡◌, refl}
use mathlib.Core.Logic.{◌⊎◌, inl, inr, ◌↔◌}
use mathlib.Core.Bool.{Bool, true, false, ◌&&◌, ◌||◌}
use mathlib.Core.Option.{Option, none, some}
use mathlib.Core.List.{List, [], ◌∷◌}
use native.Mathlib.Omega.{arith}
use ai_dev_workflow.Prelude.Tests.{
  if◌then◌else◌, Bool-cases, number_beq, number_beq_iff, Comparable,
}

module _ {ℓ} {A : Type ℓ} where
  abbrev pub length : List A → ℕ
  length [] = 0
  length (x ∷ xs) = suc (length xs)

  -- `xs.filter(p)`
  abbrev pub keep : (A → Bool) → List A → List A
  keep p [] = []
  keep p (x ∷ xs) = let rest = keep p xs in if p x then x ∷ rest else rest

  -- `xs.some(p)`
  abbrev pub any : (A → Bool) → List A → Bool
  any p [] = false
  any p (x ∷ xs) = p x || any p xs

  -- `xs.every(p)`
  abbrev pub all : (A → Bool) → List A → Bool
  all p [] = true
  all p (x ∷ xs) = p x && all p xs

  -- `xs.find(p)`
  abbrev pub find : (A → Bool) → List A → Option A
  find p [] = none
  find p (x ∷ xs) = if p x then some x else find p xs

module _ {A : Type 0} where
  -- Membership with the place kept, which the tactics take apart.
  abbrev pub In : A → List A → Type 0
  In a [] = ⊥
  In a (x ∷ xs) = (a ≡ x) ⊎ In a xs

  abbrev pub All : (A → Type 0) → List A → Type 0
  All P [] = Unit
  All P (x ∷ xs) = P x × All P xs

  pub All-In : (P : A → Type 0) (xs : List A) → ((a : A) → In a xs → P a) → All P xs
  All-In P [] h = tt
  All-In P (x ∷ xs) h = (h x (inl refl), All-In P xs (λ a i. h a (inr i)))

  pub length-keep : (p : A → Bool) (xs : List A) → length (keep p xs) ≤ length xs
  length-keep p [] = omega arith
  length-keep p (x ∷ xs) = ground (arith, length-keep p xs)

  pub In-keep : (p : A → Bool) (xs : List A) (a : A) → In a (keep p xs) → In a xs × (p a ≡ true)
  In-keep p [] a h = absurd h
  In-keep p (x ∷ xs) a h = ground (arith, In-keep p xs a)

  pub In-keep_of : (p : A → Bool) (xs : List A) (a : A) → In a xs → p a ≡ true → In a (keep p xs)
  In-keep_of p [] a h e = absurd h
  In-keep_of p (x ∷ xs) a h e = ground (arith, In-keep_of p xs a)

  pub find-eq-some :
      (p : A → Bool) (xs : List A) (a : A) → find p xs ≡ some a → In a xs × (p a ≡ true)
  find-eq-some p [] a h = cc
  find-eq-some p (x ∷ xs) a h = ground (arith, find-eq-some p xs a)

  pub any-eq-true :
      (p : A → Bool) (xs : List A) → any p xs ≡ true → (a : A) × In a xs × (p a ≡ true)
  any-eq-true p [] h = cc
  any-eq-true p (x ∷ xs) h = elim (Bool-cases (p x)) [
    | inl e ↦ (x, inl refl, e)
    | inr e ↦ let (a, i, q) = any-eq-true p xs (ground arith) in (a, inr i, q)
  ]

  pub any_of_In : (p : A → Bool) (xs : List A) (a : A) → In a xs → p a ≡ true → any p xs ≡ true
  any_of_In p [] a h e = absurd h
  any_of_In p (x ∷ xs) a h e = ground (arith, any_of_In p xs a)

  pub all-eq-true : (p : A → Bool) (xs : List A) → all p xs ≡ true → (a : A) → In a xs → p a ≡ true
  all-eq-true p [] h a i = absurd i
  all-eq-true p (x ∷ xs) h a i = ground (arith, all-eq-true p xs (ground arith) a)

-- Lists of one length that agree at every place.
abbrev list_beq : List ℕ → List ℕ → Bool
list_beq [] [] = true
list_beq [] (y ∷ ys) = false
list_beq (x ∷ xs) [] = false
list_beq (x ∷ xs) (y ∷ ys) = number_beq x y && list_beq xs ys

pub list_beq_iff : (xs ys : List ℕ) → (xs ≡ ys) ↔ (list_beq xs ys ≡ true)
list_beq_iff [] [] = ground arith
list_beq_iff [] (y ∷ ys) = ground arith
list_beq_iff (x ∷ xs) [] = ground arith
list_beq_iff (x ∷ xs) (y ∷ ys) = ground (arith, list_beq_iff xs ys, number_beq_iff x y)

instance abbrev pub list_eq : Comparable (List ℕ)
list_eq = record { same = list_beq; same_iff = list_beq_iff }
