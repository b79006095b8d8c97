-- ===== src/Prelude/Tests.antt =====
-- Boolean tests on numbers and texts, one equality test by instances, and the conditional.
use Prim.Native.Nat.{ℕ, compare, Ordering}
use Prim.Native.String.{String}
use mathlib.Core.Path.{◌≡◌, refl, ap}
use mathlib.Core.Logic.{◌↔◌, ◌⊎◌, inl, inr}
use mathlib.Core.Bool.{Bool, true, false}
use mathlib.Core.Option.{Option, none, some}
use native.Mathlib.Omega.{arith}
use text.Mathlib.Text.{◌==◌ as text_beq}
use text.Mathlib.TextEquality.{eq_iff}

abbrev pub ltb : ℕ → ℕ → Bool
ltb a b = elim (compare a b) [ Ordering.lt ↦ true | _ ↦ false ]

abbrev pub leb : ℕ → ℕ → Bool
leb a b = elim (compare a b) [ Ordering.gt ↦ false | _ ↦ true ]

abbrev pub number_beq : ℕ → ℕ → Bool
number_beq a b = elim (compare a b) [ Ordering.eq ↦ true | _ ↦ false ]

infix 1 if◌then◌else◌
abbrev pub if◌then◌else◌ {ℓ} : {A : Type ℓ} → Bool → A → A → A
if true then x else y = x
if false then x else y = y

pub number_beq_iff : (a b : ℕ) → (number_beq a b ≡ true) ↔ (a ≡ b)
number_beq_iff a b = ground arith

abbrev swapped : {A B : Type 0} → A ↔ B → B ↔ A
swapped f = (f.1, f.0)

-- A type with a strict comparison that decides its paths: numbers, and texts below.
pub record Comparable {ℓ} (A : Type ℓ) : Type ℓ where
  pub same : A → A → Bool
  pub same_iff : (x y : A) → (x ≡ y) ↔ (same x y ≡ true)

instance abbrev pub number_eq : Comparable ℕ
number_eq = record { same = number_beq; same_iff = λ x y. swapped (number_beq_iff x y) }

instance abbrev pub text_eq : Comparable String
text_eq = record { same = text_beq; same_iff = λ x y. swapped (eq_iff x y) }

-- `===`
infix 50 ◌==◌
abbrev pub ◌==◌ {ℓ} : {A : Type ℓ} ⦃c : Comparable A⦄ (x y : A) → Bool
◌==◌ ⦃c⦄ x y = c.same x y

-- To split on a computed value and keep the equation.
pub Bool-cases : (b : Bool) → (b ≡ true) ⊎ (b ≡ false)
Bool-cases true = inl refl
Bool-cases false = inr refl

-- What holds of both branches under their tests, holds of the conditional.
pub if_rule {ℓ κ} :
    {A : Type ℓ} (P : A → Type κ) (b : Bool) (x y : A)
    → (b ≡ true → P x)
    → (b ≡ false → P y)
    → P (if b then x else y)
if_rule P true x y h k = h refl
if_rule P false x y h k = k refl

pub Option-cases {ℓ} : {A : Type ℓ} (o : Option A) → (o ≡ none) ⊎ ((a : A) × (o ≡ some a))
Option-cases none = inl refl
Option-cases (some a) = inr (a, refl)

-- `o ?? d`.
abbrev pub get_or {ℓ} : {A : Type ℓ} → Option A → A → A
get_or none d = d
get_or (some a) d = a

-- `o === x`, which fails for an undefined and for a null `o`.
abbrev pub is_some_of {ℓ} : {A : Type ℓ} ⦃c : Comparable A⦄ (o : Option A) → A → Bool
is_some_of none x = false
is_some_of ⦃c⦄ (some y) x = c.same y x

abbrev pub is_some {ℓ} : {A : Type ℓ} → Option A → Bool
is_some none = false
is_some (some a) = true

pub is_some_of_iff :
    {A : Type 0} ⦃c : Comparable A⦄ (o : Option A) (x : A) → (is_some_of o x ≡ true) ↔ (o ≡ some x)
is_some_of_iff none x = (λ h. cc, λ h. cc)
is_some_of_iff ⦃c⦄ (some y) x = (λ h. ap some ((c.same_iff y x).1 h), λ h. (c.same_iff y x).0 (cc))

-- Arithmetic with the two tests that decide equality: of texts, and of an option with a value.
pub ruleset tests = (arith, eq_iff, is_some_of_iff)
