-- ===== src/Prelude/Texts.antt =====
-- The text methods of the source: `endsWith`, `split` and comparison by `toLowerCase`.
use Prim.Native.Nat.{ℕ, ◌+◌}
use Prim.Native.String.{String}
use Prim.Native.Char.{Char, code}
use mathlib.Core.Path.{◌≡◌, refl}
use mathlib.Core.Bool.{Bool, true, false, ◌&&◌, ◌||◌}
use mathlib.Core.List.{List, [], ◌∷◌}
use native.Mathlib.Omega.{arith}
use ai_dev_workflow.Prelude.Tests.{◌==◌, leb, if◌then◌else◌, text_eq, number_eq}

-- `s.endsWith(t)`: some suffix of `s` is `t`.
abbrev pub ends_with : String → String → Bool
ends_with String.[] t = "" == t
ends_with (String.◌∷◌ c s) t = String.◌∷◌ c s == t || ends_with s t

-- The code points of a text.
abbrev pub codes : String → List ℕ
codes String.[] = []
codes (String.◌∷◌ c s) = code c ∷ codes s

-- `s.split(sep)` for a separator of one character, given by its code.
abbrev push_front : Char → List String → List String
push_front c [] = String.◌∷◌ c "" ∷ []
push_front c (p ∷ ps) = String.◌∷◌ c p ∷ ps

unfoldable pub split : ℕ → String → List String
split sep String.[] = "" ∷ []
split sep (String.◌∷◌ c s) =
    let rest = split sep s in if code c == sep then "" ∷ rest else push_front c rest

-- `toLowerCase` on an ASCII code; other codes are kept.
unfoldable pub lower : ℕ → ℕ
lower c = if leb b'A' c && leb c b'Z' then c + 32 else c

-- `a.toLowerCase() === b.toLowerCase()`
unfoldable pub eq_ignoring_case : String → String → Bool
unfolding lower
eq_ignoring_case String.[] String.[] = true
eq_ignoring_case String.[] (String.◌∷◌ d t) = false
eq_ignoring_case (String.◌∷◌ c s) String.[] = false
eq_ignoring_case (String.◌∷◌ c s) (String.◌∷◌ d t) =
    lower (code c) == lower (code d) && eq_ignoring_case s t

pub eq_ignoring_case_refl : (s : String) → eq_ignoring_case s s ≡ true
unfolding eq_ignoring_case
eq_ignoring_case_refl String.[] = refl
eq_ignoring_case_refl (String.◌∷◌ c s) = ground (arith, eq_ignoring_case_refl s)

pub eq_ignoring_case_sym :
    (s t : String) → eq_ignoring_case s t ≡ true → eq_ignoring_case t s ≡ true
unfolding eq_ignoring_case
eq_ignoring_case_sym String.[] String.[] h = refl
eq_ignoring_case_sym String.[] (String.◌∷◌ d t) h = cc
eq_ignoring_case_sym (String.◌∷◌ c s) String.[] h = cc
eq_ignoring_case_sym (String.◌∷◌ c s) (String.◌∷◌ d t) h = ground (arith, eq_ignoring_case_sym s t)

pub eq_ignoring_case_trans :
    (s t u : String)
    → eq_ignoring_case s t ≡ true
    → eq_ignoring_case t u ≡ true
    → eq_ignoring_case s u ≡ true
unfolding eq_ignoring_case
eq_ignoring_case_trans String.[] String.[] u h k = k
eq_ignoring_case_trans String.[] (String.◌∷◌ d t) u h k = cc
eq_ignoring_case_trans (String.◌∷◌ c s) String.[] u h k = cc
eq_ignoring_case_trans (String.◌∷◌ c s) (String.◌∷◌ d t) String.[] h k = cc
eq_ignoring_case_trans (String.◌∷◌ c s) (String.◌∷◌ d t) (String.◌∷◌ e u) h k =
    ground (arith, eq_ignoring_case_trans s t u)

-- `s.startsWith(t)`
abbrev pub starts_with : String → String → Bool
starts_with s String.[] = true
starts_with String.[] (String.◌∷◌ d t) = false
starts_with (String.◌∷◌ c s) (String.◌∷◌ d t) = code c == code d && starts_with s t
