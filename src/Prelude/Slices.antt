-- ===== src/Prelude/Slices.antt =====
-- The slices of a text: `slice` behind a prefix, by length, at a substring and by white space.
use Prim.Native.Nat.{ℕ, zero, suc, ◌/◌, ◌%◌}
use Prim.Native.String.{String}
use Prim.Native.Char.{Char, code}
use mathlib.Core.Path.{◌≡◌, refl}
use mathlib.Core.Bool.{Bool, false, ◌||◌}
use mathlib.Core.Option.{Option, none, some}
use mathlib.Core.List.{List, [], ◌∷◌}
use native.Mathlib.Omega.{arith}
use ai_dev_workflow.Prelude.Tests.{◌==◌, if◌then◌else◌, number_eq, get_or, ltb}
use ai_dev_workflow.Prelude.Texts.{split}

-- `a + b` on texts
abbrev pub join : String → String → String
join String.[] t = t
join (String.◌∷◌ c s) t = String.◌∷◌ c (join s t)

-- `s.slice(t.length)` where `s.startsWith(t)`
abbrev pub after : String → String → Option String
after s String.[] = some s
after String.[] (String.◌∷◌ d t) = none
after (String.◌∷◌ c s) (String.◌∷◌ d t) = if code c == code d then after s t else none

abbrev pub strip_prefix : String → String → String
strip_prefix s t = get_or (after s t) s

abbrev pub text_length : String → ℕ
text_length String.[] = 0
text_length (String.◌∷◌ c s) = suc (text_length s)

-- `s.slice(0, n)` and `s.slice(n)`
abbrev pub take_text : ℕ → String → String
take_text zero s = ""
take_text (suc n) String.[] = ""
take_text (suc n) (String.◌∷◌ c s) = String.◌∷◌ c (take_text n s)

abbrev pub drop_text : ℕ → String → String
drop_text zero s = s
drop_text (suc n) String.[] = ""
drop_text (suc n) (String.◌∷◌ c s) = drop_text n s

abbrev pub has_code : ℕ → String → Bool
has_code n String.[] = false
has_code n (String.◌∷◌ c s) = code c == n || has_code n s

-- The white space of `trim`, below code 256.
abbrev pub is_space : ℕ → Bool
is_space n = n == 32 || n == 9 || n == 10 || n == 11 || n == 12 || n == 13 || n == 160

abbrev pub trim_start : String → String
trim_start String.[] = ""
trim_start (String.◌∷◌ c s) = if is_space (code c) then trim_start s else String.◌∷◌ c s

abbrev pub push_unless_blank : Char → String → String
push_unless_blank c String.[] = if is_space (code c) then "" else String.◌∷◌ c ""
push_unless_blank c (String.◌∷◌ d t) = String.◌∷◌ c (String.◌∷◌ d t)

abbrev pub trim_end : String → String
trim_end String.[] = ""
trim_end (String.◌∷◌ c s) = push_unless_blank c (trim_end s)

abbrev pub trim : String → String
trim s = trim_start (trim_end s)

abbrev digit : ℕ → String
digit zero = "0"
digit (suc zero) = "1"
digit (suc (suc zero)) = "2"
digit (suc (suc (suc zero))) = "3"
digit (suc (suc (suc (suc zero)))) = "4"
digit (suc (suc (suc (suc (suc zero))))) = "5"
digit (suc (suc (suc (suc (suc (suc zero)))))) = "6"
digit (suc (suc (suc (suc (suc (suc (suc zero))))))) = "7"
digit (suc (suc (suc (suc (suc (suc (suc (suc zero)))))))) = "8"
digit (suc (suc (suc (suc (suc (suc (suc (suc (suc n))))))))) = "9"

-- A number in decimal, on fuel: a number has no more digits than its value and one.
unfoldable pub digits : ℕ → ℕ → String
digits zero n = ""
digits (suc fuel) n =
    let front = digits fuel (n / 10) in if ltb n 10 then digit n else join front (digit (n % 10))

-- `String(n)`
unfoldable pub decimal : ℕ → String
unfolding digits
decimal n = digits (suc n) n

-- `lines.join('\n')`
unfoldable pub unlines : List String → String
unlines [] = ""
unlines (l ∷ []) = l
unlines (l ∷ m ∷ ls) = join l (String.◌∷◌ "\n" (unlines (m ∷ ls)))

abbrev pub IsLine : String → Type 0
IsLine s = has_code 10 s ≡ false

pub split-join :
    (l rest : String) → IsLine l → split 10 (join l (String.◌∷◌ "\n" rest)) ≡ l ∷ split 10 rest
unfolding split
split-join String.[] rest h = refl
split-join (String.◌∷◌ c s) rest h = ground (arith, split-join s rest)

pub split-line : (l : String) → IsLine l → split 10 l ≡ l ∷ []
unfolding split
split-line String.[] h = refl
split-line (String.◌∷◌ c s) h = ground (arith, split-line s)

abbrev pub AreLines : List String → Type 0
AreLines [] = Unit
AreLines (l ∷ ls) = IsLine l × AreLines ls

-- A text is split into the lines that it was joined from.
pub split-unlines :
    (l : String) (ls : List String) → AreLines (l ∷ ls) → split 10 (unlines (l ∷ ls)) ≡ l ∷ ls
unfolding unlines
split-unlines l [] (h, hs) = split-line l h
split-unlines l (m ∷ ls) (h, hs) =
    rw (split-join l (unlines (m ∷ ls)) h, split-unlines m ls hs) refl
