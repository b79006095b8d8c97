-- ===== src/Guard/Patterns.antt =====
-- How a pattern is compared with a line, and a path with a rule. Case folds over ASCII.
use Prim.Native.Char.{code}
use ai_dev_workflow.Prelude.{
  Bool, true, false, ◌&&◌, ◌||◌, not, Option, none, some, List, [], ◌∷◌, ℕ, zero, suc, ◌+◌, ◌-◌,
  String, ◌==◌, number_eq, text_eq, if◌then◌else◌, any, length, split, lower, is_space,
}
use ai_dev_workflow.Guard.Table.{
  Part, lit, any_text, one_character, PathScope, base_name_scope, repo_path_scope,
  ProtectedPathRule,
}

-- `normalise`: without white space and in lower case, as code points.
unfoldable pub normalise : String → List ℕ
unfolding lower
normalise String.[] = []
normalise (String.◌∷◌ c s) =
    let rest = normalise s in if is_space (code c) then rest else lower (code c) ∷ rest

abbrev pub begins : List ℕ → List ℕ → Bool
begins s [] = true
begins [] (d ∷ t) = false
begins (c ∷ s) (d ∷ t) = c == d && begins s t

-- `line.split(needle).length - 1`; the first argument counts the characters of a hit still to be passed.
unfoldable pub hits : ℕ → List ℕ → List ℕ → ℕ
hits skip needle [] = 0
hits (suc skip) needle (c ∷ line) = hits skip needle line
hits zero needle (c ∷ line) =
    let behind = hits (length needle - 1) needle line in
    let next = hits zero needle line in if begins (c ∷ line) needle then suc behind else next

abbrev pub sum_hits : List ℕ → List (List ℕ) → ℕ
sum_hits needle [] = 0
sum_hits needle (line ∷ lines) = hits 0 needle line + sum_hits needle lines

-- `occurrences`, for the normalised pattern.
abbrev pub occurrences_of : List (List ℕ) → List ℕ → ℕ
occurrences_of lines [] = 0
occurrences_of lines (c ∷ needle) = sum_hits (c ∷ needle) lines

unfoldable pub occurrences : List (List ℕ) → String → ℕ
unfolding normalise hits
occurrences normalised_lines pattern = occurrences_of normalised_lines (normalise pattern)

-- The text behind a literal, read without case.
abbrev pub after_literal : String → String → Option String
after_literal s String.[] = some s
after_literal String.[] (String.◌∷◌ d t) = none
after_literal (String.◌∷◌ c s) (String.◌∷◌ d t) =
    if lower (code c) == lower (code d) then after_literal s t else none

-- The characters that a dot does not match.
abbrev pub is_line_terminator : ℕ → Bool
is_line_terminator n = n == 10 || n == 13 || n == 8232 || n == 8233

-- A whole text against the parts of one alternative.
unfoldable pub match_parts : List Part → String → Bool
unfolding lower
match_parts [] String.[] = true
match_parts [] (String.◌∷◌ c s) = false
match_parts (lit t ∷ ps) s = elim (after_literal s t) [
  | none ↦ false
  | some rest ↦ match_parts ps rest
]
match_parts (one_character ∷ ps) String.[] = false
match_parts (one_character ∷ ps) (String.◌∷◌ c s) =
    not (is_line_terminator (code c)) && match_parts ps s
match_parts (any_text ∷ ps) String.[] = match_parts ps ""
match_parts (any_text ∷ ps) (String.◌∷◌ c s) =
    match_parts ps (String.◌∷◌ c s)
    || (not (is_line_terminator (code c)) && match_parts (any_text ∷ ps) s)

-- The last component that is not empty: `posix.basename`.
abbrev pub last_component : List String → String
last_component [] = ""
last_component (p ∷ ps) = let rest = last_component ps in if rest == "" then p else rest

unfoldable pub base_name : String → String
unfolding split
base_name path = last_component (split b'/' path)

abbrev pub tested_text : PathScope → String → String
tested_text base_name_scope path = base_name path
tested_text repo_path_scope path = path

-- `isProtectedBy`
unfoldable pub is_protected_by : ProtectedPathRule → String → Bool
unfolding match_parts base_name
is_protected_by rule path = any (λ ps. match_parts ps (tested_text rule.scope path)) rule.matches
