-- ===== src/Eligibility/Parse.antt =====
-- `parseDependencies` and `parseKeywordProximityDependencies`: the issues that a body names as its blockers. A body is
-- read by its characters; a line begins behind a line feed.
use Prim.Native.Char.{code}
use ai_dev_workflow.Prelude.{
  Bool, true, false, ◌&&◌, ◌||◌, Option, none, some, List, [], ◌∷◌, ◌++◌, ℕ, zero, suc, ◌+◌, ◌-◌,
  ◌*◌, String, ◌==◌, number_eq, if◌then◌else◌, any, leb, lower, codes, after,
}

abbrev pub is_digit : ℕ → Bool
is_digit n = leb b'0' n && leb n b'9'

-- `\d+` at the start of a text, as a number.
unfoldable pub digits_from : ℕ → String → ℕ
digits_from value String.[] = value
digits_from value (String.◌∷◌ c s) =
    let more = digits_from (value * 10 + (code c - b'0')) s in
    if is_digit (code c) then more else value

abbrev pub starts_with_digit : String → Bool
starts_with_digit String.[] = false
starts_with_digit (String.◌∷◌ c s) = is_digit (code c)

abbrev pub number_at : String → Option ℕ
number_at s = if starts_with_digit s then some (digits_from 0 s) else none

-- `#(\d+)` at a `#`
abbrev pub ref_at : String → Option ℕ
ref_at String.[] = none
ref_at (String.◌∷◌ c s) = if code c == b'#' then number_at s else none

-- `[^/]+/`: the text behind the slash that ends a segment which is not empty.
unfoldable pub behind_segment : Bool → String → Option String
behind_segment started String.[] = none
behind_segment started (String.◌∷◌ c s) =
    let more = behind_segment true s in
    if code c == b'/' then (if started then some s else none) else more

abbrev pub then_segment : Option String → Option String
then_segment none = none
then_segment (some s) = behind_segment false s

abbrev pub then_issue : Option String → Option ℕ
then_issue none = none
then_issue (some s) = elim (after s "issues/") [ none ↦ none | some rest ↦ number_at rest ]

-- `https://github.com/<owner>/<repo>/issues/<n>`
abbrev pub url_at : String → Option ℕ
url_at s = then_issue (then_segment (then_segment (after s "https://github.com/")))

-- `issueNumbers.add(num)`, for a number above zero; a set keeps the order of insertion.
abbrev pub add_number : List ℕ → Option ℕ → List ℕ
add_number ns none = ns
add_number ns (some n) = if n == 0 || any (λ m. m == n) ns then ns else ns ++ n ∷ []

-- The loop over `matchAll`: a number at each place where one is read.
unfoldable pub collect : (String → Option ℕ) → List ℕ → String → List ℕ
unfolding digits_from behind_segment
collect at ns String.[] = ns
collect at ns (String.◌∷◌ c s) = collect at (add_number ns (at (String.◌∷◌ c s))) s

-- The text behind a literal, read without case.
abbrev pub after_ignoring_case : String → String → Option String
after_ignoring_case s String.[] = some s
after_ignoring_case String.[] (String.◌∷◌ d t) = none
after_ignoring_case (String.◌∷◌ c s) (String.◌∷◌ d t) =
    if lower (code c) == lower (code d) then after_ignoring_case s t else none

-- `\b` behind a letter: the end, or a character that is none of a word.
abbrev pub is_word : ℕ → Bool
is_word n = is_digit n || (leb b'a' n && leb n b'z') || (leb b'A' n && leb n b'Z') || n == b'_'

abbrev pub at_boundary : Option String → Option String
at_boundary none = none
at_boundary (some String.[]) = some ""
at_boundary (some (String.◌∷◌ c s)) = if is_word (code c) then none else some (String.◌∷◌ c s)

abbrev pub or_else : Option String → Option String → Option String
or_else none o = o
or_else (some s) o = some s

-- `^## (?:dependencies|depends on|blocked by)\b`
abbrev pub heading_at : String → Option String
heading_at s = or_else (at_boundary (after_ignoring_case s "## dependencies")) (
    or_else (at_boundary (after_ignoring_case s "## depends on"))
      (at_boundary (after_ignoring_case s "## blocked by")))

-- The text behind the first such heading; the flag says whether a line begins here.
unfoldable pub find_heading : Bool → String → Option String
unfolding lower
find_heading line_start String.[] = none
find_heading line_start (String.◌∷◌ c s) =
    let later = find_heading (code c == 10) s in
    if line_start
    then elim (heading_at (String.◌∷◌ c s)) [ some rest ↦ some rest | none ↦ later ]
    else later

-- The section: up to the next `## ` at the start of a line. What stands behind a heading is sliced off, and its
-- first character then counts as a line's first.
unfoldable pub section_of : Bool → String → String
section_of line_start String.[] = ""
section_of line_start (String.◌∷◌ c s) =
    let more = String.◌∷◌ c (section_of (code c == 10) s) in
    if line_start
    then elim (after (String.◌∷◌ c s) "## ") [ some rest ↦ "" | none ↦ more ]
    else more

abbrev pub of_section : Option String → List ℕ
of_section none = []
of_section (some rest) =
    collect url_at (collect ref_at [] (section_of true rest)) (section_of true rest)

-- `parseDependencies`
unfoldable pub parse_dependencies : String → List ℕ
unfolding collect find_heading section_of
parse_dependencies body = of_section (find_heading true body)

abbrev pub dependency_keywords : List String
dependency_keywords =
    "blocked by" ∷ "depends on" ∷ "requires" ∷ "prerequisite" ∷ "waiting on" ∷ "after" ∷ []

abbrev pub begins_codes : List ℕ → List ℕ → Bool
begins_codes s [] = true
begins_codes [] (d ∷ t) = false
begins_codes (c ∷ s) (d ∷ t) = c == d && begins_codes s t

-- Some place of the text reads as the second one.
unfoldable pub includes : List ℕ → List ℕ → Bool
includes [] t = begins_codes [] t
includes (c ∷ s) t = begins_codes (c ∷ s) t || includes s t

abbrev pub take_codes : ℕ → List ℕ → List ℕ
take_codes zero s = []
take_codes (suc n) [] = []
take_codes (suc n) (c ∷ s) = c ∷ take_codes n s

abbrev pub reversed : List ℕ → List ℕ → List ℕ
reversed out [] = out
reversed out (c ∷ s) = reversed (c ∷ out) s

-- A keyword within the 80 characters before; they are held backwards, in lower case.
abbrev pub has_keyword : List ℕ → Bool
has_keyword before =
    any (λ kw. includes (reversed [] (take_codes 80 before)) (codes kw)) dependency_keywords

abbrev pub add_near : Bool → List ℕ → Option ℕ → List ℕ
add_near near ns o = if near then add_number ns o else ns

unfoldable pub collect_near : List ℕ → List ℕ → String → List ℕ
unfolding digits_from includes lower
collect_near before ns String.[] = ns
collect_near before ns (String.◌∷◌ c s) =
    collect_near (lower (code c) ∷ before)
      (add_near (has_keyword before) ns (ref_at (String.◌∷◌ c s))) s

-- `parseKeywordProximityDependencies`
unfoldable pub parse_keyword_proximity_dependencies : String → List ℕ
unfolding parse_dependencies collect_near
parse_keyword_proximity_dependencies body = collect_near [] (parse_dependencies body) body

-- `(issueBody.match(/#\d+/g) ?? []).length`
unfoldable pub count_refs : String → ℕ
unfolding digits_from
count_refs String.[] = 0
count_refs (String.◌∷◌ c s) =
    (elim (ref_at (String.◌∷◌ c s)) [ none ↦ 0 | some n ↦ 1 ]) + count_refs s
