-- ===== src/Guard/Section.antt =====
-- `parseSuppressionPatternAdditions`: the entries of a repository's `## Suppression Patterns`.
use Prim.Native.Char.{Char, code}
use ai_dev_workflow.Prelude.{
  Bool, ◌&&◌, ◌||◌, not, List, map, ℕ, zero, suc, String, ◌==◌, number_eq, text_eq, if◌then◌else◌,
  keep, split, starts_with, eq_ignoring_case, is_space, trim, trim_start,
}

-- Where the reader of comments stands, and the characters of a marker still to be passed.
pub data CommentMode : Type 0 where
  outside inside : ℕ → CommentMode

-- `section.replace(HTML_COMMENT, '')`: up to the next `-->`, or to the end.
unfoldable pub strip_comments : CommentMode → String → String
strip_comments mode String.[] = ""
strip_comments (outside (suc n)) (String.◌∷◌ c s) = strip_comments (outside n) s
strip_comments (outside zero) (String.◌∷◌ c s) =
    let hidden = strip_comments (inside 3) s in
    let shown = String.◌∷◌ c (strip_comments (outside 0) s) in
    if starts_with (String.◌∷◌ c s) "<!--" then hidden else shown
strip_comments (inside (suc n)) (String.◌∷◌ c s) = strip_comments (inside n) s
strip_comments (inside zero) (String.◌∷◌ c s) =
    let ended = strip_comments (outside 2) s in
    let hidden = strip_comments (inside 0) s in
    if starts_with (String.◌∷◌ c s) "-->" then ended else hidden

abbrev pub is_fence : String → Bool
is_fence line = starts_with line "```" || starts_with line "~~~"

-- The text behind a bullet: white space, or the end.
abbrev pub behind_bullet : String → String → String
behind_bullet line String.[] = ""
behind_bullet line (String.◌∷◌ d s) = if is_space (code d) then trim_start s else line

abbrev pub is_bullet : ℕ → Bool
is_bullet n = n == b'-' || n == b'*' || n == b'+'

abbrev pub strip_list_marker : String → String
strip_list_marker String.[] = ""
strip_list_marker (String.◌∷◌ c s) =
    if is_bullet (code c) then behind_bullet (String.◌∷◌ c s) s else String.◌∷◌ c s

abbrev pub strip_leading_backticks : String → String
strip_leading_backticks String.[] = ""
strip_leading_backticks (String.◌∷◌ c s) =
    if code c == b'`' then strip_leading_backticks s else String.◌∷◌ c s

abbrev pub push_unless_backtick : Char → String → String
push_unless_backtick c String.[] = if code c == b'`' then "" else String.◌∷◌ c ""
push_unless_backtick c (String.◌∷◌ d t) = String.◌∷◌ c (String.◌∷◌ d t)

abbrev pub strip_trailing_backticks : String → String
strip_trailing_backticks String.[] = ""
strip_trailing_backticks (String.◌∷◌ c s) = push_unless_backtick c (strip_trailing_backticks s)

-- `entryOf`
unfoldable pub entry_of : String → String
entry_of line =
    trim (strip_trailing_backticks (strip_leading_backticks (strip_list_marker (trim line))))

abbrev pub is_entry : String → Bool
is_entry entry = not (entry == "") && not (eq_ignoring_case entry "n/a")

abbrev pub is_removal : String → Bool
is_removal entry = starts_with entry "!"

pub record Additions : Type 0 where
  pub added : List String
  pub ignored : List String

unfoldable pub section_entries : String → List String
unfolding strip_comments split entry_of eq_ignoring_case
section_entries section = keep is_entry (
    map entry_of (
      keep (λ line. not (is_fence (trim line))) (split b'\n' (strip_comments (outside 0) section))))

-- `parseSuppressionPatternAdditions`
unfoldable pub parse_suppression_pattern_additions : String → Additions
unfolding section_entries
parse_suppression_pattern_additions section =
    let entries = section_entries section in
    record { added = keep (λ e. not (is_removal e)) entries; ignored = keep is_removal entries }
