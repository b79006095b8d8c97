-- ===== src/Diff/Defs.antt =====
-- The reader of `git diff`: one entry for each file, from its header lines and the lines of its hunks.
use Prim.Native.Char.{Char, code}
use ai_dev_workflow.Prelude.{
  Bool, true, false, ◌&&◌, ◌||◌, not, Option, none, some, List, [], ◌∷◌, ◌++◌, ℕ, ◌+◌, ◌-◌, ◌/◌,
  ◌%◌, String, ◌==◌, number_eq, text_eq, if◌then◌else◌, leb, split, ends_with, starts_with, after,
  strip_prefix, text_length, take_text, drop_text, has_code, trim_start,
}

pub record DiffFile : Type 0 where
  pub old_path : Option String
  pub new_path : Option String
  pub added_lines : List String
  pub removed_lines : List String

pub record FileUnderRead : Type 0 where
  pub old_path : Option String
  pub new_path : Option String
  pub added_lines : List String
  pub removed_lines : List String
  pub in_hunk : Bool

-- `QUOTED_ESCAPES`
unfoldable pub quoted_escape : ℕ → Option Char
quoted_escape c =
    if c == b'"'
    then some "\""
    else if c == b'\\'
    then some "\\"
    else if c == b't'
    then some "\t"
    else if c == b'n'
    then some "\n"
    else none

abbrev pub cons_value : Char → String × String → String × String
cons_value c (v, rest) = (String.◌∷◌ c v, rest)

-- `readQuoted` behind the opening quote: the value, and the text behind the closing quote.
unfoldable pub read_quoted : String → String × String
unfolding quoted_escape
read_quoted String.[] = ("", "")
read_quoted (String.◌∷◌ c String.[]) = if code c == b'"' then ("", "") else (String.◌∷◌ c "", "")
read_quoted (String.◌∷◌ c (String.◌∷◌ d s)) =
    let plain = cons_value c (read_quoted (String.◌∷◌ d s)) in
    let behind = read_quoted s in
    if code c == b'"'
    then ("", String.◌∷◌ d s)
    else if code c == b'\\'
    then elim (quoted_escape (code d)) [ none ↦ plain | some e ↦ cons_value e behind ]
    else plain

-- `raw.replace(/\t.*$/, '')`: the dot matches no line terminator.
abbrev pub has_terminator : String → Bool
has_terminator s = has_code 10 s || has_code 13 s || has_code 8232 s || has_code 8233 s

unfoldable pub cut_tab : String → String
cut_tab String.[] = ""
cut_tab (String.◌∷◌ c s) =
    if code c == 9 && not (has_terminator s) then "" else String.◌∷◌ c (cut_tab s)

-- The text behind an opening quote.
abbrev pub unquote : String → Option String
unquote s = after s "\""

abbrev pub header_text : String → Option String → String
header_text raw none = cut_tab raw
header_text raw (some quoted) = (read_quoted quoted).0

-- `readHeaderPath`
unfoldable pub read_header_path : String → String → Option String
unfolding read_quoted cut_tab
read_header_path raw prefix =
    let path = header_text raw (unquote raw) in
    if path == "/dev/null" then none else some (strip_prefix path prefix)

-- The text before the first ` b/`, and the text from its `b` on.
unfoldable pub split_at_new : String → Option (String × String)
split_at_new String.[] = none
split_at_new (String.◌∷◌ c s) =
    let rest = split_at_new s in
    if starts_with (String.◌∷◌ c s) " b/"
    then some ("", s)
    else elim rest [ none ↦ none | some (l, r) ↦ some (String.◌∷◌ c l, r) ]

-- `splitBareHeader`
unfoldable pub split_bare_header : String → Option (String × String)
unfolding split_at_new
split_bare_header rest =
    let path_length = (text_length rest - 5) / 2 in
    let first = take_text (2 + path_length) rest in
    let second = drop_text (3 + path_length) rest in
    let symmetric =
      leb 5 (text_length rest)
      && (text_length rest - 5) % 2 == 0
      && drop_text 2 first == drop_text 2 second in
    if symmetric && starts_with first "a/" && starts_with second "b/"
    then some (first, second)
    else split_at_new rest

abbrev pub quoted_or_bare : String → String
quoted_or_bare s = elim (unquote s) [ none ↦ s | some quoted ↦ (read_quoted quoted).0 ]

-- `splitFileHeader`
unfoldable pub split_file_header : String → Option (String × String)
unfolding read_quoted split_bare_header
split_file_header rest = elim (unquote rest) [
  | none ↦ split_bare_header rest
  | some quoted ↦
      let (value, remainder) = read_quoted quoted in
      some (value, quoted_or_bare (trim_start remainder))
]

-- `openFile`
unfoldable pub open_file : String → FileUnderRead
unfolding split_file_header
open_file rest = record {
  old_path = elim (split_file_header rest) [
    | none ↦ none
    | some (l, r) ↦ some (strip_prefix l "a/")
  ];
  new_path = elim (split_file_header rest) [
    | none ↦ none
    | some (l, r) ↦ some (strip_prefix r "b/")
  ];
  added_lines = [];
  removed_lines = [];
  in_hunk = false;
}

-- The readers of `HEADER_READERS`.
pub data HeaderReader : Type 0 where
  old_line new_line rename_from rename_to new_file deleted_file binary_notice hunk_start :
      HeaderReader

abbrev pub header_readers : List (String × HeaderReader)
header_readers =
    ("--- ", old_line)
    ∷ ("+++ ", new_line)
    ∷ ("rename from ", rename_from)
    ∷ ("rename to ", rename_to)
    ∷ ("new file mode", new_file)
    ∷ ("deleted file mode", deleted_file)
    ∷ ("Binary files ", binary_notice)
    ∷ ("@@", hunk_start)
    ∷ []

-- `readBinaryNotice`
unfoldable pub read_binary_notice : FileUnderRead → String → FileUnderRead
read_binary_notice file notice = record file {
  old_path = if starts_with notice "/dev/null and " then none else file.old_path;
  new_path = if ends_with notice " and /dev/null differ" then none else file.new_path;
}

unfoldable pub apply_reader : FileUnderRead → HeaderReader → String → FileUnderRead
unfolding read_header_path read_binary_notice
apply_reader file old_line v = record file { old_path = read_header_path v "a/" }
apply_reader file new_line v = record file { new_path = read_header_path v "b/" }
apply_reader file rename_from v = record file { old_path = read_header_path v "" }
apply_reader file rename_to v = record file { new_path = read_header_path v "" }
apply_reader file new_file v = record file { old_path = none }
apply_reader file deleted_file v = record file { new_path = none }
apply_reader file binary_notice v = read_binary_notice file v
apply_reader file hunk_start v = record file { in_hunk = true }

-- `readHeaderLine`: the first reader whose prefix the line has.
unfoldable pub read_header_line :
    List (String × HeaderReader) → FileUnderRead → String → FileUnderRead
unfolding apply_reader
read_header_line [] file line = file
read_header_line ((prefix, reader) ∷ readers) file line = elim (after line prefix) [
  | some v ↦ apply_reader file reader v
  | none ↦ read_header_line readers file line
]

-- `readHunkLine`
unfoldable pub read_hunk_line : FileUnderRead → String → FileUnderRead
read_hunk_line file String.[] = file
read_hunk_line file (String.◌∷◌ c s) =
    if code c == b'+'
    then record file { added_lines = file.added_lines ++ s ∷ [] }
    else if code c == b'-'
    then record file { removed_lines = file.removed_lines ++ s ∷ [] }
    else file

-- `readLine`
unfoldable pub read_line : FileUnderRead → String → FileUnderRead
unfolding read_header_line read_hunk_line
read_line file line =
    if file.in_hunk then read_hunk_line file line else read_header_line header_readers file line

abbrev pub finish : FileUnderRead → DiffFile
finish file = record {
  old_path = file.old_path;
  new_path = file.new_path;
  added_lines = file.added_lines;
  removed_lines = file.removed_lines;
}

-- The loop of `parseUnifiedDiff`, from the last file pushed on: none before the first header.
unfoldable pub read_lines : Option FileUnderRead → List String → List DiffFile
unfolding open_file read_line
read_lines none [] = []
read_lines (some file) [] = finish file ∷ []
read_lines none (line ∷ lines) = elim (after line "diff --git ") [
  | some rest ↦ read_lines (some (open_file rest)) lines
  | none ↦ read_lines none lines
]
read_lines (some file) (line ∷ lines) = elim (after line "diff --git ") [
  | some rest ↦ finish file ∷ read_lines (some (open_file rest)) lines
  | none ↦ read_lines (some (read_line file line)) lines
]

-- `parseUnifiedDiff`
unfoldable pub parse_unified_diff : String → List DiffFile
unfolding read_lines split
parse_unified_diff diff = read_lines none (split b'\n' diff)

-- `touchedPaths`: the paths that are there, each once.
unfoldable pub touched_paths : DiffFile → List String
touched_paths file = elim file.old_path [
  | none ↦ elim file.new_path [ none ↦ [] | some p ↦ p ∷ [] ]
  | some o ↦ elim file.new_path [ none ↦ o ∷ [] | some p ↦ if o == p then o ∷ [] else o ∷ p ∷ [] ]
]
