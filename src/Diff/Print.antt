-- ===== src/Diff/Print.antt =====
-- A diff as git prints it, and when its text splits into the lines that were printed.
use ai_dev_workflow.Prelude.{
  ◌≡◌, ◌≢◌, refl, false, Option, none, some, List, [], ◌∷◌, ◌++◌, map, String, join, has_code,
  IsLine, AreLines, unlines, split, split-unlines,
}
use ai_dev_workflow.Diff.Defs.{DiffFile}

-- A line of a hunk, and a file's part of a diff: `header` and `hunk` are what stands behind
-- `diff --git ` and `@@`.
pub data PatchLine : Type 0 where
  added removed context : String → PatchLine

pub record Patch : Type 0 where
  pub header : String
  pub old_path : Option String
  pub new_path : Option String
  pub hunk : String
  pub body : List PatchLine

unfoldable pub print_line : PatchLine → String
print_line (added s) = join "+" s
print_line (removed s) = join "-" s
print_line (context s) = join " " s

abbrev pub print_old : Option String → String
print_old none = "--- /dev/null"
print_old (some p) = join "--- a/" p

abbrev pub print_new : Option String → String
print_new none = "+++ /dev/null"
print_new (some p) = join "+++ b/" p

unfoldable pub print_diff : List Patch → List String
unfolding print_line
print_diff [] = []
print_diff (p ∷ ps) =
    join "diff --git " p.header
    ∷ print_old p.old_path
    ∷ print_new p.new_path
    ∷ join "@@" p.hunk
    ∷ (map print_line p.body ++ print_diff ps)

abbrev pub added_of : List PatchLine → List String
added_of [] = []
added_of (added s ∷ ls) = s ∷ added_of ls
added_of (removed s ∷ ls) = added_of ls
added_of (context s ∷ ls) = added_of ls

abbrev pub removed_of : List PatchLine → List String
removed_of [] = []
removed_of (added s ∷ ls) = removed_of ls
removed_of (removed s ∷ ls) = s ∷ removed_of ls
removed_of (context s ∷ ls) = removed_of ls

abbrev pub file_of : Patch → DiffFile
file_of p = record {
  old_path = p.old_path;
  new_path = p.new_path;
  added_lines = added_of p.body;
  removed_lines = removed_of p.body;
}

-- A path without a tab, which git leaves unquoted at the end of its line.
abbrev pub IsPlain : Option String → Type 0
IsPlain none = Unit
IsPlain (some p) = has_code 9 p ≡ false

abbrev pub ArePlain : List Patch → Type 0
ArePlain [] = Unit
ArePlain (p ∷ ps) = IsPlain p.old_path × IsPlain p.new_path × ArePlain ps

-- A line that stands in a printed diff has no line break.
abbrev pub IsBodyLine : PatchLine → Type 0
IsBodyLine (added s) = IsLine s
IsBodyLine (removed s) = IsLine s
IsBodyLine (context s) = IsLine s

abbrev pub IsPathLine : Option String → Type 0
IsPathLine none = Unit
IsPathLine (some p) = IsLine p

abbrev pub AreBodyLines : List PatchLine → Type 0
AreBodyLines [] = Unit
AreBodyLines (l ∷ ls) = IsBodyLine l × AreBodyLines ls

abbrev pub ArePatches : List Patch → Type 0
ArePatches [] = Unit
ArePatches (p ∷ ps) =
    IsLine p.header
    × IsPathLine p.old_path
    × IsPathLine p.new_path
    × IsLine p.hunk
    × AreBodyLines p.body
    × ArePatches ps

body-AreLines :
    (ls : List PatchLine) (rest : List String)
    → AreBodyLines ls
    → AreLines rest
    → AreLines (map print_line ls ++ rest)
unfolding print_line
body-AreLines [] rest h k = k
body-AreLines (added s ∷ ls) rest (h, hs) k = (h, body-AreLines ls rest hs k)
body-AreLines (removed s ∷ ls) rest (h, hs) k = (h, body-AreLines ls rest hs k)
body-AreLines (context s ∷ ls) rest (h, hs) k = (h, body-AreLines ls rest hs k)

old-IsLine : (o : Option String) → IsPathLine o → IsLine (print_old o)
old-IsLine none h = refl
old-IsLine (some p) h = h

new-IsLine : (o : Option String) → IsPathLine o → IsLine (print_new o)
new-IsLine none h = refl
new-IsLine (some p) h = h

print-AreLines : (ps : List Patch) → ArePatches ps → AreLines (print_diff ps)
unfolding print_diff
print-AreLines [] h = tt
print-AreLines (p ∷ ps) (h, o, n, k, b, hs) =
    let body = body-AreLines p.body (print_diff ps) b (print-AreLines ps hs) in
    (h, (old-IsLine p.old_path o, (new-IsLine p.new_path n, (k, body))))

pub split-print_diff :
    (ps : List Patch)
    → ArePatches ps
    → ps ≢ []
    → split b'\n' (unlines (print_diff ps)) ≡ print_diff ps
unfolding print_diff
split-print_diff [] h ne = absurd (ne refl)
split-print_diff (p ∷ ps) h ne =
    split-unlines (join "diff --git " p.header) _ (print-AreLines (p ∷ ps) h)
