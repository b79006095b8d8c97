-- ===== src/Diff/RoundTrip.antt =====
-- A diff that is printed is read back.
use ai_dev_workflow.Prelude.{
  ◌≡◌, ◌≢◌, ℕ, refl, ap, ◌∙◌, inl, inr, true, false, Option, none, some, List, [], ◌∷◌, ◌++◌, map,
  String, ◌==◌, text_eq, eq_iff, Bool-cases, arith, join, after, has_code, unlines, split,
}
use Prim.Native.Char.{code}
use mathlib.Core.List.{append-nil, append_assoc}
use ai_dev_workflow.Diff.Defs.{
  FileUnderRead, cut_tab, read_header_path, read_line, open_file, finish, read_lines,
  parse_unified_diff,
}
use ai_dev_workflow.Diff.Print.{
  PatchLine, added, removed, context, Patch, print_line, print_old, print_new, print_diff, added_of,
  removed_of, file_of, IsPlain, ArePlain, ArePatches, split-print_diff,
}

cut_tab_plain : (s : String) → has_code 9 s ≡ false → cut_tab s ≡ s
unfolding cut_tab
cut_tab_plain String.[] h = refl
cut_tab_plain (String.◌∷◌ c s) h = ground (arith, cut_tab_plain s)

abbrev head_code : String → ℕ
head_code String.[] = 0
head_code (String.◌∷◌ c s) = code c

-- Texts with different first characters are different.
heads_differ : (s t : String) → head_code s ≢ head_code t → (s == t) ≡ false
heads_differ s t n = elim (Bool-cases (s == t)) [
  | inl same ↦ absurd (n (ap head_code ((eq_iff s t).0 same)))
  | inr other ↦ other
]

read_old_path : (p : String) → has_code 9 p ≡ false → read_header_path (join "a/" p) "a/" ≡ some p
unfolding read_header_path
read_old_path p h =
    rw (cut_tab_plain p h) (rw (heads_differ (join "a/" p) "/dev/null" (omega arith)) refl)

read_new_path : (p : String) → has_code 9 p ≡ false → read_header_path (join "b/" p) "b/" ≡ some p
unfolding read_header_path
read_new_path p h =
    rw (cut_tab_plain p h) (rw (heads_differ (join "b/" p) "/dev/null" (omega arith)) refl)

module _ (f : FileUnderRead) (b : f.in_hunk ≡ false) where
  read-print_old :
      (o : Option String) → IsPlain o → read_line f (print_old o) ≡ record f { old_path = o }
  unfolding read_line
  read-print_old none h = rw b (unfold read_header_path in refl)
  read-print_old (some p) h =
      rw b (ap (λ o. record f { old_path = o; in_hunk = false }) (read_old_path p h))

  read-print_new :
      (o : Option String) → IsPlain o → read_line f (print_new o) ≡ record f { new_path = o }
  unfolding read_line
  read-print_new none h = rw b (unfold read_header_path in refl)
  read-print_new (some p) h =
      rw b (ap (λ o. record f { new_path = o; in_hunk = false }) (read_new_path p h))

  read_hunk_start : (s : String) → read_line f (join "@@" s) ≡ record f { in_hunk = true }
  unfolding read_line
  read_hunk_start s = rw b refl

abbrev with_body : FileUnderRead → List PatchLine → FileUnderRead
with_body f ls = record f {
  added_lines = f.added_lines ++ added_of ls;
  removed_lines = f.removed_lines ++ removed_of ls;
}

-- One printed line of a hunk, read.
read-print_line :
    (f : FileUnderRead) (l : PatchLine) (rest : List String)
    → f.in_hunk ≡ true
    → read_lines (some f) (print_line l ∷ rest) ≡ read_lines (some (with_body f (l ∷ []))) rest
unfolding read_lines read_line print_line
read-print_line f (added s) rest h = rw h (simp append-nil)
read-print_line f (removed s) rest h = rw h (simp append-nil)
read-print_line f (context s) rest h = rw h (simp append-nil)

with_body-cons :
    (f : FileUnderRead) (l : PatchLine) (ls : List PatchLine)
    → with_body (with_body f (l ∷ [])) ls ≡ with_body f (l ∷ ls)
with_body-cons f (added s) ls = simp (append_assoc, append-nil)
with_body-cons f (removed s) ls = simp (append_assoc, append-nil)
with_body-cons f (context s) ls = simp append-nil

read-print_body :
    (f : FileUnderRead) (ls : List PatchLine) (rest : List String)
    → f.in_hunk ≡ true
    → read_lines (some f) (map print_line ls ++ rest) ≡ read_lines (some (with_body f ls)) rest
read-print_body f [] rest h = simp append-nil
read-print_body f (l ∷ ls) rest h =
    read-print_line f l (map print_line ls ++ rest) h
    ∙ read-print_body (with_body f (l ∷ [])) ls rest h
    ∙ ap (λ g. read_lines (some g) rest) (with_body-cons f l ls)

-- The file that the header lines of a patch leave open.
abbrev opened : Patch → FileUnderRead
opened p = record (open_file p.header) {
  old_path = p.old_path;
  new_path = p.new_path;
  in_hunk = true;
}

step :
    (f g : FileUnderRead) (line : String) (rest : List String)
    → after line "diff --git " ≡ none
    → read_line f line ≡ g
    → read_lines (some f) (line ∷ rest) ≡ read_lines (some g) rest
unfolding read_lines
step f g line rest h e = rw (h, read_lines) (ap (λ f'. read_lines (some f') rest) e)

old_is_no_header : (o : Option String) → after (print_old o) "diff --git " ≡ none
old_is_no_header none = refl
old_is_no_header (some p) = refl

new_is_no_header : (o : Option String) → after (print_new o) "diff --git " ≡ none
new_is_no_header none = refl
new_is_no_header (some p) = refl

not_in_hunk : (header : String) → (open_file header).in_hunk ≡ false
unfolding open_file
not_in_hunk header = refl

-- What is read behind the header of one patch.
read_patch :
    (p : Patch) (rest : List String)
    → IsPlain p.old_path
    → IsPlain p.new_path
    → read_lines (some (open_file p.header)) (
        print_old p.old_path
        ∷ print_new p.new_path
        ∷ join "@@" p.hunk
        ∷ (map print_line p.body ++ rest))
      ≡ read_lines (some (with_body (opened p) p.body)) rest
read_patch p rest h k =
    let f = open_file p.header in
    let b = not_in_hunk p.header in
    let f' : FileUnderRead = record f { old_path = p.old_path } in
    let f'' : FileUnderRead = record f' { new_path = p.new_path } in
    step f f' (print_old p.old_path) _ (old_is_no_header p.old_path)
      (read-print_old f b p.old_path h)
    ∙ step f' f'' (print_new p.new_path) _ (new_is_no_header p.new_path)
        (read-print_new f' b p.new_path k)
    ∙ step f'' (opened p) (join "@@" p.hunk) _ refl (read_hunk_start f'' b p.hunk)
    ∙ read-print_body (opened p) p.body rest refl

read_patches :
    (f : FileUnderRead) (ps : List Patch)
    → ArePlain ps
    → read_lines (some f) (print_diff ps) ≡ finish f ∷ map file_of ps
unfolding read_lines print_diff
read_patches f [] h = refl
read_patches f (p ∷ ps) (h, k, hs) =
    ap (λ fs. finish f ∷ fs)
      (read_patch p (print_diff ps) h k ∙ read_patches (with_body (opened p) p.body) ps hs)

read_diff : (ps : List Patch) → ArePlain ps → read_lines none (print_diff ps) ≡ map file_of ps
unfolding read_lines print_diff
read_diff [] h = refl
read_diff (p ∷ ps) (h, k, hs) =
    read_patch p (print_diff ps) h k ∙ read_patches (with_body (opened p) p.body) ps hs

-- A diff printed from patches, whose lines have no line break and whose paths have no tab either, is read
-- back to the same files: the paths of the `---` and `+++` lines, whatever stands in the `diff --git` line,
-- and the added and removed lines of the hunks in their order, whatever they begin with.
pub parse_unified_diff-print_diff :
    (ps : List Patch)
    → ArePatches ps
    → ArePlain ps
    → parse_unified_diff (unlines (print_diff ps)) ≡ map file_of ps
unfolding parse_unified_diff
parse_unified_diff-print_diff [] lines plain = unfold print_diff unlines read_lines split in refl
parse_unified_diff-print_diff (p ∷ ps) lines plain =
    ap (read_lines none) (split-print_diff (p ∷ ps) lines (λ e. cc)) ∙ read_diff (p ∷ ps) plain
