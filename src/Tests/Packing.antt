-- ===== src/Tests/Packing.antt =====
-- A text with one numeral for each unit, and a pull request of three files.
use Prim.Native.Char.{Char}
use Prim.Native.String.append as append_clause
use Prim.Native.String.{◌++◌ as append, slice, len, ◌∷◌ as cons, [] as nil}
use text.Mathlib.Text.{starts_with}
use text.Mathlib.TextPositions.{slice-append_left, starts_with-append}
use text.Mathlib.TextLemmas.{append_assoc}
use text.Mathlib.TextEquality.{starts_with_iff}
use pr_reviewer.Base.{
  refl, subst, [], ◌∷◌, List, String, Option, some, none, ℕ, ◌≡◌, suc, zero, if◌then◌else◌, false,
  subst, true, sym, ap, ◌∙◌, inl, inr, Bool-cases, str_eq_iff, str_eq, map, ◌↔◌, count_where,
}
use pr_reviewer.Packing.{
  token_budget, patch_omitted_by_github, Text, FilePatch, PackedDiff, PullRequestFile,
}
use pr_reviewer.Packing.Numbers.{Reads, new_side_numbers-render_hunks}
use pr_reviewer.Packing.Hunks.{
  parse_hunks, parse_lines, split_lines, render_lines, render_blocks, new_side_numbers,
  render_hunks, side_numbers,
}
use pr_reviewer.Packing.Diff.{
  pack_diff, pack_files, sort_files, insert_file, total_tokens, change_size, classify, content_of,
  line_range,
}
use pr_reviewer.Packing.Budget.{IsPacked, pack_diff-IsPacked}

abbrev show : ℕ → String
show zero = ""
show (suc n) = append "1" (show n)

abbrev one_more : Option ℕ → Option ℕ
one_more none = none
one_more (some n) = some (suc n)

abbrev read : String → Option ℕ
read nil = none
read (cons c s) =
    let rest = read s in
    if starts_with (cons c s) "1"
    then one_more rest
    else if starts_with (cons c s) "| "
    then some 0
    else none

-- Texts that start with two different texts of one length do not start with one another.
differ :
    (a b c s : String)
    → len a ≡ len b
    → str_eq a b ≡ false
    → starts_with (append a s) (append b c) ≡ false
differ a b c s same apart = elim (Bool-cases (starts_with (append a s) (append b c))) [
  | inr e ↦ e
  | inl e ↦
      let (r, p) = (starts_with_iff (append a s) (append b c)).0 e in
      let same_start : a ≡ b =
        sym (slice-append_left a s)
        ∙ ap (λ u. slice u 0 (len a)) (sym p ∙ append_assoc b c r)
        ∙ rw same (slice-append_left b (append c r)) in
      absurd (let k = (str_eq_iff a b).1 same_start in let q = rw apart at k in cc)
]

head_cons : (c : Char) (s : String) → append (cons c nil) s ≡ cons c s
head_cons c s = append_clause.cons c nil s ∙ ap (λ u. cons c u) (append_clause.nil s)

one_read : (s : String) → read (append "1" s) ≡ one_more (read s)
one_read s =
    subst (λ u. starts_with u "1" ≡ true → read u ≡ one_more (read s)) (sym (head_cons "1" s))
      (λ h. rw h refl) (starts_with-append "1" s)

bar_at :
    (s u : String)
    → u ≡ cons "|" s
    → starts_with u "1" ≡ false
    → starts_with u "| " ≡ true
    → read u ≡ some 0
bar_at s u e h k = let h' = rw e at h in let k' = rw e at k in rw (e, h', k') refl

bar_read : (s : String) → read (append "| " s) ≡ some 0
bar_read s =
    bar_at (append " " s) (append "| " s) (append_assoc "|" " " s ∙ head_cons "|" (append " " s))
      (rw (append_assoc "|" " " s) (differ "|" "1" "" (append " " s) refl refl))
      (starts_with-append "| " s)

read_show : (n : ℕ) (content : String) → read (append (show n) (append "| " content)) ≡ some n
read_show zero content = rw (append_clause.nil (append "| " content)) (bar_read content)
read_show (suc n) content =
    rw
      (
        append_assoc "1" (show n) (append "| " content),
        one_read (append (show n) (append "| " content)),
        read_show n content,
      )
      refl

unheaded :
    (n : ℕ) (content a b : String)
    → len a ≡ 1
    → str_eq "1" a ≡ false
    → str_eq "|" a ≡ false
    → starts_with (append (show n) (append "| " content)) (append a b) ≡ false
unheaded zero content a b one ne bar =
    rw (append_clause.nil (append "| " content), append_assoc "|" " " content)
      (differ "|" a b (append " " content) (sym one) bar)
unheaded (suc n) content a b one ne bar =
    rw (append_assoc "1" (show n) (append "| " content))
      (differ "1" a b (append (show n) (append "| " content)) (sym one) ne)

abbrev onto : Char → List String → List String
onto c [] = cons c nil ∷ []
onto c (line ∷ lines) = cons c line ∷ lines

abbrev pub lines_of : String → List String
lines_of nil = []
lines_of (cons c s) =
    let rest = lines_of s in if starts_with (cons c s) "\n" then "" ∷ rest else onto c rest

abbrev pub unlines : List String → String
unlines [] = ""
unlines (line ∷ []) = line
unlines (line ∷ next ∷ lines) = append line (append "\n" (unlines (next ∷ lines)))

abbrev tail_of : String → String
tail_of nil = ""
tail_of (cons c s) = s

abbrev pub python : Text
python = record {
  splitlines = lines_of;
  join = unlines;
  tail = tail_of;
  show = show;
  hunk_header = λ line. if starts_with line "@@ " then some 1 else none;
  new_line = read;
}

python-Reads : Reads python
python-Reads = record {
  number = read_show;
  not_new = λ n content. unheaded n content "N" "EW " refl refl refl;
  not_old = λ n content. unheaded n content "O" "LD " refl refl refl;
}

abbrev pub patch_of : String → FilePatch
patch_of path = record { path = path; patch = "@@ -1,2 +1,2 @@\n a\n+b\n-c"; previous_path = none }

new_side_numbers-render_hunks_example :
    new_side_numbers python (render_hunks python (patch_of "a.py")) ≡ 1 ∷ 2 ∷ []
unfolding parse_hunks parse_lines split_lines render_lines render_blocks
new_side_numbers-render_hunks_example =
    new_side_numbers-render_hunks python python-Reads (patch_of "a.py") ((refl, (refl, tt)), tt)
      refl

abbrev changed : (path : String) → Option String → PullRequestFile
changed path patch = record {
  path = path;
  patch = patch;
  previous_path = none;
  is_truncated = false;
  is_binary = false;
  omission_reason = none;
}

abbrev pub three_files : List PullRequestFile
three_files =
    changed "b.py" (some (patch_of "b.py").patch)
    ∷ changed "a.py" (some (patch_of "a.py").patch)
    ∷ changed "c.py" none
    ∷ []

abbrev pub packed_three : PackedDiff
packed_three = record {
  items =
      record {
        file_path = "a.py";
        line_start = 1;
        line_end = 2;
        content = "NEW a.py\n1| a\n11| b\nOLD a.py\na\nc";
        content_hash = "";
      }
      ∷ [];
  included_files = "a.py" ∷ [];
  omitted_files =
      record { path = "b.py"; reason = token_budget; change_size = 2 }
      ∷ record { path = "c.py"; reason = patch_omitted_by_github; change_size = 0 }
      ∷ [];
  prompt_tokens = 3;
  covers_all_changed_files = false;
}

pub packed :
    pack_diff python (λ content. 3) (λ content. "") [] [] three_files 5 [] ≡ some packed_three
unfolding pack_diff pack_files sort_files insert_file change_size classify content_of line_range
    new_side_numbers side_numbers render_hunks render_lines render_blocks split_lines parse_hunks
    parse_lines
packed = refl

pack_diff-IsPacked_example :
    IsPacked python
      (λ content. 3)
      (λ content. "")
      []
      []
      (sort_files python [] three_files)
      5
      packed_three.items
      packed_three.omitted_files
    × (packed_three.prompt_tokens
        ≡ total_tokens python (λ content. 3) (λ content. "") [] [] packed_three.items)
    × (packed_three.included_files ≡ map (λ i. i.file_path) packed_three.items)
    × ((packed_three.covers_all_changed_files ≡ true) ↔ (packed_three.omitted_files ≡ []))
    × ((path : String)
        → count_where (λ f. str_eq f.path path) (sort_files python [] three_files)
          ≡ count_where (λ f. str_eq f.path path) three_files)
pack_diff-IsPacked_example =
    pack_diff-IsPacked python (λ content. 3) (λ content. "") [] [] three_files 5 [] packed
