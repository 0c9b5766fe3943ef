-- ===== src/Packing/Hunks.antt =====
-- reviewer/hunk_format.py: the new side of each hunk under its numbers, and then the old side; and
-- github/post_review.py's _new_side_numbers, which reads the numbers back.
use Prim.Native.String.{◌++◌ as append}
use text.Mathlib.Text.{starts_with}
use pr_reviewer.Base.{
  [], ◌∷◌, ℕ, String, Bool, List, Option, ◌+◌, ◌++◌, true, some, false, none, if◌then◌else◌, ◌||◌,
  str_eq,
}
use pr_reviewer.Packing.{Text, FilePatch, text_or}

pub record Hunk : Type 0 where
  pub new_start : ℕ
  pub lines : List String

module _ (t : Text) where
  -- the loop of _parse_hunks: `open_hunk` is the hunk that is being read, if there is one
  abbrev pub closed_hunk : Option Hunk → List Hunk
  closed_hunk none = []
  closed_hunk (some h) = h ∷ []

  abbrev pub add_line : String → Option Hunk → Option Hunk
  add_line line none = none
  add_line line (some h) = some (record h { lines = h.lines ++ line ∷ [] })

  abbrev pub read_line : Option ℕ → String → Option Hunk → (Option Hunk → List Hunk) → List Hunk
  read_line none line open_hunk rest = rest (add_line line open_hunk)
  read_line (some start) line open_hunk rest =
      closed_hunk open_hunk ++ rest (some (record { new_start = start; lines = [] }))

  unfoldable pub parse_lines : List String → Option Hunk → List Hunk
  parse_lines [] open_hunk = closed_hunk open_hunk
  parse_lines (line ∷ lines) open_hunk =
      let rest = parse_lines lines in read_line (t.hunk_header line) line open_hunk rest

  unfoldable pub parse_hunks : String → List Hunk
  parse_hunks patch = parse_lines (t.splitlines patch) none

  -- f"{new_no}| {content}"
  abbrev pub numbered : ℕ → String → String
  numbered n content = append (t.show n) (append "| " content)

  -- the new lines and the old lines of a hunk, from a number on
  unfoldable pub split_lines : ℕ → List String → List String × List String
  split_lines n [] = ([], [])
  split_lines n (raw ∷ lines) =
      let content = t.tail raw in
      let (same_new, same_old) = split_lines n lines in
      let (next_new, next_old) = split_lines (n + 1) lines in
      if starts_with raw "\\" || str_eq raw ""
      then (same_new, same_old)
      else if starts_with raw " "
      then (numbered n content ∷ next_new, content ∷ next_old)
      else if starts_with raw "+"
      then (numbered n content ∷ next_new, next_old)
      else if starts_with raw "-"
      then (same_new, content ∷ same_old)
      else (same_new, same_old)

  abbrev pub blocks_of : (new_header old_header : String) → Hunk → List String
  blocks_of new_header old_header h =
      let (new_lines, old_lines) = split_lines h.new_start h.lines in
      new_header ∷ (new_lines ++ old_header ∷ old_lines)

  unfoldable pub render_blocks : (new_header old_header : String) → List Hunk → List String
  render_blocks new_header old_header [] = []
  render_blocks new_header old_header (h ∷ hs) =
      blocks_of new_header old_header h ++ render_blocks new_header old_header hs

  unfoldable pub render_lines : FilePatch → List String
  render_lines f =
      render_blocks (append "NEW " f.path) (append "OLD " (text_or f.previous_path f.path))
        (parse_hunks f.patch)

  unfoldable pub render_hunks : FilePatch → String
  render_hunks f = t.join (render_lines f)

  abbrev pub cons_number : Option ℕ → List ℕ → List ℕ
  cons_number none ns = ns
  cons_number (some n) ns = n ∷ ns

  -- the loop of _new_side_numbers and of _line_range
  unfoldable pub side_numbers : (in_new : Bool) → List String → List ℕ
  side_numbers in_new [] = []
  side_numbers in_new (line ∷ lines) =
      let as_new = side_numbers true lines in
      let as_old = side_numbers false lines in
      if starts_with line "NEW "
      then as_new
      else if starts_with line "OLD "
      then as_old
      else if in_new
      then cons_number (t.new_line line) as_new
      else as_old

  unfoldable pub new_side_numbers : String → List ℕ
  new_side_numbers rendered = side_numbers false (t.splitlines rendered)
