-- ===== src/Packing/Numbers.antt =====
-- The numbers that are read back from a rendered patch are those of its new side.
use Prim.Native.String.{◌++◌ as append}
use text.Mathlib.Text.{starts_with}
use text.Mathlib.TextPositions.{slice-append_left}
use mathlib.Core.List.{append_assoc}
use pr_reviewer.Base.{
  refl, [], ◌∷◌, List, String, ℕ, ◌+◌, ◌≡◌, Bool, ◌++◌, All, not, some, if◌then◌else◌, false, true,
  ◌||◌, str_eq, ◌&&◌, Bool-cases, inl, inr,
}
use pr_reviewer.Packing.{Text, FilePatch, text_or}
use pr_reviewer.Packing.Hunks.{
  numbered, Hunk, split_lines, side_numbers, new_side_numbers, render_blocks, render_hunks,
  render_lines, parse_hunks,
}

-- What the regular expression and the numerals of Python do with a numbered line.
pub record Reads (t : Text) : Type 0 where
  pub number : (n : ℕ) (content : String) → t.new_line (numbered t n content) ≡ some n
  pub not_new : (n : ℕ) (content : String) → starts_with (numbered t n content) "NEW " ≡ false
  pub not_old : (n : ℕ) (content : String) → starts_with (numbered t n content) "OLD " ≡ false

-- The line numbers of the new side: context and added lines count.
abbrev pub is_on_new_side : String → Bool
is_on_new_side raw =
    not (starts_with raw "\\" || str_eq raw "") && (starts_with raw " " || starts_with raw "+")

abbrev pub numbers_from : ℕ → List String → List ℕ
numbers_from n [] = []
numbers_from n (raw ∷ lines) =
    let next = numbers_from (n + 1) lines in
    let same = numbers_from n lines in if is_on_new_side raw then n ∷ next else same

abbrev pub numbers_of : List Hunk → List ℕ
numbers_of [] = []
numbers_of (h ∷ hs) = numbers_from h.new_start h.lines ++ numbers_of hs

-- No line of the old side reads like the head of a new side.
abbrev pub HasPlainOld : Text → List Hunk → Type 0
HasPlainOld t =
    All (λ h. All (λ line. starts_with line "NEW " ≡ false) (split_lines t h.new_start h.lines).1)

headed : (path : String) → starts_with (append "NEW " path) "NEW " ≡ true
headed path = rw (slice-append_left "NEW " path) refl

old_headed :
    (path : String)
    → (starts_with (append "OLD " path) "NEW " ≡ false)
      × (starts_with (append "OLD " path) "OLD " ≡ true)
old_headed path = rw (slice-append_left "OLD " path) (refl, refl)

module _ (t : Text) (reads : Reads t) where
  -- The numbers of a new side, and then whatever is read after it.
  new_side :
      (n : ℕ) (lines tail : List String)
      → side_numbers t true ((split_lines t n lines).0 ++ tail)
        ≡ numbers_from n lines ++ side_numbers t true tail
  unfolding side_numbers split_lines
  new_side n [] tail = refl
  new_side n (raw ∷ lines) tail =
      let same = new_side n lines tail in
      let next = new_side (n + 1) lines tail in
      let h0 = reads.number n (t.tail raw) in
      let h1 = reads.not_new n (t.tail raw) in
      let h2 = reads.not_old n (t.tail raw) in
      elim (Bool-cases (starts_with raw "\\" || str_eq raw "")) [
        | inl e ↦ rw e same
        | inr e ↦ elim (Bool-cases (starts_with raw " ")) [
          | inl f ↦ rw (e, f, h1, h2, h0, next) refl
          | inr f ↦ elim (Bool-cases (starts_with raw "+")) [
            | inl g ↦ rw (e, f, g, h1, h2, h0, next) refl
            | inr g ↦ elim (Bool-cases (starts_with raw "-")) [
              | inl k ↦ rw (e, f, g, k) same
              | inr k ↦ rw (e, f, g, k) same
            ]
          ]
        ]
      ]

  old_side :
      (lines tail : List String)
      → All (λ line. starts_with line "NEW " ≡ false) lines
      → side_numbers t false (lines ++ tail) ≡ side_numbers t false tail
  unfolding side_numbers
  old_side [] tail h = refl
  old_side (line ∷ lines) tail h = elim (Bool-cases (starts_with line "OLD ")) [
    | inl e ↦ rw (h.0, e) (old_side lines tail h.1)
    | inr e ↦ rw (h.0, e) (old_side lines tail h.1)
  ]

  side_numbers-render_blocks :
      (in_new : Bool) (path old_path : String) (hunks : List Hunk)
      → HasPlainOld t hunks
      → side_numbers t in_new (render_blocks t (append "NEW " path) (append "OLD " old_path) hunks)
        ≡ numbers_of hunks
  unfolding side_numbers render_blocks
  side_numbers-render_blocks in_new path old_path [] plain = refl
  side_numbers-render_blocks in_new path old_path (h ∷ hunks) plain =
      let rest = render_blocks t (append "NEW " path) (append "OLD " old_path) hunks in
      let (new_lines, old_lines) = split_lines t h.new_start h.lines in
      let old_block = append "OLD " old_path ∷ old_lines in
      rw
        (
          headed path,
          append_assoc new_lines old_block rest,
          new_side h.new_start h.lines (old_block ++ rest),
          (old_headed old_path).0,
          (old_headed old_path).1,
          old_side old_lines rest plain.0,
          side_numbers-render_blocks false path old_path hunks plain.1,
        )
        refl

-- The numbers that are read back from a rendered patch are, in their order, those of the context
-- lines and the added lines of its hunks, provided that none of the hunks' old lines starts with
-- "NEW ", that splitlines gives the rendered lines back from their join, and that the text functions
-- keep the laws of Reads.
pub new_side_numbers-render_hunks :
    (t : Text) (reads : Reads t) (f : FilePatch)
    → HasPlainOld t (parse_hunks t f.patch)
    → t.splitlines (t.join (render_lines t f)) ≡ render_lines t f
    → new_side_numbers t (render_hunks t f) ≡ numbers_of (parse_hunks t f.patch)
unfolding new_side_numbers render_hunks render_lines
new_side_numbers-render_hunks t reads f plain back = rw back (
    side_numbers-render_blocks t reads false f.path (text_or f.previous_path f.path)
      (parse_hunks t f.patch) plain)
