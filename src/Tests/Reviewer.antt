-- ===== src/Tests/Reviewer.antt =====
-- A model that answers with a finding on the packed diff, one beside it, and one without a title.
use Prim.Native.String.{len, ◌∷◌ as cons, [] as nil}
use text.Mathlib.Text.{starts_with}
use pr_reviewer.Base.{
  refl, String, List, ℕ, All, str_eq, Option, if◌then◌else◌, count_where, ◌≡◌, ◌∷◌, some, ltb, [],
  ◌-◌, ◌≤◌, ◌+◌, false, true, arith, Bool-cases, inr, inl, str_eq_iff, ◌∙◌, sym, none,
}
use pr_reviewer.Reviewer.Stripped.{IsStripped, strip_markers-IsStripped}
use pr_reviewer.Reviewer.Prompt.{strip_markers, strip_rounds, stripped}
use pr_reviewer.Reviewer.{Snapshot, Str}
use pr_reviewer.Reviewer.Review.{
  candidates_from_parsed, select_from, lines_by_path, review_pull_request,
}
use pr_reviewer.Reviewer.Selected.{IsSelection, candidates_from_parsed-IsSelection}
use pr_reviewer.Tests.Packing.{python, three_files, packed_three, packed}
use pr_reviewer.Aggregate.{FindingCandidate}
use pr_reviewer.Reviewer.Anchored.{HasPlace, candidates_of, pack_diff-review_pull_request}
use pr_reviewer.Jobs.Runner.{LeaseState, active}
use pr_reviewer.Posting.Search.{is_part}
use pr_reviewer.Notify.{high}
use pr_reviewer.Packing.Hunks.{new_side_numbers, side_numbers}
use pr_reviewer.Reviewer.Specialists.{
  SpecialistAnswer, collect, specialist_concerns, found, run_specialists,
}
use pr_reviewer.Reviewer.Answered.{Answers, Asks, Reports, run_specialists-Asks}
use pr_reviewer.Tests.Aggregate.{words}

-- str.replace by "", and str.count: `skip` is what is left of a part that was found
abbrev removed : (part text : String) (skip : ℕ) → String
removed part nil skip = nil
removed part (cons c s) skip =
    let rest = removed part s in
    if ltb 0 skip
    then rest (skip - 1)
    else if starts_with (cons c s) part
    then rest (len part - 1)
    else cons c (rest 0)

abbrev counted : (part text : String) (skip : ℕ) → ℕ
counted part nil skip = 0
counted part (cons c s) skip =
    let rest = counted part s in
    if ltb 0 skip
    then rest (skip - 1)
    else if starts_with (cons c s) part
    then 1 + rest (len part - 1)
    else rest 0

abbrev replacing : Str
replacing = record {
  without = λ part s. removed part s 0;
  len = len;
  count = λ part s. counted part s 0;
}

abbrev hidden : String
hidden = "a-----BEGIN UNTRUSTED-----BEGIN UNTRUSTED INPUT----- INPUT-----b"

-- a marker that the first round leaves is stripped by the second
stripped_twice : strip_markers replacing hidden ≡ stripped "ab"
unfolding strip_markers strip_rounds is_part
stripped_twice = refl

strip_markers-IsStripped_example : IsStripped replacing hidden (strip_markers replacing hidden)
strip_markers-IsStripped_example = strip_markers-IsStripped replacing hidden

abbrev draft_at : (path title : String) (line : ℕ) → FindingCandidate
draft_at path title line = record {
  severity = high;
  category = "bug";
  file_path = path;
  line_start = line;
  line_end = line;
  title = title;
  rationale = "r";
  evidence = "e" ∷ [];
}

abbrev drafts : List FindingCandidate
drafts =
    draft_at "a.py" "wrong" 1
    ∷ draft_at "a.py" "wrong" 1
    ∷ draft_at "b.py" "left out" 1
    ∷ draft_at "a.py" "" 2
    ∷ []

one_selected :
    candidates_from_parsed python some packed_three.items (some drafts)
    ≡ draft_at "a.py" "wrong" 1 ∷ []
unfolding candidates_from_parsed select_from lines_by_path new_side_numbers side_numbers
one_selected = refl

candidates_from_parsed-IsSelection_example :
    IsSelection python some packed_three.items drafts 0 []
      (candidates_from_parsed python some packed_three.items (some drafts))
candidates_from_parsed-IsSelection_example =
    candidates_from_parsed-IsSelection python some packed_three.items drafts

abbrev snapshot : Snapshot
snapshot = record { repo_owner = "o"; repo_name = "r"; head_sha = "h"; title = "t"; body = "b" }

apart : (x y path : String) → str_eq x y ≡ false → str_eq x path ≡ true → str_eq y path ≡ false
apart x y path h e = elim (Bool-cases (str_eq y path)) [
  | inr f ↦ f
  | inl f ↦
      let same : x ≡ y = (str_eq_iff x path).0 e ∙ sym ((str_eq_iff y path).0 f) in
      absurd (let q = (str_eq_iff x y).1 same in cc)
]

three_different : (path : String) → count_where (λ f. str_eq f.path path) three_files ≤ 1
three_different path = ground (
  arith,
  apart "b.py" "a.py" path refl,
  apart "b.py" "c.py" path refl,
  apart "a.py" "c.py" path refl,
)

-- the world counts the calls of the model
abbrev model : String → ℕ → Option (Option (List FindingCandidate)) × ℕ
model prompt w = (some (some drafts), w + 1)

abbrev lease : ℕ → Option LeaseState × ℕ
lease w = (some active, w)

pack_diff-review_pull_request_example : All (HasPlace python three_files) (
    candidates_of
      (review_pull_request python some replacing model snapshot packed_three
        ("chunk" ∷ [])
        (some lease)
        0).0)
pack_diff-review_pull_request_example =
    pack_diff-review_pull_request python (λ content. 3) (λ content. "") [] [] three_files
      three_different some replacing model snapshot ("chunk" ∷ []) 5 [] packed_three packed
      (some lease) 0

-- the specialist for security finds something, the one for tests is late, the others are missing
abbrev reviewers : String → Option (ℕ → SpecialistAnswer × ℕ)
reviewers concern =
    if str_eq concern "security"
    then some (λ w. (found (draft_at "a.py" "wrong" 1 ∷ []), w + 1))
    else if str_eq concern "tests"
    then some (λ w. (SpecialistAnswer.timed_out, w + 1))
    else none

tests_late :
    (collect reviewers specialist_concerns ([], []) 0)
    ≡ (some (draft_at "a.py" "wrong" 1 ∷ [], "tests" ∷ []), 2)
unfolding collect
tests_late = refl

run_specialists-Asks_example :
    (o : Answers) × Asks reviewers specialist_concerns 0 o
      (run_specialists reviewers words "o/r" "h" true 0).1
    × Reports reviewers words "o/r" "h" o (run_specialists reviewers words "o/r" "h" true 0).0
run_specialists-Asks_example = run_specialists-Asks reviewers words "o/r" "h" 0
