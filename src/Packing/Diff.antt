-- ===== src/Packing/Diff.antt =====
-- reviewer/diff_budget.py: pack_diff. `count_tokens` is the caller's, `digest` is SHA-256. Scores
-- are natural numbers on one scale.
use Prim.Native.Nat.{Ordering}
use Prim.Native.String.{compare}
use text.Mathlib.Text.{starts_with}
use pr_reviewer.Base.{
  [], ◌∷◌, String, ℕ, Option, List, Bool, ◌-◌, true, not, if◌then◌else◌, some, false, ltb, map,
  ◌||◌, none, sum_where, str_eq, ◌&&◌, count_where, ◌==◌,
}
use pr_reviewer.Packing.{
  binary, generated, ignored_path, patch_truncated_by_github, patch_omitted_by_github, token_budget,
  Text, PullRequestFile, OmissionReason, OmittedFile, PackedDiff, ReviewContextItem,
}
use pr_reviewer.Packing.Hunks.{new_side_numbers, render_hunks}
use pr_reviewer.Evals.{is_nil}

abbrev pub is_change : String → Bool
is_change line =
    not (starts_with line "+++" || starts_with line "---")
    && (starts_with line "+" || starts_with line "-")

module _ (t : Text) where
  -- `not patch`: none, or an empty text
  unfoldable pub change_size : Option String → ℕ
  change_size none = 0
  change_size (some patch) =
      if str_eq patch "" then 0 else count_where is_change (t.splitlines patch)

  abbrev pub score_of_path : List (String × ℕ) → String → ℕ
  score_of_path [] path = 0
  score_of_path ((p, score) ∷ rest) path =
      let later = score_of_path rest path in if str_eq p path then score else later

  abbrev pub path_leb : String → String → Bool
  path_leb a b = elim (compare a b) [ Ordering.gt ↦ false | _ ↦ true ]

  -- _sort_key of `a` is at most that of `b`: the score and the size descend, the path ascends
  abbrev pub stands_before : List (String × ℕ) → PullRequestFile → PullRequestFile → Bool
  stands_before sensitivity a b =
      let x = score_of_path sensitivity a.path in
      let y = score_of_path sensitivity b.path in
      let m = change_size a.patch in
      let n = change_size b.patch in
      ltb y x || (x == y && (ltb n m || (m == n && path_leb a.path b.path)))

  unfoldable pub insert_file :
      List (String × ℕ) → PullRequestFile → List PullRequestFile → List PullRequestFile
  insert_file sensitivity a [] = a ∷ []
  insert_file sensitivity a (b ∷ bs) =
      let rest = insert_file sensitivity a bs in
      if stands_before sensitivity a b then a ∷ b ∷ bs else b ∷ rest

  -- sorted: of files with one key, the earlier stays first
  unfoldable pub sort_files : List (String × ℕ) → List PullRequestFile → List PullRequestFile
  sort_files sensitivity [] = []
  sort_files sensitivity (a ∷ files) = insert_file sensitivity a (sort_files sensitivity files)

  abbrev pub is_in : String → List String → Bool
  is_in path [] = false
  is_in path (p ∷ ps) = str_eq path p || is_in path ps

  abbrev is_empty_patch : Option String → Bool
  is_empty_patch none = true
  is_empty_patch (some patch) = str_eq patch ""

  -- _classify after the file's own reason; a set that is not given has no paths
  abbrev pub classify_rest :
      (generated_paths ignored_paths : List String) → PullRequestFile → Option OmissionReason
  classify_rest generated_paths ignored_paths file =
      if file.is_binary
      then some binary
      else if is_in file.path generated_paths
      then some generated
      else if is_in file.path ignored_paths
      then some ignored_path
      else if file.is_truncated
      then some patch_truncated_by_github
      else if is_empty_patch file.patch
      then some patch_omitted_by_github
      else none

  unfoldable pub classify :
      (generated_paths ignored_paths : List String) → PullRequestFile → Option OmissionReason
  classify generated_paths ignored_paths file = elim file.omission_reason [
    | some reason ↦ some reason
    | none ↦ classify_rest generated_paths ignored_paths file
  ]

  abbrev pub last_of : ℕ → List ℕ → ℕ
  last_of n [] = n
  last_of n (m ∷ ms) = last_of m ms

  abbrev pub range_of : List ℕ → ℕ × ℕ
  range_of [] = (0, 0)
  range_of (n ∷ ns) = (n, last_of n ns)

  unfoldable pub line_range : String → ℕ × ℕ
  line_range content = range_of (new_side_numbers t content)

  -- the content of a file that is not omitted: its patch is there
  abbrev pub patch_text : Option String → String
  patch_text none = ""
  patch_text (some patch) = patch

  unfoldable pub content_of : PullRequestFile → String
  content_of file = render_hunks t (record {
    path = file.path;
    patch = patch_text file.patch;
    previous_path = file.previous_path;
  })

  abbrev pub omit : PullRequestFile → OmissionReason → OmittedFile
  omit file reason = record {
    path = file.path;
    reason = reason;
    change_size = change_size file.patch;
  }

module _ (t : Text) (count_tokens : String → ℕ) (digest : String → String)
    (generated_paths ignored_paths : List String) where
  abbrev pub item_of : PullRequestFile → ReviewContextItem
  item_of file =
      let content = content_of t file in
      let (line_start, line_end) = line_range t content in
      record {
        file_path = file.path;
        line_start = line_start;
        line_end = line_end;
        content = content;
        content_hash = digest content;
      }

  -- the items and the omitted files
  abbrev pub Packed : Type 0
  Packed = List ReviewContextItem × List OmittedFile

  abbrev pub with_item : ReviewContextItem → Option Packed → Option Packed
  with_item item none = none
  with_item item (some (items, omitted)) = some (item ∷ items, omitted)

  abbrev pub with_omitted : OmittedFile → Option Packed → Option Packed
  with_omitted file none = none
  with_omitted file (some (items, omitted)) = some (items, file ∷ omitted)

  -- the item's validator raises (none) when its lines end before they start
  abbrev pub add_item : ReviewContextItem → Option Packed → Option Packed
  add_item item rest = if ltb item.line_end item.line_start then none else with_item item rest

  -- a file that nothing rules out, against the tokens that remain
  abbrev pub fit : PullRequestFile → (tokens remaining : ℕ) → (ℕ → Option Packed) → Option Packed
  fit file tokens remaining rest =
      if ltb remaining tokens
      then with_omitted (omit t file token_budget) (rest remaining)
      else add_item (item_of file) (rest (remaining - tokens))

  abbrev pub pack_file :
      Option OmissionReason
      → PullRequestFile
      → (remaining : ℕ) → (ℕ → Option Packed)
      → Option Packed
  pack_file (some reason) file remaining rest = with_omitted (omit t file reason) (rest remaining)
  pack_file none file remaining rest = fit file (count_tokens (content_of t file)) remaining rest

  unfoldable pub pack_files : List PullRequestFile → (remaining : ℕ) → Option Packed
  pack_files [] remaining = some ([], [])
  pack_files (file ∷ files) remaining =
      let rest = pack_files files in
      pack_file (classify t generated_paths ignored_paths file) file remaining rest

  abbrev pub total_tokens : List ReviewContextItem → ℕ
  total_tokens = sum_where (λ _. true) (λ item. count_tokens item.content)

  abbrev pub packed_diff : Packed → PackedDiff
  packed_diff (items, omitted) = record {
    items = items;
    included_files = map (λ item. item.file_path) items;
    omitted_files = omitted;
    prompt_tokens = total_tokens items;
    covers_all_changed_files = is_nil omitted;
  }

  abbrev pub finish : Option Packed → Option PackedDiff
  finish none = none
  finish (some p) = some (packed_diff p)

  unfoldable pub pack_diff :
      List PullRequestFile → (tokens : ℕ) → (sensitivity : List (String × ℕ)) → Option PackedDiff
  pack_diff files tokens sensitivity = finish (pack_files (sort_files t sensitivity files) tokens)

-- ContextBudget.from_window: max(window - allowance, 0)
unfoldable pub from_window : (context_window output_allowance : ℕ) → ℕ
from_window context_window output_allowance = context_window - output_allowance
