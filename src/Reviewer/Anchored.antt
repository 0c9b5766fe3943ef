-- ===== src/Reviewer/Anchored.antt =====
-- A finding that the review of a packed diff accepts has its place in the pull request: from
-- pack_diff over review_pull_request to the anchor of post_review.
use mathlib.Core.List.{Memᴰ}
use pr_reviewer.Base.{
  refl, List, String, str_eq, ℕ, map, ◌≡◌, some, true, ◌∷◌, [], Bool-cases, count_where, arith, ◌≤◌,
  find_where, inl, ap, inr, sym, Option-cases, some_inj, ◌∙◌, All, none, Option, str_eq_iff,
  All-weaken, All-mem,
}
use pr_reviewer.Packing.{PullRequestFile, Text, ReviewContextItem, FilePatch, PackedDiff}
use pr_reviewer.Reviewer.Review.{
  lines_by_path, candidates_from_parsed, review_pull_request, review_now, after_model, call_model,
  after_heartbeat,
}
use pr_reviewer.Packing.Diff.{patch_text, pack_diff, content_of}
use pr_reviewer.Packing.Hunks.{new_side_numbers, render_hunks}
use pr_reviewer.Posting.{anchor, RoutedFinding}
use pr_reviewer.Reviewer.{Reviewed, reviewed, Str, Snapshot}
use pr_reviewer.Aggregate.{FindingCandidate}
use pr_reviewer.Packing.Made.{IsMade, pack_diff-IsMade}
use pr_reviewer.Reviewer.Selected.{candidates_from_parsed-IsSelection}
use pr_reviewer.Jobs.Runner.{LeaseState, active}
use pr_reviewer.Reviewer.Prompt.{prompt_content}
use pr_reviewer.Reviewer.Changed.{IsChanged}

-- What post_review is given of a file.
abbrev patch_of : Text → PullRequestFile → FilePatch
patch_of t file = record {
  path = file.path;
  patch = patch_text t file.patch;
  previous_path = file.previous_path;
}

abbrev patches_of : Text → List PullRequestFile → List FilePatch
patches_of t = map (patch_of t)

-- Of files with different paths, the patch of a path is found.
find_where-patches_of :
    (t : Text) (path : String) (files : List PullRequestFile) {f : PullRequestFile}
    → Memᴰ f files
    → str_eq f.path path ≡ true
    → count_where (λ x. str_eq x.path path) files ≤ 1
    → find_where (λ p. str_eq p.path path) (patches_of t files) ≡ some (patch_of t f)
find_where-patches_of t path [] i e h = elim i [ ]
find_where-patches_of t path (x ∷ xs) {f} (Memᴰ.head same) e h =
    let first : str_eq x.path path ≡ true = rw same at e in
    rw first (ap (λ y. some (patch_of t y)) (sym same))
find_where-patches_of t path (x ∷ xs) {f} (Memᴰ.tail i) e h =
    elim (Bool-cases (str_eq x.path path)) [
      | inl first ↦ absurd (ground (arith, h, counted xs i))
      | inr other ↦ rw other (find_where-patches_of t path xs i e (ground (arith, h, other)))
    ]
  where
    counted : (ys : List PullRequestFile) → Memᴰ f ys → 1 ≤ count_where (λ y. str_eq y.path path) ys
    counted [] i = elim i [ ]
    counted (y ∷ ys) (Memᴰ.head same) =
        let q : str_eq y.path path ≡ true = rw same at e in ground (arith, q)
    counted (y ∷ ys) (Memᴰ.tail i) = ground (arith, counted ys i)

-- The lines of a path are those of an item with the path.
lines_by_path-some :
    (t : Text) (items : List ReviewContextItem) (path : String) {numbers : List ℕ}
    → lines_by_path t items path ≡ some numbers
    → (i : ReviewContextItem) × Memᴰ i items
      × (str_eq i.file_path path ≡ true)
      × (new_side_numbers t i.content ≡ numbers)
unfolding lines_by_path
lines_by_path-some t [] path h = absurd (ground (arith, h))
lines_by_path-some t (item ∷ items) path {numbers} h =
    elim (Option-cases (lines_by_path t items path)) [
      | inr (ns, z) ↦
          let (i, n, e, q) = lines_by_path-some t items path z in
          let same : ns ≡ numbers = some_inj (rw z at h) in (i, Memᴰ.tail n, e, q ∙ same)
      | inl z ↦ elim (Bool-cases (str_eq item.file_path path)) [
        | inl e ↦ (item, Memᴰ.head refl, e, some_inj (rw (z, e) at h))
        | inr e ↦ absurd (let q : none ≡ some numbers = rw (z, e) at h in ground (arith, q))
      ]
    ]

-- A routed finding, put on the candidate's file and first line, is anchored there.
abbrev pub HasPlace : Text → List PullRequestFile → FindingCandidate → Type 0
HasPlace t files c =
    (f : RoutedFinding)
    → anchor t (render_hunks t) (patches_of t files)
        (record f { file_path = c.file_path; line_start = c.line_start })
      ≡ some (record { path = c.file_path; line = c.line_start; body = f.title })

-- The candidates of a review that returns.
abbrev pub candidates_of : Reviewed → List FindingCandidate
candidates_of (reviewed o) = o.candidates
candidates_of _ = []

module _ (t : Text) (count_tokens : String → ℕ) (digest : String → String)
    (generated_paths ignored_paths : List String) (files : List PullRequestFile)
    (different : (path : String) → count_where (λ f. str_eq f.path path) files ≤ 1) where
  changed-HasPlace :
      (items : List ReviewContextItem) (c : FindingCandidate)
      → All (IsMade t count_tokens digest generated_paths ignored_paths files) items
      → IsChanged t items c
      → HasPlace t files c
  unfolding anchor content_of
  changed-HasPlace items c made h f =
      let (i, n, p, q) = lines_by_path-some t items c.file_path h.shown in
      let (file, m, same) =
        All-mem (IsMade t count_tokens digest generated_paths ignored_paths files) items made n in
      let at_path : str_eq file.path c.file_path ≡ true = rw same at p in
      let found = find_where-patches_of t c.file_path files m at_path (different c.file_path) in
      let read : new_side_numbers t (render_hunks t (patch_of t file)) ≡ h.numbers = rw same at q in
      let is_there = h.lines c.line_start (omega arith) h.ordered.1 in
      let path : file.path ≡ c.file_path = (str_eq_iff file.path c.file_path).0 at_path in
      rw (found, read, is_there, path) refl

  module _ {Raw World : Type 0} (fields : Raw → Option FindingCandidate) (s : Str)
      (complete_json : (prompt_content : String) → World → Option (Option (List Raw)) × World)
      (snapshot : Snapshot) (context : List String) where
    candidates-HasPlace :
        (packed : PackedDiff)
        → All (IsMade t count_tokens digest generated_paths ignored_paths files) packed.items
        → (parsed : Option (List Raw))
        → All (HasPlace t files) (candidates_from_parsed t fields packed.items parsed)
    unfolding candidates_from_parsed
    candidates-HasPlace packed made none = tt
    candidates-HasPlace packed made (some raws) =
        All-weaken (candidates_from_parsed t fields packed.items (some raws))
          (λ c. changed-HasPlace packed.items c made)
          (candidates_from_parsed-IsSelection t fields packed.items raws).changed

    review_pull_request-HasPlace :
        (packed : PackedDiff)
        → All (IsMade t count_tokens digest generated_paths ignored_paths files) packed.items
        → (heartbeat : Option (World → Option LeaseState × World)) (w : World)
        → All (HasPlace t files) (
            candidates_of
              (review_pull_request t fields s complete_json snapshot packed context heartbeat w).0)
    unfolding review_pull_request review_now
    review_pull_request-HasPlace packed made heartbeat w = asked heartbeat
      where
        answered :
            (x : Option (Option (List Raw)) × World)
            → All
                (HasPlace t files)
                (candidates_of (after_model t fields s complete_json snapshot packed context x).0)
        answered (none, v) = tt
        answered (some parsed, v) = candidates-HasPlace packed made parsed

        called :
            (prompt : Option String) (v : World)
            → All (HasPlace t files) (
                candidates_of
                  (call_model t fields s complete_json snapshot packed context prompt v).0)
        called none v = tt
        called (some prompt) v = answered (complete_json prompt v)

        held :
            (x : Option LeaseState × World)
            → All (HasPlace t files) (
                candidates_of
                  (after_heartbeat t fields s complete_json snapshot packed context x).0)
        held (none, v) = tt
        held (some LeaseState.cancelled, v) = tt
        held (some active, v) = called (prompt_content s t snapshot packed context) v
        held (some LeaseState.invalid_or_expired, v) = tt

        asked :
            (h : Option (World → Option LeaseState × World))
            → All (HasPlace t files) (
                candidates_of
                  (review_pull_request t fields s complete_json snapshot packed context h w).0)
        asked none = called (prompt_content s t snapshot packed context) w
        asked (some heartbeat) = held (heartbeat w)

    -- When a diff of files with different paths is packed and reviewed, whatever the model answers,
    -- post_review anchors a finding on the first line of any candidate of the review at that line of
    -- the candidate's file.
    pub pack_diff-review_pull_request :
        (tokens : ℕ) (sensitivity : List (String × ℕ)) (packed : PackedDiff)
        → pack_diff t count_tokens digest generated_paths ignored_paths files tokens sensitivity
          ≡ some packed
        → (heartbeat : Option (World → Option LeaseState × World)) (w : World)
        → All (HasPlace t files) (
            candidates_of
              (review_pull_request t fields s complete_json snapshot packed context heartbeat w).0)
    pack_diff-review_pull_request tokens sensitivity packed h =
        review_pull_request-HasPlace packed (
          pack_diff-IsMade t count_tokens digest generated_paths ignored_paths files tokens
            sensitivity h)
