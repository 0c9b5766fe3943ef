-- ===== src/Packing/Made.antt =====
-- The items of a packed diff are made of the files that were given.
use mathlib.Core.List.{Memᴰ}
use pr_reviewer.Packing.{
  token_budget, Text, PullRequestFile, PackedDiff, ReviewContextItem, OmittedFile,
}
use pr_reviewer.Base.{
  refl, List, String, ℕ, ◌∷◌, ◌≡◌, Bool-cases, [], some, All, inl, inr, arith, subst, Option-cases,
  ltb, ◌-◌, mem-under, mem-cons,
}
use pr_reviewer.Packing.Diff.{
  sort_files, pack_files, insert_file, pack_diff, stands_before, item_of, content_of, classify,
  omit,
}
use pr_reviewer.Packing.Budget.{finish-some, omitted_some, item_some}

module _ (t : Text) (sensitivity : List (String × ℕ)) where
  mem-insert_file :
      (a : PullRequestFile) (files : List PullRequestFile) {f : PullRequestFile}
      → Memᴰ f (insert_file t sensitivity a files)
      → Memᴰ f (a ∷ files)
  unfolding insert_file
  mem-insert_file a [] i = i
  mem-insert_file a (b ∷ bs) i = elim (Bool-cases (stands_before t sensitivity a b)) [
    | inl e ↦ rw e at i
    | inr e ↦ past (rw e at i) (λ m. mem-insert_file a bs m)
  ]
    where
      past :
          {f : PullRequestFile}
          → Memᴰ f (b ∷ insert_file t sensitivity a bs)
          → (Memᴰ f (insert_file t sensitivity a bs) → Memᴰ f (a ∷ bs))
          → Memᴰ f (a ∷ b ∷ bs)
      past (Memᴰ.head e) go = Memᴰ.tail (Memᴰ.head e)
      past (Memᴰ.tail m) go = mem-under bs (go m)

  mem-sort_files :
      (files : List PullRequestFile) {f : PullRequestFile}
      → Memᴰ f (sort_files t sensitivity files)
      → Memᴰ f files
  unfolding sort_files
  mem-sort_files [] i = i
  mem-sort_files (a ∷ files) i =
      mem-cons (sort_files t sensitivity files) files (mem-sort_files files)
        (mem-insert_file a (sort_files t sensitivity files) i)

module _ (t : Text) (count_tokens : String → ℕ) (digest : String → String)
    (generated_paths ignored_paths : List String) where
  -- The item is made of one of the files.
  abbrev pub IsMade : List PullRequestFile → ReviewContextItem → Type 0
  IsMade files i =
      (f : PullRequestFile) × Memᴰ f files
      × (i ≡ item_of t count_tokens digest generated_paths ignored_paths f)

  pack_files-IsMade :
      (given files : List PullRequestFile) (remaining : ℕ) {items : List ReviewContextItem}
      {omitted : List OmittedFile}
      → ((f : PullRequestFile) → Memᴰ f files → Memᴰ f given)
      → pack_files t count_tokens digest generated_paths ignored_paths files remaining
        ≡ some (items, omitted)
      → All (IsMade given) items
  unfolding pack_files
  pack_files-IsMade given [] remaining {items} sub h =
      let q : [] ≡ items = ground arith in subst (All (IsMade given)) q tt
  pack_files-IsMade given (file ∷ files) remaining {items} sub h =
      let go = pack_files t count_tokens digest generated_paths ignored_paths files in
      let tokens = count_tokens (content_of t file) in
      elim (Option-cases (classify t generated_paths ignored_paths file)) [
        | inr (reason, e) ↦
            let (o, f, q) =
              omitted_some t count_tokens digest generated_paths ignored_paths (omit t file reason)
                (go remaining) (rw e at h) in
            pack_files-IsMade given files remaining (λ x i. sub x (Memᴰ.tail i)) f
        | inl e ↦ elim (Bool-cases (ltb remaining tokens)) [
          | inl l ↦
              let (o, f, q) =
                omitted_some t count_tokens digest generated_paths ignored_paths
                  (omit t file token_budget) (go remaining) (rw (e, l) at h) in
              pack_files-IsMade given files remaining (λ x i. sub x (Memᴰ.tail i)) f
          | inr l ↦
              let item = item_of t count_tokens digest generated_paths ignored_paths file in
              let (i, f, q) =
                item_some t count_tokens digest generated_paths ignored_paths item
                  (go (remaining - tokens)) (rw (e, l) at h) in
              subst (All (IsMade given)) q (
                (file, sub file (Memᴰ.head refl), refl),
                pack_files-IsMade given files (remaining - tokens) (λ x n. sub x (Memᴰ.tail n)) f,
              )
        ]
      ]

  pub pack_diff-IsMade :
      (files : List PullRequestFile) (tokens : ℕ) (sensitivity : List (String × ℕ)) {p : PackedDiff}
      → pack_diff t count_tokens digest generated_paths ignored_paths files tokens sensitivity
        ≡ some p
      → All (IsMade files) p.items
  unfolding pack_diff
  pack_diff-IsMade files tokens sensitivity h =
      let (y, e, q) =
        finish-some t count_tokens digest generated_paths ignored_paths
          (pack_files t count_tokens digest generated_paths ignored_paths
            (sort_files t sensitivity files) tokens)
          h in
      subst (λ d. All (IsMade files) d.items) q
        (pack_files-IsMade files (sort_files t sensitivity files) tokens
          (λ x i. mem-sort_files t sensitivity files i) e)
