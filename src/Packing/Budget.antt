-- ===== src/Packing/Budget.antt =====
-- A packed diff keeps to its budget, loses no file, and leaves out none that would still fit.
use pr_reviewer.Packing.{token_budget, PackedDiff}
use pr_reviewer.Base.{
  refl, [], ◌∷◌, String, List, ℕ, count_where, str_eq, Option, ◌≤◌, ◌≡◌, ◌+◌, some, All, none, ◌⊎◌,
  ◌<◌, arith, ◌-◌, subst, inl, inr, Option-cases, str_eq_refl, Bool-cases, ltb, Bool, true, ◌↔◌,
  map, some_inj,
}
use pr_reviewer.Packing.{Text, ReviewContextItem, PullRequestFile, OmittedFile, OmissionReason}
use pr_reviewer.Packing.Diff.{
  pack_files, content_of, total_tokens, classify, omit, item_of, add_item, pack_diff, with_omitted,
  insert_file, finish, sort_files, packed_diff, stands_before,
}
use pr_reviewer.Evals.{is_nil}

module _ (t : Text) (sensitivity : List (String × ℕ)) (p : PullRequestFile → Bool) where
  count_where-insert_file :
      (a : PullRequestFile) (files : List PullRequestFile)
      → count_where p (insert_file t sensitivity a files) ≡ count_where p (a ∷ files)
  unfolding insert_file
  count_where-insert_file a [] = refl
  count_where-insert_file a (b ∷ files) = elim (Bool-cases (stands_before t sensitivity a b)) [
    | inl e ↦ rw e refl
    | inr e ↦ rw e (omega (arith, count_where-insert_file a files))
  ]

  count_where-sort_files :
      (files : List PullRequestFile)
      → count_where p (sort_files t sensitivity files) ≡ count_where p files
  unfolding sort_files
  count_where-sort_files [] = refl
  count_where-sort_files (a ∷ files) = omega (
    arith,
    count_where-insert_file a (sort_files t sensitivity files),
    count_where-sort_files files,
  )

covers : (omitted : List OmittedFile) → (is_nil omitted ≡ true) ↔ (omitted ≡ [])
covers [] = (λ _. refl, λ _. refl)
covers (o ∷ omitted) = (λ h. absurd (ground arith), λ h. absurd (ground arith))

module _ (t : Text) (count_tokens : String → ℕ) (digest : String → String)
    (generated_paths ignored_paths : List String) where
  abbrev verdict : PullRequestFile → Option OmissionReason
  verdict = classify t generated_paths ignored_paths

  abbrev tokens_of : PullRequestFile → ℕ
  tokens_of file = count_tokens (content_of t file)

  abbrev total : List ReviewContextItem → ℕ
  total = total_tokens t count_tokens digest generated_paths ignored_paths

  -- What the loop over `files`, with `remaining` tokens to spend, makes of them.
  pub record IsPacked (files : List PullRequestFile) (remaining : ℕ)
      (items : List ReviewContextItem) (omitted : List OmittedFile) : Type 0 where
    pub within : total items ≤ remaining
    pub complete :
        (path : String)
        → count_where (λ f. str_eq f.path path) files
          ≡ count_where (λ i. str_eq i.file_path path) items
            + count_where (λ o. str_eq o.path path) omitted
    pub maximal :
        All
          (λ f.
            ((reason : OmissionReason) × (verdict f ≡ some reason))
            ⊎ (1 ≤ count_where (λ i. str_eq i.file_path f.path) items)
            ⊎ (remaining < total items + tokens_of f))
          files

  -- A file is left out, for a reason of its own or for want of tokens.
  omitted_step :
      (file : PullRequestFile) (reason : OmissionReason) (files : List PullRequestFile)
      (remaining : ℕ) (items : List ReviewContextItem) (omitted : List OmittedFile)
      → ((r : OmissionReason) × (verdict file ≡ some r)) ⊎ (remaining < tokens_of file)
      → IsPacked files remaining items omitted
      → IsPacked (file ∷ files) remaining items (omit t file reason ∷ omitted)
  omitted_step file reason files remaining items omitted why r = record {
    within = r.within;
    complete = λ path. omega (arith, r.complete path);
    maximal = (
      elim why [ inl ruled ↦ inl ruled | inr short ↦ inr (inr (omega (arith, short))) ],
      r.maximal,
    );
  }

  more_items :
      (item : ReviewContextItem) (tokens remaining : ℕ) (items : List ReviewContextItem)
      (files : List PullRequestFile)
      → tokens ≤ remaining
      → count_tokens item.content ≡ tokens
      → All
          (λ f.
            ((reason : OmissionReason) × (verdict f ≡ some reason))
            ⊎ (1 ≤ count_where (λ i. str_eq i.file_path f.path) items)
            ⊎ (remaining - tokens < total items + tokens_of f))
          files
      → All
          (λ f.
            ((reason : OmissionReason) × (verdict f ≡ some reason))
            ⊎ (1 ≤ count_where (λ i. str_eq i.file_path f.path) (item ∷ items))
            ⊎ (remaining < total (item ∷ items) + tokens_of f))
          files
  more_items item tokens remaining items [] le e h = tt
  more_items item tokens remaining items (f ∷ files) le e h = (
    elim h.0 [
      | inl ruled ↦ inl ruled
      | inr (inl k) ↦ inr (inl (omega (arith, k)))
      | inr (inr k) ↦ inr (inr (omega (arith, k, le, e)))
    ],
    more_items item tokens remaining items files le e h.1,
  )

  item_step :
      (file : PullRequestFile) (files : List PullRequestFile) (remaining : ℕ)
      (items : List ReviewContextItem) (omitted : List OmittedFile)
      → tokens_of file ≤ remaining
      → IsPacked files (remaining - tokens_of file) items omitted
      → IsPacked
          (file ∷ files)
          remaining
          (item_of t count_tokens digest generated_paths ignored_paths file ∷ items)
          omitted
  item_step file files remaining items omitted le r = record {
    within = omega (arith, r.within, le);
    complete = λ path. omega (arith, r.complete path);
    maximal = (
      inr (inl (ground (arith, str_eq_refl file.path))),
      more_items (item_of t count_tokens digest generated_paths ignored_paths file) (tokens_of file)
          remaining items files le refl r.maximal,
    );
  }

  pub omitted_some :
      (o : OmittedFile) (x : Option (List ReviewContextItem × List OmittedFile))
      {items : List ReviewContextItem} {omitted : List OmittedFile}
      → with_omitted t count_tokens digest generated_paths ignored_paths o x ≡ some (items, omitted)
      → (k : List OmittedFile) × (x ≡ some (items, k)) × (o ∷ k ≡ omitted)
  omitted_some o none h = absurd (ground arith)
  omitted_some o (some (i, k)) {items} {omitted} h =
      let q : i ≡ items = ground arith in (k, rw q refl, ground arith)

  pub item_some :
      (item : ReviewContextItem) (x : Option (List ReviewContextItem × List OmittedFile))
      {items : List ReviewContextItem} {omitted : List OmittedFile}
      → add_item t count_tokens digest generated_paths ignored_paths item x ≡ some (items, omitted)
      → (k : List ReviewContextItem) × (x ≡ some (k, omitted)) × (item ∷ k ≡ items)
  item_some item none h = absurd (ground arith)
  item_some item (some (i, k)) {items} {omitted} h =
      let q : k ≡ omitted = ground arith in (i, rw q refl, ground arith)

  pack_files-IsPacked :
      (files : List PullRequestFile) (remaining : ℕ) {items : List ReviewContextItem}
      {omitted : List OmittedFile}
      → pack_files t count_tokens digest generated_paths ignored_paths files remaining
        ≡ some (items, omitted)
      → IsPacked files remaining items omitted
  unfolding pack_files
  pack_files-IsPacked [] remaining {items} {omitted} h =
      let a : [] ≡ items = ground arith in
      let b : [] ≡ omitted = ground arith in
      subst (λ x. IsPacked [] remaining x omitted) a
        (subst (IsPacked [] remaining []) b
          (record { within = omega arith; complete = λ path. omega arith; maximal = tt }))
  pack_files-IsPacked (file ∷ files) remaining {items} {omitted} h =
      let go = pack_files t count_tokens digest generated_paths ignored_paths files in
      elim (Option-cases (verdict file)) [
        | inr (reason, e) ↦
            let (o, f, q) = omitted_some (omit t file reason) (go remaining) (rw e at h) in
            subst (IsPacked (file ∷ files) remaining items) q (
              omitted_step file reason files remaining items o (inl (reason, e))
                (pack_files-IsPacked files remaining f))
        | inl e ↦ elim (Bool-cases (ltb remaining (tokens_of file))) [
          | inl l ↦
              let (o, f, q) =
                omitted_some (omit t file token_budget) (go remaining) (rw (e, l) at h) in
              subst (IsPacked (file ∷ files) remaining items) q (
                omitted_step file token_budget files remaining items o (inr (ground arith))
                  (pack_files-IsPacked files remaining f))
          | inr l ↦
              let item = item_of t count_tokens digest generated_paths ignored_paths file in
              let (i, f, q) = item_some item (go (remaining - tokens_of file)) (rw (e, l) at h) in
              subst (λ x. IsPacked (file ∷ files) remaining x omitted) q
                (item_step file files remaining i omitted (ground arith)
                  (pack_files-IsPacked files (remaining - tokens_of file) f))
        ]
      ]

  pub finish-some :
      (x : Option (List ReviewContextItem × List OmittedFile)) {p : PackedDiff}
      → finish t count_tokens digest generated_paths ignored_paths x ≡ some p
      → (y : List ReviewContextItem × List OmittedFile) × (x ≡ some y)
        × (packed_diff t count_tokens digest generated_paths ignored_paths y ≡ p)
  finish-some none h = absurd (ground arith)
  finish-some (some y) h = (y, refl, some_inj h)

  -- When a diff is packed, its items take no more tokens than the budget, and the prompt's tokens
  -- are theirs; every file that was given is an item or is listed as omitted, as often as it was
  -- given; the diff covers all files exactly when none is omitted; and a file that was left out
  -- though nothing ruled it out would not fit into the tokens that are left.
  pub pack_diff-IsPacked :
      (files : List PullRequestFile) (tokens : ℕ) (sensitivity : List (String × ℕ)) {p : PackedDiff}
      → pack_diff t count_tokens digest generated_paths ignored_paths files tokens sensitivity
        ≡ some p
      → IsPacked (sort_files t sensitivity files) tokens p.items p.omitted_files
        × (p.prompt_tokens ≡ total p.items)
        × (p.included_files ≡ map (λ i. i.file_path) p.items)
        × ((p.covers_all_changed_files ≡ true) ↔ (p.omitted_files ≡ []))
        × ((path : String)
            → count_where (λ f. str_eq f.path path) (sort_files t sensitivity files)
              ≡ count_where (λ f. str_eq f.path path) files)
  unfolding pack_diff
  pack_diff-IsPacked files tokens sensitivity {p} h =
      let ((items, omitted), f, q) =
        finish-some
          (pack_files t count_tokens digest generated_paths ignored_paths
            (sort_files t sensitivity files) tokens)
          h in
      let r = pack_files-IsPacked (sort_files t sensitivity files) tokens f in
      rw (← q) (
        r,
        refl,
        refl,
        covers omitted,
        λ path. count_where-sort_files t sensitivity (λ f. str_eq f.path path) files,
      )
