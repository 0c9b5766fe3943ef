-- ===== src/Reviewer/Selected.antt =====
-- The findings that are selected from a model's answer.
use mathlib.Core.List.{Memᴰ}
use pr_reviewer.Base.{
  refl, List, ℕ, Option, ◌+◌, Bool, ◌≡◌, some, true, length, ◌<◌, ◌≤◌, count_where, arith, All, ◌⊎◌,
  Bool-cases, inl, inr, Option-cases, false, ◌∷◌, subst, ap, [], some_inj, sym, ◌∙◌, leb,
  first_or_rest,
}
use pr_reviewer.Reviewer.Review.{
  Key, key_eq, if_valid, select_from, key_of, in_changed_diff, max_finding_drafts, is_seen,
  candidates_from_parsed,
}
use pr_reviewer.Packing.{Text, ReviewContextItem}
use pr_reviewer.Aggregate.{FindingCandidate}
use pr_reviewer.Reviewer.Changed.{IsChanged, draft-IsChanged, seen_apart, key_eq_refl}

abbrev with_key : Key → FindingCandidate → Bool
with_key k c = key_eq k (key_of c)

module _ (t : Text) {Raw : Type 0} (fields : Raw → Option FindingCandidate)
    (items : List ReviewContextItem) where
  -- What is selected from the findings, with so many taken and some keys seen before: no more than
  -- the limit, each key at most once and none that was seen, all on changed lines; and a valid
  -- finding on changed lines is left out only when its key was seen or the limit is reached.
  pub record IsSelection (raws : List Raw) (taken : ℕ) (seen : List Key)
      (cs : List FindingCandidate) : Type 0 where
    pub few : taken + length cs ≤ max_finding_drafts
    pub distinct : (k : Key) → count_where (with_key k) cs ≤ 1
    pub fresh : (k : Key) → is_seen k seen ≡ true → count_where (with_key k) cs ≡ 0
    pub changed : All (IsChanged t items) cs
    pub complete :
        (raw : Raw)
        → Memᴰ raw raws
        → (c : FindingCandidate) → if_valid (fields raw) ≡ some c
        → in_changed_diff t items c ≡ true
        → (taken + length cs ≡ max_finding_drafts)
          ⊎ (is_seen (key_of c) seen ≡ true)
          ⊎ (1 ≤ count_where (with_key (key_of c)) cs)

  -- The statement of `complete` for one finding.
  abbrev Complete : (taken : ℕ) (seen : List Key) (cs : List FindingCandidate) → Raw → Type 0
  Complete taken seen cs raw =
      (c : FindingCandidate)
      → if_valid (fields raw) ≡ some c
      → in_changed_diff t items c ≡ true
      → (taken + length cs ≡ max_finding_drafts)
        ⊎ (is_seen (key_of c) seen ≡ true)
        ⊎ (1 ≤ count_where (with_key (key_of c)) cs)

  skipped :
      (raw : Raw) (raws : List Raw) (taken : ℕ) (seen : List Key) (cs : List FindingCandidate)
      → Complete taken seen cs raw
      → IsSelection raws taken seen cs
      → IsSelection (raw ∷ raws) taken seen cs
  skipped raw raws taken seen cs h r = record {
    few = r.few;
    distinct = r.distinct;
    fresh = r.fresh;
    changed = r.changed;
    complete = first_or_rest (Complete taken seen cs) raw raws h r.complete;
  }

  -- The last one that is taken.
  selected_last :
      (raws : List Raw) (taken : ℕ) (seen : List Key) (d : FindingCandidate)
      → taken + 1 ≡ max_finding_drafts
      → is_seen (key_of d) seen ≡ false
      → IsChanged t items d
      → IsSelection raws taken seen (d ∷ [])
  selected_last raws taken seen d full new changed = record {
    few = omega (arith, full);
    distinct = λ k. ground arith;
    fresh = λ k h. ground (arith, seen_apart k (key_of d) seen h new);
    changed = (changed, tt);
    complete = λ raw i c v k. inl (omega (arith, full));
  }

  selected_more :
      (raw : Raw) (raws : List Raw) (taken : ℕ) (seen : List Key) (d : FindingCandidate)
      (cs : List FindingCandidate)
      → if_valid (fields raw) ≡ some d
      → is_seen (key_of d) seen ≡ false
      → IsChanged t items d
      → IsSelection raws (taken + 1) (key_of d ∷ seen) cs
      → IsSelection (raw ∷ raws) taken seen (d ∷ cs)
  selected_more raw raws taken seen d cs valid new changed r = record {
    few = omega (arith, r.few);
    distinct = λ k. elim (Bool-cases (key_eq k (key_of d))) [
      | inl e ↦ ground (arith, r.fresh k (ground (arith, e)))
      | inr e ↦ ground (arith, r.distinct k, e)
    ];
    fresh =
        λ k h. ground (arith, seen_apart k (key_of d) seen h new, r.fresh k (ground (arith, h)));
    changed = (changed, r.changed);
    complete =
        first_or_rest (Complete taken seen (d ∷ cs)) raw raws
          (λ c v k.
            let same : d ≡ c = some_inj (sym valid ∙ v) in
            inr (
              inr (
                subst (λ x. 1 ≤ count_where (with_key (key_of x)) (d ∷ cs)) same
                  (ground (arith, key_eq_refl (key_of d))))))
          (λ x i c v k. elim (r.complete x i c v k) [
            | inl full ↦ inl (omega (arith, full))
            | inr (inl s) ↦ elim (Bool-cases (key_eq (key_of c) (key_of d))) [
              | inl e ↦ inr (inr (ground (arith, e)))
              | inr e ↦ inr (inl (ground (arith, s, e)))
            ]
            | inr (inr n) ↦ inr (inr (ground (arith, n)))
          ]);
  }

  select_from-IsSelection :
      (raws : List Raw) (taken : ℕ) (seen : List Key)
      → taken < max_finding_drafts
      → IsSelection raws taken seen (select_from t fields items raws taken seen)
  unfolding select_from
  select_from-IsSelection [] taken seen h = record {
    few = omega (arith, h);
    distinct = λ k. omega arith;
    fresh = λ k e. refl;
    changed = tt;
    complete = λ raw i. elim i [ ];
  }
  select_from-IsSelection (raw ∷ raws) taken seen h =
      let go = select_from t fields items raws in
      let same = select_from-IsSelection raws taken seen h in
      elim (Option-cases (if_valid (fields raw))) [
        | inl z ↦ rw z (skipped raw raws taken seen (go taken seen) (λ c v k. absurd cc) same)
        | inr (d, z) ↦ elim (Bool-cases (in_changed_diff t items d)) [
          | inr e ↦
              rw (z, e)
                (skipped raw raws taken seen (go taken seen)
                  (λ c v k.
                    absurd (let q = ap (in_changed_diff t items) (some_inj (sym z ∙ v)) in cc))
                  same)
          | inl e ↦ elim (Bool-cases (is_seen (key_of d) seen)) [
            | inl f ↦
                rw (z, e, f)
                  (skipped raw raws taken seen (go taken seen)
                    (λ c v k.
                      inr (
                        inl (subst (λ x. is_seen (key_of x) seen ≡ true) (some_inj (sym z ∙ v)) f)))
                    same)
            | inr f ↦
                let changed = draft-IsChanged t fields items raw d z e in
                elim (Bool-cases (leb max_finding_drafts (taken + 1))) [
                  | inl l ↦
                      rw (z, e, f, l)
                        (selected_last (raw ∷ raws) taken seen d (ground (arith, h, l)) f changed)
                  | inr l ↦
                      rw (z, e, f, l)
                        (selected_more raw raws taken seen d (go (taken + 1) (key_of d ∷ seen)) z f
                          changed
                          (select_from-IsSelection raws (taken + 1) (key_of d ∷ seen)
                            (ground (arith, l))))
                ]
          ]
        ]
      ]

  -- The candidates of a model's answer: at most 32, no two of one file, lines and title, all of
  -- them on changed lines of a packed file; and a valid finding on changed lines is left out only
  -- when one with its file, lines and title is there or the 32 are reached.
  pub candidates_from_parsed-IsSelection :
      (raws : List Raw) → IsSelection raws 0 [] (candidates_from_parsed t fields items (some raws))
  unfolding candidates_from_parsed
  candidates_from_parsed-IsSelection raws = select_from-IsSelection raws 0 [] (omega arith)
