-- ===== src/Evals/Match.antt =====
-- The match is a partition of the labels and of the findings, and leaves no match unmade.
use pr_reviewer.Base.{
  refl, [], ◌∷◌, Bool, List, ◌≡◌, none, true, some, arith, count_where, All, if◌then◌else◌, false,
  ◌+◌, Bool-cases, inl, inr, Option-cases, subst, String,
}
use pr_reviewer.Evals.{
  pop_hit, match_findings, match_labels, EvalLabel, FindingCandidate, structural_match,
}

module _ {A : Type 0} (p : A → Bool) where
  pop_hit-none : (xs : List A) → pop_hit p xs ≡ none → All (λ x. p x ≡ false) xs
  unfolding pop_hit
  pop_hit-none [] h = tt
  pop_hit-none (x ∷ xs) h = elim (Bool-cases (p x)) [
    | inl e ↦ absurd (ground arith)
    | inr e ↦ elim (Option-cases (pop_hit p xs)) [
      | inl q ↦ (e, pop_hit-none xs q)
      | inr ((y, ys), q) ↦ absurd (ground arith)
    ]
  ]

  -- What is popped passes, and it and the rest are the list.
  record IsPopped (xs : List A) (y : A) (ys : List A) : Type 1 where
    passes : p y ≡ true
    counts : (q : A → Bool) → count_where q xs ≡ (if q y then 1 else 0) + count_where q ys
    keeps : (P : A → Type 0) → All P xs → All P ys

  pop_hit-IsPopped :
      (xs : List A) {y : A} {ys : List A} → pop_hit p xs ≡ some (y, ys) → IsPopped xs y ys
  unfolding pop_hit
  pop_hit-IsPopped [] h = absurd (ground arith)
  pop_hit-IsPopped (x ∷ xs) {y} {ys} h = elim (Bool-cases (p x)) [
    | inl e ↦
        let a : x ≡ y = ground arith in
        let b : xs ≡ ys = ground arith in
        record {
          passes = rw (← a) e;
          counts = λ q. rw (← a, ← b) refl;
          keeps = λ P k. subst (All P) b k.1;
        }
    | inr e ↦ elim (Option-cases (pop_hit p xs)) [
      | inl q ↦ absurd (ground arith)
      | inr ((z, zs), q) ↦
          let a : z ≡ y = ground arith in
          let b : x ∷ zs ≡ ys = ground arith in
          let r = pop_hit-IsPopped xs q in
          record {
            passes = rw (← a) r.passes;
            counts = λ t. rw (← a, ← b) (omega (arith, r.counts t));
            keeps = λ P k. subst (All P) b (k.0, r.keeps P k.1);
          }
    ]
  ]

module _ (strip lower : String → String) (replace : String → String → String → String) where
  abbrev hits : EvalLabel → FindingCandidate → Bool
  hits = structural_match strip lower replace

  -- What the loop over the labels makes of the candidates that are left: every label and every
  -- candidate is in one place, a pair is a match, and no label that is left matches a candidate
  -- that is left.
  pub record IsMatching (expected : List EvalLabel) (actual : List FindingCandidate)
      (m : List (EvalLabel × FindingCandidate)) (u : List EvalLabel) (r : List FindingCandidate)
      : Type 1 where
    pub labels :
        (q : EvalLabel → Bool)
        → count_where q expected ≡ count_where (λ x. q x.0) m + count_where q u
    pub candidates :
        (q : FindingCandidate → Bool)
        → count_where q actual ≡ count_where (λ x. q x.1) m + count_where q r
    pub pairs : All (λ x. hits x.0 x.1 ≡ true) m
    pub left : All (λ label. All (λ candidate. hits label candidate ≡ false) r) u
    keeps : (P : FindingCandidate → Type 0) → All P actual → All P r

  IsMatching-match_labels :
      (expected : List EvalLabel) (actual : List FindingCandidate)
      → let x = match_labels strip lower replace expected actual in
        IsMatching expected actual x.0 x.1 x.2
  unfolding match_labels
  IsMatching-match_labels [] actual = record {
    labels = λ q. refl;
    candidates = λ q. omega arith;
    pairs = tt;
    left = tt;
    keeps = λ P k. k;
  }
  IsMatching-match_labels (l ∷ ls) actual = elim (Option-cases (pop_hit (hits l) actual)) [
    | inl e ↦
        let r = IsMatching-match_labels ls actual in
        rw e (record {
          labels = λ q. omega (arith, r.labels q);
          candidates = r.candidates;
          pairs = r.pairs;
          left = (r.keeps (λ c. hits l c ≡ false) (pop_hit-none (hits l) actual e), r.left);
          keeps = r.keeps;
        })
    | inr ((c, rest), e) ↦
        let r = IsMatching-match_labels ls rest in
        let p = pop_hit-IsPopped (hits l) actual e in
        rw e (record {
          labels = λ q. omega (arith, r.labels q);
          candidates = λ q. omega (arith, p.counts q, r.candidates q);
          pairs = (p.passes, r.pairs);
          left = r.left;
          keeps = λ P k. r.keeps P (p.keeps P k);
        })
  ]

  -- The match puts every label and every finding in one place: each is in one pair or unmatched,
  -- every pair is a structural match, and no unmatched label matches an unmatched finding.
  pub match_findings-IsMatching :
      (expected : List EvalLabel) (actual : List FindingCandidate)
      → let x = match_findings strip lower replace expected actual in
        IsMatching expected actual x.matched x.unmatched_expected x.unmatched_actual
  unfolding match_findings
  match_findings-IsMatching expected actual = IsMatching-match_labels expected actual
