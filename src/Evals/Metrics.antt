-- ===== src/Evals/Metrics.antt =====
-- evals/metrics.py: the figures of a run, from the matches of its cases. `divide` is Python's
-- division into a float and `nil` its 0.0. The fields that are constants are left out.
use pr_reviewer.Base.{
  refl, [], ◌∷◌, List, String, ℕ, Bool, not, ◌+◌, ◌≡◌, map, count_where, if◌then◌else◌, length,
  true, ◌==◌, ◌||◌, arith, ◌&&◌,
}
use pr_reviewer.Evals.{EvalLabel, FindingCandidate, MatchResult, match_findings, is_nil}
use pr_reviewer.Evals.Match.{match_findings-IsMatching}

abbrev pub sum_of {ℓ} : {A : Type ℓ} → (A → ℕ) → List A → ℕ
sum_of f [] = 0
sum_of f (x ∷ xs) = f x + sum_of f xs

abbrev pub case_is_precise : MatchResult → Bool
case_is_precise result =
    not (is_nil result.matched) && (is_nil result.unmatched_actual && not result.needs_human_match)

abbrev pub case_is_recalled : MatchResult → Bool
case_is_recalled result =
    not (is_nil result.matched)
    && (is_nil result.unmatched_expected && not result.needs_human_match)

pub record Figures (F : Type 0) : Type 0 where
  pub precision_per_finding : F
  pub precision_per_case : F
  pub recall_per_finding : F
  pub recall_per_case : F
  pub false_findings_per_pr : F
  pub selectivity : F
  pub needs_human_rate : F
  pub latency_ms : ℕ
  pub cost_usd : F
  pub reviewed_pr_count : ℕ
  pub useful_finding_count : ℕ

module _ {F : Type 0} (nil : F) (divide : ℕ → ℕ → F) where
  abbrev pub ratio : ℕ → ℕ → F
  ratio numerator denominator = if denominator == 0 then nil else divide numerator denominator

  unfoldable pub compute_metrics : List MatchResult → ℕ → ℕ → F → Figures F
  compute_metrics results reviewed_pr_count latency_ms cost_usd =
      let true_positives = sum_of (λ r. length r.matched) results in
      let predicted = sum_of (λ r. length r.matched + length r.unmatched_actual) results in
      let expected = sum_of (λ r. length r.matched + length r.unmatched_expected) results in
      let false_findings = sum_of (λ r. length r.unmatched_actual) results in
      let case_count = length results in
      record {
        precision_per_finding = ratio true_positives predicted;
        precision_per_case = ratio (count_where case_is_precise results) case_count;
        recall_per_finding = ratio true_positives expected;
        recall_per_case = ratio (count_where case_is_recalled results) case_count;
        false_findings_per_pr = ratio false_findings reviewed_pr_count;
        selectivity =
            ratio
              (count_where (λ r. not (is_nil r.matched) || not (is_nil r.unmatched_actual)) results)
              case_count;
        needs_human_rate = ratio (count_where (λ r. r.needs_human_match) results) case_count;
        latency_ms = latency_ms;
        cost_usd = cost_usd;
        reviewed_pr_count = reviewed_pr_count;
        useful_finding_count = true_positives;
      }

count_all : {A : Type 0} (xs : List A) → count_where (λ _. true) xs ≡ length xs
count_all [] = refl
count_all (x ∷ xs) = omega (arith, count_all xs)

-- A case: the labels that are expected and the findings that were made.
abbrev pub Case : Type 0
Case = List EvalLabel × List FindingCandidate

module _ (strip lower : String → String) (replace : String → String → String → String) where
  abbrev pub match_cases : List Case → List MatchResult
  match_cases cases = map (λ x. match_findings strip lower replace x.0 x.1) cases

  sum_predicted :
      (cases : List Case)
      → sum_of
          (λ (r : MatchResult). length r.matched + length r.unmatched_actual)
          (match_cases cases)
        ≡ sum_of (λ (x : Case). length x.1) cases
  sum_predicted [] = refl
  sum_predicted (x ∷ xs) =
      let r = match_findings strip lower replace x.0 x.1 in
      omega (
        arith,
        (match_findings-IsMatching strip lower replace x.0 x.1).candidates (λ _. true),
        count_all x.1,
        count_all r.matched,
        count_all r.unmatched_actual,
        sum_predicted xs,
      )

  sum_expected :
      (cases : List Case)
      → sum_of
          (λ (r : MatchResult). length r.matched + length r.unmatched_expected)
          (match_cases cases)
        ≡ sum_of (λ (x : Case). length x.0) cases
  sum_expected [] = refl
  sum_expected (x ∷ xs) =
      let r = match_findings strip lower replace x.0 x.1 in
      omega (
        arith,
        (match_findings-IsMatching strip lower replace x.0 x.1).labels (λ _. true),
        count_all x.0,
        count_all r.matched,
        count_all r.unmatched_expected,
        sum_expected xs,
      )

  -- Over the matches of any cases, precision divides the useful findings by the findings that were
  -- made, and recall divides them by the labels that were expected.
  pub compute_metrics-match_findings :
      {F : Type 0} (nil : F) (divide : ℕ → ℕ → F) (cases : List Case) (prs ms : ℕ) (cost : F)
      → let x = compute_metrics nil divide (match_cases cases) prs ms cost in
        (x.precision_per_finding
          ≡ ratio nil divide x.useful_finding_count (sum_of (λ (y : Case). length y.1) cases))
        × (x.recall_per_finding
            ≡ ratio nil divide x.useful_finding_count (sum_of (λ (y : Case). length y.0) cases))
  unfolding compute_metrics
  compute_metrics-match_findings nil divide cases prs ms cost =
      (rw (sum_predicted cases) refl, rw (sum_expected cases) refl)
