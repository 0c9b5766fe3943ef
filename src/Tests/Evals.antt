-- ===== src/Tests/Evals.antt =====
-- Two labels and two findings, of which one pair matches; and three runs, each no worse than the
-- one before it.
use pr_reviewer.Base.{refl, [], ◌∷◌, List, String, ℕ, ◌≡◌, true, length}
use pr_reviewer.Notify.{security, tests}
use pr_reviewer.Evals.{
  EvalLabel, FindingCandidate, EvalMetrics, EvalThresholds, compare_eval_reports, match_findings,
  match_labels, pop_hit,
}
use pr_reviewer.Evals.Match.{IsMatching, match_findings-IsMatching}
use pr_reviewer.Evals.Metrics.{
  compute_metrics, Case, match_cases, ratio, sum_of, compute_metrics-match_findings,
}

abbrev same : String → String
same s = s

abbrev untouched : String → String → String → String
untouched s old new = s

abbrev labels : List EvalLabel
labels =
    record {
      concern = security;
      category = "sql-injection";
      file_path = "a.py";
      line_start = 10;
      line_end = 12;
    }
    ∷ record {
      concern = tests;
      category = "missing";
      file_path = "b.py";
      line_start = 1;
      line_end = 1;
    }
    ∷ []

abbrev candidates : List FindingCandidate
candidates =
    record {
      concern = tests;
      category = "missing";
      file_path = "c.py";
      line_start = 1;
      line_end = 1;
      title = "No test";
    }
    ∷ record {
      concern = security;
      category = "sql-injection";
      file_path = "a.py";
      line_start = 12;
      line_end = 14;
      title = "Injection";
    }
    ∷ []

match_findings-IsMatching_example :
    let x = match_findings same same untouched labels candidates in
    IsMatching same same untouched labels candidates x.matched x.unmatched_expected
      x.unmatched_actual
match_findings-IsMatching_example = match_findings-IsMatching same same untouched labels candidates

near_miss_seen : (match_findings same same untouched labels candidates).needs_human_match ≡ true
unfolding match_findings match_labels pop_hit
near_miss_seen = refl

abbrev with_cost : ℕ → EvalMetrics
with_cost cost = record {
  precision_per_finding = 900;
  recall_per_finding = 800;
  false_findings_per_pr = 100;
  cost_usd = cost;
  latency_ms = 5;
}

abbrev thresholds : EvalThresholds
thresholds = record {
  min_precision_per_finding = 700;
  max_false_findings_per_pr = 300;
  min_high_value_recall = 700;
  max_cost_usd = 50;
  max_latency_ms = 10;
}

second : (compare_eval_reports (with_cost 30) (with_cost 40) thresholds).passed ≡ true
unfolding compare_eval_reports
second = refl

first : (compare_eval_reports (with_cost 40) (with_cost 60) thresholds).passed ≡ true
unfolding compare_eval_reports
first = refl

abbrev quotient : ℕ → ℕ → ℕ × ℕ
quotient a b = (a, b)

abbrev cases : List Case
cases = (labels, candidates) ∷ (labels, []) ∷ []

compute_metrics-match_findings_example :
    let x = compute_metrics (0, 1) quotient (match_cases same same untouched cases) 2 7 (0, 1) in
    (x.precision_per_finding
      ≡ ratio (0, 1) quotient x.useful_finding_count (sum_of (λ (y : Case). length y.1) cases))
    × (x.recall_per_finding
        ≡ ratio (0, 1) quotient x.useful_finding_count (sum_of (λ (y : Case). length y.0) cases))
compute_metrics-match_findings_example =
    compute_metrics-match_findings same same untouched (0, 1) quotient cases 2 7 (0, 1)
