-- ===== src/Evals/Gate.antt =====
-- The gate lets a run through exactly when nothing is worse, and so does not wear down.
use pr_reviewer.Base.{◌≡◌, ◌≤◌, true, ◌↔◌, arith}
use pr_reviewer.Evals.{compare_eval_reports, EvalMetrics, EvalThresholds}

-- The run is no worse than the baseline and within the thresholds, in all five metrics.
pub record IsNoWorse (cand base : EvalMetrics) (t : EvalThresholds) : Type 0 where
  pub precision :
      (base.precision_per_finding ≤ cand.precision_per_finding)
      × (t.min_precision_per_finding ≤ cand.precision_per_finding)
  pub false_findings :
      (cand.false_findings_per_pr ≤ base.false_findings_per_pr)
      × (cand.false_findings_per_pr ≤ t.max_false_findings_per_pr)
  pub recall :
      (base.recall_per_finding ≤ cand.recall_per_finding)
      × (t.min_high_value_recall ≤ cand.recall_per_finding)
  pub cost : (cand.cost_usd ≤ base.cost_usd) × (cand.cost_usd ≤ t.max_cost_usd)
  pub latency : (cand.latency_ms ≤ base.latency_ms) × (cand.latency_ms ≤ t.max_latency_ms)

passed→IsNoWorse :
    (cand base : EvalMetrics) (t : EvalThresholds)
    → (compare_eval_reports cand base t).passed ≡ true
    → IsNoWorse cand base t
unfolding compare_eval_reports
passed→IsNoWorse cand base t h = record {
  precision = (ground arith, ground arith);
  false_findings = (ground arith, ground arith);
  recall = (ground arith, ground arith);
  cost = (ground arith, ground arith);
  latency = (ground arith, ground arith);
}

IsNoWorse→passed :
    (cand base : EvalMetrics) (t : EvalThresholds)
    → IsNoWorse cand base t
    → (compare_eval_reports cand base t).passed ≡ true
unfolding compare_eval_reports
IsNoWorse→passed cand base t h = ground arith

-- The gate lets a run through exactly when it is no worse than the baseline, and within the
-- thresholds, in precision, false findings, recall, cost and latency.
compare-IsNoWorse :
    (cand base : EvalMetrics) (t : EvalThresholds)
    → ((compare_eval_reports cand base t).passed ≡ true) ↔ IsNoWorse cand base t
compare-IsNoWorse cand base t = (passed→IsNoWorse cand base t, IsNoWorse→passed cand base t)

-- A run that passes against a run that passed against an older baseline passes against that
-- baseline too: under fixed thresholds a chain of releases never ends worse than it began.
compare_trans :
    (a b c : EvalMetrics) (t : EvalThresholds)
    → (compare_eval_reports a b t).passed ≡ true
    → (compare_eval_reports b c t).passed ≡ true
    → (compare_eval_reports a c t).passed ≡ true
compare_trans a b c t h k =
    let x = passed→IsNoWorse a b t h in
    let y = passed→IsNoWorse b c t k in
    IsNoWorse→passed a c t (record {
      precision = omega (arith, x.precision, y.precision);
      false_findings = omega (arith, x.false_findings, y.false_findings);
      recall = omega (arith, x.recall, y.recall);
      cost = omega (arith, x.cost, y.cost);
      latency = omega (arith, x.latency, y.latency);
    })
