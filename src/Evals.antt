-- ===== src/Evals.antt =====
-- The evaluation of the reviewer: src/pr_reviewer/evals/match_findings.py (findings against the
-- labels of a case) and evals/regression_gate.py (a run against a baseline). The floats of the
-- metrics are only compared, and are natural numbers on one scale.
pub mod Match
pub mod Gate
pub mod Metrics
use pr_reviewer.Base.{
  refl, [], ◌∷◌, ℕ, List, Bool, String, ◌==◌, ltb, if◌then◌else◌, Option, true, false, ◌&&◌, not,
  ◌++◌, str_eq, ◌||◌, some, none,
}
use pr_reviewer.Notify.{Concern, security, correctness, tests, docs, maintainability}

pub record EvalLabel : Type 0 where
  pub concern : Concern
  pub category : String
  pub file_path : String
  pub line_start : ℕ
  pub line_end : ℕ

-- contracts/finding_candidate.py, the fields that the match reads, and the title
pub record FindingCandidate : Type 0 where
  pub concern : Concern
  pub category : String
  pub file_path : String
  pub line_start : ℕ
  pub line_end : ℕ
  pub title : String

pub record MatchResult : Type 0 where
  pub matched : List (EvalLabel × FindingCandidate)
  pub unmatched_expected : List EvalLabel
  pub unmatched_actual : List FindingCandidate
  pub needs_human_match : Bool

abbrev pub concern_index : Concern → ℕ
concern_index security = 0
concern_index correctness = 1
concern_index tests = 2
concern_index docs = 3
concern_index maintainability = 4

abbrev pub same_concern : Concern → Concern → Bool
same_concern a b = concern_index a == concern_index b

abbrev pub lines_overlap : EvalLabel → FindingCandidate → Bool
lines_overlap left right =
    not (ltb left.line_end right.line_start || ltb right.line_end left.line_start)

-- for index, candidate in enumerate(…): the first hit, popped
unfoldable pub pop_hit {ℓ} : {A : Type ℓ} → (A → Bool) → List A → Option (A × List A)
pop_hit p [] = none
pop_hit p (x ∷ xs) =
    let rest = pop_hit p xs in
    if p x then some (x, xs) else elim rest [ none ↦ none | some (y, ys) ↦ some (y, x ∷ ys) ]

abbrev pub any_of {ℓ} : {A : Type ℓ} → (A → Bool) → List A → Bool
any_of p [] = false
any_of p (x ∷ xs) = p x || any_of p xs

-- Python's str.strip, str.lower and str.replace.
module _ (strip lower : String → String) (replace : String → String → String → String) where
  abbrev pub normalise_category : String → String
  normalise_category value = replace (replace (lower (strip value)) "_" "-") " " "-"

  abbrev pub structural_match : EvalLabel → FindingCandidate → Bool
  structural_match label candidate =
      same_concern label.concern candidate.concern
      && (str_eq label.file_path candidate.file_path
          && (lines_overlap label candidate
              && str_eq (normalise_category label.category)
                  (normalise_category candidate.category)))

  abbrev pub near_miss : EvalLabel → FindingCandidate → Bool
  near_miss label candidate =
      if structural_match label candidate
      then false
      else same_concern label.concern candidate.concern
        && (str_eq (normalise_category label.category) (normalise_category candidate.category)
            && not (str_eq label.file_path candidate.file_path))

  abbrev pub Matching : Type 0
  Matching = List (EvalLabel × FindingCandidate) × List EvalLabel × List FindingCandidate

  -- what one label adds, its hit looked for in the candidates that are left
  abbrev pub place :
      EvalLabel
      → Option (FindingCandidate × List FindingCandidate)
      → List FindingCandidate
      → (List FindingCandidate → Matching)
      → Matching
  place label none remaining rest = let (m, u, r) = rest remaining in (m, label ∷ u, r)
  place label (some (candidate, left)) remaining rest =
      let (m, u, r) = rest left in ((label, candidate) ∷ m, u, r)

  unfoldable pub match_labels : List EvalLabel → List FindingCandidate → Matching
  match_labels [] remaining = ([], [], remaining)
  match_labels (label ∷ labels) remaining =
      let rest = match_labels labels in
      place label (pop_hit (structural_match label) remaining) remaining rest

  unfoldable pub match_findings : List EvalLabel → List FindingCandidate → MatchResult
  match_findings expected actual =
      let (m, u, r) = match_labels expected actual in
      record {
        matched = m;
        unmatched_expected = u;
        unmatched_actual = r;
        needs_human_match = any_of (λ label. any_of (near_miss label) r) u;
      }

pub record EvalMetrics : Type 0 where
  pub precision_per_finding : ℕ
  pub recall_per_finding : ℕ
  pub false_findings_per_pr : ℕ
  pub cost_usd : ℕ
  pub latency_ms : ℕ

pub record EvalThresholds : Type 0 where
  pub min_precision_per_finding : ℕ
  pub max_false_findings_per_pr : ℕ
  pub min_high_value_recall : ℕ
  pub max_cost_usd : ℕ
  pub max_latency_ms : ℕ

pub record GateResult : Type 0 where
  pub passed : Bool
  pub blocked_metrics : List String

-- `if …: blocked.append(…)`
abbrev pub note : Bool → String → List String
note b name = if b then name ∷ [] else []

abbrev pub is_nil {ℓ} : {A : Type ℓ} → List A → Bool
is_nil [] = true
is_nil (x ∷ xs) = false

abbrev pub blocked_by : EvalMetrics → EvalMetrics → EvalThresholds → List String
blocked_by cand base thresholds =
    note
      (ltb cand.precision_per_finding base.precision_per_finding
        || ltb cand.precision_per_finding thresholds.min_precision_per_finding)
      "precision_per_finding"
    ++ (note
          (ltb base.false_findings_per_pr cand.false_findings_per_pr
            || ltb thresholds.max_false_findings_per_pr cand.false_findings_per_pr)
          "false_findings_per_pr"
        ++ (note
              (ltb cand.recall_per_finding base.recall_per_finding
                || ltb cand.recall_per_finding thresholds.min_high_value_recall)
              "high_value_recall"
            ++ (note (ltb base.cost_usd cand.cost_usd || ltb thresholds.max_cost_usd cand.cost_usd)
                  "cost_usd"
                ++ note
                    (ltb base.latency_ms cand.latency_ms
                      || ltb thresholds.max_latency_ms cand.latency_ms)
                    "latency_ms")))

unfoldable pub compare_eval_reports : EvalMetrics → EvalMetrics → EvalThresholds → GateResult
compare_eval_reports cand base thresholds =
    let blocked = blocked_by cand base thresholds in
    record { passed = is_nil blocked; blocked_metrics = blocked }

pub record DriftSnapshot : Type 0 where
  pub rejection_rate : ℕ
  pub dispute_rate : ℕ
  pub no_finding_rate : ℕ
  pub cost_usd : ℕ
  pub latency_ms : ℕ
  pub retrieval_miss_rate : ℕ

unfoldable pub detect_drift : DriftSnapshot → DriftSnapshot → List String
detect_drift current baseline =
    note (ltb baseline.rejection_rate current.rejection_rate) "rejection_rate"
    ++ (note (ltb baseline.dispute_rate current.dispute_rate) "dispute_rate"
        ++ (note (ltb baseline.no_finding_rate current.no_finding_rate) "no_finding_rate"
            ++ (note (ltb baseline.cost_usd current.cost_usd) "cost_usd"
                ++ (note (ltb baseline.latency_ms current.latency_ms) "latency_ms"
                    ++ note (ltb baseline.retrieval_miss_rate current.retrieval_miss_rate)
                        "retrieval_miss_rate"))))
