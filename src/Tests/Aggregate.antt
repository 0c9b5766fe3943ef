-- ===== src/Tests/Aggregate.antt =====
-- Two specialists that find one leak, on lines that overlap.
use mathlib.Core.List.{Memᴰ}
use pr_reviewer.Aggregate.{FindingCandidate, place, normalise_category}
use pr_reviewer.Base.{refl, [], ◌∷◌, List, String, ◌≡◌, All, ℕ}
use pr_reviewer.Aggregate.{
  aggregate_findings, Words, sort_findings, insert_finding, place_all, merged, pick_representative,
  better, insert_entry, cluster_overlaps,
}
use pr_reviewer.Notify.{high, Severity, low}
use pr_reviewer.Aggregate.Covers.{Covers, IsOneOf}
use pr_reviewer.Tests.Packing.{unlines}
use pr_reviewer.Aggregate.Merged.{aggregate_findings-Covers}

abbrev pub words : Words
words = record {
  casefold = λ s. s;
  with_dashes = λ s. s;
  split = λ s. s ∷ [];
  join = unlines;
  padded = λ n. "";
}

abbrev found_on : (line_start line_end : ℕ) → Severity → List String → FindingCandidate
found_on line_start line_end severity evidence = record {
  severity = severity;
  category = "leak";
  file_path = "a.py";
  line_start = line_start;
  line_end = line_end;
  title = "leak";
  rationale = "kept open";
  evidence = evidence;
}

abbrev leaks : List FindingCandidate
leaks = found_on 4 6 high ("open" ∷ []) ∷ found_on 2 5 low ("close" ∷ []) ∷ []

leaks_merged :
    aggregate_findings words leaks "octo/repo" "head"
    ≡ found_on 2 6 high ("close" ∷ "open" ∷ []) ∷ []
unfolding aggregate_findings sort_findings insert_finding place_all place merged pick_representative
    better insert_entry normalise_category cluster_overlaps
leaks_merged = refl

aggregate_findings-Covers_example :
    ((m : FindingCandidate) × Memᴰ m (aggregate_findings words leaks "octo/repo" "head")
      × Covers words m (found_on 4 6 high ("open" ∷ [])))
    × All
        (λ m. (y : FindingCandidate) × Memᴰ y leaks × IsOneOf m y)
        (aggregate_findings words leaks "octo/repo" "head")
aggregate_findings-Covers_example =
    aggregate_findings-Covers words leaks "octo/repo" "head" (found_on 4 6 high ("open" ∷ []))
      (Memᴰ.head refl)
