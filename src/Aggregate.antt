-- ===== src/Aggregate.antt =====
-- The merge of the specialists' findings: src/pr_reviewer/reviewer/aggregate_findings.py, over
-- contracts/finding_candidate.py. Python's text functions come as `Words`.
pub mod Members
pub mod Covers
pub mod Merged
use Prim.Native.Nat.{Ordering}
use Prim.Native.String.{compare}
use pr_reviewer.Base.{
  [], ◌∷◌, List, String, Bool, ℕ, ltb, leb, ◌==◌, ◌&&◌, ◌||◌, true, false, if◌then◌else◌, min, max,
  str_eq, ◌++◌, map, not,
}
use pr_reviewer.Notify.{Severity, critical, high, medium, low, info}

-- str.casefold, replace("_", "-"), split(), "-".join, and a number as a text of ten digits
pub record Words : Type 0 where
  pub casefold : String → String
  pub with_dashes : String → String
  pub split : String → List String
  pub join : List String → String
  pub padded : ℕ → String

-- the fields that are read here
pub record FindingCandidate : Type 0 where
  pub severity : Severity
  pub category : String
  pub file_path : String
  pub line_start : ℕ
  pub line_end : ℕ
  pub title : String
  pub rationale : String
  pub evidence : List String

abbrev pub severity_rank : Severity → ℕ
severity_rank info = 0
severity_rank low = 1
severity_rank medium = 2
severity_rank high = 3
severity_rank critical = 4

-- a cluster is a list that is not empty
pub record Cluster : Type 0 where
  pub head : FindingCandidate
  pub rest : List FindingCandidate

abbrev pub members : Cluster → List FindingCandidate
members c = c.head ∷ c.rest

-- min(member.line_start …), from the first member's on
abbrev pub least_start : ℕ → List FindingCandidate → ℕ
least_start n [] = n
least_start n (m ∷ ms) = min m.line_start (least_start n ms)

abbrev pub greatest_end : ℕ → List FindingCandidate → ℕ
greatest_end n [] = n
greatest_end n (m ∷ ms) = max m.line_end (greatest_end n ms)

abbrev pub cluster_start : Cluster → ℕ
cluster_start c = least_start c.head.line_start c.rest

abbrev pub cluster_end : Cluster → ℕ
cluster_end c = greatest_end c.head.line_end c.rest

-- _cluster_overlaps
unfoldable pub cluster_overlaps : FindingCandidate → Cluster → Bool
cluster_overlaps item c = leb item.line_start (cluster_end c) && leb (cluster_start c) item.line_end

-- Python's order of tuples of texts, where the lengths agree
abbrev pub texts_leb : List String → List String → Bool
texts_leb [] bs = true
texts_leb (a ∷ as') [] = false
texts_leb (a ∷ as') (b ∷ bs) =
    let later = texts_leb as' bs in
    elim (compare a b) [ Ordering.lt ↦ true | Ordering.eq ↦ later | Ordering.gt ↦ false ]

-- the key of _pick_representative is greater for `a` than for `b`
abbrev pub is_above : FindingCandidate → FindingCandidate → Bool
is_above a b =
    let m = severity_rank a.severity in
    let n = severity_rank b.severity in
    ltb n m
    || ((m == n) && not (texts_leb (a.title ∷ a.rationale ∷ []) (b.title ∷ b.rationale ∷ [])))

-- max: the first of the greatest
unfoldable pub better : (best candidate : FindingCandidate) → FindingCandidate
better best candidate = if is_above candidate best then candidate else best

abbrev pub pick_from : FindingCandidate → List FindingCandidate → FindingCandidate
pick_from best [] = best
pick_from best (m ∷ ms) = pick_from (better best m) ms

unfoldable pub pick_representative : Cluster → FindingCandidate
pick_representative c = pick_from c.head c.rest

-- sorted({…}): a text that is there is not put in again
abbrev pub put_entry : Ordering → String → String → (xs later : List String) → List String
put_entry Ordering.lt e x xs later = e ∷ x ∷ xs
put_entry Ordering.eq e x xs later = x ∷ xs
put_entry Ordering.gt e x xs later = x ∷ later

unfoldable pub insert_entry : String → List String → List String
insert_entry e [] = e ∷ []
insert_entry e (x ∷ xs) = put_entry (compare e x) e x xs (insert_entry e xs)

abbrev pub insert_all : List String → List String → List String
insert_all [] entries = entries
insert_all (e ∷ es) entries = insert_entry e (insert_all es entries)

abbrev pub evidence_of : List FindingCandidate → List String
evidence_of [] = []
evidence_of (m ∷ ms) = insert_all m.evidence (evidence_of ms)

unfoldable pub merged : Cluster → FindingCandidate
merged c = record (pick_representative c) {
  line_start = cluster_start c;
  line_end = cluster_end c;
  evidence = evidence_of (members c);
}

module _ (w : Words) where
  unfoldable pub normalise_category : String → String
  normalise_category value = w.join (w.split (w.with_dashes (w.casefold value)))

  -- _sort_key
  abbrev pub sort_key : (repository head_sha : String) → FindingCandidate → List String
  sort_key repository head_sha item =
      repository
      ∷ head_sha
      ∷ item.file_path
      ∷ normalise_category item.category
      ∷ w.padded item.line_start
      ∷ w.padded item.line_end
      ∷ item.title
      ∷ item.rationale
      ∷ []

  unfoldable pub insert_finding :
      (repository head_sha : String)
      → FindingCandidate
      → List FindingCandidate
      → List FindingCandidate
  insert_finding repository head_sha a [] = a ∷ []
  insert_finding repository head_sha a (b ∷ bs) =
      let later = insert_finding repository head_sha a bs in
      if texts_leb (sort_key repository head_sha a) (sort_key repository head_sha b)
      then a ∷ b ∷ bs
      else b ∷ later

  unfoldable pub sort_findings :
      (repository head_sha : String) → List FindingCandidate → List FindingCandidate
  sort_findings repository head_sha [] = []
  sort_findings repository head_sha (a ∷ findings) =
      insert_finding repository head_sha a (sort_findings repository head_sha findings)

  abbrev pub joins : FindingCandidate → Cluster → Bool
  joins item c =
      (str_eq item.file_path c.head.file_path
        && str_eq (normalise_category item.category) (normalise_category c.head.category))
      && cluster_overlaps item c

  -- the first cluster that the item joins, or a new one at the end
  unfoldable pub place : FindingCandidate → List Cluster → List Cluster
  place item [] = record { head = item; rest = [] } ∷ []
  place item (c ∷ clusters) =
      let later = place item clusters in
      if joins item c then (record c { rest = c.rest ++ item ∷ [] }) ∷ clusters else c ∷ later

  unfoldable pub place_all : List FindingCandidate → List Cluster → List Cluster
  place_all [] clusters = clusters
  place_all (item ∷ items) clusters = place_all items (place item clusters)

  unfoldable pub aggregate_findings :
      List FindingCandidate → (repository head_sha : String) → List FindingCandidate
  aggregate_findings findings repository head_sha =
      map merged (place_all (sort_findings repository head_sha findings) [])
