-- ===== src/Aggregate/Members.antt =====
-- What merging does to the members of a cluster: lines, severity and evidence.
use mathlib.Core.List.{Memᴰ}
use Prim.Native.Nat.{Ordering}
use Prim.Native.String.{compare}
use text.Mathlib.TextEquality.{path_by_compare}
use pr_reviewer.Base.{
  refl, [], ◌∷◌, List, String, ℕ, ◌≤◌, arith, Bool-cases, inl, inr, ◌≡◌, ◌⊎◌, subst,
}
use pr_reviewer.Aggregate.{
  FindingCandidate, insert_entry, Cluster, insert_all, pick_representative, least_start,
  severity_rank, greatest_end, evidence_of, members, pick_from, cluster_end, is_above,
  cluster_start, better,
}

Ordering-cases : (o : Ordering) → (o ≡ Ordering.eq) ⊎ ((o ≡ Ordering.lt) ⊎ (o ≡ Ordering.gt))
Ordering-cases Ordering.eq = inl refl
Ordering-cases Ordering.lt = inr (inl refl)
Ordering-cases Ordering.gt = inr (inr refl)

least_le_first : (n : ℕ) (ms : List FindingCandidate) → least_start n ms ≤ n
least_le_first n [] = omega arith
least_le_first n (m ∷ ms) = omega (arith, least_le_first n ms)

least_le :
    (n : ℕ) (ms : List FindingCandidate) {x : FindingCandidate}
    → Memᴰ x ms
    → least_start n ms ≤ x.line_start
least_le n [] i = elim i [ ]
least_le n (m ∷ ms) (Memᴰ.head e) = rw e (omega arith)
least_le n (m ∷ ms) (Memᴰ.tail i) = omega (arith, least_le n ms i)

first_le_greatest : (n : ℕ) (ms : List FindingCandidate) → n ≤ greatest_end n ms
first_le_greatest n [] = omega arith
first_le_greatest n (m ∷ ms) = omega (arith, first_le_greatest n ms)

le_greatest :
    (n : ℕ) (ms : List FindingCandidate) {x : FindingCandidate}
    → Memᴰ x ms
    → x.line_end ≤ greatest_end n ms
le_greatest n [] i = elim i [ ]
le_greatest n (m ∷ ms) (Memᴰ.head e) = rw e (omega arith)
le_greatest n (m ∷ ms) (Memᴰ.tail i) = omega (arith, le_greatest n ms i)

pub cluster_start_le :
    (c : Cluster) {x : FindingCandidate} → Memᴰ x (members c) → cluster_start c ≤ x.line_start
cluster_start_le c (Memᴰ.head e) = rw e (least_le_first c.head.line_start c.rest)
cluster_start_le c (Memᴰ.tail i) = least_le c.head.line_start c.rest i

pub le_cluster_end :
    (c : Cluster) {x : FindingCandidate} → Memᴰ x (members c) → x.line_end ≤ cluster_end c
le_cluster_end c (Memᴰ.head e) = rw e (first_le_greatest c.head.line_end c.rest)
le_cluster_end c (Memᴰ.tail i) = le_greatest c.head.line_end c.rest i

abbrev rank : FindingCandidate → ℕ
rank f = severity_rank f.severity

better_ge :
    (best m : FindingCandidate)
    → (rank best ≤ rank (better best m)) × (rank m ≤ rank (better best m))
unfolding better
better_ge best m = elim (Bool-cases (is_above m best)) [
  | inl e ↦ let le : rank best ≤ rank m = ground arith in rw e (le, omega arith)
  | inr e ↦ let le : rank m ≤ rank best = ground arith in rw e (omega arith, le)
]

best_le :
    (best : FindingCandidate) (ms : List FindingCandidate) → rank best ≤ rank (pick_from best ms)
best_le best [] = omega arith
best_le best (m ∷ ms) = omega (arith, (better_ge best m).0, best_le (better best m) ms)

member_le :
    (best : FindingCandidate) (ms : List FindingCandidate) {x : FindingCandidate}
    → Memᴰ x ms
    → rank x ≤ rank (pick_from best ms)
member_le best [] i = elim i [ ]
member_le best (m ∷ ms) (Memᴰ.head q) =
    rw q (omega (arith, (better_ge best m).1, best_le (better best m) ms))
member_le best (m ∷ ms) (Memᴰ.tail i) = member_le (better best m) ms i

-- No member is more severe than the representative.
pub rank_le :
    (c : Cluster) {x : FindingCandidate}
    → Memᴰ x (members c)
    → severity_rank x.severity ≤ severity_rank (pick_representative c).severity
unfolding pick_representative
rank_le c (Memᴰ.head e) = rw e (best_le c.head c.rest)
rank_le c (Memᴰ.tail i) = member_le c.head c.rest i

past :
    (best m : FindingCandidate) (ms : List FindingCandidate) {x : FindingCandidate}
    → Memᴰ x (better best m ∷ ms)
    → Memᴰ x (best ∷ m ∷ ms)
unfolding better
past best m ms (Memᴰ.tail i) = Memᴰ.tail (Memᴰ.tail i)
past best m ms {x} (Memᴰ.head q) = elim (Bool-cases (is_above m best)) [
  | inl e ↦ Memᴰ.tail (Memᴰ.head (rw e at q))
  | inr e ↦ Memᴰ.head (rw e at q)
]

picked :
    (best : FindingCandidate) (ms : List FindingCandidate) → Memᴰ (pick_from best ms) (best ∷ ms)
picked best [] = Memᴰ.head refl
picked best (m ∷ ms) = past best m ms (picked (better best m) ms)

pub picked_member : (c : Cluster) → Memᴰ (pick_representative c) (members c)
unfolding pick_representative
picked_member c = picked c.head c.rest

inserted : (e : String) (xs : List String) → Memᴰ e (insert_entry e xs)
unfolding insert_entry
inserted e [] = Memᴰ.head refl
inserted e (x ∷ xs) = elim (Ordering-cases (compare e x)) [
  | inl q ↦ rw q (Memᴰ.head (path_by_compare e x q))
  | inr (inl q) ↦ rw q (Memᴰ.head refl)
  | inr (inr q) ↦ rw q (Memᴰ.tail (inserted e xs))
]

still_in : (e : String) (xs : List String) {y : String} → Memᴰ y xs → Memᴰ y (insert_entry e xs)
unfolding insert_entry
still_in e [] i = Memᴰ.tail i
still_in e (x ∷ xs) (Memᴰ.head p) = elim (Ordering-cases (compare e x)) [
  | inl q ↦ rw q (Memᴰ.head p)
  | inr (inl q) ↦ rw q (Memᴰ.tail (Memᴰ.head p))
  | inr (inr q) ↦ rw q (Memᴰ.head p)
]
still_in e (x ∷ xs) (Memᴰ.tail j) = elim (Ordering-cases (compare e x)) [
  | inl q ↦ rw q (Memᴰ.tail j)
  | inr (inl q) ↦ rw q (Memᴰ.tail (Memᴰ.tail j))
  | inr (inr q) ↦ rw q (Memᴰ.tail (still_in e xs j))
]

all_inserted : (es entries : List String) {y : String} → Memᴰ y es → Memᴰ y (insert_all es entries)
all_inserted [] entries i = elim i [ ]
all_inserted (e ∷ es) entries (Memᴰ.head q) = rw q (inserted e (insert_all es entries))
all_inserted (e ∷ es) entries (Memᴰ.tail i) =
    still_in e (insert_all es entries) (all_inserted es entries i)

still_in_all :
    (es entries : List String) {y : String} → Memᴰ y entries → Memᴰ y (insert_all es entries)
still_in_all [] entries i = i
still_in_all (e ∷ es) entries i = still_in e (insert_all es entries) (still_in_all es entries i)

-- No evidence of a member is lost.
pub evidence_kept :
    (ms : List FindingCandidate) {x : FindingCandidate} {y : String}
    → Memᴰ x ms
    → Memᴰ y x.evidence
    → Memᴰ y (evidence_of ms)
evidence_kept [] i j = elim i [ ]
evidence_kept (m ∷ ms) {x} {y} (Memᴰ.head q) j =
    all_inserted m.evidence (evidence_of ms) (subst (λ f. Memᴰ y f.evidence) q j)
evidence_kept (m ∷ ms) (Memᴰ.tail i) j =
    still_in_all m.evidence (evidence_of ms) (evidence_kept ms i j)
