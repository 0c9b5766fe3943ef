-- ===== src/Reviewer/Changed.antt =====
-- A draft that is valid and in the changed diff: all its lines are new lines of a packed file. And
-- the keys that drafts are told apart by.
use pr_reviewer.Base.{
  List, ℕ, Option, ◌+◌, ◌≡◌, some, true, ◌<◌, ◌≤◌, arith, suc, zero, str_eq, Bool-cases, str_eq_iff,
  ◌==◌, inl, inr, Option-cases, false, str_eq_refl, subst, ap, some_inj, none, ◌-◌,
}
use pr_reviewer.Reviewer.Review.{
  Key, key_eq, if_valid, lines_by_path, all_lines, in_changed_diff, is_seen, is_valid, covers_draft,
}
use pr_reviewer.Packing.{Text, ReviewContextItem}
use pr_reviewer.Aggregate.{FindingCandidate}
use pr_reviewer.Posting.{is_number}

-- All lines of the candidate are lines of the new side of the packed file.
pub record IsChanged (t : Text) (items : List ReviewContextItem) (c : FindingCandidate)
    : Type 0 where
  pub numbers : List ℕ
  pub shown : lines_by_path t items c.file_path ≡ some numbers
  pub ordered : (1 ≤ c.line_start) × (c.line_start ≤ c.line_end)
  pub lines : (n : ℕ) → c.line_start ≤ n → n ≤ c.line_end → is_number n numbers ≡ true

all_lines-lem :
    (numbers : List ℕ) (line count : ℕ)
    → all_lines numbers line count ≡ true
    → (n : ℕ) → line ≤ n
    → n < line + count
    → is_number n numbers ≡ true
all_lines-lem numbers line zero h n a b = absurd (ground (arith, a, b))
all_lines-lem numbers line (suc k) h n a b = elim (Bool-cases (n == line)) [
  | inl e ↦ let same : n ≡ line = ground arith in rw same (ground (arith, h))
  | inr e ↦
      all_lines-lem numbers (line + 1) k (ground (arith, h)) n (ground (arith, a))
        (omega (arith, b))
]

pub key_eq-same : (a b : Key) → key_eq a b ≡ true → a ≡ b
key_eq-same a b h =
    let f : str_eq a.file_path b.file_path ≡ true = ground (arith, h) in
    let g : str_eq a.title b.title ≡ true = ground (arith, h) in
    let p = (str_eq_iff a.file_path b.file_path).0 f in
    let q = (str_eq_iff a.title b.title).0 g in
    let m : a.line_start ≡ b.line_start = ground (arith, h) in
    let n : a.line_end ≡ b.line_end = ground (arith, h) in
    λ i. record { file_path = p i; line_start = m i; line_end = n i; title = q i }

pub key_eq_refl : (k : Key) → key_eq k k ≡ true
key_eq_refl k = ground (arith, str_eq_refl k.file_path, str_eq_refl k.title)

-- A key that was seen is another than one that was not.
pub seen_apart :
    (k new : Key) (seen : List Key)
    → is_seen k seen ≡ true
    → is_seen new seen ≡ false
    → key_eq k new ≡ false
seen_apart k new seen h g = elim (Bool-cases (key_eq k new)) [
  | inr e ↦ e
  | inl e ↦ let same = ap (λ x. is_seen x seen) (key_eq-same k new e) in absurd cc
]

if_valid-some :
    (o : Option FindingCandidate) (c : FindingCandidate) → if_valid o ≡ some c → is_valid c ≡ true
if_valid-some none c h = absurd (ground (arith, h))
if_valid-some (some d) c h = elim (Bool-cases (is_valid d)) [
  | inl e ↦ let same : d ≡ c = some_inj (rw e at h) in subst (λ x. is_valid x ≡ true) same e
  | inr e ↦ absurd (let q : none ≡ some c = rw e at h in ground (arith, q))
]

module _ (t : Text) {Raw : Type 0} (fields : Raw → Option FindingCandidate)
    (items : List ReviewContextItem) where
  pub draft-IsChanged :
      (raw : Raw) (c : FindingCandidate)
      → if_valid (fields raw) ≡ some c
      → in_changed_diff t items c ≡ true
      → IsChanged t items c
  draft-IsChanged raw c h k =
      let v = if_valid-some (fields raw) c h in
      elim (Option-cases (lines_by_path t items c.file_path)) [
        | inl z ↦ absurd (let q : false ≡ true = rw z at k in ground (arith, q))
        | inr (numbers, z) ↦
            let q : covers_draft c (some numbers) ≡ true = rw z at k in
            let all : all_lines numbers c.line_start (c.line_end + 1 - c.line_start) ≡ true =
              ground (arith, q) in
            let ordered : (1 ≤ c.line_start) × (c.line_start ≤ c.line_end) =
              (ground (arith, v), ground (arith, v)) in
            record {
              numbers = numbers;
              shown = z;
              ordered = ordered;
              lines = λ n a b.
                  all_lines-lem numbers c.line_start (c.line_end + 1 - c.line_start) all n a
                    (omega (arith, b, ordered.1));
            }
      ]
