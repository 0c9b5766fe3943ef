-- ===== src/Aggregate/Covers.antt =====
-- Every finding is in one of the clusters, and every cluster is of findings of one file and category.
use mathlib.Core.List.{Memᴰ}
use pr_reviewer.Base.{
  refl, [], ◌∷◌, List, ◌≤◌, arith, Bool-cases, inl, inr, ◌≡◌, ◌++◌, true, str_eq_iff, All,
  mem-append_last, mem-append_cases, mem-append_left,
}
use pr_reviewer.Aggregate.{
  FindingCandidate, Words, place, normalise_category, Cluster, joins, members, severity_rank,
}

-- A merged finding that stands for another: it is of the same file and category, its lines contain
-- the other's, it is at least as severe, and it has the other's evidence.
pub record Covers (w : Words) (m x : FindingCandidate) : Type 0 where
  pub file : x.file_path ≡ m.file_path
  pub category : normalise_category w x.category ≡ normalise_category w m.category
  pub starts : m.line_start ≤ x.line_start
  pub ends : x.line_end ≤ m.line_end
  pub severe : severity_rank x.severity ≤ severity_rank m.severity
  pub evidence : All (λ e. Memᴰ e m.evidence) x.evidence

-- A merged finding that is one of a list but for its lines and its evidence.
pub record IsOneOf (m x : FindingCandidate) : Type 0 where
  pub file : m.file_path ≡ x.file_path
  pub category : m.category ≡ x.category
  pub severity : m.severity ≡ x.severity
  pub title : m.title ≡ x.title
  pub rationale : m.rationale ≡ x.rationale

-- A finding is in one of the clusters.
pub data Held (x : FindingCandidate) : List Cluster → Type 0 where
  here : {c : Cluster} {cs : List Cluster} → Memᴰ x (members c) → Held x (c ∷ cs)
  there : {c : Cluster} {cs : List Cluster} → Held x cs → Held x (c ∷ cs)

module _ (w : Words) where
  -- The members of a cluster are of one file and category, and of the list.
  pub record IsGrouped (all : List FindingCandidate) (c : Cluster) : Type 0 where
    pub given : (x : FindingCandidate) → Memᴰ x (members c) → Memᴰ x all
    pub file : (x : FindingCandidate) → Memᴰ x (members c) → x.file_path ≡ c.head.file_path
    pub category :
        (x : FindingCandidate)
        → Memᴰ x (members c)
        → normalise_category w x.category ≡ normalise_category w c.head.category

  joined :
      (item : FindingCandidate) (c : Cluster)
      → joins w item c ≡ true
      → (item.file_path ≡ c.head.file_path)
        × (normalise_category w item.category ≡ normalise_category w c.head.category)
  joined item c h = (
    (str_eq_iff item.file_path c.head.file_path).0 (ground arith),
    (str_eq_iff (normalise_category w item.category) (normalise_category w c.head.category)).0
        (ground arith),
  )

  pub placed : (item : FindingCandidate) (cs : List Cluster) → Held item (place w item cs)
  unfolding place
  placed item [] = here (Memᴰ.head refl)
  placed item (c ∷ cs) = elim (Bool-cases (joins w item c)) [
    | inl e ↦ rw e (here (Memᴰ.tail (mem-append_last c.rest item)))
    | inr e ↦ rw e (there (placed item cs))
  ]

  more :
      (c : Cluster) (item : FindingCandidate) {x : FindingCandidate}
      → Memᴰ x (members c)
      → Memᴰ x (c.head ∷ (c.rest ++ item ∷ []))
  more c item (Memᴰ.head e) = Memᴰ.head e
  more c item (Memᴰ.tail i) = Memᴰ.tail (mem-append_left c.rest (item ∷ []) i)

  pub still-Held :
      (item : FindingCandidate) (cs : List Cluster) {x : FindingCandidate}
      → Held x cs
      → Held x (place w item cs)
  unfolding place
  still-Held item [] h = elim h [ ]
  still-Held item (c ∷ cs) (here i) = elim (Bool-cases (joins w item c)) [
    | inl e ↦ rw e (here (more c item i))
    | inr e ↦ rw e (here i)
  ]
  still-Held item (c ∷ cs) (there h) = elim (Bool-cases (joins w item c)) [
    | inl e ↦ rw e (there h)
    | inr e ↦ rw e (there (still-Held item cs h))
  ]

  pub place-IsGrouped :
      (all : List FindingCandidate) (item : FindingCandidate) (cs : List Cluster)
      → Memᴰ item all
      → All (IsGrouped all) cs
      → All (IsGrouped all) (place w item cs)
  unfolding place
  place-IsGrouped all item [] i h = (
    record {
      given = λ x m. alone m (λ y. Memᴰ y all) i;
      file = λ x m. alone m (λ y. y.file_path ≡ item.file_path) refl;
      category = λ x m.
          alone m (λ y. normalise_category w y.category ≡ normalise_category w item.category) refl;
    },
    tt,
  )
    where
      alone :
          {x : FindingCandidate}
          → Memᴰ x (item ∷ [])
          → (P : FindingCandidate → Type 0) → P item
          → P x
      alone (Memᴰ.head e) P p = rw e p
      alone (Memᴰ.tail j) P p = elim j [ ]
  place-IsGrouped all item (c ∷ cs) i h = elim (Bool-cases (joins w item c)) [
    | inr e ↦ rw e (h.0, place-IsGrouped all item cs i h.1)
    | inl e ↦
        let (same_file, same_category) = joined item c e in
        rw e (
          record {
            given = λ x m. grown m (λ y. Memᴰ y all) h.0.given i;
            file = λ x m. grown m (λ y. y.file_path ≡ c.head.file_path) h.0.file same_file;
            category = λ x m.
                grown m
                  (λ y. normalise_category w y.category ≡ normalise_category w c.head.category)
                  h.0.category same_category;
          },
          h.1,
        )
  ]
    where
      grown :
          {x : FindingCandidate}
          → Memᴰ x (c.head ∷ (c.rest ++ item ∷ []))
          → (P : FindingCandidate → Type 0) → ((y : FindingCandidate) → Memᴰ y (members c) → P y)
          → P item
          → P x
      grown {x} (Memᴰ.head e) P old new = old x (Memᴰ.head e)
      grown {x} (Memᴰ.tail j) P old new = elim (mem-append_cases c.rest item j) [
        | inl k ↦ old x (Memᴰ.tail k)
        | inr e ↦ rw e new
      ]
