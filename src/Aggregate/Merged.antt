-- ===== src/Aggregate/Merged.antt =====
-- The merged findings against the findings that were given.
use mathlib.Core.List.{Memᴰ}
use pr_reviewer.Base.{
  refl, [], ◌∷◌, List, String, Bool-cases, inl, inr, map, sym, All, ◌∙◌, All-each,
}
use pr_reviewer.Aggregate.{
  FindingCandidate, Words, Cluster, insert_finding, aggregate_findings, sort_findings, place_all,
  merged, texts_leb, members, place, sort_key, pick_representative, evidence_of,
}
use pr_reviewer.Aggregate.Covers.{
  IsGrouped, Covers, Held, IsOneOf, still-Held, place-IsGrouped, placed,
}
use pr_reviewer.Aggregate.Members.{
  picked_member, cluster_start_le, le_cluster_end, rank_le, evidence_kept,
}

module _ (w : Words) (repository head_sha : String) where
  inserted :
      (a : FindingCandidate) (fs : List FindingCandidate)
      → Memᴰ a (insert_finding w repository head_sha a fs)
  unfolding insert_finding
  inserted a [] = Memᴰ.head refl
  inserted a (b ∷ bs) =
      elim (Bool-cases
        (texts_leb (sort_key w repository head_sha a) (sort_key w repository head_sha b))) [
          | inl e ↦ rw e (Memᴰ.head refl)
          | inr e ↦ rw e (Memᴰ.tail (inserted a bs))
        ]

  inserted_past :
      (a : FindingCandidate) (fs : List FindingCandidate) {x : FindingCandidate}
      → Memᴰ x fs
      → Memᴰ x (insert_finding w repository head_sha a fs)
  unfolding insert_finding
  inserted_past a [] i = elim i [ ]
  inserted_past a (b ∷ bs) (Memᴰ.head q) =
      elim (Bool-cases
        (texts_leb (sort_key w repository head_sha a) (sort_key w repository head_sha b))) [
          | inl e ↦ rw e (Memᴰ.tail (Memᴰ.head q))
          | inr e ↦ rw e (Memᴰ.head q)
        ]
  inserted_past a (b ∷ bs) (Memᴰ.tail i) =
      elim (Bool-cases
        (texts_leb (sort_key w repository head_sha a) (sort_key w repository head_sha b))) [
          | inl e ↦ rw e (Memᴰ.tail (Memᴰ.tail i))
          | inr e ↦ rw e (Memᴰ.tail (inserted_past a bs i))
        ]

  sorted :
      (fs : List FindingCandidate) {x : FindingCandidate}
      → Memᴰ x fs
      → Memᴰ x (sort_findings w repository head_sha fs)
  unfolding sort_findings
  sorted [] i = elim i [ ]
  sorted (a ∷ fs) (Memᴰ.head q) = rw q (inserted a (sort_findings w repository head_sha fs))
  sorted (a ∷ fs) (Memᴰ.tail i) =
      inserted_past a (sort_findings w repository head_sha fs) (sorted fs i)

  All-insert_finding :
      (P : FindingCandidate → Type 0) (a : FindingCandidate) (fs : List FindingCandidate)
      → P a
      → All P fs
      → All P (insert_finding w repository head_sha a fs)
  unfolding insert_finding
  All-insert_finding P a [] p h = (p, tt)
  All-insert_finding P a (b ∷ bs) p h =
      elim (Bool-cases
        (texts_leb (sort_key w repository head_sha a) (sort_key w repository head_sha b))) [
          | inl e ↦ rw e (p, h)
          | inr e ↦ rw e (h.0, All-insert_finding P a bs p h.1)
        ]

  All-sort_findings :
      (P : FindingCandidate → Type 0) (fs : List FindingCandidate)
      → All P fs
      → All P (sort_findings w repository head_sha fs)
  unfolding sort_findings
  All-sort_findings P [] h = tt
  All-sort_findings P (a ∷ fs) h =
      All-insert_finding P a (sort_findings w repository head_sha fs) h.0
        (All-sort_findings P fs h.1)

All-kept :
    (ms : List FindingCandidate) {x : FindingCandidate}
    → Memᴰ x ms
    → (es : List String) → ((e : String) → Memᴰ e es → Memᴰ e x.evidence)
    → All (λ e. Memᴰ e (evidence_of ms)) es
All-kept ms i [] sub = tt
All-kept ms i (e ∷ es) sub =
    (evidence_kept ms i (sub e (Memᴰ.head refl)), All-kept ms i es (λ y j. sub y (Memᴰ.tail j)))

module _ (w : Words) where
  place_all-IsGrouped :
      (all items : List FindingCandidate) (cs : List Cluster)
      → All (λ x. Memᴰ x all) items
      → All (IsGrouped w all) cs
      → All (IsGrouped w all) (place_all w items cs)
  unfolding place_all
  place_all-IsGrouped all [] cs given h = h
  place_all-IsGrouped all (item ∷ items) cs given h =
      place_all-IsGrouped all items (place w item cs) given.1
        (place-IsGrouped w all item cs given.0 h)

  Held-on :
      (items : List FindingCandidate) (cs : List Cluster) {x : FindingCandidate}
      → Held x cs
      → Held x (place_all w items cs)
  unfolding place_all
  Held-on [] cs h = h
  Held-on (item ∷ items) cs h = Held-on items (place w item cs) (still-Held w item cs h)

  all-Held :
      (items : List FindingCandidate) (cs : List Cluster) {x : FindingCandidate}
      → Memᴰ x items
      → Held x (place_all w items cs)
  unfolding place_all
  all-Held [] cs i = elim i [ ]
  all-Held (item ∷ items) cs (Memᴰ.head q) =
      rw q (Held-on items (place w item cs) (placed w item cs))
  all-Held (item ∷ items) cs (Memᴰ.tail i) = all-Held items (place w item cs) i

  merged-Covers :
      (all : List FindingCandidate) (c : Cluster) (x : FindingCandidate)
      → IsGrouped w all c
      → Memᴰ x (members c)
      → Covers w (merged c) x
  unfolding merged
  merged-Covers all c x g i = record {
    file = g.file x i ∙ sym (g.file (pick_representative c) (picked_member c));
    category = g.category x i ∙ sym (g.category (pick_representative c) (picked_member c));
    starts = cluster_start_le c i;
    ends = le_cluster_end c i;
    severe = rank_le c i;
    evidence = All-kept (members c) i x.evidence (λ e j. j);
  }

  Held-Covers :
      (all : List FindingCandidate) (cs : List Cluster) (x : FindingCandidate)
      → All (IsGrouped w all) cs
      → Held x cs
      → (m : FindingCandidate) × Memᴰ m (map merged cs) × Covers w m x
  Held-Covers all [] x g h = elim h [ ]
  Held-Covers all (c ∷ cs) x g (Held.here i) =
      (merged c, Memᴰ.head refl, merged-Covers all c x g.0 i)
  Held-Covers all (c ∷ cs) x g (Held.there h) =
      let (m, j, k) = Held-Covers all cs x g.1 h in (m, Memᴰ.tail j, k)

  merged-IsOneOf :
      (all : List FindingCandidate) (cs : List Cluster)
      → All (IsGrouped w all) cs
      → All (λ m. (x : FindingCandidate) × Memᴰ x all × IsOneOf m x) (map merged cs)
  unfolding merged
  merged-IsOneOf all [] g = tt
  merged-IsOneOf all (c ∷ cs) g = (
    (
      pick_representative c,
      g.0.given (pick_representative c) (picked_member c),
      record { file = refl; category = refl; severity = refl; title = refl; rationale = refl },
    ),
    merged-IsOneOf all cs g.1,
  )

  -- A finding that is given is covered by a merged one, of its file and its category, whose lines
  -- contain its lines, which is at least as severe and has all its evidence; and every merged finding
  -- is, but for its lines and its evidence, one of those that were given.
  pub aggregate_findings-Covers :
      (findings : List FindingCandidate) (repository head_sha : String) (x : FindingCandidate)
      → Memᴰ x findings
      → ((m : FindingCandidate) × Memᴰ m (aggregate_findings w findings repository head_sha)
          × Covers w m x)
        × All
            (λ m. (y : FindingCandidate) × Memᴰ y findings × IsOneOf m y)
            (aggregate_findings w findings repository head_sha)
  unfolding aggregate_findings
  aggregate_findings-Covers findings repository head_sha x i =
      let items = sort_findings w repository head_sha findings in
      let given =
        All-sort_findings w repository head_sha (λ y. Memᴰ y findings) findings
          (All-each findings (λ y j. j)) in
      let grouped = place_all-IsGrouped findings items [] given tt in
      (
        Held-Covers findings (place_all w items []) x grouped
            (all-Held items [] (sorted w repository head_sha findings i)),
        merged-IsOneOf findings (place_all w items []) grouped,
      )
