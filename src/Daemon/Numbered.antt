-- ===== src/Daemon/Numbered.antt =====
-- The numbers of the pending acknowledgements: one is given once, and stays with its job.
use mathlib.Core.List.{Memᴰ}
use pr_reviewer.Base.{
  refl, List, ℕ, String, [], ◌∷◌, ◌≡◌, ◌<◌, ◌==◌, map_where, Bool-cases, inl, inr, arith, ◌∙◌, sym,
  subst, mem-append_cases, delete_where-mem,
}
use pr_reviewer.LocalStore.{PendingAcknowledgement, LocalStore, PendingAcknowledgementReason}
use pr_reviewer.LocalStore.Pending.{record_pending, count_up, resolve, bump_attempt}
use pr_reviewer.Daemon.{Machine}
use pr_reviewer.Daemon.Changes.{Change}
use pr_reviewer.Jobs.Runner.{JobAcknowledgement}

-- The number has been given, to entries of that job only.
pub record Tracks (k j : ℕ) (s : LocalStore) : Type 0 where
  pub given : k < s.fresh_pending
  pub job :
      (q : PendingAcknowledgement) → Memᴰ q s.pending_acknowledgements → q.id ≡ k → q.job_id ≡ j

-- Every entry has a number that was given to its job only.
abbrev pub IsNumbered : LocalStore → Type 0
IsNumbered s =
    (p : PendingAcknowledgement) → Memᴰ p s.pending_acknowledgements → Tracks p.id p.job_id s

counted_before :
    (k : ℕ) (ps : List PendingAcknowledgement) {q : PendingAcknowledgement}
    → Memᴰ q (map_where (λ x. x.id == k) count_up ps)
    → (p : PendingAcknowledgement) × Memᴰ p ps × (q.id ≡ p.id) × (q.job_id ≡ p.job_id)
counted_before k [] i = elim i [ ]
counted_before k (x ∷ ps) {q} (Memᴰ.head e) = elim (Bool-cases (x.id == k)) [
  | inl f ↦ let g = rw f at e in (x, Memᴰ.head refl, rw g refl, rw g refl)
  | inr f ↦ let g = rw f at e in (x, Memᴰ.head refl, rw g refl, rw g refl)
]
counted_before k (x ∷ ps) (Memᴰ.tail i) =
    let (p, m, a, b) = counted_before k ps i in (p, Memᴰ.tail m, a, b)

-- A new entry has a number of its own.
new_entry :
    (now i : ℕ) (t : String) (r : JobAcknowledgement) (reason : PendingAcknowledgementReason)
    (s : LocalStore)
    → IsNumbered s
    → Tracks s.fresh_pending i (record_pending now i t r reason s)
unfolding record_pending
new_entry now i t r reason s v = record {
  given = omega arith;
  job = λ q n h. elim (mem-append_cases s.pending_acknowledgements _ n) [
    | inl o ↦ absurd (let g = (v q o).given in omega (arith, g, h))
    | inr e ↦ rw e refl
  ];
}

module _ {World : Type 0} {Settled : ℕ → World → Type 0} where
  pub Change-Tracks :
      {m m' : Machine World} (k j : ℕ)
      → Change Settled m m'
      → Tracks k j m.store
      → Tracks k j m'.store
  unfolding record_pending resolve bump_attempt
  Change-Tracks k j Change.stay t = t
  Change-Tracks k j (Change.both a b) t = Change-Tracks k j b (Change-Tracks k j a t)
  Change-Tracks k j (Change.move w b f) t = t
  Change-Tracks k j (Change.write s e f) t = record {
    given = rw f t.given;
    job = λ q i h. t.job q (rw e at i) h;
  }
  Change-Tracks k j (Change.keep {m} now i l x reason) t = record {
    given = omega (arith, t.given);
    job = λ q n h. elim (mem-append_cases m.store.pending_acknowledgements _ n) [
      | inl o ↦ t.job q o h
      | inr e ↦ absurd (let g = rw e at h in omega (arith, g, t.given))
    ];
  }
  Change-Tracks k j (Change.bump {m} n) t = record {
    given = t.given;
    job = λ q i h.
        let (p, o, a, b) = counted_before n m.store.pending_acknowledgements i in
        b ∙ t.job p o (sym a ∙ h);
  }
  Change-Tracks k j (Change.drop {m} n settled) t = record {
    given = t.given;
    job =
        λ q i h. t.job q (delete_where-mem (λ p. p.id == n) m.store.pending_acknowledgements i).0 h;
  }

  -- Every change keeps the numbers.
  pub Change-IsNumbered :
      {m m' : Machine World} → Change Settled m m' → IsNumbered m.store → IsNumbered m'.store
  unfolding record_pending resolve bump_attempt
  Change-IsNumbered Change.stay v = v
  Change-IsNumbered (Change.both a b) v = Change-IsNumbered b (Change-IsNumbered a v)
  Change-IsNumbered (Change.move w b f) v = v
  Change-IsNumbered (Change.write {m} s e f) v =
      λ p i. Change-Tracks {m = m} p.id p.job_id (Change.write s e f) (v p (rw e at i))
  Change-IsNumbered (Change.keep {m} now i l x reason) v = λ p n.
      elim (mem-append_cases m.store.pending_acknowledgements _ n) [
        | inl o ↦ Change-Tracks {m = m} p.id p.job_id (Change.keep now i l x reason) (v p o)
        | inr e ↦
            subst (λ y. Tracks y.id y.job_id (record_pending now i l x reason m.store)) (sym e)
              (new_entry now i l x reason m.store v)
      ]
  Change-IsNumbered (Change.bump {m} n) v = λ q i.
      let (p, o, a, b) = counted_before n m.store.pending_acknowledgements i in
      let t = Change-Tracks {m = m} p.id p.job_id (Change.bump n) (v p o) in rw (a, b) t
  Change-IsNumbered (Change.drop {m} n settled) v = λ p i.
      Change-Tracks {m = m} p.id p.job_id (Change.drop n settled)
        (v p (delete_where-mem (λ q. q.id == n) m.store.pending_acknowledgements i).0)
