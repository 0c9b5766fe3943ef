-- ===== src/Daemon/Changes.antt =====
-- The changes that a runner makes, as a step relation: an entry of the pending acknowledgements
-- goes only when `Settled`, a property of jobs and the world, holds of its job.
use mathlib.Core.List.{Memᴰ}
use pr_reviewer.Base.{
  refl, List, ℕ, String, Bool, [], ◌∷◌, ◌≡◌, true, ◌==◌, map_where, Bool-cases, inl, inr, ◌⊎◌,
  subst, ◌∙◌, mem-append_left, mem-delete_where,
}
use pr_reviewer.LocalStore.Pending.{record_pending, bump_attempt, resolve, count_up}
use pr_reviewer.Daemon.{Machine}
use pr_reviewer.LocalStore.{PendingAcknowledgement, LocalStore, PendingAcknowledgementReason}
use pr_reviewer.Jobs.Runner.{JobAcknowledgement}
use pr_reviewer.Daemon.Steps.{in_store}

-- The result waits in the store.
pub record Stored (i : ℕ) (r : JobAcknowledgement) (s : LocalStore) : Type 0 where
  pub entry : PendingAcknowledgement
  pub is_there : Memᴰ entry s.pending_acknowledgements
  pub job : entry.job_id ≡ i
  pub result : entry.result ≡ r

module _ {World : Type 0} (Settled : ℕ → World → Type 0) where
  -- The property holds of the job, or the result waits in the store.
  abbrev pub Kept : ℕ → JobAcknowledgement → Machine World → Type 0
  Kept i r m = Settled i m.world ⊎ Stored i r m.store

  pub data Change : Machine World → Machine World → Type 0 where
    stay : {m : Machine World} → Change m m
    move :
        {m : Machine World} (w : World) (b : Bool)
        → ((i : ℕ) → Settled i m.world → Settled i w)
        → Change m (record m { world = w; stop_new_work = b })
    write :
        {m : Machine World} (s : LocalStore)
        → s.pending_acknowledgements ≡ m.store.pending_acknowledgements
        → s.fresh_pending ≡ m.store.fresh_pending
        → Change m (in_store m s)
    keep :
        {m : Machine World} (now i : ℕ) (t : String) (r : JobAcknowledgement)
        (reason : PendingAcknowledgementReason)
        → Change m (in_store m (record_pending now i t r reason m.store))
    bump : {m : Machine World} (k : ℕ) → Change m (in_store m (bump_attempt k m.store))
    drop :
        {m : Machine World} (k : ℕ)
        → ((p : PendingAcknowledgement)
            → Memᴰ p m.store.pending_acknowledgements
            → (p.id == k) ≡ true
            → Settled p.job_id m.world)
        → Change m (in_store m (resolve k m.store))
    both : {l m n : Machine World} → Change l m → Change m n → Change l n

-- The entry that another is after its attempts were counted up.
pub record IsCounted (p q : PendingAcknowledgement) : Type 0 where
  pub id : q.id ≡ p.id
  pub job : q.job_id ≡ p.job_id
  pub result : q.result ≡ p.result

counted :
    (k : ℕ) (ps : List PendingAcknowledgement) {p : PendingAcknowledgement}
    → Memᴰ p ps
    → (q : PendingAcknowledgement) × Memᴰ q (map_where (λ x. x.id == k) count_up ps) × IsCounted p q
counted k [] i = elim i [ ]
counted k (x ∷ ps) {p} (Memᴰ.head e) = elim (Bool-cases (x.id == k)) [
  | inl f ↦
      (count_up x, rw f (Memᴰ.head refl), rw e (record { id = refl; job = refl; result = refl }))
  | inr f ↦ (x, rw f (Memᴰ.head refl), rw e (record { id = refl; job = refl; result = refl }))
]
counted k (x ∷ ps) (Memᴰ.tail i) = let (q, m, c) = counted k ps i in (q, Memᴰ.tail m, c)

-- An entry is there after its attempts were counted up, for the same job and with the same result.
Stored-bump_attempt :
    (k i : ℕ) (r : JobAcknowledgement) (s : LocalStore)
    → Stored i r s
    → Stored i r (bump_attempt k s)
unfolding bump_attempt
Stored-bump_attempt k i r s h =
    let (q, m, c) = counted k s.pending_acknowledgements h.is_there in
    record { entry = q; is_there = m; job = c.job ∙ h.job; result = c.result ∙ h.result }

module _ {World : Type 0} {Settled : ℕ → World → Type 0} where
  pub Change-Kept :
      {m m' : Machine World} (i : ℕ) (r : JobAcknowledgement)
      → Change Settled m m'
      → Kept Settled i r m
      → Kept Settled i r m'
  unfolding record_pending resolve
  Change-Kept i r Change.stay h = h
  Change-Kept i r (Change.both a b) h = Change-Kept i r b (Change-Kept i r a h)
  Change-Kept i r (Change.move w b f) h = elim h [ inl q ↦ inl (f i q) | inr q ↦ inr q ]
  Change-Kept i r (Change.write s e f) h = elim h [
    | inl q ↦ inl q
    | inr q ↦
        inr (record { entry = q.entry; is_there = rw e q.is_there; job = q.job; result = q.result })
  ]
  Change-Kept i r (Change.keep {m} now k t x reason) h = elim h [
    | inl q ↦ inl q
    | inr q ↦ inr (record {
      entry = q.entry;
      is_there = mem-append_left m.store.pending_acknowledgements _ q.is_there;
      job = q.job;
      result = q.result;
    })
  ]
  Change-Kept i r (Change.bump {m} k) h = elim h [
    | inl q ↦ inl q
    | inr q ↦ inr (Stored-bump_attempt k i r m.store q)
  ]
  Change-Kept i r (Change.drop {m} k settled) h = elim h [
    | inl q ↦ inl q
    | inr q ↦ elim (Bool-cases (q.entry.id == k)) [
      | inl e ↦ inl (subst (λ n. Settled n m.world) q.job (settled q.entry q.is_there e))
      | inr e ↦ inr (record {
        entry = q.entry;
        is_there = mem-delete_where (λ p. p.id == k) m.store.pending_acknowledgements q.is_there e;
        job = q.job;
        result = q.result;
      })
    ]
  ]
