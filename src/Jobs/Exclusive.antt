-- ===== src/Jobs/Exclusive.antt =====
-- A lease keeps every other worker off the job until it ends.
use pr_reviewer.Base.{
  refl, [], ◌∷◌, ℕ, String, Bool, ◌≡◌, ◌≢◌, List, ◌<◌, true, ◌⊎◌, false, some, arith, str_eq_iff,
  Bool-cases, if◌then◌else◌, inl, none, inr, All, subst,
}
use pr_reviewer.Jobs.{
  Status, Job, has_id, running, mark, superseded, update_where, cancelled, is_active_in, Db,
}
use pr_reviewer.Jobs.Lease.{
  first_where, is_held_by, renew_lease, is_owned, complete_job, fail_job, is_dead, restart_job,
}
use pr_reviewer.Jobs.Claim.{is_due, next_job, start_job}
use pr_reviewer.Jobs.Unique.{UniqueIds, Step-UniqueIds}
use pr_reviewer.Jobs.Steps.{Step, apply-Step, actor_of}
use pr_reviewer.Jobs.Rows.{
  first_where-update_where, first_where-append, first_where_passes, first_where-next_job,
  next_job_passes, first_where-delete_where,
}
use pr_reviewer.Jobs.Enqueue.{new_job, supersede, target_of}
use pr_reviewer.Jobs.Runner.{start_leased, finish_job}
use pr_reviewer.Jobs.History.{Op, run, apply, push, purge}
use pr_reviewer.Jobs.Validity.{caller, caller_acts}
use pr_reviewer.Jobs.Push.{pushed_row, overwrite, is_in_repository}

abbrev pub is_marked : Status → Bool
is_marked superseded = true
is_marked cancelled = true
is_marked _ = false

-- `k` is the row `j`, or the row `j` marked superseded or cancelled.
abbrev pub IsKept : Job → Job → Type 0
IsKept j k = (k ≡ j) ⊎ ((is_marked k.status ≡ true) × (k ≡ mark k.status k.updated_at j))

-- The row with the id of `j` is such a row.
abbrev pub Holds : Job → List Job → Type 0
Holds j js = (k : Job) × (first_where (has_id j.id) js ≡ some k) × IsKept j k

-- The job runs for `w` until `t`.
pub record IsLeased (w : String) (t : ℕ) (j : Job) : Type 0 where
  pub at_work : j.status ≡ running
  pub holder : j.locked_by ≡ some w
  pub until : j.locked_until ≡ some t

update-Holds :
    (j : Job) (p : Job → Bool) (f : Job → Job) (js : List Job)
    → ((k : Job) → (f k).id ≡ k.id)
    → (h : Holds j js) → IsKept j (if p h.0 then f h.0 else h.0)
    → Holds j (update_where p f js)
update-Holds j p f js same (k, found, _) kept =
    (if p k then f k else k, rw (first_where-update_where j.id p f js same, found), kept)

-- The two writers that look at no lease leave the job alone: a pushed summary is of another id, and
-- a purge of another repository.
abbrev pub Spares : Job → Op → Type 0
Spares j (push s) = has_id s.review_job_id j ≡ false
Spares j (purge is_referenced i r) = is_in_repository i r j ≡ false
Spares j _ = Unit

module _ (now : ℕ) {a w : String} {t : ℕ} (other : w ≢ a) (live : now < t) where
  not_held : (j k : Job) → IsLeased w t j → IsKept j k → is_held_by a k ≡ false
  not_held j k l h = ground (arith, str_eq_iff w a)

  not_due : (j k : Job) → IsLeased w t j → IsKept j k → is_due now k ≡ false
  not_due j k l h = ground arith

  mark-IsKept :
      (s : Status) (j k : Job) (b : Bool)
      → is_marked s ≡ true
      → IsKept j k
      → IsKept j (if b then mark s now k else k)
  mark-IsKept s j k b m h = ground arith

  -- the row that a selection of due rows picks is another
  picked-Holds :
      (f : Job → Job) (p : Job → Bool) (js : List Job) {x : Job} (j : Job)
      → ((k : Job) → (f k).id ≡ k.id)
      → ((k : Job) → p k ≡ true → is_due now k ≡ true)
      → next_job p js ≡ some x
      → UniqueIds js
      → IsLeased w t j
      → Holds j js
      → Holds j (update_where (has_id x.id) f js)
  picked-Holds f p js {x} j same due e u l (k, found, h) =
      update-Holds j (has_id x.id) f js same (k, found, h)
        (elim (Bool-cases (has_id x.id k)) [
          | inl q ↦
              let i : j.id ≡ x.id =
                ground (arith, first_where_passes (has_id j.id) js {j = k} found) in
              let f' : first_where (has_id j.id) js ≡ some x =
                rw i (first_where-next_job p js e (u x.id)) in
              ground (arith, not_due j k l h, due x, next_job_passes p js e)
          | inr q ↦ rw q h
        ])

  -- A step of another caller leaves the job running, or marks it superseded or cancelled.
  Step-Holds :
      {op : Op} {js ks : List Job} (j : Job)
      → Step now a op js ks
      → Spares j op
      → UniqueIds js
      → IsLeased w t j
      → Holds j js
      → Holds j ks
  Step-Holds j Step.stay g u l h = h
  Step-Holds {js = js} j (Step.insert id d z) g u l (k, found, h) =
      (k, first_where-append (has_id j.id) js (new_job id now d none ∷ []) found, h)
  Step-Holds {js = js} j (Step.replace id x d p z) g u l (k, found, h) =
      let (k', found', h') =
        update-Holds j (is_active_in p.installation_id p.github_repository_id p.pull_request_number)
          (mark superseded now) js (λ _. refl) (k, found, h)
          (mark-IsKept superseded j k _ refl h) in
      (
        k',
        first_where-append (has_id j.id)
            (supersede now p.installation_id p.github_repository_id p.pull_request_number js)
            (new_job id now d (some (target_of p x)) ∷ []) found',
        h',
      )
  Step-Holds {js = js} j (Step.withdraw x r n) g u l (k, found, h) =
      update-Holds j (is_active_in x r n) (mark cancelled now) js (λ _. refl) (k, found, h)
        (mark-IsKept cancelled j k (is_active_in x r n k) refl h)
  Step-Holds {js = js} j (Step.start p d e) g u l h =
      picked-Holds (start_job a now) p js j (λ _. refl) d e u l h
  Step-Holds {js = js} j (Step.start_token p d s e) g u l h =
      picked-Holds (start_leased a s now) p js j (λ _. refl) d e u l h
  Step-Holds {js = js} j (Step.extend p d) g u l (k, found, h) =
      update-Holds j p (renew_lease now) js (λ _. refl) (k, found, h)
        (ground (arith, d k, not_held j k l h))
  Step-Holds {js = js} j (Step.succeed i) g u l (k, found, h) =
      update-Holds j (is_owned i a) (complete_job now) js (λ _. refl) (k, found, h)
        (ground (arith, not_held j k l h))
  Step-Holds {js = js} j (Step.give_up i e) g u l (k, found, h) =
      update-Holds j (is_owned i a) (fail_job now e) js (λ _. refl) (k, found, h)
        (ground (arith, not_held j k l h))
  Step-Holds {js = js} j (Step.restart i _) g u l (k, found, h) =
      update-Holds j (is_dead i) (restart_job now) js (λ _. refl) (k, found, h) (ground arith)
  Step-Holds {js = js} j (Step.settle ack i {j = x} e m) g u l (k, found, h) =
      update-Holds j (has_id i) (finish_job now ack) js (λ _. refl) (k, found, h)
        (elim (Bool-cases (has_id i k)) [
          | inl q ↦
              let same : j.id ≡ i =
                ground (arith, first_where_passes (has_id j.id) js {j = k} found) in
              let found' : first_where (has_id j.id) js ≡ some x = rw same e in
              ground (arith, not_held j k l h)
          | inr q ↦ rw q h
        ])
  Step-Holds {js = js} j (Step.push_row s z) g u l (k, found, h) =
      (k, first_where-append (has_id j.id) js (pushed_row now s ∷ []) found, h)
  Step-Holds {js = js} j (Step.push_over s e) g u l (k, found, h) =
      let g' : has_id s.review_job_id j ≡ false = subst (Spares j) e g in
      update-Holds j (has_id s.review_job_id) (overwrite now s) js (λ _. refl) (k, found, h)
        (ground (arith, first_where_passes (has_id j.id) js {j = k} found))
  Step-Holds {js = js} j (Step.erase p i r e) g u l (k, found, h) =
      let g' : is_in_repository i r j ≡ false = subst (Spares j) e g in
      (k, first_where-delete_where (has_id j.id) (is_in_repository i r) js found (ground arith), h)

-- Every operation of the history comes before `t`, none is made in the name of `w`, and all spare
-- the job.
abbrev pub ByOthers : String → ℕ → Job → List (ℕ × Op) → Type 0
ByOthers w t j = All (λ x. (x.0 < t) × ((w ≢ caller (actor_of x.1)) × Spares j x.1))

history-Holds :
    (hash : String → String) (w : String) (t : ℕ) (j : Job) (ops : List (ℕ × Op)) (db : Db)
    → ByOthers w t j ops
    → UniqueIds db.jobs
    → IsLeased w t j
    → Holds j db.jobs
    → Holds j (run hash ops db).jobs
unfolding run
history-Holds hash w t j [] db o u l h = h
history-Holds hash w t j ((now, op) ∷ ops) db o u l h =
    let s = apply-Step hash now (caller (actor_of op)) op db (caller_acts (actor_of op)) in
    history-Holds hash w t j ops (apply hash now op db) o.1 (Step-UniqueIds now s u) l
      (Step-Holds now o.0.1.0 o.0.0 j s o.0.1.1 u l h)

-- While a worker's lease on a job runs, no sequence of operations by others changes the job's row,
-- but that a webhook may mark it superseded or cancelled. Ids are unique, the worker's name is not
-- empty, and each operation comes before the lease ends. Summaries that a runner pushes for other
-- ids and purges of other repositories may be among the operations; a pushed summary of the job's
-- own id or a purge of its own repository, which look at no lease, may not.
pub lease_exclusive :
    (hash : String → String) (w : String) (t : ℕ) (j : Job) (ops : List (ℕ × Op)) (db : Db)
    → ByOthers w t j ops
    → UniqueIds db.jobs
    → IsLeased w t j
    → first_where (has_id j.id) db.jobs ≡ some j
    → (k : Job) × (first_where (has_id j.id) (run hash ops db).jobs ≡ some k)
      × ((k ≡ j) ⊎ ((is_marked k.status ≡ true) × (k ≡ mark k.status k.updated_at j)))
lease_exclusive hash w t j ops db o u l found =
    history-Holds hash w t j ops db o u l (j, found, inl refl)
