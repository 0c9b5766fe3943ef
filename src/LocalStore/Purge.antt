-- ===== src/LocalStore/Purge.antt =====
-- The purge of a repository: its loop over the jobs against one deletion from each table.
use mathlib.Core.Path.{fun_ext}
use pr_reviewer.Base.{
  refl, List, ℕ, Bool, String, [], ◌∷◌, ◌≡◌, ◌||◌, ◌&&◌, false, arith, delete_where,
  delete_where-delete_where, delete_where-same, is_one_of, holds, str_eq, ◌==◌, sym, none, some,
  Option, ◌∙◌, ap,
}
use pr_reviewer.Jobs.{ℤ}
use pr_reviewer.LocalStore.{FindingRow, LocalStore, LocalJob, is_job}
use pr_reviewer.LocalStore.Jobs.{
  purge_job, has_finding, is_in_repository, jobs_in, purge_jobs, purge_repository,
}

-- A job of the repository has the id.
abbrev pub is_owned : ℤ → List LocalJob → ℕ → Bool
is_owned r [] i = false
is_owned r (j ∷ js) i = (is_in_repository r j && j.job_id == i) || is_owned r js i

-- A finding of one of some jobs has the id.
abbrev pub has_finding_of : (ℕ → Bool) → String → List FindingRow → Bool
has_finding_of p x [] = false
has_finding_of p x (f ∷ fs) = (p f.job_id && str_eq f.id x) || has_finding_of p x fs

-- What is left when the rows of some jobs are gone from the seven tables that a purge names.
abbrev pub without : (ℕ → Bool) → LocalStore → LocalStore
without p s = record s {
  pending_acknowledgements = delete_where (λ x. p x.job_id) s.pending_acknowledgements;
  human_decisions = delete_where (λ d. has_finding_of p d.finding_id s.findings) s.human_decisions;
  findings = delete_where (λ f. p f.job_id) s.findings;
  snapshots = delete_where (λ x. p x.job_id) s.snapshots;
  events = delete_where (λ e. holds p e.job_id) s.events;
  budgets = delete_where (λ b. p b.job_id) s.budgets;
  jobs = delete_where (λ j. p j.job_id) s.jobs;
}

has_finding_of-cons :
    (i : ℕ) (is : List ℕ) (x : String) (fs : List FindingRow)
    → (has_finding i x fs
        || has_finding_of (λ k. is_one_of k is) x (delete_where (λ f. f.job_id == i) fs))
      ≡ has_finding_of (λ k. is_one_of k (i ∷ is)) x fs
has_finding_of-cons i is x [] = refl
has_finding_of-cons i is x (f ∷ fs) = ground (arith, has_finding_of-cons i is x fs)

has_finding_of-none : (x : String) (fs : List FindingRow) → has_finding_of (λ k. false) x fs ≡ false
has_finding_of-none x [] = refl
has_finding_of-none x (f ∷ fs) = has_finding_of-none x fs

delete_none {ℓ} : {A : Type ℓ} (xs : List A) → delete_where (λ x. false) xs ≡ xs
delete_none [] = refl
delete_none (x ∷ xs) = ground (arith, delete_none xs)

holds-or : (p q : ℕ → Bool) (o : Option ℕ) → (holds p o || holds q o) ≡ holds (λ k. p k || q k) o
holds-or p q none = refl
holds-or p q (some k) = refl

holds-none : (o : Option ℕ) → holds (λ k. false) o ≡ false
holds-none none = refl
holds-none (some k) = refl

without-none : (s : LocalStore) → without (λ k. false) s ≡ s
without-none s =
    let decisions =
      delete_where-same (λ d. has_finding_of (λ k. false) d.finding_id s.findings) (λ d. false)
        s.human_decisions (λ d. has_finding_of-none d.finding_id s.findings)
      ∙ delete_none s.human_decisions in
    let events =
      delete_where-same (λ e. holds (λ k. false) e.job_id) (λ e. false) s.events
        (λ e. holds-none e.job_id)
      ∙ delete_none s.events in
    λ z. record s {
      pending_acknowledgements = delete_none s.pending_acknowledgements z;
      human_decisions = decisions z;
      findings = delete_none s.findings z;
      snapshots = delete_none s.snapshots z;
      events = events z;
      budgets = delete_none s.budgets z;
      jobs = delete_none s.jobs z;
    }

without-purge_job :
    (i : ℕ) (is : List ℕ) (s : LocalStore)
    → without (λ k. is_one_of k is) (purge_job i s) ≡ without (λ k. is_one_of k (i ∷ is)) s
unfolding purge_job
without-purge_job i is s =
    let decisions =
      delete_where-delete_where (λ d. has_finding i d.finding_id s.findings)
        (λ d.
          has_finding_of (λ k. is_one_of k is) d.finding_id
            (delete_where (λ f. f.job_id == i) s.findings))
        s.human_decisions
      ∙ delete_where-same _ _ s.human_decisions
          (λ d. has_finding_of-cons i is d.finding_id s.findings) in
    let events =
      delete_where-delete_where (λ e. holds (λ k. k == i) e.job_id)
        (λ e. holds (λ k. is_one_of k is) e.job_id) s.events
      ∙ delete_where-same _ _ s.events
          (λ e. holds-or (λ k. k == i) (λ k. is_one_of k is) e.job_id) in
    λ z. record s {
      pending_acknowledgements =
          delete_where-delete_where (λ x. x.job_id == i) (λ x. is_one_of x.job_id is)
            s.pending_acknowledgements z;
      human_decisions = decisions z;
      findings =
          delete_where-delete_where (λ x. x.job_id == i) (λ x. is_one_of x.job_id is) s.findings z;
      snapshots =
          delete_where-delete_where (λ x. x.job_id == i) (λ x. is_one_of x.job_id is) s.snapshots z;
      events = events z;
      budgets =
          delete_where-delete_where (λ x. x.job_id == i) (λ x. is_one_of x.job_id is) s.budgets z;
      jobs = delete_where-delete_where (is_job i) (λ x. is_one_of x.job_id is) s.jobs z;
    }

purge_jobs-without :
    (is : List ℕ) (s : LocalStore) → purge_jobs is s ≡ without (λ k. is_one_of k is) s
purge_jobs-without [] s = sym (without-none s)
purge_jobs-without (i ∷ is) s = purge_jobs-without is (purge_job i s) ∙ without-purge_job i is s

is_owned-jobs_in :
    (r : ℤ) (js : List LocalJob) (i : ℕ) → is_one_of i (jobs_in r js) ≡ is_owned r js i
is_owned-jobs_in r [] i = refl
is_owned-jobs_in r (j ∷ js) i = ground (arith, is_owned-jobs_in r js i)

-- A purge takes out of the seven tables that it names exactly the rows that belong to a job of the
-- repository: its acknowledgements, its findings and the decisions on them, its snapshots, events and
-- budgets, and the job itself. Every other row stays as it was, also the jobs' rows of workflow_runs
-- and workflow_steps.
pub purge_repository-without :
    (r : ℤ) (s : LocalStore) → purge_repository r s ≡ without (is_owned r s.jobs) s
unfolding purge_repository
purge_repository-without r s =
    purge_jobs-without (jobs_in r s.jobs) s
    ∙ ap (λ p. without p s) (fun_ext (λ i. is_owned-jobs_in r s.jobs i))
