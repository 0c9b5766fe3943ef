-- ===== src/LocalStore/Jobs.antt =====
-- LocalJobStore: the jobs that this runner has claimed, and the purge of a repository.
use pr_reviewer.Base.{
  List, ℕ, Bool, Option, [], ◌∷◌, ◌++◌, find_where, map_where, delete_where, ◌==◌, str_eq, ◌||◌,
  ◌&&◌, false, holds, sort_by, count_where, if◌then◌else◌, not, String,
}
use pr_reviewer.Jobs.{ℤ, int_eq}
use pr_reviewer.LocalStore.{
  LocalStore, LocalJobStatus, is_job, LocalJob, FindingRow, completed, is_claimed, abandoned,
  claimed,
}
use pr_reviewer.Jobs.Runner.{JobEnvelope}

abbrev pub claimed_row : (now : ℕ) → JobEnvelope → LocalJob
claimed_row now e = record {
  job_id = e.job_id;
  target = e.target;
  lease_token = e.lease_token;
  status = claimed;
  claimed_at = now;
}

-- insert or ignore: a job that has a row keeps it
unfoldable pub record_claimed : (now : ℕ) → JobEnvelope → LocalStore → LocalStore
record_claimed now e s =
    if count_where (is_job e.job_id) s.jobs == 0
    then record s { jobs = s.jobs ++ claimed_row now e ∷ [] }
    else s

unfoldable pub get_job : ℕ → LocalStore → Option LocalJob
get_job i s = find_where (is_job i) s.jobs

-- order by claimed_at; of equal times, the earlier row is first
unfoldable pub list_claimed : LocalStore → List LocalJob
list_claimed s = sort_by (λ j. j.claimed_at) (delete_where (λ j. not (is_claimed j.status)) s.jobs)

abbrev pub set_status : LocalJobStatus → LocalJob → LocalJob
set_status x j = record j { status = x }

unfoldable pub mark_abandoned : ℕ → LocalStore → LocalStore
mark_abandoned i s = record s { jobs = map_where (is_job i) (set_status abandoned) s.jobs }

unfoldable pub mark_completed : ℕ → LocalStore → LocalStore
mark_completed i s = record s { jobs = map_where (is_job i) (set_status completed) s.jobs }

-- a finding of the job has the id: finding_id in (select id from local_findings where job_id = ?)
abbrev pub has_finding : ℕ → String → List FindingRow → Bool
has_finding i x [] = false
has_finding i x (f ∷ fs) = (f.job_id == i && str_eq f.id x) || has_finding i x fs

-- the deletes of one job, in the order of the source
unfoldable pub purge_job : ℕ → LocalStore → LocalStore
purge_job i s = record s {
  pending_acknowledgements = delete_where (λ p. p.job_id == i) s.pending_acknowledgements;
  human_decisions = delete_where (λ d. has_finding i d.finding_id s.findings) s.human_decisions;
  findings = delete_where (λ f. f.job_id == i) s.findings;
  snapshots = delete_where (λ x. x.job_id == i) s.snapshots;
  events = delete_where (λ e. holds (λ k. k == i) e.job_id) s.events;
  budgets = delete_where (λ b. b.job_id == i) s.budgets;
  jobs = delete_where (is_job i) s.jobs;
}

abbrev pub is_in_repository : ℤ → LocalJob → Bool
is_in_repository r j = int_eq j.target.github_repository_id r

-- select job_id from local_jobs where repository_id = ?
abbrev pub jobs_in : ℤ → List LocalJob → List ℕ
jobs_in r [] = []
jobs_in r (j ∷ js) =
    let rest = jobs_in r js in if is_in_repository r j then j.job_id ∷ rest else rest

abbrev pub purge_jobs : List ℕ → LocalStore → LocalStore
purge_jobs [] s = s
purge_jobs (i ∷ is) s = purge_jobs is (purge_job i s)

unfoldable pub purge_repository : ℤ → LocalStore → LocalStore
purge_repository r s = purge_jobs (jobs_in r s.jobs) s
