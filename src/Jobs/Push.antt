-- ===== src/Jobs/Push.antt =====
-- The writers of review_jobs beside the queue: control_plane/review_projection.py's upsert of a
-- pushed summary, and control_plane/retention.py's delete of a repository's jobs. Neither looks at
-- a lease.
use pr_reviewer.Base.{
  ℕ, String, Option, none, some, List, [], ◌∷◌, ◌++◌, Bool, ◌&&◌, ◌==◌, holds, count_where,
  delete_where, if◌then◌else◌,
}
use pr_reviewer.Jobs.{
  ℤ, int_eq, Status, review_completed, review_stopped_early, Target, Job, has_id, update_where,
}

-- PushedReviewSummaryBody, the fields that the row takes
pub data PushedStatus : Type 0 where
  pushed_completed pushed_stopped_early : PushedStatus

abbrev pub status_of : PushedStatus → Status
status_of pushed_completed = review_completed
status_of pushed_stopped_early = review_stopped_early

pub record PushedSummary : Type 0 where
  pub review_job_id : ℕ
  pub status : PushedStatus
  pub installation_id : ℤ
  pub github_repository_id : ℤ
  pub pull_request_number : ℤ
  pub head_sha : String

-- The columns that the upsert does not set stay; those that are null are blank here, and no
-- statement reads them of a row with a pushed status.
abbrev pub pushed_target : PushedSummary → Option Target → Target
pushed_target s (some t) = record t {
  installation_id = s.installation_id;
  github_repository_id = s.github_repository_id;
  pull_request_number = s.pull_request_number;
  head_sha = s.head_sha;
}
pushed_target s none = record {
  installation_id = s.installation_id;
  github_repository_id = s.github_repository_id;
  pull_request_number = s.pull_request_number;
  base_sha = "";
  head_sha = s.head_sha;
  policy_version = "";
  budget_max_tokens = 0;
  budget_max_cost_usd = 0;
  trace_id = 0;
}

-- on conflict (id) do update: the lock's columns are left as they are
abbrev pub overwrite : (now : ℕ) → PushedSummary → Job → Job
overwrite now s j = record j {
  status = status_of s.status;
  target = some (pushed_target s j.target);
  updated_at = now;
}

abbrev pub pushed_row : (now : ℕ) → PushedSummary → Job
pushed_row now s = record {
  id = s.review_job_id;
  delivery_id = none;
  status = status_of s.status;
  attempts = 0;
  available_at = now;
  locked_by = none;
  locked_until = none;
  lease_token_hash = none;
  last_error = none;
  created_at = now;
  updated_at = now;
  target = some (pushed_target s none);
}

-- the statement on review_jobs
unfoldable pub save_pushed_review_summary : (now : ℕ) → PushedSummary → List Job → List Job
save_pushed_review_summary now s js =
    if count_where (has_id s.review_job_id) js == 0
    then js ++ pushed_row now s ∷ []
    else update_where (has_id s.review_job_id) (overwrite now s) js

abbrev pub is_in_repository : ℤ → ℤ → Job → Bool
is_in_repository i r j =
    holds (λ t. int_eq t.installation_id i && int_eq t.github_repository_id r) j.target

-- The delete from review_jobs, in a transaction with those of the budgets and the repository.
-- `is_referenced` says for which rows another table has a foreign key without a cascade, to the row
-- (agent_events, model_calls, review_findings) or to its repository (repository_assignments): with one
-- of them the call raises (none) and is rolled back.
unfoldable pub purge_hosted_repository :
    (is_referenced : Job → Bool) → ℤ → ℤ → List Job → Option (List Job)
purge_hosted_repository is_referenced i r js =
    if count_where (λ j. is_in_repository i r j && is_referenced j) js == 0
    then some (delete_where (is_in_repository i r) js)
    else none
