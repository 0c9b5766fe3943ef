-- ===== src/Jobs/Lease.antt =====
-- What the worker that holds a job does with it: jobs/renew_review_job_lease.py,
-- jobs/complete_review_job.py, jobs/fail_review_job.py; and jobs/requeue_review_job.py, the
-- operator's restart of a dead job. `none` is the RuntimeError that a call raises.
use pr_reviewer.Base.{
  ℕ, ◌+◌, String, Option, none, some, List, ◌∷◌, [], ◌++◌, Bool, ◌&&◌, ltb, leb, ◌==◌, str_eq,
  holds, count_where, if◌then◌else◌, false, not,
}
use pr_reviewer.Jobs.{
  Status, pending, succeeded, failed, ReviewJobErrorClass, error_value, Job, AgentEvent, Db,
  is_running, is_failed, review_job_lease_interval, update_where, Target, is_active_in,
}

-- id = … and status = 'running' and locked_by = …
abbrev pub is_owned : (job_id : ℕ) (worker_id : String) → Job → Bool
is_owned job_id worker_id j =
    j.id == job_id && (is_running j.status && holds (λ w. str_eq w worker_id) j.locked_by)

-- locked_until > now()
abbrev pub is_live : (now : ℕ) → Job → Bool
is_live now j = holds (λ t. ltb now t) j.locked_until

abbrev pub renew_lease : (now : ℕ) → Job → Job
renew_lease now j = record j {
  locked_until = some (now + review_job_lease_interval);
  updated_at = now;
}

abbrev pub complete_job : (now : ℕ) → Job → Job
complete_job now j = record j {
  status = succeeded;
  locked_by = none;
  locked_until = none;
  updated_at = now;
}

-- An update that must hit one row.
abbrev pub update_one : (Job → Bool) → (Job → Job) → List Job → Option (List Job)
update_one p f js = if count_where p js == 1 then some (update_where p f js) else none

unfoldable pub renew_review_job_lease :
    (job_id : ℕ) (worker_id : String) (now : ℕ) → List Job → Option (List Job)
renew_review_job_lease job_id worker_id now =
    update_one (λ j. is_owned job_id worker_id j && is_live now j) (renew_lease now)

unfoldable pub complete_review_job :
    (job_id : ℕ) (worker_id : String) (now : ℕ) → List Job → Option (List Job)
complete_review_job job_id worker_id now = update_one (is_owned job_id worker_id) (complete_job now)

abbrev pub max_review_job_attempts : ℕ
max_review_job_attempts = 3

-- REVIEW_JOB_RETRY_INTERVAL, '1 minute'
abbrev pub review_job_retry_interval : ℕ
review_job_retry_interval = 60_000_000

abbrev pub fail_job : (now : ℕ) → ReviewJobErrorClass → Job → Job
fail_job now error j = record j {
  status = if leb max_review_job_attempts j.attempts then failed else pending;
  available_at =
      if leb max_review_job_attempts j.attempts
      then j.available_at
      else now + review_job_retry_interval;
  locked_by = none;
  locked_until = none;
  last_error = some (error_value error);
  updated_at = now;
}

-- The row that `returning` hands back: the first that the update hits.
abbrev pub first_where : (Job → Bool) → List Job → Option Job
first_where p [] = none
first_where p (j ∷ js) = let rest = first_where p js in if p j then some j else rest

abbrev status_text : Status → String
status_text failed = "failed"
status_text _ = "pending"

abbrev pub fail_event : (job_id : ℕ) → ReviewJobErrorClass → Status → AgentEvent
fail_event job_id error status = record {
  review_job_id = job_id;
  event_type = if is_failed status then "review_job_failed" else "review_job_retry_scheduled";
  payload = ("error", error_value error) ∷ ("status", status_text status) ∷ [];
}

abbrev fail_found :
    Option Job → (job_id : ℕ) (worker_id : String) (now : ℕ) → ReviewJobErrorClass → Db → Option Db
fail_found none job_id worker_id now error db = none
fail_found (some j) job_id worker_id now error db = some (record db {
  jobs = update_where (is_owned job_id worker_id) (fail_job now error) db.jobs;
  events = db.events ++ fail_event job_id error (fail_job now error j).status ∷ [];
})

unfoldable pub fail_review_job :
    (job_id : ℕ) (worker_id : String) (now : ℕ) → ReviewJobErrorClass → Db → Option Db
fail_review_job job_id worker_id now error db =
    fail_found (first_where (is_owned job_id worker_id) db.jobs) job_id worker_id now error db

abbrev pub is_dead : (job_id : ℕ) → Job → Bool
is_dead job_id j = j.id == job_id && is_failed j.status

abbrev pub restart_job : (now : ℕ) → Job → Job
restart_job now j = record j {
  status = pending;
  attempts = 0;
  last_error = none;
  locked_by = none;
  locked_until = none;
  available_at = now;
  updated_at = now;
}

-- review_jobs_one_active_head_idx: an active row with the pull request and the head of the target;
-- a row without a target is in no index
abbrev pub is_active_head : Target → Job → Bool
is_active_head t j =
    is_active_in t.installation_id t.github_repository_id t.pull_request_number j
    && holds (λ u. str_eq u.head_sha t.head_sha) j.target

abbrev pub target_found : Option Job → Option Target
target_found none = none
target_found (some j) = j.target

abbrev pub has_active_head : List Job → Option Target → Bool
has_active_head js none = false
has_active_head js (some t) = not (count_where (is_active_head t) js == 0)

-- none is the RuntimeError for no dead row, or the index's UniqueViolation
unfoldable pub requeue_review_job : (job_id now : ℕ) → List Job → Option (List Job)
requeue_review_job job_id now js =
    if count_where (is_dead job_id) js == 0
    then none
    else if has_active_head js (target_found (first_where (is_dead job_id) js))
    then none
    else some (update_where (is_dead job_id) (restart_job now) js)

-- A running job that the worker holds.
abbrev pub is_held_by : (worker_id : String) → Job → Bool
is_held_by worker_id j = is_running j.status && holds (λ w. str_eq w worker_id) j.locked_by

-- requeue_review_job.py: what a page shows for a status
unfoldable pub dead_job_status : String → String
dead_job_status status = if str_eq status "failed" then "dead" else status
