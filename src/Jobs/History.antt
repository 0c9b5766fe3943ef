-- ===== src/Jobs/History.antt =====
-- Every statement that writes review_jobs, as one type of operations, and the database after a
-- sequence of them. A call that raises is rolled back: the database stays as it was. The table's
-- primary key is the database's own check: an insert under a taken id is refused.
use pr_reviewer.Base.{
  ℕ, String, Option, none, some, List, [], ◌∷◌, Bool, ◌==◌, count_where, if◌then◌else◌,
}
use pr_reviewer.Jobs.{ReviewJobErrorClass, Job, Db, has_id, ℤ}
use pr_reviewer.Jobs.Enqueue.{PullRequestIdentity, enqueue_review_job}
use pr_reviewer.Jobs.Cancel.{GitHubDelivery, cancel_review_job}
use pr_reviewer.Jobs.Claim.{claim_review_job}
use pr_reviewer.Jobs.Lease.{
  renew_review_job_lease, complete_review_job, fail_review_job, requeue_review_job,
}
use pr_reviewer.Jobs.Runner.{Runner, JobAcknowledgement, claim_job, heartbeat_job, acknowledge_job}
use pr_reviewer.Jobs.Push.{PushedSummary, save_pushed_review_summary, purge_hosted_repository}

pub data Op : Type 0 where
  enqueue : (id trace_id : ℕ) (delivery_id event_name : String) → Option PullRequestIdentity → Op
  cancel : GitHubDelivery → Op
  claim : (locked : Job → Bool) (worker_id : String) → Op
  renew complete : (job_id : ℕ) (worker_id : String) → Op
  fail : (job_id : ℕ) (worker_id : String) → ReviewJobErrorClass → Op
  requeue : (job_id : ℕ) → Op
  claim_runner : (locked : Job → Bool) → Runner → (lease_token : String) → Op
  heartbeat : (runner_id : String) (job_id : ℕ) (lease_token : String) → Op
  push : PushedSummary → Op
  purge : (is_referenced : Job → Bool) (installation_id github_repository_id : ℤ) → Op
  acknowledge : (runner_id : String) (job_id : ℕ) (lease_token : String) → JobAcknowledgement → Op

abbrev pub or_else {ℓ} : {A : Type ℓ} → Option A → A → A
or_else none a = a
or_else (some b) a = b

abbrev pub with_jobs : Db → List Job → Db
with_jobs db js = record db { jobs = js }

module _ (hash : String → String) where
  unfoldable pub apply : (now : ℕ) → Op → Db → Db
  apply now (enqueue id trace_id delivery_id event_name identity) db =
      if count_where (has_id id) db.jobs == 0
      then (enqueue_review_job id trace_id now delivery_id event_name identity db).1
      else db
  apply now (cancel delivery) db = (cancel_review_job now delivery db).1
  apply now (claim locked worker_id) db =
      with_jobs db (claim_review_job locked worker_id now db.jobs).1
  apply now (renew job_id worker_id) db =
      with_jobs db (or_else (renew_review_job_lease job_id worker_id now db.jobs) db.jobs)
  apply now (complete job_id worker_id) db =
      with_jobs db (or_else (complete_review_job job_id worker_id now db.jobs) db.jobs)
  apply now (fail job_id worker_id error) db =
      or_else (fail_review_job job_id worker_id now error db) db
  apply now (requeue job_id) db =
      with_jobs db (or_else (requeue_review_job job_id now db.jobs) db.jobs)
  apply now (claim_runner locked runner lease_token) db =
      with_jobs db (claim_job hash locked runner lease_token now db.jobs).1
  apply now (heartbeat runner_id job_id lease_token) db =
      with_jobs db (heartbeat_job hash runner_id job_id lease_token now db.jobs).1
  apply now (push summary) db = with_jobs db (save_pushed_review_summary now summary db.jobs)
  apply now (purge is_referenced installation_id github_repository_id) db = with_jobs db (
      or_else (purge_hosted_repository is_referenced installation_id github_repository_id db.jobs)
        db.jobs)
  apply now (acknowledge runner_id job_id lease_token ack) db =
      or_else (acknowledge_job hash runner_id job_id lease_token now ack db) db

  -- A history is a list of times and operations.
  unfoldable pub run : List (ℕ × Op) → Db → Db
  run [] db = db
  run ((now, op) ∷ ops) db = run ops (apply now op db)
