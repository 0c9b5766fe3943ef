-- ===== src/Jobs.antt =====
-- The hosted job queue: src/pr_reviewer/jobs/*.py over the Postgres tables review_jobs,
-- github_deliveries, installations and agent_events. A table is a list of rows, a nullable column
-- an `Option`, a time a number of microseconds. The column pull_request_id, which no statement
-- writes, is left out.
pub mod Enqueue
pub mod Cancel
pub mod Lifecycle
pub mod Claim
pub mod Lease
pub mod Runner
pub mod Push
pub mod Rows
pub mod History
pub mod Steps
pub mod Validity
pub mod Unique
pub mod Active
pub mod Exclusive
pub mod Next
pub mod Deliveries
pub mod Replies
use pr_reviewer.Base.{
  ℕ, ◌*◌, String, Option, none, some, List, ◌∷◌, [], Bool, true, false, ◌&&◌, holds, ◌==◌, str_eq,
  if◌then◌else◌,
}

-- The integers of Python and of the bigint columns; `negsuc n` is -(n + 1).
pub data ℤ : Type 0 where
  pos : ℕ → ℤ
  negsuc : ℕ → ℤ

abbrev pub int_eq : ℤ → ℤ → Bool
int_eq (pos a) (pos b) = a == b
int_eq (negsuc a) (negsuc b) = a == b
int_eq (pos a) (negsuc b) = false
int_eq (negsuc a) (pos b) = false

-- 'completed' and 'stopped_early' are the two that a pushed summary sets
pub data Status : Type 0 where
  pending running succeeded failed superseded cancelled review_completed review_stopped_early :
      Status

-- contracts/errors.py: the closed set that last_error may hold
pub data ReviewJobErrorClass : Type 0 where
  worker_crashed shutdown_requested : ReviewJobErrorClass

abbrev pub error_value : ReviewJobErrorClass → String
error_value worker_crashed = "worker_crashed"
error_value shutdown_requested = "shutdown_requested"

-- The columns that one insert sets together, or leaves null together. Costs are micro-dollars.
pub record Target : Type 0 where
  pub installation_id : ℤ
  pub github_repository_id : ℤ
  pub pull_request_number : ℤ
  pub base_sha : String
  pub head_sha : String
  pub policy_version : String
  pub budget_max_tokens : ℕ
  pub budget_max_cost_usd : ℕ
  pub trace_id : ℕ

pub record Job : Type 0 where
  pub id : ℕ
  pub delivery_id : Option String
  pub status : Status
  pub attempts : ℕ
  pub available_at : ℕ
  pub locked_by : Option String
  pub locked_until : Option ℕ
  pub lease_token_hash : Option String
  pub last_error : Option String
  pub created_at : ℕ
  pub updated_at : ℕ
  pub target : Option Target

-- A row of agent_events: its job, its type, and the payload's text fields.
pub record AgentEvent : Type 0 where
  pub review_job_id : ℕ
  pub event_type : String
  pub payload : List (String × String)

pub record Db : Type 0 where
  pub deliveries : List (String × String)
  pub installations : List ℤ
  pub jobs : List Job
  pub events : List AgentEvent

abbrev pub is_pending : Status → Bool
is_pending pending = true
is_pending _ = false

abbrev pub is_running : Status → Bool
is_running running = true
is_running _ = false

abbrev pub is_failed : Status → Bool
is_failed failed = true
is_failed _ = false

abbrev pub is_cancelled : Status → Bool
is_cancelled cancelled = true
is_cancelled _ = false

-- status in ('pending', 'running')
abbrev pub is_active : Status → Bool
is_active pending = true
is_active running = true
is_active _ = false

-- REVIEW_JOB_LEASE_INTERVAL, '5 minutes'
abbrev pub review_job_lease_interval : ℕ
review_job_lease_interval = 300_000_000

-- installation_id = … and github_repository_id = … and pull_request_number = …
abbrev pub same_pull_request : ℤ → ℤ → ℤ → Option Target → Bool
same_pull_request i r n = holds (λ t.
    int_eq t.installation_id i
    && (int_eq t.github_repository_id r && int_eq t.pull_request_number n))

-- … and status in ('pending', 'running')
abbrev pub is_active_in : ℤ → ℤ → ℤ → Job → Bool
is_active_in i r n j = same_pull_request i r n j.target && is_active j.status

abbrev pub has_id : ℕ → Job → Bool
has_id i j = j.id == i

-- set status = 'superseded', or 'cancelled': the lock's columns are left as they are
abbrev pub mark : Status → (now : ℕ) → Job → Job
mark s now j = record j { status = s; updated_at = now }

-- update review_jobs set … where …
abbrev pub update_where : (Job → Bool) → (Job → Job) → List Job → List Job
update_where p f [] = []
update_where p f (j ∷ js) = (if p j then f j else j) ∷ update_where p f js
