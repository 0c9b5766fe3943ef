-- ===== src/LocalStore.antt =====
-- The runner's own SQLite file: src/pr_reviewer/local_store/sqlite.py over local_store/migrations.
-- A table is the list of its rows; `fresh_…` is the next number of an autoincrement column. SQLite
-- leaves the references between the tables unchecked. Times are natural numbers.
pub mod Jobs
pub mod Records
pub mod Pending
pub mod Purge
pub mod Book
use pr_reviewer.Base.{List, ℕ, String, Option, Bool, true, false, ◌==◌}
use pr_reviewer.Jobs.{Target}
use pr_reviewer.Jobs.Runner.{JobAcknowledgement}
use pr_reviewer.Workflow.{Store}

pub data LocalJobStatus : Type 0 where
  claimed completed abandoned : LocalJobStatus

pub data PendingAcknowledgementReason : Type 0 where
  invalid_or_expired network_unreachable : PendingAcknowledgementReason

-- A row of local_jobs; `target` has the columns that come from the envelope.
pub record LocalJob : Type 0 where
  pub job_id : ℕ
  pub target : Target
  pub lease_token : String
  pub status : LocalJobStatus
  pub claimed_at : ℕ

-- A row of local_snapshots and one of local_findings: the key, the job, and the rest as a text.
pub record SnapshotRow : Type 0 where
  pub job_id : ℕ
  pub snapshot : String

pub record FindingRow : Type 0 where
  pub id : String
  pub job_id : ℕ
  pub finding : String
  pub created_at : ℕ

pub record LocalHumanDecision : Type 0 where
  pub id : ℕ
  pub finding_id : String
  pub decision : String
  pub decided_by : String
  pub note : Option String
  pub created_at : ℕ
  pub original_hash : String
  pub edited_hash : String

pub record LocalEvent : Type 0 where
  pub sequence : ℕ
  pub job_id : Option ℕ
  pub trace_id : ℕ
  pub event_type : String
  pub payload : String
  pub created_at : ℕ

pub record PendingAcknowledgement : Type 0 where
  pub id : ℕ
  pub job_id : ℕ
  pub lease_token : String
  pub result : JobAcknowledgement
  pub reason : PendingAcknowledgementReason
  pub attempts : ℕ
  pub created_at : ℕ

-- A row of local_job_budgets
pub record JobBudgetRow : Type 0 where
  pub job_id : ℕ
  pub reserved_tokens : ℕ
  pub reserved_cost_usd : ℕ

-- `workflows` has the tables workflow_runs and workflow_steps of the same file.
pub record LocalStore : Type 0 where
  pub jobs : List LocalJob
  pub snapshots : List SnapshotRow
  pub findings : List FindingRow
  pub human_decisions : List LocalHumanDecision
  pub events : List LocalEvent
  pub pending_acknowledgements : List PendingAcknowledgement
  pub budgets : List JobBudgetRow
  pub workflows : Store
  pub fresh_decision : ℕ
  pub fresh_event : ℕ
  pub fresh_pending : ℕ

-- where job_id = ?
abbrev pub is_job : ℕ → LocalJob → Bool
is_job i j = j.job_id == i

abbrev pub is_claimed : LocalJobStatus → Bool
is_claimed claimed = true
is_claimed _ = false
