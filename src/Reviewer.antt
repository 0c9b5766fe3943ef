-- ===== src/Reviewer.antt =====
-- The review of a pull request by one call of a model: src/pr_reviewer/reviewer/review_pull_request.py
-- with security/prompt_boundaries.py, and reviewer/specialists.py. The model, the heartbeat and the
-- specialists are the caller's functions on a world of its own.
pub mod Prompt
pub mod Review
pub mod Specialists
pub mod Stripped
pub mod Changed
pub mod Selected
pub mod Anchored
pub mod Answered
use pr_reviewer.Base.{refl, String, List, ℕ, Bool}
use pr_reviewer.Jobs.Runner.{LeaseState}
use pr_reviewer.Aggregate.{FindingCandidate}
use pr_reviewer.Packing.{OmittedFile}

-- str.replace of a text by "", len, and str.count
pub record Str : Type 0 where
  pub without : (part text : String) → String
  pub len : String → ℕ
  pub count : (part text : String) → ℕ

-- the fields of a PullRequestSnapshot that are read here
pub record Snapshot : Type 0 where
  pub repo_owner : String
  pub repo_name : String
  pub head_sha : String
  pub title : String
  pub body : String

pub record ReviewOutcome : Type 0 where
  pub candidates : List FindingCandidate
  pub covers_all_changed_files : Bool
  pub omitted_files : List OmittedFile
  pub cancelled : Bool

-- What review_pull_request returns or raises: the lease's RuntimeError, that of a marker that could
-- not be stripped, and whatever the heartbeat or the model raise.
pub data Reviewed : Type 0 where
  reviewed : ReviewOutcome → Reviewed
  lease_lost : LeaseState → Reviewed
  not_wrapped : Reviewed
  call_raised : Reviewed
