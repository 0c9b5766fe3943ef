-- ===== src/Daemon.antt =====
-- The installed runner: src/pr_reviewer/runner/daemon.py and runner/revocation.py, over its local
-- store. The control plane, the review, the secrets, the clock and the stop event are the caller's
-- functions on a world of its own.
pub mod Steps
pub mod Loops
pub mod Changes
pub mod Numbered
pub mod Kept
pub mod Logged
pub mod Lasting
pub mod Drained
pub mod Landed
use pr_reviewer.Base.{List, ℕ, String, Option, Bool, none, some}
use pr_reviewer.LocalStore.{LocalStore}
use pr_reviewer.Jobs.Runner.{Claimed, JobEnvelope, JobAcknowledgement, LeaseState}

-- `unreachable` is httpx.TransportError; `refused` is RunnerAuthDenied, for a revoked runner or not
pub data ClaimAnswer : Type 0 where
  answered : Claimed → ClaimAnswer
  refused : (is_revoked : Bool) → ClaimAnswer
  unreachable : ClaimAnswer

-- acknowledge returns, raises JobProtocolDenied, or raises httpx.TransportError
pub data AckAnswer : Type 0 where
  accepted : AckAnswer
  protocol_denied : AckAnswer
  ack_unreachable : AckAnswer

-- RunnerClientProtocol, ReviewExecutor, the SecretStore's runner_credential, SQLite's now, and the
-- stop event. A heartbeat of none is httpx.TransportError; a review of none raises.
pub record Surroundings (World : Type 0) : Type 0 where
  pub claim : World → ClaimAnswer × World
  pub heartbeat : (job_id : ℕ) (lease_token : String) → World → Option LeaseState × World
  pub acknowledge :
      (job_id : ℕ) (lease_token : String) → JobAcknowledgement → World → AckAnswer × World
  pub set_credential : String → World → World
  pub credential : Option (World → Option String)
  pub review : Option (JobEnvelope → World → Option JobAcknowledgement × World)
  pub now : World → ℕ
  pub is_stopping : World → Bool
  pub clear_stop : World → World
  pub wait : World → World

-- the local store, RevocationGate's _stop_new_work, and the world
pub record Machine (World : Type 0) : Type 0 where
  pub store : LocalStore
  pub stop_new_work : Bool
  pub world : World

pub data Ended : Type 0 where
  returned raised : Ended
