-- ===== src/Jobs/Runner.antt =====
-- control_plane/runner_jobs.py: the same queue over HTTPS, for an installed runner that proves its
-- lease by a token. `hash` is hash_runner_credential; `lease_token` is drawn by secrets.
use pr_reviewer.Base.{
  ℕ, ◌+◌, String, Option, none, some, List, ◌∷◌, [], ◌++◌, Bool, true, false, not, ◌&&◌, leb, ◌==◌,
  str_eq, holds, count_where, if◌then◌else◌,
}
use pr_reviewer.Jobs.{
  ℤ, Status, succeeded, failed, running, Target, Job, AgentEvent, Db, is_running, is_cancelled,
  review_job_lease_interval, update_where, has_id,
}
use pr_reviewer.Jobs.Claim.{is_due, next_job}
use pr_reviewer.Jobs.Lease.{is_live, renew_lease, first_where}

-- A row of the table runners.
pub record RunnerRow : Type 0 where
  pub revoked_at : Option ℕ

-- A runner, its row if there is one, and what the join of repositories with
-- repository_assignments says of it.
pub record Runner : Type 0 where
  pub runner_id : String
  pub row : Option RunnerRow
  pub is_assigned : (installation_id repository_id : ℤ) → Bool

-- the row is there, and its revoked_at is null
abbrev pub is_admitted : Option RunnerRow → Bool
is_admitted none = false
is_admitted (some row) = elim row.revoked_at [ none ↦ true | some _ ↦ false ]

pub record JobEnvelope : Type 0 where
  pub job_id : ℕ
  pub target : Target
  pub lease_token : String

pub data Claimed : Type 0 where
  no_job : Claimed
  envelope : JobEnvelope → Claimed

abbrev pub start_leased : (runner_id token_hash : String) (now : ℕ) → Job → Job
start_leased runner_id token_hash now j = record j {
  status = running;
  locked_by = some runner_id;
  lease_token_hash = some token_hash;
  locked_until = some (now + review_job_lease_interval);
  attempts = j.attempts + 1;
  updated_at = now;
}

-- due, with a pull request, in a repository that the runner is assigned to
abbrev pub is_offered : Runner → (now : ℕ) → Job → Bool
is_offered runner now j =
    is_due now j
    && holds (λ t. runner.is_assigned t.installation_id t.github_repository_id) j.target

abbrev claim_offered :
    Option Job
    → (runner_id token_hash lease_token : String) (now : ℕ) → List Job
    → Claimed × List Job
claim_offered none runner_id token_hash lease_token now js = (no_job, js)
claim_offered (some j) runner_id token_hash lease_token now js = (
  elim j.target [
    | none ↦ no_job
    | some t ↦ envelope (record { job_id = j.id; target = t; lease_token = lease_token })
  ],
  update_where (has_id j.id) (start_leased runner_id token_hash now) js,
)

pub data LeaseState : Type 0 where
  active cancelled invalid_or_expired : LeaseState

abbrev pub is_leased : (job_id : ℕ) (runner_id token_hash : String) → Job → Bool
is_leased job_id runner_id token_hash j =
    j.id == job_id
    && (holds (λ w. str_eq w runner_id) j.locked_by
        && holds (λ t. str_eq t token_hash) j.lease_token_hash)

-- … and status = 'running' and locked_until > now()
abbrev pub is_beating : (job_id : ℕ) (runner_id token_hash : String) (now : ℕ) → Job → Bool
is_beating job_id runner_id token_hash now j =
    is_leased job_id runner_id token_hash j && (is_running j.status && is_live now j)

-- … and status = 'cancelled'
abbrev pub is_called_off : (job_id : ℕ) (runner_id token_hash : String) → Job → Bool
is_called_off job_id runner_id token_hash j =
    is_leased job_id runner_id token_hash j && is_cancelled j.status

pub data TerminalState : Type 0 where
  ack_succeeded ack_failed : TerminalState

-- contracts/runner.py; `fields` are the counters of the acknowledgement, as the event stores them
pub record JobAcknowledgement : Type 0 where
  pub terminal_state : TerminalState
  pub error_class : Option String
  pub fields : List (String × String)

abbrev pub terminal_status : TerminalState → Status
terminal_status ack_succeeded = succeeded
terminal_status ack_failed = failed

abbrev terminal_text : TerminalState → String
terminal_text ack_succeeded = "succeeded"
terminal_text ack_failed = "failed"

abbrev with_error : Option String → List (String × String)
with_error none = []
with_error (some e) = ("error_class", e) ∷ []

abbrev pub ack_event : (job_id : ℕ) → JobAcknowledgement → AgentEvent
ack_event job_id ack = record {
  review_job_id = job_id;
  event_type = "review_job_acknowledged";
  payload =
      ("terminal_state", terminal_text ack.terminal_state)
      ∷ (ack.fields ++ with_error ack.error_class);
}

abbrev pub finish_job : (now : ℕ) → JobAcknowledgement → Job → Job
finish_job now ack j = record j {
  status = terminal_status ack.terminal_state;
  last_error = ack.error_class;
  locked_until = none;
  updated_at = now;
}

-- The early returns of acknowledge_job, on the row's status and lease end.
pub data AckStep : Type 0 where
  denied settled finish : AckStep

abbrev pub ack_step : Status → Option ℕ → (now : ℕ) → AckStep
ack_step succeeded until now = settled
ack_step failed until now = settled
ack_step running (some t) now = if leb t now then denied else finish
ack_step _ _ now = denied

module _ (hash : String → String) where
  unfoldable pub claim_job :
      (locked : Job → Bool)
      → Runner
      → (lease_token : String) (now : ℕ) → List Job
      → Claimed × List Job
  claim_job locked runner lease_token now js =
      if is_admitted runner.row
      then claim_offered (next_job (λ j. is_offered runner now j && not (locked j)) js)
          runner.runner_id (hash lease_token) lease_token now js
      else (no_job, js)

  unfoldable pub heartbeat_job :
      (runner_id : String) (job_id : ℕ) (lease_token : String) (now : ℕ)
      → List Job
      → LeaseState × List Job
  heartbeat_job runner_id job_id lease_token now js =
      if count_where (is_beating job_id runner_id (hash lease_token) now) js == 1
      then (
        active,
        update_where (is_beating job_id runner_id (hash lease_token) now) (renew_lease now) js,
      )
      else if not (count_where (is_called_off job_id runner_id (hash lease_token)) js == 0)
      then (cancelled, js)
      else (invalid_or_expired, js)

  abbrev ack_found :
      Option Job
      → (runner_id : String) (job_id : ℕ) (lease_token : String) (now : ℕ) → JobAcknowledgement
      → Db
      → Option Db
  ack_found none runner_id job_id lease_token now ack db = none
  ack_found (some j) runner_id job_id lease_token now ack db =
      if not (is_leased job_id runner_id (hash lease_token) j)
      then none
      else elim (ack_step j.status j.locked_until now) [
        | denied ↦ none
        | settled ↦ some db
        | finish ↦ some (record db {
          jobs = update_where (has_id job_id) (finish_job now ack) db.jobs;
          events = db.events ++ ack_event job_id ack ∷ [];
        })
      ]

  -- `none` is JobProtocolDenied
  unfoldable pub acknowledge_job :
      (runner_id : String) (job_id : ℕ) (lease_token : String) (now : ℕ)
      → JobAcknowledgement
      → Db
      → Option Db
  acknowledge_job runner_id job_id lease_token now ack db =
      ack_found (first_where (has_id job_id) db.jobs) runner_id job_id lease_token now ack db
