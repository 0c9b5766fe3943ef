-- ===== src/Tests/LocalStore.antt =====
-- A local store with a completed job and one at work, in two repositories.
use pr_reviewer.Base.{refl, String, List, ℕ, none, ◌∷◌, ◌≡◌, [], some}
use pr_reviewer.LocalStore.{
  LocalStore, LocalHumanDecision, FindingRow, network_unreachable, PendingAcknowledgementReason,
  LocalJobStatus,
}
use pr_reviewer.LocalStore.Jobs.{
  purge_repository, claimed_row, purge_job, get_job, record_claimed, mark_abandoned, mark_completed,
}
use pr_reviewer.LocalStore.Book.{book, all_performed, JobOp, all_promised, book-all_performed}
use pr_reviewer.Jobs.Runner.{JobAcknowledgement, JobEnvelope, ack_succeeded}
use pr_reviewer.Jobs.{Target, pos}
use pr_reviewer.LocalStore.Purge.{is_owned, without, purge_repository-without}
use pr_reviewer.LocalStore.Pending.{pending_row}
use pr_reviewer.Workflow.{WorkflowStatus}

abbrev pub target_in : ℕ → Target
target_in r = record {
  installation_id = pos 1;
  github_repository_id = pos r;
  pull_request_number = pos 3;
  base_sha = "b";
  head_sha = "h";
  policy_version = "v1";
  budget_max_tokens = 100;
  budget_max_cost_usd = 1;
  trace_id = 1;
}

abbrev pub envelope_of : ℕ → ℕ → String → JobEnvelope
envelope_of i r t = record { job_id = i; target = target_in r; lease_token = t }

abbrev pub result : JobAcknowledgement
result = record { terminal_state = ack_succeeded; error_class = none; fields = [] }

abbrev finding : String → ℕ → FindingRow
finding x i = record { id = x; job_id = i; finding = "{}"; created_at = 1 }

abbrev decision : ℕ → String → LocalHumanDecision
decision k x = record {
  id = k;
  finding_id = x;
  decision = "accepted";
  decided_by = "sam";
  note = none;
  created_at = 2;
  original_hash = "o";
  edited_hash = "o";
}

abbrev pub local_store : LocalStore
local_store = record {
  jobs =
      record (claimed_row 1 (envelope_of 6 2 "t6")) { status = LocalJobStatus.completed }
      ∷ claimed_row 4 (envelope_of 7 3 "t7")
      ∷ [];
  snapshots = record { job_id = 7; snapshot = "{}" } ∷ [];
  findings = finding "f1" 6 ∷ finding "f2" 7 ∷ [];
  human_decisions = decision 0 "f1" ∷ decision 1 "f2" ∷ [];
  events = [];
  pending_acknowledgements =
      pending_row 0 5 7 "t7" result network_unreachable
      ∷ pending_row 1 3 6 "t6" result PendingAcknowledgementReason.invalid_or_expired
      ∷ [];
  budgets = record { job_id = 7; reserved_tokens = 10; reserved_cost_usd = 1 } ∷ [];
  workflows = record {
    runs =
        record {
          workflow_id = "w6";
          input = record { job_id = "6"; head_sha = "h"; trace_id = "1"; lease_token = "t6" };
          outcome = some WorkflowStatus.completed;
          reason = none;
        }
        ∷ [];
    steps = [];
  };
  fresh_decision = 2;
  fresh_event = 0;
  fresh_pending = 2;
}

workflows_left : (purge_repository (pos 2) local_store).workflows ≡ local_store.workflows
unfolding purge_repository purge_job
workflows_left = refl

decisions_left : (purge_repository (pos 2) local_store).human_decisions ≡ decision 1 "f2" ∷ []
unfolding purge_repository purge_job
decisions_left = refl

purge_repository-without_example :
    purge_repository (pos 2) local_store ≡ without (is_owned (pos 2) local_store.jobs) local_store
purge_repository-without_example = purge_repository-without (pos 2) local_store

abbrev ops : List JobOp
ops =
    JobOp.claim 8 (envelope_of 9 2 "t9")
    ∷ JobOp.abandon 9
    ∷ JobOp.claim 9 (envelope_of 9 2 "u9")
    ∷ JobOp.complete 7
    ∷ []

-- the job that was abandoned stays so when it is claimed again
abandoned_still : book (all_performed ops local_store) 9 ≡ some LocalJobStatus.abandoned
unfolding book get_job record_claimed mark_abandoned mark_completed
abandoned_still = refl

book-all_performed_example :
    book (all_performed ops local_store) ≡ all_promised ops (book local_store)
book-all_performed_example = book-all_performed ops local_store
