-- ===== src/Tests/Pipeline.antt =====
-- A workflow of which the first step is stored. The world counts the calls of its handlers; the
-- lease is cancelled at the fourth.
use pr_reviewer.Base.{refl, [], ◌∷◌, ℕ, ◌≡◌, none, String, some, suc, ◌+◌, true, zero, All}
use pr_reviewer.Jobs.{pos}
use pr_reviewer.Workflow.Engine.{run, advance, loop, do_step, checkpoint}
use pr_reviewer.Workflow.{
  Env, Ctx, fetch, cancelled, StepName, WorkflowInput, get_outcome, result, step_names, ensure_run,
  WorkflowResult, is_completed,
}
use pr_reviewer.Workflow.Laws.{Stands, IsConsistent, run-Stands, run_again}
use pr_reviewer.Jobs.Runner.{
  LeaseState, active, JobAcknowledgement, JobEnvelope, ack_failed, ack_succeeded,
}
use pr_reviewer.Workflow.Review.{review, no_usage, review_again}

abbrev inp : WorkflowInput
inp = record { job_id = "j"; head_sha = "head"; trace_id = "t"; lease_token = "token" }

abbrev lease_at : ℕ → LeaseState
lease_at zero = active
lease_at (suc zero) = active
lease_at (suc (suc zero)) = active
lease_at (suc (suc (suc n))) = LeaseState.cancelled

abbrev text_of : StepName → String
text_of fetch = "files"
text_of _ = "more"

abbrev env : Env ℕ String
env = record {
  handler = λ n x outputs calls. (some (text_of n), calls + 1);
  heartbeat = some (λ x calls. (some (lease_at calls), calls));
  current_head_sha = some (λ x calls. (some "head", calls));
  monotonic = λ calls. (calls, calls);
  step_timeouts = λ n. some 10;
  dumps = λ s. s;
  loads = λ s. s;
  has_recorder = true;
}

abbrev start : Ctx ℕ
start = record {
  store = record {
    runs = record { workflow_id = "w"; input = inp; outcome = none; reason = none } ∷ [];
    steps = record { workflow_id = "w"; step_name = fetch; output_json = "files" } ∷ [];
  };
  world = 0;
  events = [];
}

start-IsConsistent : IsConsistent env "w" start.store
unfolding get_outcome
start-IsConsistent reason h = cc

run-Stands_example :
    Stands env "w" step_names (run env "w" inp start).0 (run env "w" inp start).1.store
run-Stands_example = run-Stands env "w" inp start start-IsConsistent

stopped :
    (run env "w" inp start).0 ≡ result (record { status = cancelled; reason = some "cancelled" })
unfolding run advance loop do_step checkpoint ensure_run get_outcome
stopped = refl

run_again_example :
    run env "w" inp (run env "w" inp start).1
    ≡ (result (record { status = cancelled; reason = some "cancelled" }), (run env "w" inp start).1)
run_again_example = run_again env "w" inp inp start start-IsConsistent stopped

abbrev name_of : ℕ → String
name_of n = "w"

abbrev digest_of : WorkflowResult → String
digest_of r = "digest"

abbrev job : JobEnvelope
job = record {
  job_id = 1;
  target = record {
    installation_id = pos 1;
    github_repository_id = pos 2;
    pull_request_number = pos 3;
    base_sha = "base";
    head_sha = "head";
    policy_version = "v1";
    budget_max_tokens = 100;
    budget_max_cost_usd = 10;
    trace_id = 7;
  };
  lease_token = "token";
}

abbrev not_done : JobAcknowledgement
not_done = record {
  terminal_state = ack_failed;
  error_class = some "cancelled";
  fields = no_usage env name_of digest_of "digest";
}

reviewed : (review env name_of digest_of job start).0 ≡ some not_done
unfolding review run advance loop do_step checkpoint ensure_run get_outcome
reviewed = refl

review_again_example :
    (review env name_of digest_of job (review env name_of digest_of job start).1
      ≡ (some not_done, (review env name_of digest_of job start).1))
    × (not_done.terminal_state ≡ ack_succeeded
        → All
            (λ n. is_completed "w" (review env name_of digest_of job start).1.store n ≡ true)
            step_names)
review_again_example = review_again env name_of digest_of job start start-IsConsistent reviewed
