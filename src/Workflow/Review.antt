-- ===== src/Workflow/Review.antt =====
-- SimpleEngine.review: a leased job as a run of the pipeline, and its result as an acknowledgement.
-- `str` is Python's str of a UUID, and `digest` the SHA-256 of a result's status and reason.
use pr_reviewer.Base.{refl, [], ◌∷◌, ℕ, String, Option, List, none, ◌≡◌, some, All, arith, true}
use pr_reviewer.Jobs.Runner.{JobEnvelope, JobAcknowledgement, ack_succeeded, ack_failed}
use pr_reviewer.Workflow.{
  Env, Ctx, WorkflowResult, WorkflowInput, completed, Reply, WorkflowStatus, result, raised,
  is_completed, step_names,
}
use pr_reviewer.Workflow.Engine.{run}
use pr_reviewer.Workflow.Laws.{IsConsistent, Stands, run-Stands, run_again}

module _ {World Output : Type 0} (env : Env World Output) (str : ℕ → String)
    (digest : WorkflowResult → String) where
  abbrev pub input_of : JobEnvelope → WorkflowInput
  input_of job = record {
    job_id = str job.job_id;
    head_sha = job.target.head_sha;
    trace_id = str job.target.trace_id;
    lease_token = job.lease_token;
  }

  abbrev pub no_usage : String → List (String × String)
  no_usage hash =
      ("input_tokens", "0")
      ∷ ("output_tokens", "0")
      ∷ ("cost_usd", "0")
      ∷ ("latency_ms", "0")
      ∷ ("local_result_hash", hash)
      ∷ []

  abbrev pub acknowledged_as : WorkflowStatus → Option String → String → JobAcknowledgement
  acknowledged_as completed reason hash = record {
    terminal_state = ack_succeeded;
    error_class = none;
    fields = no_usage hash;
  }
  acknowledged_as _ reason hash = record {
    terminal_state = ack_failed;
    error_class = reason;
    fields = no_usage hash;
  }

  -- `none` is an exception
  abbrev pub acknowledged : Reply → Option JobAcknowledgement
  acknowledged raised = none
  acknowledged (result r) = some (acknowledged_as r.status r.reason (digest r))

  unfoldable pub review : JobEnvelope → Ctx World → Option JobAcknowledgement × Ctx World
  review job c =
      let (reply, c') = run env (str job.job_id) (input_of job) c in (acknowledged reply, c')

  acknowledged_result :
      (x : Reply) {ack : JobAcknowledgement}
      → acknowledged x ≡ some ack
      → (r : WorkflowResult) × (x ≡ result r)
  acknowledged_result raised h = absurd (ground arith)
  acknowledged_result (result r) h = (r, refl)

  succeeded_completed :
      (r : WorkflowResult) {ack : JobAcknowledgement}
      → acknowledged (result r) ≡ some ack
      → ack.terminal_state ≡ ack_succeeded
      → r.status ≡ completed
  succeeded_completed r h s = ground arith

  again :
      (job : JobEnvelope) (c : Ctx World) (r : WorkflowResult) {ack : JobAcknowledgement}
      → (run env (str job.job_id) (input_of job) c).0 ≡ result r
      → IsConsistent env (str job.job_id) c.store
      → (review job c).0 ≡ some ack
      → (review job (review job c).1 ≡ (some ack, (review job c).1))
        × (ack.terminal_state ≡ ack_succeeded
            → All (λ n. is_completed (str job.job_id) (review job c).1.store n ≡ true) step_names)
  unfolding review
  again job c r {ack} e k h =
      let w = str job.job_id in
      let inp = input_of job in
      let h' : acknowledged (result r) ≡ some ack = rw e at h in
      let st : Stands env w step_names (result r) (run env w inp c).1.store =
        rw e at (run-Stands env w inp c k) in
      (rw (run_again env w inp inp c k e, h') refl, λ s. st.1 (succeeded_completed r h' s))

  -- When a review comes back with an acknowledgement, the same review again
  -- comes back with the same one and changes nothing; and the acknowledgement says
  -- succeeded only when the output of every step is stored. The store the review starts from has
  -- every step of a workflow that it calls completed.
  pub review_again :
      (job : JobEnvelope) (c : Ctx World) {ack : JobAcknowledgement}
      → IsConsistent env (str job.job_id) c.store
      → (review job c).0 ≡ some ack
      → (review job (review job c).1 ≡ (some ack, (review job c).1))
        × (ack.terminal_state ≡ ack_succeeded
            → All (λ n. is_completed (str job.job_id) (review job c).1.store n ≡ true) step_names)
  unfolding review
  review_again job c {ack} k h =
      let x = acknowledged_result (run env (str job.job_id) (input_of job) c).0 h in
      again job c x.0 x.1 k h
