-- ===== src/Lib.antt =====
-- pr-reviewer: the review jobs of pull requests, their spend limits, the pipeline that reviews one,
-- the calls of a model provider, and what is told to whom.
--
-- How the parts meet. A webhook enqueues a job in a Postgres table, or cancels the active jobs of a
-- pull request. A runner comes to be by a pairing code, which a GitHub user approves for an
-- installation's repositories and the runner exchanges for a credential; a repository has one
-- runner. A worker, or an installed runner over HTTPS, claims the next due job under a lease,
-- renews the lease while it works, and ends the job; a job that fails is tried again up to three
-- times and is then dead, until an operator requeues it. A runner may also push the summary of a
-- review, which writes the row of its id whatever its lease, and a purge of a repository deletes its
-- jobs. A reservation holds a part of the
-- repository's budget for a job. The job runs as a workflow of six steps, which asks for the state
-- of its lease and for the live head of the pull request before each step, and stores each step's
-- output. Steps call model providers, whose rate limits are waited out; calls to a connector ask
-- its circuit first. The diff is packed into a budget of tokens with the new side numbered, and is
-- shown to a model between markers with the other untrusted texts; of the model's findings those on
-- shown lines are kept, and the specialists' findings are merged. Findings go through a gate, and
-- notifications out to the declared channels; post_review, which no other module calls yet, posts
-- public findings as one review, at lines that the numbered diff has. An installed runner keeps
-- what it claimed, and the results that the control plane has not taken, in a SQLite file of its
-- own, and lands them when it can reach the control plane again. An evaluation matches findings
-- with labels, and a gate compares two runs of it.
--
-- Files and code (paths from the repository's root):
--   Jobs.antt: the rows and columns that src/pr_reviewer/jobs/*.py write
--   Jobs/Enqueue.antt: src/pr_reviewer/jobs/enqueue_review_job.py: enqueue_review_job,
--     _pull_request_identity
--   Jobs/Cancel.antt: src/pr_reviewer/jobs/cancel_review_job.py: cancel_review_job
--   Jobs/Claim.antt: src/pr_reviewer/jobs/claim_review_job.py: claim_review_job
--   Jobs/Lease.antt: src/pr_reviewer/jobs/renew_review_job_lease.py,
--     src/pr_reviewer/jobs/complete_review_job.py, src/pr_reviewer/jobs/fail_review_job.py,
--     src/pr_reviewer/jobs/requeue_review_job.py
--   Jobs/Push.antt: src/pr_reviewer/control_plane/review_projection.py: save_pushed_review_summary,
--     and src/pr_reviewer/control_plane/retention.py: purge_hosted_repository, their statements on
--     review_jobs
--   Jobs/Runner.antt: src/pr_reviewer/control_plane/runner_jobs.py: claim_job, heartbeat_job,
--     acknowledge_job
--   Jobs/History.antt: all of these as one type of operations, and histories of them
--   Budget.antt: src/pr_reviewer/reliability/budget.py, and
--     src/pr_reviewer/control_plane/budget.py: upsert_repository_budget,
--     reserve_repository_budget, release_repository_reservation
--   Workflow.antt: src/pr_reviewer/workflow/engine.py, src/pr_reviewer/workflow/store.py:
--     SqliteWorkflowStore
--   Workflow/Engine.antt: src/pr_reviewer/workflow/simple_engine.py: SimpleEngine's _checkpoint,
--     _advance, run, resume
--   Provider.antt: src/pr_reviewer/models/provider_errors.py: classify_provider_failure,
--     is_retryable
--   Provider/Retry.antt: src/pr_reviewer/models/retry.py: RetryPolicy, retry_provider_call,
--     _retry_delay
--   Notify.antt: src/pr_reviewer/notifications/gate.py: route_finding
--   Notify/Dispatch.antt: src/pr_reviewer/notifications/dispatch.py: dispatch_notifications
--   Workflow/Review.antt: src/pr_reviewer/workflow/simple_engine.py: SimpleEngine.review
--   Notify/Isolation.antt: src/pr_reviewer/notifications/channels.py: assert_job_isolation
--   Jobs/Lifecycle.antt: src/pr_reviewer/github/lifecycle.py: handle_pull_request_event
--   Reliability.antt: src/pr_reviewer/reliability/circuit.py: load_or_unknown, allow_call,
--     seconds_until_probe
--   Reliability/Retry.antt: src/pr_reviewer/reliability/retry.py: run_with_retry, next_backoff
--   Evals.antt: src/pr_reviewer/evals/match_findings.py, and
--     src/pr_reviewer/evals/regression_gate.py: compare_eval_reports, detect_drift
--   Evals/Metrics.antt: src/pr_reviewer/evals/metrics.py: compute_metrics
--   Reading.antt: src/pr_reviewer/reviewer/read_order.py: ordered_file_reads,
--     order_files_by_commit_time
--   Identity.antt: the rows that the control plane keeps of installations, repositories and runners
--   Identity/Policy.antt: src/pr_reviewer/control_plane/repository_policy.py
--   Identity/Auth.antt: src/pr_reviewer/control_plane/runner_auth.py
--   Identity/Pairing.antt: src/pr_reviewer/control_plane/pairing.py
--   Identity/Sync.antt: src/pr_reviewer/control_plane/installation_lifecycle.py
--   Identity/History.antt: all of these as one type of operations, and histories of them
--   Packing.antt: src/pr_reviewer/contracts/review_context.py
--   Packing/Hunks.antt: src/pr_reviewer/reviewer/hunk_format.py, and
--     src/pr_reviewer/github/post_review.py: _new_side_numbers
--   Packing/Diff.antt: src/pr_reviewer/reviewer/diff_budget.py: pack_diff, change_size, _sort_key,
--     _classify, _line_range
--   Reviewer/Prompt.antt: src/pr_reviewer/security/prompt_boundaries.py, and
--     src/pr_reviewer/reviewer/diff_budget.py: omission_prompt_section
--   Reviewer.antt, Reviewer/Review.antt: src/pr_reviewer/reviewer/review_pull_request.py
--   Reviewer/Specialists.antt: src/pr_reviewer/reviewer/specialists.py
--   Posting.antt, Posting/Post.antt: src/pr_reviewer/github/post_review.py: post_review, _is_public,
--     _anchor, _existing, _marker, _emit
--   Posting/Search.antt: Python's `in` on texts
--   Aggregate.antt: src/pr_reviewer/reviewer/aggregate_findings.py
--   LocalStore.antt: the rows of src/pr_reviewer/local_store/sqlite.py
--   LocalStore/Jobs.antt: LocalJobStore, with purge_repository
--   LocalStore/Records.antt: LocalSnapshotStore, LocalFindingStore, LocalHumanDecisionStore,
--     LocalEventStore, and LocalStore.fetch_trace
--   LocalStore/Pending.antt: PendingAcknowledgementStore
--   Daemon.antt: src/pr_reviewer/runner/daemon.py, src/pr_reviewer/runner/revocation.py
--   Daemon/Steps.antt: RunnerDaemon's complete_job, _land_pending_result, process_once
--   Daemon/Loops.antt: RunnerDaemon's recover, replay_pending_acknowledgements, _poll_loop, start
--
-- The other files below these hold proofs, and are named for what they prove: Jobs/Steps.antt has
-- the changes to the table of jobs as a step relation, which the invariants go through. Base.antt
-- has the shared lemmas, Tests.antt the concrete inputs.
--
-- Choices. A table is a list of rows, in any order; a SQL statement is a function of the tables,
-- and a call that raises leaves them as they were, since its transaction is rolled back. Rows that
-- another transaction has locked are a parameter of a claim, for `skip locked`; of due rows that
-- tie in available_at and created_at, the first in the list is taken. The id of a new row is a
-- parameter, and an insert under a taken id is refused by the primary key; a requeue is refused by
-- the index of one active job for a head, and an assignment by the foreign keys on its runner and
-- repository; the foreign key of a repository on its installation is left out. Which rows other
-- tables refer to, when a repository is purged, is a parameter. Times are natural
-- numbers of microseconds, costs of micro-dollars, and the time of a call is a parameter; clocks
-- need not be monotonic for the queue. hash_runner_credential, Python's int and str on a payload,
-- the handlers, heartbeat, live head and clock of the engine, the attempt, clock and sleep of the
-- retry loops, the factor of their jitter, and the send of the fan-out are parameters; those that
-- act take the state of an arbitrary world and return it changed. The retry loops are by recursion
-- on the attempts that are left, the pipeline on the steps that are left: no fuel is used. Floats
-- of an evaluation are only compared, as natural numbers on one scale, or divided by a parameter;
-- str methods of Python on categories are parameters, and so are, for diffs, splitlines, the
-- numerals and the regular expressions, whose laws a theorem on them names (Packing/Numbers.antt).
-- Codes, credentials and ids that are drawn are parameters of the operation that draws them, and a
-- history refuses one that is taken. The callers' functions of post_review act on an arbitrary
-- world, and Posting/Once.antt has what is relied on of GitHub: a submission adds at most one
-- review, and an answered one adds it. The daemon's client, review, secrets, clock and stop event
-- act on an arbitrary world too, an exception is an answer of theirs, and its poll loop runs for a
-- number of rounds; Daemon/Logged.antt notes the answers of the control plane to claims and
-- acknowledgements in a log, which the theorems on the daemon speak of, and Daemon/Drained.antt says
-- what it is for the control plane to be reachable. The local store's numbers are those of SQLite's autoincrement, and of rows with
-- equal times the first is listed first. The fields that no modelled code reads are left out, and
-- so is the column pull_request_id, which nothing writes.
--
-- Not modelled: the HTTP routes, OAuth and pages, the terminal and command-line interfaces, the
-- worker's process, the clients of GitHub and of the providers, the Docker sandbox, the LangGraph
-- engine and the search of a repository, which are input and output; and for now the Postgres form
-- of the local store and the sensitivity of files.
pub mod Base
pub mod Jobs
pub mod Budget
pub mod Workflow
pub mod Provider
pub mod Identity
pub mod Packing
pub mod Posting
pub mod Aggregate
pub mod Notify
pub mod Evals
pub mod Reliability
pub mod Reading
pub mod Reviewer
pub mod LocalStore
pub mod Daemon
pub mod Tests
