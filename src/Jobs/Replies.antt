-- ===== src/Jobs/Replies.antt =====
-- What a runner is told about a job that is no longer its own, or that it has already settled.
use pr_reviewer.Base.{
  String, ℕ, ◌≡◌, some, arith, List, true, false, if◌then◌else◌, str_eq_refl, refl, count_where,
  ◌++◌, ◌∷◌, [], Option-cases, inl, inr, Bool-cases,
}
use pr_reviewer.Jobs.Runner.{
  acknowledge_job, JobAcknowledgement, finish_job, heartbeat_job, LeaseState, invalid_or_expired,
  is_beating, is_called_off, is_leased,
}
use pr_reviewer.Jobs.{
  Db, has_id, Status, Job, Target, is_active, mark, running, is_running, update_where, is_active_in,
  is_cancelled, superseded,
}
use pr_reviewer.Jobs.Rows.{
  first_where-update_where, count_where-first_zero, count_where-first_where, first_where_passes,
  first_where-append,
}
use pr_reviewer.Jobs.Unique.{UniqueIds, update_where-UniqueIds, Step-UniqueIds}
use pr_reviewer.Jobs.Lease.{first_where}
use pr_reviewer.Jobs.Active.{int_eq_refl}
use pr_reviewer.Jobs.Enqueue.{
  enqueue_review_job, PullRequestIdentity, has_delivery, has_installation, supersede, new_job,
  target_of,
}
use pr_reviewer.Jobs.Cancel.{cancel_review_job, GitHubDelivery}
use pr_reviewer.Jobs.Steps.{Step}
use pr_reviewer.Jobs.History.{requeue}

module _ (hash : String → String) where
  -- After an acknowledgement that was accepted, every further one by the same runner for the same
  -- job under the same token is accepted too and changes nothing, whatever it says and whenever it
  -- comes: no second event is written.
  pub acknowledge_again :
      (w : String) (i : ℕ) (t : String) (now now' : ℕ) (ack ack' : JobAcknowledgement) (db : Db)
      {db' : Db}
      → acknowledge_job hash w i t now ack db ≡ some db'
      → acknowledge_job hash w i t now' ack' db' ≡ some db'
  unfolding acknowledge_job
  acknowledge_again w i t now now' ack ack' db {db'} h =
      elim (Option-cases (first_where (has_id i) db.jobs)) [
        | inl e ↦ let r = rw e at h in cc
        | inr (j, e) ↦ elim (Bool-cases (is_leased i w (hash t) j)) [
          | inr a ↦ let r = rw (e, a) at h in cc
          | inl a ↦
              let r = rw (e, a) at h in
              ground (arith, first_where-update_where i (has_id i) (finish_job now ack) db.jobs)
        ]
      ]

-- The row of job `i` is `j`, which runner `w` works on under the lease token `t`.
pub record WorksOn (hash : String → String) (w : String) (i : ℕ) (t : String) (j : Job)
    (js : List Job) : Type 0 where
  pub row : first_where (has_id i) js ≡ some j
  pub unique : UniqueIds js
  pub at_work : j.status ≡ running
  pub holder : j.locked_by ≡ some w
  pub token : j.lease_token_hash ≡ some (hash t)

enqueued_rows :
    (id x now : ℕ) (d : String) (p : PullRequestIdentity) (db : Db)
    → has_delivery d db.deliveries ≡ false
    → has_installation p.installation_id db.installations ≡ true
    → (enqueue_review_job id x now d "pull_request" (some p) db).1.jobs
      ≡ supersede now p.installation_id p.github_repository_id p.pull_request_number db.jobs
        ++ new_job id now d (some (target_of p x)) ∷ []
unfolding enqueue_review_job
enqueued_rows id x now d p db fresh known = rw (fresh, known)

module _ (hash : String → String) (w : String) (i : ℕ) (t : String) (now now' : ℕ) where
  marked_row :
      (s : Status) (j : Job) (g : Target) (js : List Job)
      → first_where (has_id i) js ≡ some j
      → is_active j.status ≡ true
      → j.target ≡ some g
      → first_where (has_id i) (
          update_where
            (is_active_in g.installation_id g.github_repository_id g.pull_request_number)
            (mark s now)
            js)
        ≡ some (mark s now j)
  marked_row s j g js h a e = ground (
    arith,
    first_where-update_where i
        (is_active_in g.installation_id g.github_repository_id g.pull_request_number) (mark s now)
        js (λ k. refl),
    int_eq_refl g.installation_id,
    int_eq_refl g.github_repository_id,
    int_eq_refl g.pull_request_number,
  )

  -- The answer to a heartbeat on a job that was cancelled or superseded while the runner worked.
  heartbeat_marked :
      (s : Status) (j : Job) (js : List Job)
      → UniqueIds js
      → first_where (has_id i) js ≡ some (mark s now j)
      → is_running s ≡ false
      → j.locked_by ≡ some w
      → j.lease_token_hash ≡ some (hash t)
      → heartbeat_job hash w i t now' js
        ≡ (if is_cancelled s then LeaseState.cancelled else invalid_or_expired, js)
  unfolding heartbeat_job
  heartbeat_marked s j js u row r l k = ground (
    arith,
    count_where-first_zero (is_beating i w (hash t) now') i js (λ x h. ground arith)
        {j = mark s now j} row (u i),
    count_where-first_zero (is_called_off i w (hash t)) i js (λ x h. ground arith)
        {j = mark s now j} row (u i),
    count_where-first_where (has_id i) (is_called_off i w (hash t)) js {j = mark s now j} row,
    first_where_passes (has_id i) js {j = mark s now j} row,
    str_eq_refl w,
    str_eq_refl (hash t),
  )

  -- A runner that works on a job of a pull request is told so at its next heartbeat after a fresh
  -- delivery has cancelled the pull request's jobs, and its lease is not extended.
  heartbeat-cancel_review_job :
      (j : Job) (g : Target) (c : GitHubDelivery) (db : Db)
      → WorksOn hash w i t j db.jobs
      → j.target ≡ some g
      → c.installation_id ≡ g.installation_id
      → c.repository_id ≡ g.github_repository_id
      → c.number ≡ g.pull_request_number
      → has_delivery c.delivery_id db.deliveries ≡ false
      → heartbeat_job hash w i t now' (cancel_review_job now c db).1.jobs
        ≡ (LeaseState.cancelled, (cancel_review_job now c db).1.jobs)
  unfolding cancel_review_job
  heartbeat-cancel_review_job j g c db v e p q r fresh =
      rw (fresh, p, q, r)
        (heartbeat_marked Status.cancelled j _
          (update_where-UniqueIds
            (is_active_in g.installation_id g.github_repository_id g.pull_request_number)
            (mark Status.cancelled now) db.jobs (λ k. refl) v.unique)
          (marked_row Status.cancelled j g db.jobs v.row (ground arith) e) refl v.holder v.token)

  -- After a fresh delivery has enqueued a newer head of the same pull request, of an installation
  -- that is known and under an id that is new, the heartbeat of a
  -- runner that works on the older job is answered as invalid, and its lease is not extended.
  heartbeat-enqueue_review_job :
      (j : Job) (g : Target) (id x : ℕ) (d : String) (p : PullRequestIdentity) (db : Db)
      → WorksOn hash w i t j db.jobs
      → j.target ≡ some g
      → p.installation_id ≡ g.installation_id
      → p.github_repository_id ≡ g.github_repository_id
      → p.pull_request_number ≡ g.pull_request_number
      → has_delivery d db.deliveries ≡ false
      → has_installation p.installation_id db.installations ≡ true
      → count_where (has_id id) db.jobs ≡ 0
      → heartbeat_job hash w i t now'
          (enqueue_review_job id x now d "pull_request" (some p) db).1.jobs
        ≡ (invalid_or_expired, (enqueue_review_job id x now d "pull_request" (some p) db).1.jobs)
  heartbeat-enqueue_review_job j g id x d p db v e a b c fresh known new =
      rw (enqueued_rows id x now d p db fresh known) (
        heartbeat_marked superseded j _
          (Step-UniqueIds now {w = w} {op = requeue i} (Step.replace id x d p new) v.unique)
          (first_where-append (has_id i)
            (supersede now p.installation_id p.github_repository_id p.pull_request_number db.jobs)
            (new_job id now d (some (target_of p x)) ∷ [])
            (rw (a, b, c) (marked_row superseded j g db.jobs v.row (ground arith) e)))
          refl v.holder v.token)
