-- ===== src/Jobs/Steps.antt =====
-- What an operation may do to the table of jobs: the transitions of the queue, with who makes them
-- and when, as a relation between two tables. Every operation makes one of these steps.
use pr_reviewer.Jobs.{
  mark, Job, has_id, Db, update_where, ℤ, ReviewJobErrorClass, is_active_in, cancelled,
}
use pr_reviewer.Jobs.History.{
  Op, enqueue, claim, or_else, renew, complete, fail, requeue, claim_runner, heartbeat, acknowledge,
  cancel, apply, push, purge,
}
use pr_reviewer.Base.{
  ℕ, String, Option, List, count_where, ◌≡◌, ◌++◌, none, Bool, some, ◌∷◌, [], Option-cases,
  Bool-cases, inl, str_eq, ◌&&◌, ◌==◌, inr, not, arith, true, refl, false, delete_where,
}
use pr_reviewer.Jobs.Enqueue.{
  new_job, enqueue_review_job, PullRequestIdentity, supersede, insert_job, has_installation,
  target_of, has_delivery,
}
use pr_reviewer.Jobs.Claim.{claim_review_job, next_job, is_due, start_job}
use pr_reviewer.Jobs.Lease.{
  renew_review_job_lease, requeue_review_job, fail_review_job, complete_review_job, update_one,
  first_where, is_owned, is_dead, complete_job, is_live, renew_lease, is_held_by, fail_job,
  restart_job, has_active_head, target_found,
}
use pr_reviewer.Jobs.Cancel.{cancel_review_job, GitHubDelivery}
use pr_reviewer.Jobs.Runner.{
  start_leased, JobAcknowledgement, finish_job, heartbeat_job, acknowledge_job, claim_job, Runner,
  is_admitted, is_offered, is_beating, is_leased, AckStep, is_called_off, ack_step, denied,
  ack_event, settled, finish,
}
use pr_reviewer.Jobs.Push.{
  save_pushed_review_summary, PushedSummary, purge_hosted_repository, pushed_row, overwrite,
  is_in_repository,
}

abbrev pub is_requeue : Op → Bool
is_requeue (requeue i) = true
is_requeue _ = false

-- `actor` is the worker or runner that calls `op`; a webhook or an operator may go by any name.
pub data Step (now : ℕ) (actor : String) (op : Op) (js : List Job) : List Job → Type 0 where
  stay : Step now actor op js js
  insert :
      (id : ℕ) (d : String)
      → count_where (has_id id) js ≡ 0
      → Step now actor op js (js ++ new_job id now d none ∷ [])
  replace :
      (id trace_id : ℕ) (d : String) (p : PullRequestIdentity)
      → count_where (has_id id) js ≡ 0
      → Step now actor op js (
          supersede now p.installation_id p.github_repository_id p.pull_request_number js
          ++ new_job id now d (some (target_of p trace_id)) ∷ [])
  withdraw :
      (i r n : ℤ) → Step now actor op js (update_where (is_active_in i r n) (mark cancelled now) js)
  start :
      (p : Job → Bool)
      → ((k : Job) → p k ≡ true → is_due now k ≡ true)
      → {j : Job} → next_job p js ≡ some j
      → Step now actor op js (update_where (has_id j.id) (start_job actor now) js)
  start_token :
      (p : Job → Bool)
      → ((k : Job) → p k ≡ true → is_due now k ≡ true)
      → (token_hash : String) → {j : Job} → next_job p js ≡ some j
      → Step now actor op js (update_where (has_id j.id) (start_leased actor token_hash now) js)
  extend :
      (p : Job → Bool)
      → ((k : Job) → p k ≡ true → is_held_by actor k ≡ true)
      → Step now actor op js (update_where p (renew_lease now) js)
  succeed : (i : ℕ) → Step now actor op js (update_where (is_owned i actor) (complete_job now) js)
  give_up :
      (i : ℕ) (e : ReviewJobErrorClass)
      → Step now actor op js (update_where (is_owned i actor) (fail_job now e) js)
  restart :
      (i : ℕ)
      → is_requeue op ≡ true
      → Step now actor op js (update_where (is_dead i) (restart_job now) js)
  settle :
      (ack : JobAcknowledgement) (i : ℕ) {j : Job}
      → first_where (has_id i) js ≡ some j
      → is_held_by actor j ≡ true
      → Step now actor op js (update_where (has_id i) (finish_job now ack) js)
  push_row :
      (s : PushedSummary)
      → count_where (has_id s.review_job_id) js ≡ 0
      → Step now actor op js (js ++ pushed_row now s ∷ [])
  push_over :
      (s : PushedSummary)
      → op ≡ push s
      → Step now actor op js (update_where (has_id s.review_job_id) (overwrite now s) js)
  erase :
      (is_referenced : Job → Bool) (i r : ℤ)
      → op ≡ purge is_referenced i r
      → Step now actor op js (delete_where (is_in_repository i r) js)

-- The caller of an operation, where it has one.
abbrev pub actor_of : Op → Option String
actor_of (enqueue id trace_id delivery_id event_name identity) = none
actor_of (cancel delivery) = none
actor_of (claim locked worker_id) = some worker_id
actor_of (renew job_id worker_id) = some worker_id
actor_of (complete job_id worker_id) = some worker_id
actor_of (fail job_id worker_id error) = some worker_id
actor_of (requeue job_id) = none
actor_of (push summary) = none
actor_of (purge is_referenced i r) = none
actor_of (claim_runner locked runner lease_token) = some runner.runner_id
actor_of (heartbeat runner_id job_id lease_token) = some runner_id
actor_of (acknowledge runner_id job_id lease_token ack) = some runner_id

-- `none` is a caller with any name.
abbrev pub ActsAs : Option String → String → Type 0
ActsAs none actor = Unit
ActsAs (some w) actor = w ≡ actor

module _ (now : ℕ) (actor : String) (op : Op) where
  insert_job-Step :
      (id trace_id : ℕ) (d : String) (p : Option PullRequestIdentity) (is : List ℤ) (js : List Job)
      → count_where (has_id id) js ≡ 0
      → Step now actor op js (insert_job id trace_id now d p is js)
  insert_job-Step id trace_id d none is js h = Step.insert id d h
  insert_job-Step id trace_id d (some p) is js h =
      elim (Bool-cases (has_installation p.installation_id is)) [
        | inl e ↦ rw e (Step.replace id trace_id d p h)
        | inr e ↦ rw e (Step.insert id d h)
      ]

  enqueue-Step :
      (id trace_id : ℕ) (d e : String) (p : Option PullRequestIdentity) (db : Db)
      → count_where (has_id id) db.jobs ≡ 0
      → Step now actor op db.jobs (enqueue_review_job id trace_id now d e p db).1.jobs
  unfolding enqueue_review_job
  enqueue-Step id trace_id d e p db h = elim (Bool-cases (str_eq e "pull_request")) [
    | inl a ↦ elim (Bool-cases (has_delivery d db.deliveries)) [
      | inl b ↦ rw (a, b) Step.stay
      | inr b ↦ rw (a, b) (insert_job-Step id trace_id d p db.installations db.jobs h)
    ]
    | inr a ↦ rw a Step.stay
  ]

  cancel-Step :
      (d : GitHubDelivery) (db : Db) → Step now actor op db.jobs (cancel_review_job now d db).1.jobs
  unfolding cancel_review_job
  cancel-Step d db = elim (Bool-cases (has_delivery d.delivery_id db.deliveries)) [
    | inl e ↦ rw e Step.stay
    | inr e ↦ rw e (Step.withdraw d.installation_id d.repository_id d.number)
  ]

  claim-Step :
      (locked : Job → Bool) (js : List Job)
      → Step now actor op js (claim_review_job locked actor now js).1
  unfolding claim_review_job
  claim-Step locked js = elim (Option-cases (next_job (λ j. is_due now j && not (locked j)) js)) [
    | inl e ↦ rw e Step.stay
    | inr (j, e) ↦ rw e (Step.start (λ j. is_due now j && not (locked j)) (λ k h. ground arith) e)
  ]

  update_one-Step :
      (p : Job → Bool) (f : Job → Job) (js : List Job)
      → Step now actor op js (update_where p f js)
      → Step now actor op js (or_else (update_one p f js) js)
  update_one-Step p f js s = elim (Bool-cases (count_where p js == 1)) [
    | inl e ↦ rw e s
    | inr e ↦ rw e Step.stay
  ]

  renew-Step :
      (i : ℕ) (js : List Job)
      → Step now actor op js (or_else (renew_review_job_lease i actor now js) js)
  unfolding renew_review_job_lease
  renew-Step i js =
      update_one-Step (λ j. is_owned i actor j && is_live now j) (renew_lease now) js
        (Step.extend (λ j. is_owned i actor j && is_live now j) (λ k h. ground arith))

  complete-Step :
      (i : ℕ) (js : List Job)
      → Step now actor op js (or_else (complete_review_job i actor now js) js)
  unfolding complete_review_job
  complete-Step i js = update_one-Step (is_owned i actor) (complete_job now) js (Step.succeed i)

  fail-Step :
      (i : ℕ) (e : ReviewJobErrorClass) (db : Db)
      → Step now actor op db.jobs (or_else (fail_review_job i actor now e db) db).jobs
  unfolding fail_review_job
  fail-Step i e db = elim (Option-cases (first_where (is_owned i actor) db.jobs)) [
    | inl h ↦ rw h Step.stay
    | inr (j, h) ↦ rw h (Step.give_up i e)
  ]

  requeue-Step :
      is_requeue op ≡ true
      → (i : ℕ) (js : List Job) → Step now actor op js (or_else (requeue_review_job i now js) js)
  unfolding requeue_review_job
  requeue-Step h i js = elim (Bool-cases (count_where (is_dead i) js == 0)) [
    | inl e ↦ rw e Step.stay
    | inr e ↦ elim (Bool-cases (has_active_head js (target_found (first_where (is_dead i) js)))) [
      | inl f ↦ rw (e, f) Step.stay
      | inr f ↦ rw (e, f) (Step.restart i h)
    ]
  ]

  push-Step :
      (s : PushedSummary)
      → op ≡ push s
      → (js : List Job) → Step now actor op js (save_pushed_review_summary now s js)
  unfolding save_pushed_review_summary
  push-Step s h js = elim (Bool-cases (count_where (has_id s.review_job_id) js == 0)) [
    | inl e ↦ rw e (Step.push_row s (ground arith))
    | inr e ↦ rw e (Step.push_over s h)
  ]

  purge-Step :
      (p : Job → Bool) (i r : ℤ)
      → op ≡ purge p i r
      → (js : List Job) → Step now actor op js (or_else (purge_hosted_repository p i r js) js)
  unfolding purge_hosted_repository
  purge-Step p i r h js =
      elim (Bool-cases (count_where (λ j. is_in_repository i r j && p j) js == 0)) [
        | inl e ↦ rw e (Step.erase p i r h)
        | inr e ↦ rw e Step.stay
      ]

module _ (hash : String → String) (now : ℕ) (op : Op) where
  claim_job-Step :
      (locked : Job → Bool) (r : Runner) (t : String) (js : List Job)
      → Step now r.runner_id op js (claim_job hash locked r t now js).1
  unfolding claim_job
  claim_job-Step locked r t js = elim (Bool-cases (is_admitted r.row)) [
    | inl a ↦ elim (Option-cases (next_job (λ j. is_offered r now j && not (locked j)) js)) [
      | inl e ↦ rw (a, e) Step.stay
      | inr (j, e) ↦
          rw (a, e)
            (Step.start_token (λ j. is_offered r now j && not (locked j)) (λ k h. ground arith)
              (hash t) e)
    ]
    | inr a ↦ rw a Step.stay
  ]

  heartbeat-Step :
      (w : String) (i : ℕ) (t : String) (js : List Job)
      → Step now w op js (heartbeat_job hash w i t now js).1
  unfolding heartbeat_job
  heartbeat-Step w i t js = elim (Bool-cases (count_where (is_beating i w (hash t) now) js == 1)) [
    | inl a ↦ rw a (Step.extend (is_beating i w (hash t) now) (λ k h. ground arith))
    | inr a ↦ elim (Bool-cases (count_where (is_called_off i w (hash t)) js == 0)) [
      | inl b ↦ rw (a, b) Step.stay
      | inr b ↦ rw (a, b) Step.stay
    ]
  ]

  acknowledge-Step :
      (w : String) (i : ℕ) (t : String) (ack : JobAcknowledgement) (db : Db)
      → Step now w op db.jobs (or_else (acknowledge_job hash w i t now ack db) db).jobs
  unfolding acknowledge_job
  acknowledge-Step w i t ack db = elim (Option-cases (first_where (has_id i) db.jobs)) [
    | inl e ↦ rw e Step.stay
    | inr (j, e) ↦ elim (Bool-cases (is_leased i w (hash t) j)) [
      | inl a ↦ rw (e, a) (go j e a (ack_step j.status j.locked_until now) refl)
      | inr a ↦ rw (e, a) Step.stay
    ]
  ]
    where
      go :
          (j : Job)
          → first_where (has_id i) db.jobs ≡ some j
          → is_leased i w (hash t) j ≡ true
          → (s : AckStep) → ack_step j.status j.locked_until now ≡ s
          → Step now w op db.jobs
              (or_else
                (elim (ack_step j.status j.locked_until now) [
                  | denied ↦ none
                  | settled ↦ some db
                  | finish ↦ some (record db {
                    jobs = update_where (has_id i) (finish_job now ack) db.jobs;
                    events = db.events ++ ack_event i ack ∷ [];
                  })
                ])
                db).jobs
      go j e a denied q = rw q Step.stay
      go j e a settled q = rw q Step.stay
      go j e a finish q = rw q (Step.settle ack i e (ground arith))

module _ (hash : String → String) (now : ℕ) where
  -- Every operation makes one of the steps, under its caller's name.
  pub apply-Step :
      (actor : String) (op : Op) (db : Db)
      → ActsAs (actor_of op) actor
      → Step now actor op db.jobs (apply hash now op db).jobs
  unfolding apply
  apply-Step actor (enqueue id trace_id d e p) db h =
      elim (Bool-cases (count_where (has_id id) db.jobs == 0)) [
        | inl a ↦
            rw a (
              enqueue-Step now actor (enqueue id trace_id d e p) id trace_id d e p db
                (ground arith))
        | inr a ↦ rw a Step.stay
      ]
  apply-Step actor (cancel d) db h = cancel-Step now actor (cancel d) d db
  apply-Step actor (claim locked w) db h =
      rw h (claim-Step now actor (claim locked actor) locked db.jobs)
  apply-Step actor (renew i w) db h = rw h (renew-Step now actor (renew i actor) i db.jobs)
  apply-Step actor (complete i w) db h = rw h (complete-Step now actor (complete i actor) i db.jobs)
  apply-Step actor (fail i w e) db h = rw h (fail-Step now actor (fail i actor e) i e db)
  apply-Step actor (requeue i) db h = requeue-Step now actor (requeue i) refl i db.jobs
  apply-Step actor (claim_runner locked r t) db h =
      rw (← h) (claim_job-Step hash now (claim_runner locked r t) locked r t db.jobs)
  apply-Step actor (heartbeat w i t) db h =
      rw (← h) (heartbeat-Step hash now (heartbeat w i t) w i t db.jobs)
  apply-Step actor (acknowledge w i t ack) db h =
      rw (← h) (acknowledge-Step hash now (acknowledge w i t ack) w i t ack db)
  apply-Step actor (push s) db h = push-Step now actor (push s) s refl db.jobs
  apply-Step actor (purge p i r) db h = purge-Step now actor (purge p i r) p i r refl db.jobs
