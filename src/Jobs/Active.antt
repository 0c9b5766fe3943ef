-- ===== src/Jobs/Active.antt =====
-- A pull request has at most one job that is pending or running, unless an operator restarts a
-- dead job beside a newer one.
use pr_reviewer.Jobs.{
  pos, negsuc, ℤ, Job, int_eq, is_active_in, is_active, update_where, mark, superseded, Target,
  has_id, Db, failed, cancelled,
}
use pr_reviewer.Base.{
  refl, ℕ, List, count_where, String, Bool, ◌≡◌, ◌≤◌, true, ◌++◌, arith, le_trans, some, ◌∷◌, [],
  All, false, none, ◌==◌, count_where-delete_where,
}
use pr_reviewer.Jobs.Enqueue.{PullRequestIdentity, supersede, new_job, target_of}
use pr_reviewer.Jobs.Rows.{
  count_where-update_where-le, count_where-update_where_zero, count_where-update_id-le,
  first_where-next_job, next_job_passes, count_where-first_where, first_where_passes,
  count_where-update_grows, first_where-narrow,
}
use pr_reviewer.Jobs.Unique.{count_where-add, UniqueIds, Step-UniqueIds}
use pr_reviewer.Jobs.Lease.{
  first_where, requeue_review_job, renew_lease, is_owned, complete_job, fail_job, is_dead,
  restart_job, is_active_head,
}
use pr_reviewer.Jobs.Claim.{is_due, start_job}
use pr_reviewer.Jobs.Steps.{Step, is_requeue, actor_of, apply-Step}
use pr_reviewer.Jobs.History.{Op, run, apply}
use pr_reviewer.Jobs.Validity.{caller, caller_acts}
use pr_reviewer.Jobs.Runner.{start_leased, finish_job}
use pr_reviewer.Jobs.Push.{
  PushedStatus, pushed_row, overwrite, status_of, pushed_completed, pushed_stopped_early,
  is_in_repository,
}

-- No pull request with two jobs that are pending or running.
abbrev pub OneActive : List Job → Type 0
OneActive js = (i r n : ℤ) → count_where (is_active_in i r n) js ≤ 1

int_eq→eq : (a b : ℤ) → int_eq a b ≡ true → a ≡ b
int_eq→eq (pos a) (pos b) h = ground arith
int_eq→eq (negsuc a) (negsuc b) h = ground arith
int_eq→eq (pos a) (negsuc b) h = cc
int_eq→eq (negsuc a) (pos b) h = cc

pub int_eq_refl : (a : ℤ) → int_eq a a ≡ true
int_eq_refl (pos a) = ground arith
int_eq_refl (negsuc a) = ground arith

-- An update that makes no job active, and moves none to another pull request.
update_where-OneActive :
    (p : Job → Bool) (f : Job → Job) (js : List Job)
    → ((j : Job) → (f j).target ≡ j.target)
    → ((j : Job) → p j ≡ true → is_active (f j).status ≡ true → is_active j.status ≡ true)
    → OneActive js
    → OneActive (update_where p f js)
update_where-OneActive p f js same keep o i r n =
    le_trans
      (count_where-update_where-le (is_active_in i r n) p f js
        (λ j h q. ground (arith, same j, keep j h)))
      (o i r n)

-- The same of an update by id, for the one row that it hits.
update_id-OneActive :
    (f : Job → Job) (js : List Job) (j : Job)
    → first_where (has_id j.id) js ≡ some j
    → UniqueIds js
    → (f j).target ≡ j.target
    → is_active j.status ≡ true
    → OneActive js
    → OneActive (update_where (has_id j.id) f js)
update_id-OneActive f js j found u same act o i r n =
    le_trans
      (count_where-update_id-le (is_active_in i r n) j.id f js {j = j} found (u j.id)
        (λ q. ground arith))
      (o i r n)

-- When the older jobs of the pull request are superseded, the new one is alone.
replace-OneActive :
    (now id t : ℕ) (d : String) (p : PullRequestIdentity) (js : List Job)
    → OneActive js
    → OneActive (
        supersede now p.installation_id p.github_repository_id p.pull_request_number js
        ++ new_job id now d (some (target_of p t)) ∷ [])
replace-OneActive now id t d p js o i r n =
    count_where-add (is_active_in i r n)
      (supersede now p.installation_id p.github_repository_id p.pull_request_number js)
      (new_job id now d (some (target_of p t)))
      (le_trans
        (count_where-update_where-le (is_active_in i r n)
          (is_active_in p.installation_id p.github_repository_id p.pull_request_number)
          (mark superseded now) js (λ j _ h. ground arith))
        (o i r n))
      (λ h.
        rw
          (
            ← int_eq→eq p.installation_id i (ground arith),
            ← int_eq→eq p.github_repository_id r (ground arith),
            ← int_eq→eq p.pull_request_number n (ground arith),
          )
          (count_where-update_where_zero
            (is_active_in p.installation_id p.github_repository_id p.pull_request_number)
            (is_active_in p.installation_id p.github_repository_id p.pull_request_number)
            (mark superseded now) js (λ j _. ground arith) (λ j e. e)))

is_active-of_is_due : (now : ℕ) (j : Job) → is_due now j ≡ true → is_active j.status ≡ true
is_active-of_is_due now j h = ground arith

pushed_inactive : (s : PushedStatus) → ¬ (is_active (status_of s) ≡ true)
pushed_inactive pushed_completed h = cc
pushed_inactive pushed_stopped_early h = cc

module _ (now : ℕ) {w : String} where
  Step-OneActive :
      {op : Op} {js ks : List Job}
      → Step now w op js ks
      → is_requeue op ≡ false
      → UniqueIds js
      → OneActive js
      → OneActive ks
  Step-OneActive Step.stay q u o = o
  Step-OneActive {js = js} (Step.insert id d z) q u o =
      λ i r n. count_where-add (is_active_in i r n) js (new_job id now d none) (o i r n) (λ h. cc)
  Step-OneActive {js = js} (Step.replace id t d p z) q u o = replace-OneActive now id t d p js o
  Step-OneActive {js = js} (Step.withdraw a r n) q u o =
      update_where-OneActive (is_active_in a r n) (mark cancelled now) js (λ j. refl) (λ j _ h. cc)
        o
  Step-OneActive {js = js} (Step.start p d {j = j} e) q u o =
      update_id-OneActive (start_job w now) js j (first_where-next_job p js e (u j.id)) u refl
        (is_active-of_is_due now j (d j (next_job_passes p js e))) o
  Step-OneActive {js = js} (Step.start_token p d h {j = j} e) q u o =
      update_id-OneActive (start_leased w h now) js j (first_where-next_job p js e (u j.id)) u refl
        (is_active-of_is_due now j (d j (next_job_passes p js e))) o
  Step-OneActive {js = js} (Step.extend p d) q u o =
      update_where-OneActive p (renew_lease now) js (λ k. refl) (λ k _ h. h) o
  Step-OneActive {js = js} (Step.succeed i) q u o =
      update_where-OneActive (is_owned i w) (complete_job now) js (λ k. refl) (λ k _ h. cc) o
  Step-OneActive {js = js} (Step.give_up i e) q u o =
      update_where-OneActive (is_owned i w) (fail_job now e) js (λ k. refl) (λ k p h. ground arith)
        o
  Step-OneActive {js = js} (Step.restart i h) q u o = absurd cc
  Step-OneActive {js = js} (Step.settle ack i e h) q u o =
      update_where-OneActive (has_id i) (finish_job now ack) js (λ k. refl) (λ k _ h. ground arith)
        o
  Step-OneActive {js = js} (Step.push_row s z) q u o = λ i r n.
      count_where-add (is_active_in i r n) js (pushed_row now s) (o i r n)
        (λ h. absurd (pushed_inactive s.status (ground (arith, h))))
  Step-OneActive {js = js} (Step.push_over s h) q u o = λ i r n.
      le_trans
        (count_where-update_where-le (is_active_in i r n) (has_id s.review_job_id) (overwrite now s)
          js (λ j _ a. absurd (pushed_inactive s.status (ground (arith, a)))))
        (o i r n)
  Step-OneActive {js = js} (Step.erase p a b h) q u o = λ i r n.
      le_trans (count_where-delete_where (is_active_in i r n) (is_in_repository a b) js) (o i r n)

abbrev pub NoRequeue : List (ℕ × Op) → Type 0
NoRequeue = All (λ x. is_requeue x.1 ≡ false)

-- From a table with unique ids and at most one active job for each pull request, a history in
-- which no dead job is requeued leads to such a table again.
pub run-OneActive :
    (hash : String → String) (ops : List (ℕ × Op)) (db : Db)
    → NoRequeue ops
    → UniqueIds db.jobs
    → OneActive db.jobs
    → UniqueIds (run hash ops db).jobs × OneActive (run hash ops db).jobs
unfolding run
run-OneActive hash [] db q u o = (u, o)
run-OneActive hash ((now, op) ∷ ops) db q u o =
    let s = apply-Step hash now (caller (actor_of op)) op db (caller_acts (actor_of op)) in
    run-OneActive hash ops (apply hash now op db) q.1 (Step-UniqueIds now s u)
      (Step-OneActive now s q.0 u o)

-- In a table of unique ids, a dead job that is requeued while its pull request has an active job,
-- though none of the dead job's own head, makes two of them.
pub requeue_beside_active :
    (i now : ℕ) (js : List Job) {j : Job} {t : Target}
    → first_where (has_id i) js ≡ some j
    → UniqueIds js
    → j.status ≡ failed
    → j.target ≡ some t
    → count_where (is_active_head t) js ≡ 0
    → 1
      ≤ count_where (is_active_in t.installation_id t.github_repository_id t.pull_request_number) js
    → (ks : List Job) × (requeue_review_job i now js ≡ some ks) × (¬ OneActive ks)
unfolding requeue_review_job
requeue_beside_active i now js {j} {t} found u dead target apart busy =
    let d : is_dead i j ≡ true = ground (arith, first_where_passes (has_id i) js {j = j} found) in
    let first =
      first_where-narrow (has_id i) (is_dead i) js (λ k h. ground arith) {j = j} found d in
    let some_dead : (count_where (is_dead i) js == 0) ≡ false =
      ground (arith, count_where-first_where (has_id i) (is_dead i) js {j = j} found) in
    (
      update_where (is_dead i) (restart_job now) js,
      rw (some_dead, first, target, apart) refl,
      λ o. ground (
        arith,
        o t.installation_id t.github_repository_id t.pull_request_number,
        count_where-update_grows
            (is_active_in t.installation_id t.github_repository_id t.pull_request_number)
            (is_dead i) i (restart_job now) js (λ k h. ground arith) {j = j} found (u i),
        int_eq_refl t.installation_id,
        int_eq_refl t.github_repository_id,
        int_eq_refl t.pull_request_number,
      ),
    )
