-- ===== src/Jobs/Validity.antt =====
-- What holds of every row between two operations.
use pr_reviewer.Base.{
  [], ◌∷◌, ℕ, String, Option, List, some, ◌≡◌, true, arith, ◌≢◌, All, ◌⊎◌, All-append, none, ◌≤◌,
  ◌<◌, inl, inr, refl, All-each, delete_where, All-mem, delete_where-mem,
}
use pr_reviewer.Jobs.History.{run, Op, apply}
use pr_reviewer.Jobs.{
  Job, ReviewJobErrorClass, Status, is_running, Target, superseded, Db, cancelled, mark, pending,
  is_active_in, succeeded, failed, has_id,
}
use pr_reviewer.Jobs.Runner.{JobAcknowledgement, start_leased, finish_job}
use pr_reviewer.Jobs.Lease.{
  complete_job, is_held_by, fail_job, restart_job, renew_lease, max_review_job_attempts, is_owned,
  is_dead,
}
use pr_reviewer.Jobs.Steps.{ActsAs, Step, apply-Step, actor_of}
use pr_reviewer.Jobs.Claim.{start_job}
use pr_reviewer.Jobs.Enqueue.{new_job, supersede, target_of}
use pr_reviewer.Jobs.Rows.{All-update_where}
use pr_reviewer.Jobs.Push.{PushedSummary, overwrite, pushed_row, is_in_repository}

-- A running job is under a lease and has been tried; a waiting one is under none and has tries
-- left; one that succeeded or failed has no end of a lease. What is left of a lease on a row with
-- another status is not restricted.
pub record IsSound (j : Job) : Type 0 where
  pub leased :
      is_running j.status ≡ true → (j.locked_by ≢ none) × (j.locked_until ≢ none) × (1 ≤ j.attempts)
  pub waiting :
      j.status ≡ pending
      → (j.locked_by ≡ none) × (j.locked_until ≡ none) × (j.attempts < max_review_job_attempts)
  pub ended : (j.status ≡ succeeded) ⊎ (j.status ≡ failed) → j.locked_until ≡ none

module _ (now : ℕ) where
  new_job-IsSound : (id : ℕ) (d : String) (t : Option Target) → IsSound (new_job id now d t)
  new_job-IsSound id d t = ground arith

  mark-IsSound :
      (s : Status) (j : Job) → (s ≡ superseded) ⊎ (s ≡ cancelled) → IsSound (mark s now j)
  mark-IsSound s j h = ground arith

  start_job-IsSound : (w : String) (j : Job) → IsSound (start_job w now j)
  start_job-IsSound w j = ground arith

  start_leased-IsSound : (w h : String) (j : Job) → IsSound (start_leased w h now j)
  start_leased-IsSound w h j = ground arith

  renew_lease-IsSound :
      (w : String) (j : Job) → is_held_by w j ≡ true → IsSound j → IsSound (renew_lease now j)
  renew_lease-IsSound w j h s = ground arith

  complete_job-IsSound : (j : Job) → IsSound (complete_job now j)
  complete_job-IsSound j = ground arith

  fail_job-IsSound : (e : ReviewJobErrorClass) (j : Job) → IsSound (fail_job now e j)
  fail_job-IsSound e j = ground arith

  restart_job-IsSound : (j : Job) → IsSound (restart_job now j)
  restart_job-IsSound j = ground arith

  finish_job-IsSound : (ack : JobAcknowledgement) (j : Job) → IsSound (finish_job now ack j)
  finish_job-IsSound ack j = ground arith

  pushed_row-IsSound : (s : PushedSummary) → IsSound (pushed_row now s)
  pushed_row-IsSound s = ground arith

  overwrite-IsSound : (s : PushedSummary) (j : Job) → IsSound (overwrite now s j)
  overwrite-IsSound s j = ground arith

  Step-IsSound :
      {w : String} {op : Op} {js ks : List Job}
      → Step now w op js ks
      → All IsSound js
      → All IsSound ks
  Step-IsSound Step.stay a = a
  Step-IsSound {js = js} (Step.insert id d _) a =
      All-append IsSound js _ a (new_job-IsSound id d none, tt)
  Step-IsSound {js = js} (Step.replace id t d p _) a =
      All-append IsSound
        (supersede now p.installation_id p.github_repository_id p.pull_request_number js) _
        (All-update_where
          (is_active_in p.installation_id p.github_repository_id p.pull_request_number)
          (mark superseded now) js (λ j _ _. mark-IsSound superseded j (inl refl)) a)
        (new_job-IsSound id d (some (target_of p t)), tt)
  Step-IsSound {js = js} (Step.withdraw i r n) a =
      All-update_where (is_active_in i r n) (mark cancelled now) js
        (λ j _ _. mark-IsSound cancelled j (inr refl)) a
  Step-IsSound {w} {js = js} (Step.start p d {j = j} e) a =
      All-update_where (has_id j.id) (start_job w now) js (λ k _ _. start_job-IsSound w k) a
  Step-IsSound {w} {js = js} (Step.start_token p d h {j = j} e) a =
      All-update_where (has_id j.id) (start_leased w h now) js (λ k _ _. start_leased-IsSound w h k)
        a
  Step-IsSound {w} {js = js} (Step.extend p d) a =
      All-update_where p (renew_lease now) js (λ k h s. renew_lease-IsSound w k (d k h) s) a
  Step-IsSound {w} {js = js} (Step.succeed i) a =
      All-update_where (is_owned i w) (complete_job now) js (λ k _ _. complete_job-IsSound k) a
  Step-IsSound {w} {js = js} (Step.give_up i e) a =
      All-update_where (is_owned i w) (fail_job now e) js (λ k _ _. fail_job-IsSound e k) a
  Step-IsSound {js = js} (Step.restart i _) a =
      All-update_where (is_dead i) (restart_job now) js (λ k _ _. restart_job-IsSound k) a
  Step-IsSound {js = js} (Step.settle ack i e h) a =
      All-update_where (has_id i) (finish_job now ack) js (λ k _ _. finish_job-IsSound ack k) a
  Step-IsSound {js = js} (Step.push_row s _) a =
      All-append IsSound js _ a (pushed_row-IsSound s, tt)
  Step-IsSound {js = js} (Step.push_over s _) a =
      All-update_where (has_id s.review_job_id) (overwrite now s) js
        (λ k _ _. overwrite-IsSound s k) a
  Step-IsSound {js = js} (Step.erase p i r _) a =
      All-each (delete_where (is_in_repository i r) js)
        (λ k n. All-mem IsSound js a (delete_where-mem (is_in_repository i r) js n).0)

-- A name under which the caller of an operation may go.
abbrev pub caller : Option String → String
caller none = ""
caller (some w) = w

pub caller_acts : (o : Option String) → ActsAs o (caller o)
caller_acts none = tt
caller_acts (some w) = refl

-- From a table of sound rows, every history of the writers of review_jobs, pushed summaries and
-- purges included, leads to a table of sound rows: a running job has a holder, the end of its lease
-- and a try; a waiting one has neither holder nor end, and tries left; and of one that succeeded or
-- failed the end of the lease is null, though its holder and its token may stay.
pub run-IsSound :
    (hash : String → String) (ops : List (ℕ × Op)) (db : Db)
    → All IsSound db.jobs
    → All IsSound (run hash ops db).jobs
unfolding run
run-IsSound hash [] db h = h
run-IsSound hash ((now, op) ∷ ops) db h = run-IsSound hash ops (apply hash now op db) (
    Step-IsSound now (apply-Step hash now (caller (actor_of op)) op db (caller_acts (actor_of op)))
      h)
