-- ===== src/Tests/Queue.antt =====
-- A queue with one job at work, for the theorems on histories and claims.
use pr_reviewer.Base.{
  refl, [], ◌∷◌, List, All, ◌≢◌, String, Bool, ℕ, arith, none, some, false, ◌≡◌, ◌⊎◌, true, str_eq,
  subst, str_eq_refl,
}
use pr_reviewer.Jobs.History.{run, claim, enqueue, complete, Op, push, purge}
use pr_reviewer.Jobs.{failed, pos, running, Job, Db, has_id, mark}
use pr_reviewer.Jobs.Enqueue.{PullRequestIdentity, new_job, target_of}
use pr_reviewer.Jobs.Next.{ClaimSpec, claim_next}
use pr_reviewer.Jobs.Active.{OneActive, run-OneActive, requeue_beside_active}
use pr_reviewer.Jobs.Unique.{UniqueIds}
use pr_reviewer.Jobs.Lease.{first_where, requeue_review_job}
use pr_reviewer.Jobs.Claim.{claim_review_job}
use pr_reviewer.Jobs.Validity.{IsSound, run-IsSound}
use pr_reviewer.Jobs.Exclusive.{is_marked, lease_exclusive}
use pr_reviewer.Jobs.Push.{PushedSummary, pushed_completed}

abbrev pub keep : String → String
keep s = s

abbrev pub unlocked : Job → Bool
unlocked j = false

abbrev pub identity : PullRequestIdentity
identity = record {
  installation_id = pos 1;
  github_repository_id = pos 2;
  pull_request_number = pos 3;
  base_sha = "base";
  head_sha = "head2";
}

-- runner w1 works on the pull request's first head
abbrev pub at_work : Job
at_work = record (new_job 1 5 "d1" (some (target_of identity 70))) {
  status = running;
  attempts = 1;
  locked_by = some "w1";
  locked_until = some 300_000_000;
  lease_token_hash = some "token";
}

abbrev pub waiting : Job
waiting = new_job 4 6 "d4" none

-- a dead job of an earlier head
abbrev pub dead : Job
dead = record (new_job 9 1 "d9" (some (target_of (record identity { head_sha = "head1" }) 60))) {
  status = failed;
  attempts = 3;
}

abbrev pushed : PushedSummary
pushed = record {
  review_job_id = 7;
  status = pushed_completed;
  installation_id = pos 1;
  github_repository_id = pos 2;
  pull_request_number = pos 8;
  head_sha = "head";
}

abbrev pub db : Db
db = record {
  deliveries = ("d1", "pull_request") ∷ [];
  installations = pos 1 ∷ [];
  jobs = at_work ∷ [];
  events = [];
}

-- another worker claims, a newer head comes in, the other worker claims that, a runner pushes a
-- summary of its own, twice, and another repository is purged
abbrev ops : List (ℕ × Op)
ops =
    (10, claim unlocked "w2")
    ∷ (20, enqueue 2 71 "d2" "pull_request" (some identity))
    ∷ (30, claim unlocked "w2")
    ∷ (40, complete 2 "w2")
    ∷ (50, push pushed)
    ∷ (60, push pushed)
    ∷ (70, purge unlocked (pos 1) (pos 5))
    ∷ []

pub at_work-UniqueIds : UniqueIds (at_work ∷ [])
at_work-UniqueIds i = ground arith

other_name : ◌≢◌ {A = String} "w1" "w2"
other_name h =
    let q : str_eq "w1" "w2" ≡ true = subst (λ x. str_eq "w1" x ≡ true) h (str_eq_refl "w1") in cc

no_name : ◌≢◌ {A = String} "w1" ""
no_name h =
    let q : str_eq "w1" "" ≡ true = subst (λ x. str_eq "w1" x ≡ true) h (str_eq_refl "w1") in cc

at_work-OneActive : OneActive (at_work ∷ [])
at_work-OneActive i r n = ground arith

lease_exclusive_example :
    (k : Job) × (first_where (has_id 1) (run keep ops db).jobs ≡ some k)
    × ((k ≡ at_work) ⊎ ((is_marked k.status ≡ true) × (k ≡ mark k.status k.updated_at at_work)))
lease_exclusive_example =
    lease_exclusive keep "w1" 300_000_000 at_work ops db
      (
        (omega arith, (other_name, tt)),
        (
          (omega arith, (no_name, tt)),
          (
            (omega arith, (other_name, tt)),
            (
              (omega arith, (other_name, tt)),
              (
                (omega arith, (no_name, refl)),
                ((omega arith, (no_name, refl)), ((omega arith, (no_name, refl)), tt)),
              ),
            ),
          ),
        ),
      )
      at_work-UniqueIds (record { at_work = refl; holder = refl; until = refl }) refl

run-OneActive_example : UniqueIds (run keep ops db).jobs × OneActive (run keep ops db).jobs
run-OneActive_example =
    run-OneActive keep ops db (refl, (refl, (refl, (refl, (refl, (refl, (refl, tt)))))))
      at_work-UniqueIds at_work-OneActive

run-IsSound_example : All IsSound (run keep ops db).jobs
run-IsSound_example = run-IsSound keep ops db (ground arith, tt)

two-UniqueIds : UniqueIds (at_work ∷ waiting ∷ [])
two-UniqueIds i = ground arith

claim_next_example :
    ClaimSpec unlocked "w2" 10
      (at_work ∷ waiting ∷ [])
      (claim_review_job unlocked "w2" 10 (at_work ∷ waiting ∷ [])).0
      (claim_review_job unlocked "w2" 10 (at_work ∷ waiting ∷ [])).1
claim_next_example = claim_next unlocked "w2" 10 (at_work ∷ waiting ∷ []) two-UniqueIds

dead-UniqueIds : UniqueIds (dead ∷ at_work ∷ [])
dead-UniqueIds i = ground arith

requeue_beside_active_example :
    (ks : List Job) × (requeue_review_job 9 50 (dead ∷ at_work ∷ []) ≡ some ks) × (¬ OneActive ks)
requeue_beside_active_example =
    requeue_beside_active 9 50 (dead ∷ at_work ∷ []) {j = dead}
      {t = target_of (record identity { head_sha = "head1" }) 60} refl dead-UniqueIds refl refl refl
      (omega arith)
