-- ===== src/Jobs/Deliveries.antt =====
-- A webhook delivery counts once.
use pr_reviewer.Base.{[], ◌∷◌, String, List, ℕ, Option, ◌≡◌, true, arith, str_eq_refl}
use pr_reviewer.Jobs.History.{run, apply, Op, enqueue, acknowledge}
use pr_reviewer.Jobs.Enqueue.{
  enqueue_review_job, has_delivery, PullRequestIdentity, EnqueueReviewJobResult,
}
use pr_reviewer.Jobs.Cancel.{cancel_review_job, GitHubDelivery, CancelReviewJobResult}
use pr_reviewer.Jobs.Lease.{fail_review_job}
use pr_reviewer.Jobs.Runner.{acknowledge_job}
use pr_reviewer.Jobs.{Db}

has_delivery-apply :
    (hash : String → String) (now : ℕ) (op : Op) (d : String) (db : Db)
    → has_delivery d db.deliveries ≡ true
    → has_delivery d (apply hash now op db).deliveries ≡ true
unfolding apply enqueue_review_job cancel_review_job fail_review_job acknowledge_job
has_delivery-apply hash now (enqueue id x d' e p) d db h = ground arith
has_delivery-apply hash now (acknowledge w i t ack) d db h = ground arith
has_delivery-apply hash now _ d db h = ground arith

-- A delivery that is recorded stays recorded.
has_delivery-run :
    (hash : String → String) (ops : List (ℕ × Op)) (d : String) (db : Db)
    → has_delivery d db.deliveries ≡ true
    → has_delivery d (run hash ops db).deliveries ≡ true
unfolding run
has_delivery-run hash [] d db h = h
has_delivery-run hash ((now, op) ∷ ops) d db h =
    has_delivery-run hash ops d (apply hash now op db) (has_delivery-apply hash now op d db h)

enqueue_records :
    (id x now : ℕ) (d : String) (p : Option PullRequestIdentity) (db : Db)
    → has_delivery d (enqueue_review_job id x now d "pull_request" p db).1.deliveries ≡ true
unfolding enqueue_review_job
enqueue_records id x now d p db = ground (arith, str_eq_refl d)

enqueue_known :
    (id x now : ℕ) (d : String) (p : Option PullRequestIdentity) (db : Db)
    → has_delivery d db.deliveries ≡ true
    → enqueue_review_job id x now d "pull_request" p db ≡ (EnqueueReviewJobResult.duplicate, db)
unfolding enqueue_review_job
enqueue_known id x now d p db h = rw h

cancel_known :
    (now : ℕ) (c : GitHubDelivery) (db : Db)
    → has_delivery c.delivery_id db.deliveries ≡ true
    → cancel_review_job now c db ≡ (CancelReviewJobResult.duplicate, db)
unfolding cancel_review_job
cancel_known now c db h = rw h

-- After a pull_request delivery was handed to the enqueue, and whatever happened since, the same
-- delivery id sent again is answered as a duplicate and changes nothing, as an enqueue of a
-- pull_request and as a cancel.
pub redelivery_ignored :
    (hash : String → String) (ops : List (ℕ × Op)) (db : Db) (d : String) (id x now id' x' now' : ℕ)
    (p p' : Option PullRequestIdentity) (c : GitHubDelivery)
    → c.delivery_id ≡ d
    → let later = run hash ops (enqueue_review_job id x now d "pull_request" p db).1 in
      (enqueue_review_job id' x' now' d "pull_request" p' later
        ≡ (EnqueueReviewJobResult.duplicate, later))
      × (cancel_review_job now' c later ≡ (CancelReviewJobResult.duplicate, later))
redelivery_ignored hash ops db d id x now id' x' now' p p' c e =
    let known =
      has_delivery-run hash ops d (enqueue_review_job id x now d "pull_request" p db).1
        (enqueue_records id x now d p db) in
    (enqueue_known id' x' now' d p' _ known, cancel_known now' c _ (rw e known))
