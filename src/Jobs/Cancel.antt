-- ===== src/Jobs/Cancel.antt =====
-- jobs/cancel_review_job.py: a closed pull request, or one made a draft, ends its active jobs.
use pr_reviewer.Base.{ℕ, String, ◌∷◌, Bool, if◌then◌else◌}
use pr_reviewer.Jobs.{ℤ, Status, Db, update_where, is_active_in, mark}
use pr_reviewer.Jobs.Enqueue.{has_delivery}

-- contracts/github.py, the fields that the queue and the lifecycle policy read
pub record GitHubDelivery : Type 0 where
  pub delivery_id : String
  pub event : String
  pub action : String
  pub installation_id : ℤ
  pub repository_id : ℤ
  pub number : ℤ
  pub draft : Bool

pub data CancelReviewJobResult : Type 0 where
  cancelled duplicate : CancelReviewJobResult

unfoldable pub cancel_review_job : (now : ℕ) → GitHubDelivery → Db → CancelReviewJobResult × Db
cancel_review_job now delivery db =
    if has_delivery delivery.delivery_id db.deliveries then (duplicate, db) else (
      cancelled,
      record db {
        deliveries = (delivery.delivery_id, delivery.event) ∷ db.deliveries;
        jobs =
            update_where
              (is_active_in delivery.installation_id delivery.repository_id delivery.number)
              (mark Status.cancelled now) db.jobs;
      },
    )
