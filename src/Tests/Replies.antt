-- ===== src/Tests/Replies.antt =====
-- The theorems on what a runner is told, at the queue of one job at work.
use pr_reviewer.Base.{refl, [], ◌∷◌, false, ◌≡◌, some, none}
use pr_reviewer.Jobs.{pos, Db}
use pr_reviewer.Tests.Queue.{keep, identity, at_work, db, unlocked, at_work-UniqueIds}
use pr_reviewer.Jobs.Enqueue.{EnqueueReviewJobResult, enqueue_review_job}
use pr_reviewer.Jobs.Cancel.{CancelReviewJobResult, GitHubDelivery, cancel_review_job}
use pr_reviewer.Jobs.History.{run, claim, complete}
use pr_reviewer.Jobs.Replies.{WorksOn, acknowledge_again}
use pr_reviewer.Jobs.Runner.{
  acknowledge_job, JobAcknowledgement, ack_succeeded, ack_failed, finish_job, ack_event,
}
use pr_reviewer.Jobs.Deliveries.{redelivery_ignored}

abbrev closed : GitHubDelivery
closed = record {
  delivery_id = "d2";
  event = "pull_request";
  action = "closed";
  installation_id = pos 1;
  repository_id = pos 2;
  number = pos 3;
  draft = false;
}

abbrev works : WorksOn keep "w1" 1 "token" at_work db.jobs
works = record {
  row = refl;
  unique = at_work-UniqueIds;
  at_work = refl;
  holder = refl;
  token = refl;
}

abbrev later : Db
later =
    run keep ((10, claim unlocked "w2") ∷ (20, complete 2 "w2") ∷ [])
      (enqueue_review_job 2 71 8 "d2" "pull_request" (some identity) db).1

redelivery_ignored_example :
    (enqueue_review_job 3 72 30 "d2" "pull_request" none later
      ≡ (EnqueueReviewJobResult.duplicate, later))
    × (cancel_review_job 30 closed later ≡ (CancelReviewJobResult.duplicate, later))
redelivery_ignored_example =
    redelivery_ignored keep ((10, claim unlocked "w2") ∷ (20, complete 2 "w2") ∷ []) db "d2" 2 71 8
      3 72 30 (some identity) none closed refl

abbrev success : JobAcknowledgement
success = record {
  terminal_state = ack_succeeded;
  error_class = none;
  fields = ("llm_calls", "2") ∷ [];
}

abbrev failure : JobAcknowledgement
failure = record { terminal_state = ack_failed; error_class = some "cancelled"; fields = [] }

abbrev acknowledged : Db
acknowledged = record db {
  jobs = finish_job 10 success at_work ∷ [];
  events = ack_event 1 success ∷ [];
}

accepted : acknowledge_job keep "w1" 1 "token" 10 success db ≡ some acknowledged
unfolding acknowledge_job
accepted = refl

acknowledge_again_example :
    acknowledge_job keep "w1" 1 "token" 20 failure acknowledged ≡ some acknowledged
acknowledge_again_example = acknowledge_again keep "w1" 1 "token" 10 20 success failure db accepted
