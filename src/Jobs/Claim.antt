-- ===== src/Jobs/Claim.antt =====
-- jobs/claim_review_job.py: the next due job, under a lease.
use pr_reviewer.Base.{
  ℕ, ◌+◌, String, Option, none, some, List, ◌∷◌, [], Bool, not, ◌&&◌, ◌||◌, ltb, leb, ◌==◌, holds,
  if◌then◌else◌,
}
use pr_reviewer.Jobs.{
  running, Job, is_pending, is_running, review_job_lease_interval, update_where, has_id,
}

-- (status = 'pending' and available_at <= now()) or (status = 'running' and locked_until <= now())
abbrev pub is_due : (now : ℕ) → Job → Bool
is_due now j =
    (is_pending j.status && leb j.available_at now)
    || (is_running j.status && holds (λ t. leb t now) j.locked_until)

-- order by available_at asc, created_at asc: `a` may stand before `b`
abbrev pub is_before : Job → Job → Bool
is_before a b =
    ltb a.available_at b.available_at
    || (a.available_at == b.available_at && leb a.created_at b.created_at)

abbrev earlier : Job → Option Job → Job
earlier j none = j
earlier j (some k) = if is_before j k then j else k

-- select … where p order by … limit 1; of rows that tie, the first is taken
unfoldable pub next_job : (Job → Bool) → List Job → Option Job
next_job p [] = none
next_job p (j ∷ js) = let rest = next_job p js in if p j then some (earlier j rest) else rest

abbrev pub start_job : (worker_id : String) (now : ℕ) → Job → Job
start_job worker_id now j = record j {
  status = running;
  locked_by = some worker_id;
  locked_until = some (now + review_job_lease_interval);
  attempts = j.attempts + 1;
  updated_at = now;
}

abbrev claim_picked : Option Job → (Job → Job) → List Job → Option Job × List Job
claim_picked none f js = (none, js)
claim_picked (some j) f js = (some (f j), update_where (has_id j.id) f js)

-- `locked` holds of the rows that other transactions have locked: `skip locked` passes over them.
unfoldable pub claim_review_job :
    (locked : Job → Bool) (worker_id : String) (now : ℕ) → List Job → Option Job × List Job
claim_review_job locked worker_id now js =
    claim_picked (next_job (λ j. is_due now j && not (locked j)) js) (start_job worker_id now) js
