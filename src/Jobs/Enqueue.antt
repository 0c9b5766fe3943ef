-- ===== src/Jobs/Enqueue.antt =====
-- jobs/enqueue_review_job.py: the job that a webhook delivery brings in.
use pr_reviewer.Base.{
  ℕ, zero, suc, String, Option, none, some, List, ◌∷◌, [], ◌++◌, Bool, true, false, not, ◌||◌,
  str_eq, if◌then◌else◌,
}
use pr_reviewer.Jobs.{
  ℤ, pos, negsuc, int_eq, pending, superseded, Target, Job, Db, update_where, is_active_in, mark,
}

-- The JSON values of a webhook's payload.
mutual
  pub data Json : Type 0 where
    null : Json
    bool : Bool → Json
    num : ℤ → Json
    str : String → Json
    arr : Items → Json
    obj : Fields → Json

  pub data Items : Type 0 where
    nil : Items
    cons : Json → Items → Items

  pub data Fields : Type 0 where
    end : Fields
    field : String → Json → Fields → Fields

-- payload.get(key); a repeated key is the parser's to settle, so the first one is read
abbrev pub get : String → Fields → Option Json
get k end = none
get k (field j v fs) = if str_eq j k then some v else get k fs

-- isinstance(…, dict), of a key that may be missing
abbrev pub get_dict : String → Fields → Option Fields
get_dict k fs = elim (get k fs) [ some (obj f) ↦ some f | _ ↦ none ]

infixl 5 ◌>>=◌
abbrev pub ◌>>=◌ {ℓ κ} : {A : Type ℓ} {B : Type κ} → Option A → (A → Option B) → Option B
none >>= f = none
some a >>= f = f a

pub record PullRequestIdentity : Type 0 where
  pub installation_id : ℤ
  pub github_repository_id : ℤ
  pub pull_request_number : ℤ
  pub base_sha : String
  pub head_sha : String

abbrev pub is_positive : ℤ → Bool
is_positive (pos zero) = false
is_positive (pos (suc n)) = true
is_positive (negsuc n) = false

-- Python's `int` (none where it raises TypeError or ValueError) and `str` on a JSON value.
module _ (int : Json → Option ℤ) (to_str : Json → String) where
  unfoldable pub pull_request_identity : Json → Option PullRequestIdentity
  pull_request_identity (obj payload) = do
    installation ← get_dict "installation" payload
    repository ← get_dict "repository" payload
    pull_request ← get_dict "pull_request" payload
    base ← get_dict "base" pull_request
    head ← get_dict "head" pull_request
    installation_id ← get "id" installation >>= int
    github_repository_id ← get "id" repository >>= int
    pull_request_number ← get "number" pull_request >>= int
    base_value ← get "sha" base
    head_value ← get "sha" head
    let base_sha = to_str base_value
    let head_sha = to_str head_value
    if not (is_positive pull_request_number) || (str_eq base_sha "" || str_eq head_sha "")
        then none
        else some (record {
          installation_id = installation_id;
          github_repository_id = github_repository_id;
          pull_request_number = pull_request_number;
          base_sha = base_sha;
          head_sha = head_sha;
        })
  pull_request_identity _ = none

pub data EnqueueReviewJobResult : Type 0 where
  enqueued duplicate ignored : EnqueueReviewJobResult

abbrev pub default_policy_version : String
default_policy_version = "v1"

abbrev pub default_budget_max_tokens : ℕ
default_budget_max_tokens = 100_000

-- Decimal("1.000000")
abbrev pub default_budget_max_cost_usd : ℕ
default_budget_max_cost_usd = 1_000_000

-- `on conflict (id) do nothing` finds the key
abbrev pub has_delivery : String → List (String × String) → Bool
has_delivery d [] = false
has_delivery d (row ∷ rows) = str_eq row.0 d || has_delivery d rows

abbrev pub has_installation : ℤ → List ℤ → Bool
has_installation i [] = false
has_installation i (row ∷ rows) = int_eq row i || has_installation i rows

-- A new row with the columns' defaults; the database draws `id`.
abbrev pub new_job : (id now : ℕ) → String → Option Target → Job
new_job id now delivery_id target = record {
  id = id;
  delivery_id = some delivery_id;
  status = pending;
  attempts = 0;
  available_at = now;
  locked_by = none;
  locked_until = none;
  lease_token_hash = none;
  last_error = none;
  created_at = now;
  updated_at = now;
  target = target;
}

abbrev pub target_of : PullRequestIdentity → ℕ → Target
target_of p trace_id = record {
  installation_id = p.installation_id;
  github_repository_id = p.github_repository_id;
  pull_request_number = p.pull_request_number;
  base_sha = p.base_sha;
  head_sha = p.head_sha;
  policy_version = default_policy_version;
  budget_max_tokens = default_budget_max_tokens;
  budget_max_cost_usd = default_budget_max_cost_usd;
  trace_id = trace_id;
}

abbrev pub supersede : (now : ℕ) → ℤ → ℤ → ℤ → List Job → List Job
supersede now i r n = update_where (is_active_in i r n) (mark superseded now)

-- What follows the insert into github_deliveries; `id` and `trace_id` are drawn by the database
-- and by uuid4.
abbrev pub insert_job :
    (id trace_id now : ℕ) → String → Option PullRequestIdentity → List ℤ → List Job → List Job
insert_job id trace_id now delivery_id none installations jobs =
    jobs ++ new_job id now delivery_id none ∷ []
insert_job id trace_id now delivery_id (some p) installations jobs =
    if has_installation p.installation_id installations
    then supersede now p.installation_id p.github_repository_id p.pull_request_number jobs
      ++ new_job id now delivery_id (some (target_of p trace_id)) ∷ []
    else jobs ++ new_job id now delivery_id none ∷ []

unfoldable pub enqueue_review_job :
    (id trace_id now : ℕ)
    → String
    → String
    → Option PullRequestIdentity
    → Db
    → EnqueueReviewJobResult × Db
enqueue_review_job id trace_id now delivery_id event_name identity db =
    if not (str_eq event_name "pull_request")
    then (ignored, db)
    else if has_delivery delivery_id db.deliveries
    then (duplicate, db)
    else (
      enqueued,
      record db {
        deliveries = (delivery_id, event_name) ∷ db.deliveries;
        jobs = insert_job id trace_id now delivery_id identity db.installations db.jobs;
      },
    )
