-- ===== src/Jobs/Rows.antt =====
-- What an update, a count and a selection over a table have to do with one another.
use mathlib.Core.Option
use pr_reviewer.Base.{
  ℕ, ◌≤◌, ◌≡◌, refl, some, List, [], ◌∷◌, ◌++◌, Bool, true, false, All, count_where, arith,
  if◌then◌else◌, Option-cases, inl, inr, Bool-cases, suc, delete_where,
}
use pr_reviewer.Jobs.{Job, update_where, has_id}
use pr_reviewer.Jobs.Claim.{next_job}
use pr_reviewer.Jobs.Lease.{first_where}

-- A property of rows that the changed rows keep holds of the updated table.
pub All-update_where :
    {P : Job → Type 0} (p : Job → Bool) (f : Job → Job) (js : List Job)
    → ((j : Job) → p j ≡ true → P j → P (f j))
    → All P js
    → All P (update_where p f js)
All-update_where p f [] keep h = tt
All-update_where {P} p f (j ∷ js) keep h = (head (p j) refl, All-update_where p f js keep h.1)
  where
    head : (b : Bool) → p j ≡ b → P (if b then f j else j)
    head true e = keep j e h.0
    head false e = h.0

-- An update that makes no new row pass `q` makes the count no larger.
pub count_where-update_where-le :
    (q p : Job → Bool) (f : Job → Job) (js : List Job)
    → ((j : Job) → p j ≡ true → q (f j) ≡ true → q j ≡ true)
    → count_where q (update_where p f js) ≤ count_where q js
count_where-update_where-le q p f [] keep = omega arith
count_where-update_where-le q p f (j ∷ js) keep =
    ground (arith, keep j, count_where-update_where-le q p f js keep)

-- An update that takes every row that passes `q` out of `q` leaves none.
pub count_where-update_where_zero :
    (q p : Job → Bool) (f : Job → Job) (js : List Job)
    → ((j : Job) → p j ≡ true → q (f j) ≡ false)
    → ((j : Job) → p j ≡ false → q j ≡ false)
    → count_where q (update_where p f js) ≡ 0
count_where-update_where_zero q p f [] hit miss = refl
count_where-update_where_zero q p f (j ∷ js) hit miss =
    ground (arith, hit j, miss j, count_where-update_where_zero q p f js hit miss)

-- An update that no row asks for changes nothing.
pub update_where-eq_of_zero :
    (p : Job → Bool) (f : Job → Job) (js : List Job)
    → count_where p js ≡ 0
    → update_where p f js ≡ js
update_where-eq_of_zero p f [] h = refl
update_where-eq_of_zero p f (j ∷ js) h = ground (arith, update_where-eq_of_zero p f js)

-- The row with an identifier, after an update that keeps identifiers.
pub first_where-update_where :
    (i : ℕ) (p : Job → Bool) (f : Job → Job) (js : List Job)
    → ((j : Job) → (f j).id ≡ j.id)
    → first_where (has_id i) (update_where p f js)
      ≡ Option.map (λ j. if p j then f j else j) (first_where (has_id i) js)
first_where-update_where i p f [] keep = refl
first_where-update_where i p f (j ∷ js) keep =
    ground (arith, keep j, first_where-update_where i p f js keep)

pub first_where-append :
    (p : Job → Bool) (js ks : List Job) {j : Job}
    → first_where p js ≡ some j
    → first_where p (js ++ ks) ≡ some j
first_where-append p [] ks h = cc
first_where-append p (x ∷ js) ks {j} h = ground (arith, first_where-append p js ks {j = j})

pub first_where_passes :
    (p : Job → Bool) (js : List Job) {j : Job} → first_where p js ≡ some j → p j ≡ true
first_where_passes p [] h = cc
first_where_passes p (x ∷ js) {j} h = ground (arith, first_where_passes p js {j = j})

-- What a selection finds is counted.
pub count_where-next_job :
    (p : Job → Bool) (js : List Job) {j : Job}
    → next_job p js ≡ some j
    → 1 ≤ count_where (has_id j.id) js
unfolding next_job
count_where-next_job p [] h = cc
count_where-next_job p (x ∷ js) {j} h = elim (Option-cases (next_job p js)) [
  | inl e ↦ ground arith
  | inr (k, e) ↦ ground (arith, count_where-next_job p js e)
]

-- With unique identifiers, the row that a selection picked is the row with its identifier.
pub first_where-next_job :
    (p : Job → Bool) (js : List Job) {j : Job}
    → next_job p js ≡ some j
    → count_where (has_id j.id) js ≤ 1
    → first_where (has_id j.id) js ≡ some j
unfolding next_job
first_where-next_job p [] h u = cc
first_where-next_job p (x ∷ js) {j} h u = elim (Option-cases (next_job p js)) [
  | inl e ↦ ground arith
  | inr (k, e) ↦ ground (arith, count_where-next_job p js e, first_where-next_job p js e)
]

-- A selected row passes the test.
pub next_job_passes :
    (p : Job → Bool) (js : List Job) {j : Job} → next_job p js ≡ some j → p j ≡ true
unfolding next_job
next_job_passes p [] h = cc
next_job_passes p (x ∷ js) {j} h = elim (Option-cases (next_job p js)) [
  | inl e ↦ ground arith
  | inr (k, e) ↦ ground (arith, next_job_passes p js e)
]

-- With unique identifiers an update by id changes one row, so only that row's count can grow.
pub count_where-update_id-le :
    (q : Job → Bool) (i : ℕ) (f : Job → Job) (js : List Job) {j : Job}
    → first_where (has_id i) js ≡ some j
    → count_where (has_id i) js ≤ 1
    → (q (f j) ≡ true → q j ≡ true)
    → count_where q (update_where (has_id i) f js) ≤ count_where q js
count_where-update_id-le q i f [] h u keep = cc
count_where-update_id-le q i f (x ∷ js) {j} h u keep = elim (Bool-cases (has_id i x)) [
  | inl e ↦ ground (arith, update_where-eq_of_zero (has_id i) f js)
  | inr e ↦ ground (arith, count_where-update_id-le q i f js {j = j})
]

pub count_where_mono :
    (p q : Job → Bool) (js : List Job)
    → ((k : Job) → p k ≡ true → q k ≡ true)
    → count_where p js ≤ count_where q js
count_where_mono p q [] imp = omega arith
count_where_mono p q (x ∷ js) imp = ground (arith, imp x, count_where_mono p q js imp)

-- A row that a selection finds and that passes another test is counted by it.
pub count_where-first_where :
    (q p : Job → Bool) (js : List Job) {j : Job}
    → first_where q js ≡ some j
    → p j ≡ true
    → 1 ≤ count_where p js
count_where-first_where q p [] h e = cc
count_where-first_where q p (x ∷ js) {j} h e =
    ground (arith, count_where-first_where q p js {j = j})

-- An update that takes the one row with an id into `q` adds one to the count.
pub count_where-update_grows :
    (q p : Job → Bool) (i : ℕ) (f : Job → Job) (js : List Job)
    → ((k : Job) → p k ≡ true → has_id i k ≡ true)
    → {j : Job} → first_where (has_id i) js ≡ some j
    → count_where (has_id i) js ≤ 1
    → p j ≡ true
    → q j ≡ false
    → q (f j) ≡ true
    → suc (count_where q js) ≤ count_where q (update_where p f js)
count_where-update_grows q p i f [] imp h u a b c = cc
count_where-update_grows q p i f (x ∷ js) imp {j} h u a b c = elim (Bool-cases (has_id i x)) [
  | inl e ↦ ground (arith, update_where-eq_of_zero p f js, count_where_mono p (has_id i) js imp)
  | inr e ↦ ground (arith, imp x, count_where-update_grows q p i f js imp {j = j})
]

-- With unique ids, a test that only one id can pass is decided by that id's row.
pub count_where-first_zero :
    (q : Job → Bool) (i : ℕ) (js : List Job)
    → ((k : Job) → q k ≡ true → has_id i k ≡ true)
    → {j : Job} → first_where (has_id i) js ≡ some j
    → count_where (has_id i) js ≤ 1
    → q j ≡ false
    → count_where q js ≡ 0
count_where-first_zero q i [] imp h u e = cc
count_where-first_zero q i (x ∷ js) imp {j} h u e = elim (Bool-cases (has_id i x)) [
  | inl a ↦ ground (arith, count_where_mono q (has_id i) js imp)
  | inr a ↦ ground (arith, imp x, count_where-first_zero q i js imp {j = j})
]

-- The first row of a wider test that passes the narrower one too is its first.
pub first_where-narrow :
    (q p : Job → Bool) (js : List Job)
    → ((k : Job) → p k ≡ true → q k ≡ true)
    → {j : Job} → first_where q js ≡ some j
    → p j ≡ true
    → first_where p js ≡ some j
first_where-narrow q p [] imp h e = cc
first_where-narrow q p (x ∷ js) imp {j} h e =
    ground (arith, imp x, first_where-narrow q p js imp {j = j})

-- A delete of other rows.
pub first_where-delete_where :
    (q p : Job → Bool) (js : List Job) {j : Job}
    → first_where q js ≡ some j
    → p j ≡ false
    → first_where q (delete_where p js) ≡ some j
first_where-delete_where q p [] h e = cc
first_where-delete_where q p (x ∷ js) {j} h e =
    ground (arith, first_where-delete_where q p js {j = j})
