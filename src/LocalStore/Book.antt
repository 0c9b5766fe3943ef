-- ===== src/LocalStore/Book.antt =====
-- The jobs of the local store as a book of statuses, which forgets the rows and their order.
use mathlib.Core.Path.{fun_ext}
use pr_reviewer.Base.{
  refl, List, ℕ, [], ◌∷◌, ◌++◌, ◌≡◌, Option, none, some, if◌then◌else◌, ◌==◌, arith, find_where,
  map_where, count_where, inl, inr, Bool-cases, find_where-none, Option-cases, ◌∙◌, ◌≢◌, ap, subst,
}
use pr_reviewer.Jobs.Runner.{JobEnvelope}
use pr_reviewer.LocalStore.{
  abandoned, LocalStore, LocalJobStatus, LocalJob, completed, is_job, claimed,
}
use pr_reviewer.LocalStore.Jobs.{
  get_job, record_claimed, set_status, mark_abandoned, mark_completed, claimed_row,
}

abbrev pub Book : Type 0
Book = ℕ → Option LocalJobStatus

-- A job is entered as claimed unless it has an entry.
abbrev pub entered : Option LocalJobStatus → Option LocalJobStatus
entered none = some claimed
entered (some x) = some x

abbrev pub settled : LocalJobStatus → Option LocalJobStatus → Option LocalJobStatus
settled x none = none
settled x (some y) = some x

-- What the job store promises of its writers.
pub data JobOp : Type 0 where
  claim : (now : ℕ) → JobEnvelope → JobOp
  abandon : ℕ → JobOp
  complete : ℕ → JobOp

abbrev pub promised : JobOp → Book → Book
promised (claim now e) b i = if i == e.job_id then entered (b i) else b i
promised (abandon k) b i = if i == k then settled abandoned (b i) else b i
promised (complete k) b i = if i == k then settled completed (b i) else b i

abbrev pub all_promised : List JobOp → Book → Book
all_promised [] b = b
all_promised (op ∷ ops) b = all_promised ops (promised op b)

abbrev pub performed : JobOp → LocalStore → LocalStore
performed (claim now e) s = record_claimed now e s
performed (abandon k) s = mark_abandoned k s
performed (complete k) s = mark_completed k s

abbrev pub all_performed : List JobOp → LocalStore → LocalStore
all_performed [] s = s
all_performed (op ∷ ops) s = all_performed ops (performed op s)

abbrev pub status_of : Option LocalJob → Option LocalJobStatus
status_of none = none
status_of (some j) = some j.status

unfoldable pub book : LocalStore → Book
unfolding get_job
book s i = status_of (get_job i s)

status_of-append :
    (i : ℕ) (j : LocalJob) (js : List LocalJob)
    → count_where (is_job j.job_id) js ≡ 0
    → j.status ≡ claimed
    → status_of (find_where (is_job i) (js ++ j ∷ [])) ≡ (
        if i == j.job_id
        then entered (status_of (find_where (is_job i) js))
        else status_of (find_where (is_job i) js))
status_of-append i j [] z h = elim (Bool-cases (i == j.job_id)) [
  | inl e ↦ ground (arith, h)
  | inr e ↦ ground (arith, h)
]
status_of-append i j (k ∷ js) z h = ground (arith, status_of-append i j js)

status_of-map_where :
    (i k : ℕ) (x : LocalJobStatus) (js : List LocalJob)
    → status_of (find_where (is_job i) (map_where (is_job k) (set_status x) js)) ≡ (
        if i == k
        then settled x (status_of (find_where (is_job i) js))
        else status_of (find_where (is_job i) js))
status_of-map_where i k x [] = ground arith
status_of-map_where i k x (j ∷ js) = ground (arith, status_of-map_where i k x js)

status_of-again :
    (i k : ℕ) (js : List LocalJob)
    → count_where (is_job k) js ≢ 0
    → status_of (find_where (is_job i) js) ≡ (
        if i == k
        then entered (status_of (find_where (is_job i) js))
        else status_of (find_where (is_job i) js))
status_of-again i k js h = elim (Bool-cases (i == k)) [
  | inr e ↦ rw e refl
  | inl e ↦
      let same : i ≡ k = ground arith in
      elim (Option-cases (find_where (is_job i) js)) [
        | inl z ↦
            absurd (
              h (subst (λ n. count_where (is_job n) js ≡ 0) same (find_where-none (is_job i) js z)))
        | inr (j, z) ↦ rw (e, z) refl
      ]
]

book-performed :
    (op : JobOp) (s : LocalStore) (i : ℕ) → book (performed op s) i ≡ promised op (book s) i
unfolding book get_job record_claimed mark_abandoned mark_completed
book-performed (claim now e) s i = elim (Bool-cases (count_where (is_job e.job_id) s.jobs == 0)) [
  | inl z ↦ rw z (status_of-append i (claimed_row now e) s.jobs (ground arith) refl)
  | inr z ↦ rw z (status_of-again i e.job_id s.jobs (λ q. absurd (ground arith)))
]
book-performed (abandon k) s i = status_of-map_where i k abandoned s.jobs
book-performed (complete k) s i = status_of-map_where i k completed s.jobs

-- Whatever jobs are claimed, abandoned and completed, in whatever order, the statuses that the
-- store then gives are those that the book promises: a job is entered as claimed once, keeps its
-- entry when it is claimed again, and an entry that is there is abandoned or completed.
pub book-all_performed :
    (ops : List JobOp) (s : LocalStore) → book (all_performed ops s) ≡ all_promised ops (book s)
book-all_performed [] s = refl
book-all_performed (op ∷ ops) s =
    book-all_performed ops (performed op s)
    ∙ ap (all_promised ops) (fun_ext (λ i. book-performed op s i))
