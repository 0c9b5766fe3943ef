-- ===== src/Jobs/Next.antt =====
-- What a claim hands out: the due job that has waited longest.
use mathlib.Core.List.{Memᴰ}
use pr_reviewer.Base.{
  refl, [], ◌∷◌, String, Bool, ℕ, List, ◌≡◌, false, true, some, All, Option, none, Bool-cases,
  arith, Option-cases, count_where, ◌&&◌, inl, inr, ◌≤◌, not, subst,
}
use pr_reviewer.Jobs.{Job, has_id, update_where}
use pr_reviewer.Jobs.Claim.{claim_review_job, is_before, next_job, is_due, start_job}
use pr_reviewer.Jobs.Unique.{UniqueIds}
use pr_reviewer.Jobs.Lease.{first_where}
use pr_reviewer.Jobs.Rows.{next_job_passes, update_where-eq_of_zero, first_where-next_job}

is_before_trans : (a b c : Job) → is_before a b ≡ true → is_before b c ≡ true → is_before a c ≡ true
is_before_trans a b c p q = ground arith

is_before_total : (a b : Job) → is_before a b ≡ false → is_before b a ≡ true
is_before_total a b p = ground arith

is_before_refl : (a : Job) → is_before a a ≡ true
is_before_refl a = ground arith

-- Every row that passes the test stands no earlier in the queue than `j`.
abbrev pub IsFirst : (Job → Bool) → Job → List Job → Type 0
IsFirst p j = All (λ k. p k ≡ true → is_before j k ≡ true)

IsFirst-mono :
    (p : Job → Bool) (i j : Job) (js : List Job)
    → is_before i j ≡ true
    → IsFirst p j js
    → IsFirst p i js
IsFirst-mono p i j [] b h = tt
IsFirst-mono p i j (k ∷ js) b h =
    (λ q. is_before_trans i j k b (h.0 q), IsFirst-mono p i j js b h.1)

module _ (p : Job → Bool) where
  next_job-none : (js : List Job) → next_job p js ≡ none → All (λ k. p k ≡ false) js
  unfolding next_job
  next_job-none [] h = tt
  next_job-none (x ∷ js) h = elim (Bool-cases (p x)) [
    | inl e ↦ ground arith
    | inr e ↦ (e, next_job-none js (ground arith))
  ]

  IsFirst-of_none : (j : Job) (js : List Job) → All (λ k. p k ≡ false) js → IsFirst p j js
  IsFirst-of_none j [] h = tt
  IsFirst-of_none j (k ∷ js) h = (λ q. ground arith, IsFirst-of_none j js h.1)

  next_job-mem : (js : List Job) {j : Job} → next_job p js ≡ some j → Memᴰ j js
  unfolding next_job
  next_job-mem [] h = cc
  next_job-mem (x ∷ js) {j} h = elim (Option-cases (next_job p js)) [
    | inl e ↦ Memᴰ.head (ground arith)
    | inr (k, e) ↦ elim (Bool-cases (p x && is_before x k)) [
      | inl b ↦ Memᴰ.head (ground arith)
      | inr b ↦ Memᴰ.tail (next_job-mem js (ground arith))
    ]
  ]

  next_job-IsFirst : (js : List Job) {j : Job} → next_job p js ≡ some j → IsFirst p j js
  unfolding next_job
  next_job-IsFirst [] h = tt
  next_job-IsFirst (x ∷ js) {j} h = elim (Option-cases (next_job p js)) [
    | inl e ↦ (ground (arith, is_before_refl x), IsFirst-of_none j js (next_job-none js e))
    | inr (k, e) ↦ elim (Bool-cases (p x && is_before x k)) [
      | inl b ↦
          let q : x ≡ j = ground arith in
          (
            λ _. subst (λ z. is_before z x ≡ true) q (is_before_refl x),
            subst (λ z. IsFirst p z js) q
                (IsFirst-mono p x k js (ground arith) (next_job-IsFirst js e)),
          )
      | inr b ↦
          let q : k ≡ j = ground arith in
          (
            λ r. subst (λ z. is_before z x ≡ true) q (is_before_total x k (ground arith)),
            subst (λ z. IsFirst p z js) q (next_job-IsFirst js e),
          )
    ]
  ]

-- What a claim's answer says of the table `js` that it was asked of, and of the table `ks` after.
abbrev pub ClaimSpec :
    (locked : Job → Bool) (w : String) (now : ℕ) → List Job → Option Job → List Job → Type 0
ClaimSpec locked w now js none ks =
    All (λ k. (is_due now k && not (locked k)) ≡ false) js × (ks ≡ js)
ClaimSpec locked w now js (some r) ks =
    (j : Job) × Memᴰ j js
    × (is_due now j ≡ true)
    × (locked j ≡ false)
    × IsFirst (λ k. is_due now k && not (locked k)) j js
    × (r ≡ start_job w now j)
    × (ks ≡ update_where (has_id j.id) (λ _. r) js)

start_rows :
    (w : String) (now : ℕ) (j : Job) (js : List Job)
    → first_where (has_id j.id) js ≡ some j
    → count_where (has_id j.id) js ≤ 1
    → update_where (has_id j.id) (start_job w now) js
      ≡ update_where (has_id j.id) (λ _. start_job w now j) js
start_rows w now j [] h u = cc
start_rows w now j (x ∷ js) h u = elim (Bool-cases (has_id j.id x)) [
  | inl e ↦ ground (
    arith,
    update_where-eq_of_zero (has_id j.id) (start_job w now) js,
    update_where-eq_of_zero (has_id j.id) (λ _. start_job w now j) js,
  )
  | inr e ↦ ground (arith, start_rows w now j js)
]

-- A claim hands out a due job that no other transaction has locked, that comes no later than any
-- other such job in the order of available_at and then created_at, and changes only that job's
-- row, to the one handed out. It hands out none exactly when there is no such job, and then
-- changes nothing. Ids are unique.
pub claim_next :
    (locked : Job → Bool) (w : String) (now : ℕ) (js : List Job)
    → UniqueIds js
    → ClaimSpec locked w now js
        (claim_review_job locked w now js).0
        (claim_review_job locked w now js).1
unfolding claim_review_job
claim_next locked w now js u =
    elim (Option-cases (next_job (λ j. is_due now j && not (locked j)) js)) [
      | inl e ↦ rw e (next_job-none (λ j. is_due now j && not (locked j)) js e, refl)
      | inr (j, e) ↦ rw e (
        j,
        next_job-mem (λ j. is_due now j && not (locked j)) js e,
        ground (arith, next_job_passes (λ j. is_due now j && not (locked j)) js e),
        ground (arith, next_job_passes (λ j. is_due now j && not (locked j)) js e),
        next_job-IsFirst (λ j. is_due now j && not (locked j)) js e,
        refl,
        start_rows w now j js
            (first_where-next_job (λ j. is_due now j && not (locked j)) js e (u j.id)) (u j.id),
      )
    ]
