-- ===== src/Budget/Limits.antt =====
-- No reservation passes a limit, and a release gives back what was reserved.
use pr_reviewer.Base.{
  ℕ, ◌≡◌, arith, some, true, All, ◌+◌, Option-cases, All-map_where, ◌≤◌, find_where, Bool-cases,
  count_where, inl, ◌==◌, inr, subst, List, ◌∷◌, map_where, [], refl, count_where-le_mono, ◌≢◌,
  map_where-eq_of_zero, find_where-none, count_where-map_where_zero, count_where-map_where,
}
use pr_reviewer.Budget.{
  release_repository_reservation, RepositoryBudget, drop_reserved, has_room,
  reserve_repository_budget, Ledger, add_reserved, done, is_held_by_job, is_budget_of, has_job,
  Reserved, denied, taken, set_released,
}
use pr_reviewer.Budget.Balance.{with_hold, IsBalanced, reserve-IsBalanced, release-IsBalanced}

-- What is reserved and spent stays within each limit that is there.
pub record IsWithin (b : RepositoryBudget) : Type 0 where
  pub tokens : (m : ℕ) → b.max_tokens ≡ some m → b.reserved_tokens + b.spent_tokens ≤ m
  pub cost : (m : ℕ) → b.max_cost_usd ≡ some m → b.reserved_cost_usd + b.spent_cost_usd ≤ m

module _ (i r j tokens cost_usd : ℕ) where
  add_reserved-IsWithin :
      (b : RepositoryBudget)
      → has_room i r tokens cost_usd b ≡ true
      → IsWithin (add_reserved tokens cost_usd b)
  add_reserved-IsWithin b h = record { tokens = λ m e. ground arith; cost = λ m e. ground arith }

  pub reserve-IsWithin :
      (l : Ledger) {l' : Ledger}
      → All IsWithin l.budgets
      → reserve_repository_budget i r j tokens cost_usd l ≡ done l'
      → All IsWithin l'.budgets
  unfolding reserve_repository_budget
  reserve-IsWithin l {l'} v e =
      let w =
        All-map_where (has_room i r tokens cost_usd) (add_reserved tokens cost_usd) l.budgets
          (λ b h _. add_reserved-IsWithin b h) v in
      elim (Bool-cases (count_where (is_held_by_job j) l.reservations == 0)) [
        | inr a ↦
            let q : l ≡ l' = ground arith in subst (λ (x : Ledger). All IsWithin x.budgets) q v
        | inl a ↦ elim (Bool-cases (count_where (has_room i r tokens cost_usd) l.budgets == 0)) [
          | inl b ↦ absurd (ground arith)
          | inr b ↦ elim (Bool-cases (count_where (has_job j) l.reservations == 0)) [
            | inl c ↦
                let q : with_hold i r j tokens cost_usd l ≡ l' = ground arith in
                subst (λ (x : Ledger). All IsWithin x.budgets) q w
            | inr c ↦ absurd (ground arith)
          ]
        ]
      ]

drop_reserved-IsWithin :
    (t c : ℕ) (b : RepositoryBudget) → IsWithin b → IsWithin (drop_reserved t c b)
drop_reserved-IsWithin t c b v = record {
  tokens = λ m e. ground (arith, v.tokens m);
  cost = λ m e. ground (arith, v.cost m);
}

pub release-IsWithin :
    (j : ℕ) (l : Ledger)
    → All IsWithin l.budgets
    → All IsWithin (release_repository_reservation j l).budgets
unfolding release_repository_reservation
release-IsWithin j l v = elim (Option-cases (find_where (is_held_by_job j) l.reservations)) [
  | inl e ↦ rw e v
  | inr (x, e) ↦ rw e (
      All-map_where (is_budget_of x.installation_id x.github_repository_id)
        (drop_reserved x.tokens x.cost_usd) l.budgets
        (λ b _ h. drop_reserved-IsWithin x.tokens x.cost_usd b h) v)
]

-- The calls of the ledger but the change of a limit.
pub data Call : Type 0 where
  reserve : (i r job_id tokens cost_usd : ℕ) → Call
  release : (job_id : ℕ) → Call

-- A call that raises is rolled back.
abbrev pub after : Reserved → Ledger → Ledger
after (done l') l = l'
after (denied _) l = l
after taken l = l

pub perform : Call → Ledger → Ledger
perform (reserve i r job_id tokens cost_usd) l =
    after (reserve_repository_budget i r job_id tokens cost_usd l) l
perform (release job_id) l = release_repository_reservation job_id l

unfoldable pub perform_all : List Call → Ledger → Ledger
unfolding perform
perform_all [] l = l
perform_all (c ∷ cs) l = perform_all cs (perform c l)

after-invariant :
    (P : Ledger → Type 0) (x : Reserved) (l : Ledger)
    → ((l' : Ledger) → x ≡ done l' → P l')
    → P l
    → P (after x l)
after-invariant P (done l') l f h = f l' refl
after-invariant P (denied _) l f h = h
after-invariant P taken l f h = h

-- However many jobs reserve and release, in whatever order, a ledger that balances and is within
-- its limits goes on doing so: for each repository the reserved totals are those of its held
-- reservations, and reserved plus spent stays within each limit that is there.
pub perform_all_keeps :
    (cs : List Call) (l : Ledger)
    → IsBalanced l
    → All IsWithin l.budgets
    → IsBalanced (perform_all cs l) × All IsWithin (perform_all cs l).budgets
unfolding perform_all
perform_all_keeps [] l b w = (b, w)
perform_all_keeps (reserve i r j t c ∷ cs) l b w =
    perform_all_keeps cs (after (reserve_repository_budget i r j t c l) l)
      (after-invariant IsBalanced (reserve_repository_budget i r j t c l) l
        (λ l' e. reserve-IsBalanced i r j t c l b e) b)
      (after-invariant (λ x. All IsWithin x.budgets) (reserve_repository_budget i r j t c l) l
        (λ l' e. reserve-IsWithin i r j t c l w e) w)
perform_all_keeps (release j ∷ cs) l b w =
    perform_all_keeps cs (release_repository_reservation j l) (release-IsBalanced j l b)
      (release-IsWithin j l w)

drop_reserved-add_reserved :
    (t c : ℕ) (b : RepositoryBudget) → drop_reserved t c (add_reserved t c b) ≡ b
drop_reserved-add_reserved t c b = ground arith

-- The budgets after a reservation, and after its release.
give_back :
    (i r t c : ℕ) (bs : List RepositoryBudget)
    → count_where (is_budget_of i r) bs ≤ 1
    → 1 ≤ count_where (has_room i r t c) bs
    → map_where
        (is_budget_of i r)
        (drop_reserved t c)
        (map_where (has_room i r t c) (add_reserved t c) bs)
      ≡ bs
give_back i r t c [] u h = absurd (omega arith)
give_back i r t c (b ∷ bs) u h =
    let sub = count_where-le_mono (has_room i r t c) (is_budget_of i r) bs (λ x q. ground arith) in
    elim (Bool-cases (has_room i r t c b)) [
      | inl e ↦ ground (
        arith,
        drop_reserved-add_reserved t c b,
        map_where-eq_of_zero (has_room i r t c) (add_reserved t c) bs,
        map_where-eq_of_zero (is_budget_of i r) (drop_reserved t c) bs,
      )
      | inr e ↦ ground (arith, give_back i r t c bs)
    ]

-- In a ledger that balances, a reservation of a job that held none, made and at once released, leaves every repository's budget as it was.
release-reserve :
    (i r j t c : ℕ) (l : Ledger) {l' : Ledger}
    → IsBalanced l
    → count_where (is_held_by_job j) l.reservations ≡ 0
    → reserve_repository_budget i r j t c l ≡ done l'
    → (release_repository_reservation j l').budgets ≡ l.budgets
unfolding reserve_repository_budget release_repository_reservation
release-reserve i r j t c l {l'} v new e =
    elim (Bool-cases (count_where (has_room i r t c) l.budgets == 0)) [
      | inl b ↦ absurd (ground arith)
      | inr b ↦ elim (Bool-cases (count_where (has_job j) l.reservations == 0)) [
        | inl d ↦ ground (arith, give_back i r t c l.budgets (v.keys i r))
        | inr d ↦ absurd (ground arith)
      ]
    ]

-- In a ledger that balances, once a job's held reservation was released the job cannot reserve again in that ledger: it is
-- denied for lack of room, or it runs into its own row under the primary key.
pub reserve_after_release :
    (i r j t c : ℕ) (l : Ledger)
    → IsBalanced l
    → 1 ≤ count_where (is_held_by_job j) l.reservations
    → (l' : Ledger)
    → reserve_repository_budget i r j t c (release_repository_reservation j l) ≢ done l'
unfolding reserve_repository_budget release_repository_reservation
reserve_after_release i r j t c l v h l' e =
    elim (Option-cases (find_where (is_held_by_job j) l.reservations)) [
      | inl n ↦ ground (arith, find_where-none (is_held_by_job j) l.reservations n)
      | inr (x, n) ↦ ground (
        arith,
        count_where-map_where_zero (is_held_by_job j) (is_held_by_job j) set_released l.reservations
            (λ y q. ground arith) (λ y q. q),
        count_where-map_where (has_job j) (is_held_by_job j) set_released l.reservations
            (λ y. refl),
        count_where-le_mono (is_held_by_job j) (has_job j) l.reservations (λ y q. ground arith),
      )
    ]
