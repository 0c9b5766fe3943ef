-- ===== src/Budget/Balance.antt =====
-- The ledger balances: what a repository's row says is reserved is what its jobs hold.
use pr_reviewer.Base.{
  refl, [], ◌∷◌, ℕ, Option, List, sum_where, ◌≡◌, Bool, Bool-cases, count_where, ◌≤◌, ◌+◌, ◌&&◌,
  ◌==◌, inl, arith, map_where, if◌then◌else◌, inr, sum_where-same, sum_where-add, sum_where-apart,
  ◌∙◌, count_where-map_where, subst, ◌-◌, find_where, some, true, sum_where-drop, sum_where-sub,
  Option-cases, le_trans, count_where-le_mono,
}
use pr_reviewer.Budget.{
  Ledger, reserve_repository_budget, upsert_repository_budget, Reservation, done, is_budget_of,
  RepositoryBudget, add_reserved, is_held, has_room, has_job, drop_reserved, is_held_by_job, hold,
  set_released, release_repository_reservation,
}

-- A held reservation of the repository.
abbrev pub is_held_of : (i r : ℕ) → Reservation → Bool
is_held_of i r v = is_held v.status && (v.installation_id == i && v.github_repository_id == r)

pub record IsBalanced (l : Ledger) : Type 0 where
  pub tokens :
      (i r : ℕ)
      → sum_where (is_budget_of i r) (λ b. b.reserved_tokens) l.budgets
        ≡ sum_where (is_held_of i r) (λ v. v.tokens) l.reservations
  pub costs :
      (i r : ℕ)
      → sum_where (is_budget_of i r) (λ b. b.reserved_cost_usd) l.budgets
        ≡ sum_where (is_held_of i r) (λ v. v.cost_usd) l.reservations
  -- the primary keys of the two tables
  pub keys : (i r : ℕ) → count_where (is_budget_of i r) l.budgets ≤ 1
  pub job_ids : (j : ℕ) → count_where (has_job j) l.reservations ≤ 1

pub upsert-IsBalanced :
    (i r : ℕ) (t c : Option ℕ) (l : Ledger)
    → IsBalanced l
    → IsBalanced (upsert_repository_budget i r t c l)
unfolding upsert_repository_budget
upsert-IsBalanced i r t c l v = elim (Bool-cases (count_where (is_budget_of i r) l.budgets == 0)) [
  | inl e ↦ rw e (record {
    tokens = λ a b. ground (arith, v.tokens a b);
    costs = λ a b. ground (arith, v.costs a b);
    keys = λ a b. ground (arith, v.keys a b);
    job_ids = v.job_ids;
  })
  | inr e ↦ rw e (record {
    tokens = λ a b.
        sum_where-same (is_budget_of a b) (is_budget_of i r) set (λ b. b.reserved_tokens) l.budgets
          (λ _. refl) (λ _. refl)
        ∙ v.tokens a b;
    costs = λ a b.
        sum_where-same (is_budget_of a b) (is_budget_of i r) set (λ b. b.reserved_cost_usd)
          l.budgets (λ _. refl) (λ _. refl)
        ∙ v.costs a b;
    keys = λ a b.
        rw (count_where-map_where (is_budget_of a b) (is_budget_of i r) set l.budgets (λ _. refl))
          (v.keys a b);
    job_ids = v.job_ids;
  })
]
  where
    set : RepositoryBudget → RepositoryBudget
    set b = record b { max_tokens = t; max_cost_usd = c }

module _ (i r tokens cost_usd : ℕ) (bs : List RepositoryBudget) where
  -- what a successful reservation adds to the totals of one repository, and of no other
  reserved_total :
      (amount : RepositoryBudget → ℕ) (n a b : ℕ)
      → ((x : RepositoryBudget) → amount (add_reserved tokens cost_usd x) ≡ amount x + n)
      → count_where (is_budget_of i r) bs ≤ 1
      → 1 ≤ count_where (has_room i r tokens cost_usd) bs
      → sum_where
          (is_budget_of a b)
          amount
          (map_where (has_room i r tokens cost_usd) (add_reserved tokens cost_usd) bs)
        ≡ sum_where (is_budget_of a b) amount bs + (if i == a && r == b then n else 0)
  reserved_total amount n a b plus u h = elim (Bool-cases (i == a && r == b)) [
    | inl e ↦
        let ia : i ≡ a = ground arith in
        let rb : r ≡ b = ground arith in
        rw (e, ← ia, ← rb)
          (sum_where-add (is_budget_of i r) (has_room i r tokens cost_usd)
            (add_reserved tokens cost_usd) amount n bs (λ _. refl) plus (λ x q. ground arith) u h)
    | inr e ↦ rw e (
        sum_where-apart (is_budget_of a b) (has_room i r tokens cost_usd)
          (add_reserved tokens cost_usd) amount bs (λ _. refl) (λ x q. ground arith)
        ∙ omega arith)
  ]

abbrev pub with_hold : (i r j tokens cost_usd : ℕ) → Ledger → Ledger
with_hold i r j tokens cost_usd l = record {
  budgets = map_where (has_room i r tokens cost_usd) (add_reserved tokens cost_usd) l.budgets;
  reservations = hold i r j tokens cost_usd ∷ l.reservations;
}

with_hold-IsBalanced :
    (i r j tokens cost_usd : ℕ) (l : Ledger)
    → IsBalanced l
    → 1 ≤ count_where (has_room i r tokens cost_usd) l.budgets
    → count_where (has_job j) l.reservations ≡ 0
    → IsBalanced (with_hold i r j tokens cost_usd l)
with_hold-IsBalanced i r j tokens cost_usd l v room free = record {
  tokens = λ a b. ground (
    arith,
    v.tokens a b,
    reserved_total i r tokens cost_usd l.budgets (λ x. x.reserved_tokens) tokens a b (λ _. refl)
        (v.keys i r) room,
  );
  costs = λ a b. ground (
    arith,
    v.costs a b,
    reserved_total i r tokens cost_usd l.budgets (λ x. x.reserved_cost_usd) cost_usd a b (λ _. refl)
        (v.keys i r) room,
  );
  keys = λ a b.
      rw
        (count_where-map_where (is_budget_of a b) (has_room i r tokens cost_usd)
          (add_reserved tokens cost_usd) l.budgets (λ _. refl))
        (v.keys a b);
  job_ids = λ k. ground (arith, v.job_ids k);
}

pub reserve-IsBalanced :
    (i r j tokens cost_usd : ℕ) (l : Ledger) {l' : Ledger}
    → IsBalanced l
    → reserve_repository_budget i r j tokens cost_usd l ≡ done l'
    → IsBalanced l'
unfolding reserve_repository_budget
reserve-IsBalanced i r j tokens cost_usd l {l'} v e =
    elim (Bool-cases (count_where (is_held_by_job j) l.reservations == 0)) [
      | inr a ↦ subst IsBalanced (ground arith) v
      | inl a ↦ elim (Bool-cases (count_where (has_room i r tokens cost_usd) l.budgets == 0)) [
        | inl b ↦ ground arith
        | inr b ↦ elim (Bool-cases (count_where (has_job j) l.reservations == 0)) [
          | inl c ↦
              subst IsBalanced (ground arith)
                (with_hold-IsBalanced i r j tokens cost_usd l v (ground arith) (ground arith))
          | inr c ↦ ground arith
        ]
      ]
    ]

held_row :
    (j : ℕ) (vs : List Reservation) {v : Reservation}
    → find_where (is_held_by_job j) vs ≡ some v
    → (is_held v.status ≡ true) × (v.job_id ≡ j)
held_row j [] h = cc
held_row j (x ∷ vs) {v} h = ground (arith, held_row j vs {v = v})

dropped_total :
    (a b x y n : ℕ) (f : RepositoryBudget → RepositoryBudget) (amount : RepositoryBudget → ℕ)
    (bs : List RepositoryBudget)
    → x ≡ a
    → y ≡ b
    → ((z : RepositoryBudget) → is_budget_of a b (f z) ≡ is_budget_of a b z)
    → ((z : RepositoryBudget) → amount (f z) ≡ amount z - n)
    → count_where (is_budget_of a b) bs ≤ 1
    → sum_where (is_budget_of a b) amount (map_where (is_budget_of x y) f bs)
      ≡ sum_where (is_budget_of a b) amount bs - n
dropped_total a b x y n f amount bs p q same less u =
    rw (p, q) (sum_where-sub (is_budget_of a b) f amount n bs same less u)

-- What a release takes off the total of one repository, on both sides.
released_total :
    (amount : RepositoryBudget → ℕ) (part : Reservation → ℕ) (v : Reservation) (a b j : ℕ)
    (bs : List RepositoryBudget) (vs : List Reservation)
    → ((x : RepositoryBudget) → amount (drop_reserved v.tokens v.cost_usd x) ≡ amount x - part v)
    → sum_where (is_budget_of a b) amount bs ≡ sum_where (is_held_of a b) part vs
    → count_where (is_budget_of a b) bs ≤ 1
    → find_where (is_held_by_job j) vs ≡ some v
    → count_where (is_held_by_job j) vs ≤ 1
    → sum_where (is_budget_of a b) amount (
        map_where
          (is_budget_of v.installation_id v.github_repository_id)
          (drop_reserved v.tokens v.cost_usd)
          bs)
      ≡ sum_where (is_held_of a b) part (map_where (is_held_by_job j) set_released vs)
released_total amount part v a b j bs vs less bal u found w =
    let d =
      sum_where-drop (is_held_of a b) (is_held_by_job j) set_released part vs (λ _. refl) {v = v}
        found w in
    elim (Bool-cases (v.installation_id == a && v.github_repository_id == b)) [
      | inl e ↦
          let ia : v.installation_id ≡ a = ground arith in
          let rb : v.github_repository_id ≡ b = ground arith in
          let s : sum_where (is_budget_of a b) amount (
                map_where (is_budget_of v.installation_id v.github_repository_id)
                  (drop_reserved v.tokens v.cost_usd) bs)
              ≡ sum_where (is_budget_of a b) amount bs - part v =
            dropped_total a b v.installation_id v.github_repository_id (part v)
              (drop_reserved v.tokens v.cost_usd) amount bs ia rb (λ _. refl) less u in
          ground (arith, held_row j vs {v = v} found)
      | inr e ↦
          let s =
            sum_where-apart (is_budget_of a b)
              (is_budget_of v.installation_id v.github_repository_id)
              (drop_reserved v.tokens v.cost_usd) amount bs (λ _. refl) (λ x q. ground arith) in
          ground arith
    ]

pub release-IsBalanced :
    (j : ℕ) (l : Ledger) → IsBalanced l → IsBalanced (release_repository_reservation j l)
unfolding release_repository_reservation
release-IsBalanced j l v = elim (Option-cases (find_where (is_held_by_job j) l.reservations)) [
  | inl e ↦ rw e v
  | inr (x, e) ↦
      let w =
        le_trans
          (count_where-le_mono (is_held_by_job j) (has_job j) l.reservations (λ y h. ground arith))
          (v.job_ids j) in
      rw e (record {
        tokens = λ a b.
            released_total (λ y. y.reserved_tokens) (λ y. y.tokens) x a b j l.budgets l.reservations
              (λ _. refl) (v.tokens a b) (v.keys a b) e w;
        costs = λ a b.
            released_total (λ y. y.reserved_cost_usd) (λ y. y.cost_usd) x a b j l.budgets
              l.reservations (λ _. refl) (v.costs a b) (v.keys a b) e w;
        keys = λ a b.
            rw
              (count_where-map_where (is_budget_of a b)
                (is_budget_of x.installation_id x.github_repository_id)
                (drop_reserved x.tokens x.cost_usd) l.budgets (λ _. refl))
              (v.keys a b);
        job_ids = λ k.
            rw
              (count_where-map_where (has_job k) (is_held_by_job j) set_released l.reservations
                (λ _. refl))
              (v.job_ids k);
      })
]
