-- ===== src/Tests/Ledger.antt =====
-- A ledger with one repository, of which job 7 holds a part.
use pr_reviewer.Base.{refl, [], ◌∷◌, All, some, List, ◌≢◌, ◌≡◌, arith}
use pr_reviewer.Budget.{
  RepositoryBudget, Ledger, hold, reserve_repository_budget, add_reserved,
  release_repository_reservation, done,
}
use pr_reviewer.Budget.Limits.{
  reserve, release, Call, perform_all, IsWithin, perform_all_keeps, reserve_after_release,
}
use pr_reviewer.Budget.Balance.{IsBalanced}

abbrev budget : RepositoryBudget
budget = record {
  installation_id = 1;
  github_repository_id = 2;
  max_tokens = some 1_000;
  max_cost_usd = some 500;
  reserved_tokens = 300;
  reserved_cost_usd = 40;
  spent_tokens = 100;
  spent_cost_usd = 10;
}

abbrev ledger : Ledger
ledger = record { budgets = budget ∷ []; reservations = hold 1 2 7 300 40 ∷ [] }

ledger-IsBalanced : IsBalanced ledger
ledger-IsBalanced = record {
  tokens = λ i r. ground arith;
  costs = λ i r. ground arith;
  keys = λ i r. ground arith;
  job_ids = λ j. ground arith;
}

ledger-IsWithin : All IsWithin ledger.budgets
ledger-IsWithin = (record { tokens = λ m e. ground arith; cost = λ m e. ground arith }, tt)

abbrev calls : List Call
calls = reserve 1 2 8 500 20 ∷ reserve 1 2 9 500 20 ∷ release 7 ∷ reserve 1 2 9 300 20 ∷ []

perform_all_keeps_example :
    IsBalanced (perform_all calls ledger) × All IsWithin (perform_all calls ledger).budgets
perform_all_keeps_example = perform_all_keeps calls ledger ledger-IsBalanced ledger-IsWithin

abbrev reserved : Ledger
reserved = record {
  budgets = add_reserved 500 20 budget ∷ [];
  reservations = hold 1 2 8 500 20 ∷ hold 1 2 7 300 40 ∷ [];
}

reserved_8 : reserve_repository_budget 1 2 8 500 20 ledger ≡ done reserved
unfolding reserve_repository_budget
reserved_8 = refl

reserve_after_release_example :
    reserve_repository_budget 1 2 7 300 40 (release_repository_reservation 7 ledger) ≢ done ledger
reserve_after_release_example =
    reserve_after_release 1 2 7 300 40 ledger ledger-IsBalanced (omega arith) ledger
