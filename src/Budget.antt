-- ===== src/Budget.antt =====
-- Spend limits: src/pr_reviewer/reliability/budget.py (the policy that an unset limit denies) and
-- src/pr_reviewer/control_plane/budget.py (the hosted ledger: a repository's limits and what its
-- jobs hold of them). Costs are micro-dollars, the scale of the numeric(18, 6) columns. Limits,
-- tokens and costs are natural numbers: a limit below zero is read as zero, which is unset too.
pub mod Balance
pub mod Limits
use pr_reviewer.Base.{
  List, Bool, Option, ℕ, ◌&&◌, if◌then◌else◌, true, some, ◌-◌, find_where, false, ◌⊎◌, holds, ◌==◌,
  ◌+◌, ltb, inl, none, map_where, count_where, leb, not, ◌∷◌, inr,
}

pub data BudgetDeniedReason : Type 0 where
  unset insufficient : BudgetDeniedReason

pub record BudgetLimit : Type 0 where
  pub max_tokens : Option ℕ
  pub max_cost_usd : Option ℕ

-- both limits are there and positive
abbrev pub limits_set : Option ℕ → Option ℕ → Bool
limits_set (some t) (some c) = ltb 0 t && ltb 0 c
limits_set _ _ = false

unfoldable pub is_configured : Option BudgetLimit → Bool
is_configured none = false
is_configured (some limit) = limits_set limit.max_tokens limit.max_cost_usd

-- `inl` is the BudgetDenied that it raises
unfoldable pub require_configured : Option BudgetLimit → BudgetDeniedReason ⊎ BudgetLimit
unfolding is_configured
require_configured none = inl unset
require_configured (some limit) = if is_configured (some limit) then inr limit else inl unset

-- A row of repository_budgets.
pub record RepositoryBudget : Type 0 where
  pub installation_id : ℕ
  pub github_repository_id : ℕ
  pub max_tokens : Option ℕ
  pub max_cost_usd : Option ℕ
  pub reserved_tokens : ℕ
  pub reserved_cost_usd : ℕ
  pub spent_tokens : ℕ
  pub spent_cost_usd : ℕ

pub data ReservationStatus : Type 0 where
  held released committed : ReservationStatus

-- A row of repository_budget_reservations; job_id is its primary key.
pub record Reservation : Type 0 where
  pub job_id : ℕ
  pub installation_id : ℕ
  pub github_repository_id : ℕ
  pub tokens : ℕ
  pub cost_usd : ℕ
  pub status : ReservationStatus

pub record Ledger : Type 0 where
  pub budgets : List RepositoryBudget
  pub reservations : List Reservation

abbrev pub is_held : ReservationStatus → Bool
is_held held = true
is_held _ = false

abbrev pub is_budget_of : (i r : ℕ) → RepositoryBudget → Bool
is_budget_of i r b = b.installation_id == i && b.github_repository_id == r

abbrev pub is_held_by_job : (job_id : ℕ) → Reservation → Bool
is_held_by_job job_id v = v.job_id == job_id && is_held v.status

unfoldable pub upsert_repository_budget :
    (i r : ℕ) (max_tokens max_cost_usd : Option ℕ) → Ledger → Ledger
upsert_repository_budget i r max_tokens max_cost_usd l =
    if count_where (is_budget_of i r) l.budgets == 0
    then record l {
      budgets =
          record {
            installation_id = i;
            github_repository_id = r;
            max_tokens = max_tokens;
            max_cost_usd = max_cost_usd;
            reserved_tokens = 0;
            reserved_cost_usd = 0;
            spent_tokens = 0;
            spent_cost_usd = 0;
          }
          ∷ l.budgets;
    }
    else record l {
      budgets =
          map_where (is_budget_of i r)
            (λ b. record b { max_tokens = max_tokens; max_cost_usd = max_cost_usd }) l.budgets;
    }

-- reserved + spent + amount <= max, of a limit that is there
abbrev pub fits : (reserved spent amount : ℕ) → Option ℕ → Bool
fits reserved spent amount = holds (λ limit. leb (reserved + spent + amount) limit)

-- The where clause of the reserving update.
abbrev pub has_room : (i r tokens cost_usd : ℕ) → RepositoryBudget → Bool
has_room i r tokens cost_usd b =
    is_budget_of i r b
    && (limits_set b.max_tokens b.max_cost_usd
        && (fits b.reserved_tokens b.spent_tokens tokens b.max_tokens
            && fits b.reserved_cost_usd b.spent_cost_usd cost_usd b.max_cost_usd))

abbrev pub is_set_budget : (i r : ℕ) → RepositoryBudget → Bool
is_set_budget i r b = is_budget_of i r b && limits_set b.max_tokens b.max_cost_usd

abbrev pub add_reserved : (tokens cost_usd : ℕ) → RepositoryBudget → RepositoryBudget
add_reserved tokens cost_usd b = record b {
  reserved_tokens = b.reserved_tokens + tokens;
  reserved_cost_usd = b.reserved_cost_usd + cost_usd;
}

abbrev pub hold : (i r job_id tokens cost_usd : ℕ) → Reservation
hold i r job_id tokens cost_usd = record {
  job_id = job_id;
  installation_id = i;
  github_repository_id = r;
  tokens = tokens;
  cost_usd = cost_usd;
  status = held;
}

-- `taken` is the database's refusal of a second row under one primary key; whatever is raised rolls
-- the caller's transaction back.
pub data Reserved : Type 0 where
  done : Ledger → Reserved
  denied : BudgetDeniedReason → Reserved
  taken : Reserved

abbrev pub has_job : (job_id : ℕ) → Reservation → Bool
has_job job_id v = v.job_id == job_id

unfoldable pub reserve_repository_budget : (i r job_id tokens cost_usd : ℕ) → Ledger → Reserved
reserve_repository_budget i r job_id tokens cost_usd l =
    if not (count_where (is_held_by_job job_id) l.reservations == 0)
    then done l
    else if count_where (has_room i r tokens cost_usd) l.budgets == 0
    then denied (if count_where (is_set_budget i r) l.budgets == 0 then unset else insufficient)
    else if not (count_where (has_job job_id) l.reservations == 0)
    then taken
    else done (record {
      budgets = map_where (has_room i r tokens cost_usd) (add_reserved tokens cost_usd) l.budgets;
      reservations = hold i r job_id tokens cost_usd ∷ l.reservations;
    })

abbrev pub drop_reserved : (tokens cost_usd : ℕ) → RepositoryBudget → RepositoryBudget
drop_reserved tokens cost_usd b = record b {
  reserved_tokens = b.reserved_tokens - tokens;
  reserved_cost_usd = b.reserved_cost_usd - cost_usd;
}

abbrev pub set_released : Reservation → Reservation
set_released v = record v { status = released }

abbrev release_found : Option Reservation → (job_id : ℕ) → Ledger → Ledger
release_found none job_id l = l
release_found (some v) job_id l = record {
  budgets =
      map_where (is_budget_of v.installation_id v.github_repository_id)
        (drop_reserved v.tokens v.cost_usd) l.budgets;
  reservations = map_where (is_held_by_job job_id) set_released l.reservations;
}

-- The subtraction is that of natural numbers: the balance of the ledger keeps it from stopping at 0.
unfoldable pub release_repository_reservation : (job_id : ℕ) → Ledger → Ledger
release_repository_reservation job_id l =
    release_found (find_where (is_held_by_job job_id) l.reservations) job_id l
