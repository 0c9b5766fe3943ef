-- ===== src/Tests/Identity.antt =====
-- A registry with one installation, one repository and one approved code.
use pr_reviewer.Base.{refl, [], ◌∷◌, List, ℕ, ◌≡◌, ◌≢◌, none, arith, some, count_where, ◌≤◌}
use pr_reviewer.Jobs.{pos}
use pr_reviewer.Tests.Queue.{keep}
use pr_reviewer.Identity.Pairing.{
  credential, denied, exchange_pairing_code, invalid_or_expired, invalid_or_expired_code,
  assign_all, initial_runner_capabilities, pairing_status,
}
use pr_reviewer.Identity.History.{Op, run, revoke, exchange, create}
use pr_reviewer.Identity.Auth.{authenticate_runner, authenticated, revoked_runner}
use pr_reviewer.Identity.Assigned.{run-IsAssigned}
use pr_reviewer.Identity.{
  Repository, PairedRunner, Registry, Installation, analysis_only, PairingCode, Approval,
  is_of_repository,
}
use pr_reviewer.Identity.Policy.{
  revoke_runner, register_runner, authorize_repository, new_runner, authorized,
  assign_repository_to_runner, granted,
}
use pr_reviewer.Identity.Access.{exchange_repeated, exchange_grants}
use pr_reviewer.Identity.Codes.{exchange_once}
use pr_reviewer.Identity.Revoked.{revoke_runner_lem}
use pr_reviewer.Identity.Held.{IsAssigned}

abbrev installation : Installation
installation = record { id = pos 1; account_login = "octo"; revoked_at = none }

abbrev repository : Repository
repository = record {
  id = 20;
  installation_id = pos 1;
  github_repository_id = pos 2;
  name = "octo/repo";
  updated_at = 0;
}

abbrev approval_for : List ℕ → Approval
approval_for ids = record {
  github_user_id = pos 9;
  installation_id = pos 1;
  repository_ids = ids;
  approved_at = 5;
}

abbrev code_for : List ℕ → PairingCode
code_for ids = record {
  id = 30;
  device_name = "laptop";
  code_hash = "code";
  challenge = "proof";
  approval = some (approval_for ids);
  exchanged_at = none;
  created_at = 3;
}

abbrev registry_for : List ℕ → Registry
registry_for ids = record {
  installations = installation ∷ [];
  repositories = repository ∷ [];
  runners = [];
  assignments = [];
  pairing_codes = code_for ids ∷ [];
}

abbrev start : Registry
start = registry_for (20 ∷ [])

abbrev laptop : PairedRunner
laptop =
    new_runner keep 40 "laptop" "secret" initial_runner_capabilities (some (pos 9)) (some (pos 1))

abbrev paired : Registry
paired = record start {
  runners = laptop ∷ [];
  assignments = record { repository_id = 20; runner_id = 40 } ∷ [];
  pairing_codes = record (code_for (20 ∷ [])) { exchanged_at = some 10 } ∷ [];
}

exchanged :
    exchange_pairing_code keep 10 40 "secret" "code" "proof" start
    ≡ (credential 40 "secret", paired)
unfolding exchange_pairing_code register_runner assign_all assign_repository_to_runner
exchanged = refl

start-IsAssigned : IsAssigned start.runners start.assignments
start-IsAssigned = record { one = λ r. omega arith; ids = λ w. omega arith; held = tt }

abbrev later_ops : List (ℕ × Op)
later_ops =
    (10, exchange 40 "secret" "code" "proof")
    ∷ (11, create 31 "code2" "desk" "proof2")
    ∷ (12, revoke 40)
    ∷ []

run-IsAssigned_example :
    IsAssigned (run keep later_ops start).runners (run keep later_ops start).assignments
run-IsAssigned_example = run-IsAssigned keep later_ops start start-IsAssigned

exchange_once_example :
    (exchange_pairing_code keep 20 41 "other" "code" "proof" (run keep later_ops paired)
      ≡ (denied invalid_or_expired_code, run keep later_ops paired))
    × (pairing_status keep 20 "code" "proof" (run keep later_ops paired) ≡ invalid_or_expired)
exchange_once_example =
    exchange_once keep 10 40 "secret" "code" "proof" start paired later_ops 20 41 "other" "proof"
      "proof" (omega arith) exchanged

exchange_grants_example :
    (authenticate_runner keep "secret" paired ≡ authenticated 40 "laptop" analysis_only)
    × (authorize_repository (pos 1) (pos 2) 40 paired ≡ authorized 20)
exchange_grants_example =
    exchange_grants keep 10 40 "secret" "code" "proof" start (pos 1) (pos 2) exchanged refl refl
      refl refl refl refl refl (omega arith)

exchange_repeated_example :
    ((exchange_pairing_code keep 10 40 "secret" "code" "proof" (registry_for (20 ∷ 20 ∷ []))).1
      ≡ registry_for (20 ∷ 20 ∷ []))
    × ((exchange_pairing_code keep 10 40 "secret" "code" "proof" (registry_for (20 ∷ 20 ∷ []))).0
        ≢ credential 40 "secret")
exchange_repeated_example =
    exchange_repeated keep 10 40 "secret" "code" "proof" (registry_for (20 ∷ 20 ∷ [])) 20 refl refl
      (omega arith)

-- the laptop, and a desktop without a repository
abbrev two_runners : Registry
two_runners = record paired {
  runners =
      laptop
      ∷ new_runner keep 60 "desktop" "secret2" initial_runner_capabilities (some (pos 9))
          (some (pos 1))
      ∷ [];
}

two_runners_one : (r : ℕ) → count_where (is_of_repository r) two_runners.assignments ≤ 1
two_runners_one r = ground arith

revoke_runner_lem_example :
    (authenticate_runner keep "secret" (revoke_runner 50 40 two_runners) ≡ revoked_runner)
    × ((n : ℕ)
        → authorize_repository (pos 1) (pos 2) 40 (revoke_runner 50 40 two_runners) ≢ authorized n)
    × ((d : Registry) × (assign_repository_to_runner 20 60 (revoke_runner 50 40 two_runners)
          ≡ granted d))
revoke_runner_lem_example =
    revoke_runner_lem keep 50 40 60 "secret" two_runners {x = laptop} refl refl two_runners_one
      (pos 1) (pos 2) 20 (omega arith) refl
