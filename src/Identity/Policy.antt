-- ===== src/Identity/Policy.antt =====
-- control_plane/repository_policy.py: the writers of installations, repositories, runners and
-- assignments, and the decision whether a runner may work on a repository.
use pr_reviewer.Base.{
  [], ◌∷◌, ℕ, Option, String, find_where, map_where, if◌then◌else◌, List, ◌==◌, count_where, some,
  none, ◌++◌, ◌&&◌, not, ◌||◌, delete_where, Bool,
}
use pr_reviewer.Jobs.{ℤ}
use pr_reviewer.Identity.{
  Registry, RunnerCapabilities, Assignment, Repository, Installation, PairedRunner, is_repository,
  is_null, is_runner, is_of_repository, is_installation, is_of_runner,
}

abbrev pub reactivate : String → Installation → Installation
reactivate account_login x = record x { account_login = account_login; revoked_at = none }

unfoldable pub register_installation : ℤ → (account_login : String) → Registry → Registry
register_installation i account_login db =
    if count_where (is_installation i) db.installations == 0
    then record db {
      installations =
          db.installations
          ++ record { id = i; account_login = account_login; revoked_at = none } ∷ [];
    }
    else record db {
      installations = map_where (is_installation i) (reactivate account_login) db.installations;
    }

unfoldable pub revoke_installation : (now : ℕ) → ℤ → Registry → Registry
revoke_installation now i db = record db {
  installations =
      map_where (λ x. is_installation i x && is_null x.revoked_at)
        (λ x. record x { revoked_at = some now }) db.installations;
}

abbrev pub rename : (now : ℕ) → String → Repository → Repository
rename now name x = record x { name = name; updated_at = now }

abbrev pub new_repository : (id now : ℕ) → ℤ → ℤ → String → Repository
new_repository id now i r name = record {
  id = id;
  installation_id = i;
  github_repository_id = r;
  name = name;
  updated_at = now;
}

-- the id that `returning id` gives, and the table; `id` is drawn for a new row
abbrev upsert_found :
    Option Repository → (id now : ℕ) → ℤ → ℤ → String → List Repository → ℕ × List Repository
upsert_found none id now i r name rows = (id, rows ++ new_repository id now i r name ∷ [])
upsert_found (some x) id now i r name rows =
    (x.id, map_where (is_repository i r) (rename now name) rows)

unfoldable pub upsert_repository :
    (id now : ℕ) → ℤ → ℤ → String → List Repository → ℕ × List Repository
upsert_repository id now i r name rows =
    upsert_found (find_where (is_repository i r) rows) id now i r name rows

unfoldable pub register_repository : (id now : ℕ) → ℤ → ℤ → String → Registry → ℕ × Registry
register_repository id now i r name db =
    let (x, rows) = upsert_repository id now i r name db.repositories in
    (x, record db { repositories = rows })

unfoldable pub rename_repository : (now : ℕ) → ℕ → String → Registry → Registry
rename_repository now i name db = record db {
  repositories = map_where (λ x. x.id == i) (rename now name) db.repositories;
}

abbrev pub new_runner :
    (hash : String → String) (id : ℕ)
    → String
    → String
    → RunnerCapabilities
    → Option ℤ
    → Option ℤ
    → PairedRunner
new_runner hash id device_name credential capabilities user installation = record {
  id = id;
  device_name = device_name;
  credential_hash = hash credential;
  capabilities = capabilities;
  github_user_id = user;
  installation_id = installation;
  revoked_at = none;
}

-- `none` is the ValueError for one of the two identities without the other; `id` is drawn by the
-- database
unfoldable pub register_runner :
    (hash : String → String) (id : ℕ)
    → String
    → String
    → RunnerCapabilities
    → Option ℤ
    → Option ℤ
    → Registry
    → Option Registry
register_runner hash id device_name credential capabilities user installation db =
    if (is_null user && not (is_null installation)) || (not (is_null user) && is_null installation)
    then none
    else some (record db {
      runners =
          db.runners
          ++ new_runner hash id device_name credential capabilities user installation ∷ [];
    })

unfoldable pub revoke_runner : (now : ℕ) → ℕ → Registry → Registry
revoke_runner now w db = record db {
  runners =
      map_where (λ x. is_runner w x && is_null x.revoked_at)
        (λ x. record x { revoked_at = some now }) db.runners;
  assignments = delete_where (is_of_runner w) db.assignments;
}

pub record RunnerRef : Type 0 where
  pub runner_id : ℕ
  pub device_name : String

-- `orphaned` is the assertion that the holder of an assignment is there; `unknown_reference` is the
-- ForeignKeyViolation of an insert for a runner or a repository that has no row.
pub data Assigned : Type 0 where
  granted : Registry → Assigned
  refused : (repository_id : ℕ) → RunnerRef → Assigned
  orphaned unknown_reference : Assigned

abbrev refused_by : ℕ → Option PairedRunner → Assigned
refused_by r none = orphaned
refused_by r (some x) = refused r (record { runner_id = x.id; device_name = x.device_name })

-- the foreign keys of repository_assignments
abbrev pub has_rows : ℕ → (runner_id : ℕ) → Registry → Bool
has_rows r w db =
    not (count_where (is_runner w) db.runners == 0)
    && not (count_where (λ x. x.id == r) db.repositories == 0)

abbrev assigned_by : ℕ → (runner_id : ℕ) → Option Assignment → Registry → Assigned
assigned_by r w none db =
    if has_rows r w db
    then granted (record db {
      assignments = db.assignments ++ record { repository_id = r; runner_id = w } ∷ [];
    })
    else unknown_reference
assigned_by r w (some a) db = refused_by r (find_where (is_runner a.runner_id) db.runners)

-- the insert, under the unique repository_id, or the holder of the assignment that is there
unfoldable pub assign_repository_to_runner : ℕ → (runner_id : ℕ) → Registry → Assigned
assign_repository_to_runner r w db =
    assigned_by r w (find_where (is_of_repository r) db.assignments) db

pub data Authorization : Type 0 where
  authorized : (repository_id : ℕ) → Authorization
  unknown_installation revoked_installation unknown_repository unknown_runner revoked_runner
        runner_not_assigned_to_repository :
      Authorization

abbrev check_assignment : ℕ → (runner_id : ℕ) → Registry → Authorization
check_assignment r w db =
    if count_where (λ a. is_of_repository r a && is_of_runner w a) db.assignments == 0
    then runner_not_assigned_to_repository
    else authorized r

abbrev check_runner : ℕ → (runner_id : ℕ) → Option PairedRunner → Registry → Authorization
check_runner r w none db = unknown_runner
check_runner r w (some x) db =
    if is_null x.revoked_at then check_assignment r w db else revoked_runner

abbrev check_repository : Option Repository → (runner_id : ℕ) → Registry → Authorization
check_repository none w db = unknown_repository
check_repository (some r) w db = check_runner r.id w (find_where (is_runner w) db.runners) db

abbrev check_installation : Option Installation → ℤ → ℤ → (runner_id : ℕ) → Registry → Authorization
check_installation none i r w db = unknown_installation
check_installation (some x) i r w db =
    if is_null x.revoked_at
    then check_repository (find_where (is_repository i r) db.repositories) w db
    else revoked_installation

unfoldable pub authorize_repository : ℤ → ℤ → (runner_id : ℕ) → Registry → Authorization
authorize_repository i r w db =
    check_installation (find_where (is_installation i) db.installations) i r w db
