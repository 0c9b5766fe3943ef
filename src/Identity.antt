-- ===== src/Identity.antt =====
-- Who may do what for whom: installations, repositories, runners, and the pairing codes by which a
-- runner comes to be. src/pr_reviewer/control_plane/repository_policy.py, pairing.py,
-- runner_auth.py and installation_lifecycle.py over their Postgres tables. `hash` is
-- hash_runner_credential; codes, credentials and ids are drawn by secrets and by the database.
pub mod Policy
pub mod Auth
pub mod Pairing
pub mod Sync
pub mod History
pub mod Exchange
pub mod Apart
pub mod Held
pub mod Assigned
pub mod Spent
pub mod Codes
pub mod Access
pub mod Revoked
use pr_reviewer.Base.{
  refl, [], ◌∷◌, String, Bool, ℕ, List, Option, ◌==◌, ◌&&◌, true, if◌then◌else◌, some, false, none,
}
use pr_reviewer.Jobs.{ℤ, int_eq}

pub record Installation : Type 0 where
  pub id : ℤ
  pub account_login : String
  pub revoked_at : Option ℕ

pub record Repository : Type 0 where
  pub id : ℕ
  pub installation_id : ℤ
  pub github_repository_id : ℤ
  pub name : String
  pub updated_at : ℕ

pub data RunnerMode : Type 0 where
  analysis_only full : RunnerMode

pub record RunnerCapabilities : Type 0 where
  pub mode : RunnerMode
  pub docker_available : Bool
  pub retrieval_available : Bool
  pub verification_available : Bool
  pub platform : String
  pub version : String

-- A row of runners.
pub record PairedRunner : Type 0 where
  pub id : ℕ
  pub device_name : String
  pub credential_hash : String
  pub capabilities : RunnerCapabilities
  pub github_user_id : Option ℤ
  pub installation_id : Option ℤ
  pub revoked_at : Option ℕ

-- A row of repository_assignments; repository_id is unique.
pub record Assignment : Type 0 where
  pub repository_id : ℕ
  pub runner_id : ℕ

-- The columns that the approval of a code sets together, and that are null before.
pub record Approval : Type 0 where
  pub github_user_id : ℤ
  pub installation_id : ℤ
  pub repository_ids : List ℕ
  pub approved_at : ℕ

-- A row of pairing_codes; code_hash is unique.
pub record PairingCode : Type 0 where
  pub id : ℕ
  pub device_name : String
  pub code_hash : String
  pub challenge : String
  pub approval : Option Approval
  pub exchanged_at : Option ℕ
  pub created_at : ℕ

pub record Registry : Type 0 where
  pub installations : List Installation
  pub repositories : List Repository
  pub runners : List PairedRunner
  pub assignments : List Assignment
  pub pairing_codes : List PairingCode

-- … is null
abbrev pub is_null {ℓ} : {A : Type ℓ} → Option A → Bool
is_null none = true
is_null (some a) = false

abbrev pub is_installation : ℤ → Installation → Bool
is_installation i x = int_eq x.id i

abbrev pub is_repository : (installation_id github_repository_id : ℤ) → Repository → Bool
is_repository i r x = int_eq x.installation_id i && int_eq x.github_repository_id r

abbrev pub is_runner : ℕ → PairedRunner → Bool
is_runner i x = x.id == i

abbrev pub is_of_repository : ℕ → Assignment → Bool
is_of_repository r a = a.repository_id == r

abbrev pub is_of_runner : ℕ → Assignment → Bool
is_of_runner w a = a.runner_id == w
