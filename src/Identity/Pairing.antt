-- ===== src/Identity/Pairing.antt =====
-- control_plane/pairing.py: a pairing code is created, approved and exchanged for a runner.
use pr_reviewer.Base.{
  [], ◌∷◌, Option, ℕ, List, String, some, none, find_where, ◌++◌, Bool, false, map_where,
  if◌then◌else◌, str_eq, ◌==◌, ltb, ◌+◌, ◌&&◌, not,
}
use pr_reviewer.Jobs.{ℤ, int_eq}
use pr_reviewer.Identity.{
  Approval, RunnerCapabilities, Installation, Registry, PairingCode, Repository, analysis_only,
  is_installation, is_null,
}
use pr_reviewer.Identity.Policy.{
  Assigned, RunnerRef, granted, register_runner, upsert_repository, assign_repository_to_runner,
  orphaned, refused, unknown_reference,
}

-- interval '10 minutes'
abbrev pub pairing_lifetime : ℕ
pairing_lifetime = 600_000_000

-- created_at > now() - interval '10 minutes'
abbrev pub is_fresh : (now : ℕ) → PairingCode → Bool
is_fresh now c = ltb now (c.created_at + pairing_lifetime)

pub record VerifiedInstallationAccess : Type 0 where
  pub github_user_id : ℤ
  pub installation_id : ℤ
  pub repositories : List (ℤ × String)

pub record PairingChallenge : Type 0 where
  pub code : String
  pub expires_at : ℕ

abbrev pub initial_runner_capabilities : RunnerCapabilities
initial_runner_capabilities = record {
  mode = analysis_only;
  docker_available = false;
  retrieval_available = false;
  verification_available = false;
  platform = "unknown";
  version = "unknown";
}

pub data PairingDenialReason : Type 0 where
  invalid_or_expired_code repository_not_in_installation revoked_installation unknown_installation :
      PairingDenialReason

pub data Approved : Type 0 where
  approved : (installation_id : ℤ) (repository_ids : List ℕ) → Approved
  denied : PairingDenialReason → Approved

-- access.repositories[github_repository_id]
abbrev pub name_of : ℤ → List (ℤ × String) → Option String
name_of r [] = none
name_of r ((k, name) ∷ rest) = if int_eq k r then some name else name_of r rest

-- the requested repositories with their names, or none when one is not covered
abbrev named_then : ℤ → Option String → Option (List (ℤ × String)) → Option (List (ℤ × String))
named_then r (some name) (some rest) = some ((r, name) ∷ rest)
named_then r _ _ = none

abbrev pub with_names : List (ℤ × String) → List ℤ → Option (List (ℤ × String))
with_names covered [] = some []
with_names covered (r ∷ rs) = named_then r (name_of r covered) (with_names covered rs)

-- `ids` are the ids that the database draws for repositories that are new
unfoldable pub upsert_all :
    (ids : ℤ → ℕ) (now : ℕ) → ℤ → List (ℤ × String) → List Repository → List ℕ × List Repository
upsert_all ids now i [] rows = ([], rows)
upsert_all ids now i ((r, name) ∷ rest) rows =
    let (x, rows') = upsert_repository (ids r) now i r name rows in
    let (xs, rows'') = upsert_all ids now i rest rows' in (x ∷ xs, rows'')

-- select id from pairing_codes where …
abbrev pub is_approvable : (now : ℕ) (code_hash : String) → PairingCode → Bool
is_approvable now code_hash c =
    str_eq c.code_hash code_hash && (is_null c.approval && is_fresh now c)

abbrev pub approve_code : Approval → PairingCode → PairingCode
approve_code approval c = record c { approval = some approval }

abbrev pub approval_of : VerifiedInstallationAccess → List ℕ → (now : ℕ) → Approval
approval_of access xs now = record {
  github_user_id = access.github_user_id;
  installation_id = access.installation_id;
  repository_ids = xs;
  approved_at = now;
}

abbrev approve_named :
    Option (List (ℤ × String))
    → (ids : ℤ → ℕ) (now : ℕ) → PairingCode
    → VerifiedInstallationAccess
    → Registry
    → Approved × Registry
approve_named none ids now c access db = (denied repository_not_in_installation, db)
approve_named (some named) ids now c access db =
    let (xs, rows) = upsert_all ids now access.installation_id named db.repositories in
    let approval = approval_of access xs now in
    (
      approved access.installation_id xs,
      record db {
        repositories = rows;
        pairing_codes = map_where (λ x. x.id == c.id) (approve_code approval) db.pairing_codes;
      },
    )

abbrev approve_for :
    Option Installation
    → (ids : ℤ → ℕ) (now : ℕ) → PairingCode
    → VerifiedInstallationAccess
    → List ℤ
    → Registry
    → Approved × Registry
approve_for none ids now c access requested db = (denied unknown_installation, db)
approve_for (some x) ids now c access requested db =
    if is_null x.revoked_at
    then approve_named (with_names access.repositories requested) ids now c access db
    else (denied revoked_installation, db)

abbrev approve_found :
    Option PairingCode
    → (ids : ℤ → ℕ) (now : ℕ) → VerifiedInstallationAccess
    → List ℤ
    → Registry
    → Approved × Registry
approve_found none ids now access requested db = (denied invalid_or_expired_code, db)
approve_found (some c) ids now access requested db =
    approve_for (find_where (is_installation access.installation_id) db.installations) ids now c
      access requested db

unfoldable pub approve_pairing_by_hash :
    (ids : ℤ → ℕ) (now : ℕ) (code_hash : String)
    → VerifiedInstallationAccess
    → List ℤ
    → Registry
    → Approved × Registry
approve_pairing_by_hash ids now code_hash access requested db =
    approve_found (find_where (is_approvable now code_hash) db.pairing_codes) ids now access
      requested db

pub data Exchanged : Type 0 where
  credential : (runner_id : ℕ) (credential : String) → Exchanged
  denied : PairingDenialReason → Exchanged
  conflict : (repository_id : ℕ) → RunnerRef → Exchanged
  raised : Exchanged

pub data PairingStatus : Type 0 where
  pending exchangeable invalid_or_expired : PairingStatus

module _ (hash : String → String) where
  abbrev pub new_code : (id now : ℕ) (code device_name challenge : String) → PairingCode
  new_code id now code device_name challenge = record {
    id = id;
    device_name = device_name;
    code_hash = hash code;
    challenge = challenge;
    approval = none;
    exchanged_at = none;
    created_at = now;
  }

  -- `id` and `code` are drawn by the database and by secrets
  unfoldable pub create_pairing_code :
      (id now : ℕ) (code device_name challenge : String) → Registry → PairingChallenge × Registry
  create_pairing_code id now code device_name challenge db = (
    record { code = code; expires_at = now },
    record db {
      pairing_codes = db.pairing_codes ++ new_code id now code device_name challenge ∷ [];
    },
  )

  unfoldable pub approve_pairing :
      (ids : ℤ → ℕ) (now : ℕ) (code : String)
      → VerifiedInstallationAccess
      → List ℤ
      → Registry
      → Approved × Registry
  approve_pairing ids now code = approve_pairing_by_hash ids now (hash code)

  -- select … from pairing_codes where …
  abbrev pub is_exchangeable : (now : ℕ) (code_hash challenge : String) → PairingCode → Bool
  is_exchangeable now code_hash challenge c =
      str_eq c.code_hash code_hash
      && (str_eq c.challenge challenge
          && (not (is_null c.approval) && (is_null c.exchanged_at && is_fresh now c)))

  abbrev pub then_assign : Assigned → (Registry → Assigned) → Assigned
  then_assign (granted db) rest = rest db
  then_assign (refused r ref) rest = refused r ref
  then_assign orphaned rest = orphaned
  then_assign unknown_reference rest = unknown_reference

  -- the loop over pairing_row["repository_ids"]: it stops at the first refusal
  unfoldable pub assign_all : List ℕ → (runner_id : ℕ) → Registry → Assigned
  assign_all [] w db = granted db
  assign_all (r ∷ rs) w db =
      let rest = assign_all rs w in then_assign (assign_repository_to_runner r w db) rest

  abbrev pub mark_exchanged : (now : ℕ) → ℕ → Registry → Registry
  mark_exchanged now i db = record db {
    pairing_codes =
        map_where (λ x. x.id == i) (λ x. record x { exchanged_at = some now }) db.pairing_codes;
  }

  -- a refusal, or an error, rolls the runner and its assignments back
  abbrev pub settle_exchange :
      Assigned → (now : ℕ) → ℕ → (runner_id : ℕ) (secret : String) → Registry → Exchanged × Registry
  settle_exchange (granted db') now i w secret db = (credential w secret, mark_exchanged now i db')
  settle_exchange (refused r ref) now i w secret db = (conflict r ref, db)
  settle_exchange orphaned now i w secret db = (raised, db)
  settle_exchange unknown_reference now i w secret db = (raised, db)

  abbrev exchange_registered :
      Option Registry
      → (now : ℕ) → ℕ
      → List ℕ
      → (runner_id : ℕ) (secret : String) → Registry
      → Exchanged × Registry
  exchange_registered none now i rs w secret db = (raised, db)
  exchange_registered (some db') now i rs w secret db =
      settle_exchange (assign_all rs w db') now i w secret db

  -- an approved code has its approval: `int` of a null would raise
  abbrev exchange_approved :
      Option Approval
      → (now : ℕ) → PairingCode
      → (runner_id : ℕ) (secret : String) → Registry
      → Exchanged × Registry
  exchange_approved none now c w secret db = (raised, db)
  exchange_approved (some a) now c w secret db =
      exchange_registered
        (register_runner hash w c.device_name secret initial_runner_capabilities
          (some a.github_user_id) (some a.installation_id) db)
        now c.id a.repository_ids w secret db

  abbrev exchange_found :
      Option PairingCode
      → (now : ℕ) (runner_id : ℕ) (secret : String) → Registry
      → Exchanged × Registry
  exchange_found none now w secret db = (denied invalid_or_expired_code, db)
  exchange_found (some c) now w secret db = exchange_approved c.approval now c w secret db

  -- `runner_id` and `secret`, the credential, are drawn by the database and by secrets
  unfoldable pub exchange_pairing_code :
      (now : ℕ) (runner_id : ℕ) (secret code proof : String) → Registry → Exchanged × Registry
  exchange_pairing_code now w secret code proof db =
      exchange_found (find_where (is_exchangeable now (hash code) (hash proof)) db.pairing_codes)
        now w secret db

  abbrev status_of : Option PairingCode → PairingStatus
  status_of none = invalid_or_expired
  status_of (some c) =
      if is_null c.exchanged_at
      then (if is_null c.approval then pending else exchangeable)
      else invalid_or_expired

  unfoldable pub pairing_status : (now : ℕ) (code challenge : String) → Registry → PairingStatus
  pairing_status now code challenge db = status_of (
      find_where
        (λ c. str_eq c.code_hash (hash code) && (str_eq c.challenge challenge && is_fresh now c))
        db.pairing_codes)
