-- ===== src/Identity/Auth.antt =====
-- control_plane/runner_auth.py: the runner that a credential belongs to, and its rotation.
use pr_reviewer.Base.{
  Option, String, ℕ, find_where, some, Bool, if◌then◌else◌, str_eq, ◌&&◌, none, map_where,
}
use pr_reviewer.Identity.{PairedRunner, RunnerMode, Registry, is_runner, is_null}

pub data Authenticated : Type 0 where
  authenticated : (runner_id : ℕ) (device_name : String) → RunnerMode → Authenticated
  unknown_credential revoked_runner : Authenticated

abbrev authenticated_as : Option PairedRunner → Authenticated
authenticated_as none = unknown_credential
authenticated_as (some x) =
    if is_null x.revoked_at
    then authenticated x.id x.device_name x.capabilities.mode
    else revoked_runner

pub data Rotated : Type 0 where
  rotated unknown_credential revoked_runner : Rotated

module _ (hash : String → String) where
  abbrev pub has_credential : String → PairedRunner → Bool
  has_credential credential x = str_eq x.credential_hash (hash credential)

  unfoldable pub authenticate_runner : (credential : String) → Registry → Authenticated
  authenticate_runner credential db =
      authenticated_as (find_where (has_credential credential) db.runners)

  abbrev rotate_found :
      Option PairedRunner → (runner_id : ℕ) (current new : String) → Registry → Rotated × Registry
  rotate_found none w current new db = (unknown_credential, db)
  rotate_found (some x) w current new db =
      if is_null x.revoked_at
      then (
        rotated,
        record db {
          runners =
              map_where (λ y. is_runner w y && has_credential current y)
                (λ y. record y { credential_hash = hash new }) db.runners;
        },
      )
      else (revoked_runner, db)

  -- `new` is the credential that secrets draws
  unfoldable pub rotate_runner_credential :
      (runner_id : ℕ) (current new : String) → Registry → Rotated × Registry
  rotate_runner_credential w current new db =
      rotate_found (find_where (λ y. is_runner w y && has_credential current y) db.runners) w
        current new db
