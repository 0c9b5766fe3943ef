-- ===== src/Identity/History.antt =====
-- Every writer of the registry as one type of operations, and the registry after a sequence of
-- them. The keys of the tables are the database's own checks: an exchange that draws a taken id of a
-- runner, or a new code under a taken id or hash, is refused, and the registry stays as it was.
use pr_reviewer.Base.{[], ◌∷◌, String, List, ℕ, if◌then◌else◌, count_where, ◌==◌, ◌||◌, str_eq}
use pr_reviewer.Jobs.{ℤ}
use pr_reviewer.Identity.{Registry, is_runner}
use pr_reviewer.Jobs.Enqueue.{Json}
use pr_reviewer.Identity.Pairing.{
  VerifiedInstallationAccess, create_pairing_code, approve_pairing, exchange_pairing_code,
}
use pr_reviewer.Identity.Sync.{handle_installation_event, handle_installation_repositories_event}
use pr_reviewer.Identity.Policy.{rename_repository, revoke_runner}
use pr_reviewer.Identity.Auth.{rotate_runner_credential}

pub data Op : Type 0 where
  installation_event : (listed : ℤ → List (ℤ × String)) (ids : ℤ → ℕ) (payload : Json) → Op
  repositories_event : (ids : ℤ → ℕ) (payload : Json) → Op
  rename : (repository_id : ℕ) (name : String) → Op
  create : (id : ℕ) (code device_name challenge : String) → Op
  approve : (ids : ℤ → ℕ) (code : String) → VerifiedInstallationAccess → List ℤ → Op
  exchange : (runner_id : ℕ) (secret code proof : String) → Op
  rotate : (runner_id : ℕ) (current new : String) → Op
  revoke : (runner_id : ℕ) → Op

module _ (hash : String → String) where
  unfoldable pub apply : (now : ℕ) → Op → Registry → Registry
  apply now (installation_event listed ids payload) db =
      handle_installation_event listed ids now payload db
  apply now (repositories_event ids payload) db =
      handle_installation_repositories_event ids now payload db
  apply now (rename repository_id name) db = rename_repository now repository_id name db
  apply now (create id code device_name challenge) db =
      if count_where (λ c. c.id == id || str_eq c.code_hash (hash code)) db.pairing_codes == 0
      then (create_pairing_code hash id now code device_name challenge db).1
      else db
  apply now (approve ids code access requested) db =
      (approve_pairing hash ids now code access requested db).1
  apply now (exchange runner_id secret code proof) db =
      if count_where (is_runner runner_id) db.runners == 0
      then (exchange_pairing_code hash now runner_id secret code proof db).1
      else db
  apply now (rotate runner_id current new) db =
      (rotate_runner_credential hash runner_id current new db).1
  apply now (revoke runner_id) db = revoke_runner now runner_id db

  unfoldable pub run : List (ℕ × Op) → Registry → Registry
  run [] db = db
  run ((now, op) ∷ ops) db = run ops (apply now op db)
