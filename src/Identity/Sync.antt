-- ===== src/Identity/Sync.antt =====
-- control_plane/installation_lifecycle.py: GitHub's installation webhooks keep the tables of
-- installations and repositories. `listed` is what the App's listing of an installation gives.
use pr_reviewer.Base.{
  [], ◌∷◌, Option, ℕ, String, List, Bool, some, none, if◌then◌else◌, false, str_eq, true, ◌||◌,
}
use pr_reviewer.Jobs.{ℤ, pos}
use pr_reviewer.Jobs.Enqueue.{
  Json, Items, Fields, num, bool, str, arr, obj, nil, cons, get, get_dict, ◌>>=◌,
}
use pr_reviewer.Identity.{Registry}
use pr_reviewer.Identity.Policy.{register_repository, register_installation, revoke_installation}

abbrev pub register_actions : List String
register_actions = "created" ∷ "unsuspend" ∷ "new_permissions_accepted" ∷ []

abbrev pub revoke_actions : List String
revoke_actions = "deleted" ∷ "suspend" ∷ []

abbrev pub among : String → List String → Bool
among name [] = false
among name (x ∷ xs) = str_eq name x || among name xs

-- isinstance(…, int): a bool of Python is one too
abbrev pub as_int : Option Json → Option ℤ
as_int (some (num z)) = some z
as_int (some (bool true)) = some (pos 1)
as_int (some (bool false)) = some (pos 0)
as_int _ = none

abbrev pub as_str : Option Json → Option String
as_str (some (str s)) = some s
as_str _ = none

abbrev pub as_fields : Json → Option Fields
as_fields (obj f) = some f
as_fields _ = none

abbrev pub get_list : String → Fields → Option Items
get_list k fs = elim (get k fs) [ some (arr items) ↦ some items | _ ↦ none ]

pub record InstallationEvent : Type 0 where
  pub action : String
  pub installation_id : ℤ
  pub account_login : String

-- the early returns of handle_installation_event
unfoldable pub installation_event : Json → Option InstallationEvent
installation_event payload = do
  fields ← as_fields payload
  action ← as_str (get "action" fields)
  installation ← get_dict "installation" fields
  installation_id ← as_int (get "id" installation)
  account ← get_dict "account" installation
  account_login ← as_str (get "login" account)
  some
      (record { action = action; installation_id = installation_id; account_login = account_login })

-- `ids` are the ids that the database draws for repositories that are new
unfoldable pub register_all : (ids : ℤ → ℕ) (now : ℕ) → ℤ → List (ℤ × String) → Registry → Registry
register_all ids now i [] db = db
register_all ids now i ((r, name) ∷ rest) db =
    register_all ids now i rest (register_repository (ids r) now i r name db).1

abbrev pub handle_event :
    (listed : ℤ → List (ℤ × String)) (ids : ℤ → ℕ) (now : ℕ)
    → Option InstallationEvent
    → Registry
    → Registry
handle_event listed ids now none db = db
handle_event listed ids now (some e) db =
    if among e.action register_actions
    then register_all ids now e.installation_id (listed e.installation_id)
        (register_installation e.installation_id e.account_login db)
    else if among e.action revoke_actions
    then revoke_installation now e.installation_id db
    else db

unfoldable pub handle_installation_event :
    (listed : ℤ → List (ℤ × String)) (ids : ℤ → ℕ) (now : ℕ) → Json → Registry → Registry
handle_installation_event listed ids now payload =
    handle_event listed ids now (installation_event payload)

-- one of repositories_added: its id and its name
abbrev pub added_repository : Json → Option (ℤ × String)
added_repository payload = do
  fields ← as_fields payload
  r ← as_int (get "id" fields)
  name ← as_str (get "full_name" fields)
  some (r, name)

abbrev pub cons_some {ℓ} : {A : Type ℓ} → Option A → List A → List A
cons_some none xs = xs
cons_some (some x) xs = x ∷ xs

abbrev pub added_repositories : Items → List (ℤ × String)
added_repositories nil = []
added_repositories (cons x rest) = cons_some (added_repository x) (added_repositories rest)

-- the installation and the repositories that were added to it
unfoldable pub repositories_event : Json → Option (ℤ × List (ℤ × String))
repositories_event payload = do
  fields ← as_fields payload
  installation ← get_dict "installation" fields
  added ← get_list "repositories_added" fields
  installation_id ← as_int (get "id" installation)
  some (installation_id, added_repositories added)

abbrev pub handle_added :
    (ids : ℤ → ℕ) (now : ℕ) → Option (ℤ × List (ℤ × String)) → Registry → Registry
handle_added ids now none db = db
handle_added ids now (some (i, added)) db = register_all ids now i added db

unfoldable pub handle_installation_repositories_event :
    (ids : ℤ → ℕ) (now : ℕ) → Json → Registry → Registry
handle_installation_repositories_event ids now payload =
    handle_added ids now (repositories_event payload)
