-- ===== src/Identity/Apart.antt =====
-- What the writers of installations, repositories and codes leave: runners and assignments.
use pr_reviewer.Base.{
  refl, [], ◌∷◌, ℕ, ◌≡◌, List, String, Bool-cases, Option-cases, count_where, find_where, inl, ◌==◌,
  inr, ◌∙◌,
}
use pr_reviewer.Jobs.{ℤ}
use pr_reviewer.Identity.Policy.{revoke_installation, register_installation, register_repository}
use pr_reviewer.Identity.{Registry, is_installation, is_null}
use pr_reviewer.Identity.Sync.{
  register_all, handle_installation_repositories_event, handle_installation_event,
  repositories_event, installation_event, among, register_actions, revoke_actions,
}
use pr_reviewer.Identity.Pairing.{
  approve_pairing_by_hash, VerifiedInstallationAccess, is_approvable, with_names,
}
use pr_reviewer.Jobs.Enqueue.{Json}

-- What the other writers leave.
abbrev pub IsApart : Registry → Registry → Type 0
IsApart db db' = (db'.runners ≡ db.runners) × (db'.assignments ≡ db.assignments)

-- The codes too.
abbrev pub IsUntouched : Registry → Registry → Type 0
IsUntouched db db' =
    (db'.runners ≡ db.runners)
    × (db'.assignments ≡ db.assignments)
    × (db'.pairing_codes ≡ db.pairing_codes)

register_all-IsUntouched :
    (ids : ℤ → ℕ) (now : ℕ) (i : ℤ) (added : List (ℤ × String)) (db : Registry)
    → IsUntouched db (register_all ids now i added db)
unfolding register_all register_repository
register_all-IsUntouched ids now i [] db = (refl, refl, refl)
register_all-IsUntouched ids now i ((r, name) ∷ rest) db =
    register_all-IsUntouched ids now i rest (register_repository (ids r) now i r name db).1

register-IsUntouched :
    (i : ℤ) (login : String) (db : Registry) → IsUntouched db (register_installation i login db)
unfolding register_installation
register-IsUntouched i login db =
    elim (Bool-cases (count_where (is_installation i) db.installations == 0)) [
      | inl e ↦ rw e (refl, refl, refl)
      | inr e ↦ rw e (refl, refl, refl)
    ]

revoke-IsUntouched :
    (now : ℕ) (i : ℤ) (db : Registry) → IsUntouched db (revoke_installation now i db)
unfolding revoke_installation
revoke-IsUntouched now i db = (refl, refl, refl)

pub event-IsUntouched :
    (listed : ℤ → List (ℤ × String)) (ids : ℤ → ℕ) (now : ℕ) (payload : Json) (db : Registry)
    → IsUntouched db (handle_installation_event listed ids now payload db)
unfolding handle_installation_event
event-IsUntouched listed ids now payload db = elim (Option-cases (installation_event payload)) [
  | inl q ↦ rw q (refl, refl, refl)
  | inr (e, q) ↦ elim (Bool-cases (among e.action register_actions)) [
    | inl b ↦
        let db1 = register_installation e.installation_id e.account_login db in
        let r = register_all-IsUntouched ids now e.installation_id (listed e.installation_id) db1 in
        let k = register-IsUntouched e.installation_id e.account_login db in
        rw (q, b) (r.0 ∙ k.0, r.1 ∙ k.1, r.2 ∙ k.2)
    | inr b ↦ elim (Bool-cases (among e.action revoke_actions)) [
      | inl d ↦ rw (q, b, d) (revoke-IsUntouched now e.installation_id db)
      | inr d ↦ rw (q, b, d) (refl, refl, refl)
    ]
  ]
]

pub added-IsUntouched :
    (ids : ℤ → ℕ) (now : ℕ) (payload : Json) (db : Registry)
    → IsUntouched db (handle_installation_repositories_event ids now payload db)
unfolding handle_installation_repositories_event
added-IsUntouched ids now payload db = elim (Option-cases (repositories_event payload)) [
  | inl e ↦ rw e (refl, refl, refl)
  | inr ((i, added), e) ↦ rw e (register_all-IsUntouched ids now i added db)
]

pub approve-IsApart :
    (ids : ℤ → ℕ) (now : ℕ) (code_hash : String) (access : VerifiedInstallationAccess)
    (requested : List ℤ) (db : Registry)
    → IsApart db (approve_pairing_by_hash ids now code_hash access requested db).1
unfolding approve_pairing_by_hash
approve-IsApart ids now code_hash access requested db =
    elim (Option-cases (find_where (is_approvable now code_hash) db.pairing_codes)) [
      | inl e ↦ rw e (refl, refl)
      | inr (c, e) ↦
          elim (Option-cases
            (find_where (is_installation access.installation_id) db.installations)) [
              | inl f ↦ rw (e, f) (refl, refl)
              | inr (x, f) ↦ elim (Bool-cases (is_null x.revoked_at)) [
                | inr g ↦ rw (e, f, g) (refl, refl)
                | inl g ↦ elim (Option-cases (with_names access.repositories requested)) [
                  | inl h ↦ rw (e, f, g, h) (refl, refl)
                  | inr (named, h) ↦ rw (e, f, g, h) (refl, refl)
                ]
              ]
            ]
    ]
