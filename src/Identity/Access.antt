-- ===== src/Identity/Access.antt =====
-- What an exchange gives: a credential that authenticates, and repositories.
use pr_reviewer.Base.{
  refl, [], ◌∷◌, List, ℕ, count_where, String, Bool, ◌≡◌, ◌==◌, ◌≤◌, ◌+◌, ◌&&◌, ◌++◌, arith, subst,
  find_where, inl, count_where-append, ◌∙◌, inr, if◌then◌else◌, some, Bool-cases, ◌≢◌, some_inj,
  none, sym, ap, str_eq_refl, false, find_where-append_new,
}
use pr_reviewer.Jobs.{ℤ}
use pr_reviewer.Identity.Auth.{authenticate_runner, authenticated, has_credential}
use pr_reviewer.Identity.Policy.{
  assign_repository_to_runner, granted, authorize_repository, authorized, new_runner,
}
use pr_reviewer.Identity.Pairing.{
  assign_all, is_exchangeable, exchange_pairing_code, credential, mark_exchanged,
  initial_runner_capabilities,
}
use pr_reviewer.Identity.{
  Assignment, Registry, is_of_repository, is_of_runner, is_runner, PairingCode, Installation,
  Approval, Repository, is_installation, is_repository, analysis_only, PairedRunner,
}
use pr_reviewer.Identity.Exchange.{then_assign-granted, IsExchange-cases, with_runner, assign_adds}

-- How often an id is in a list.
abbrev pub times_of : ℕ → List ℕ → ℕ
times_of r = count_where (λ x. x == r)

abbrev pub is_assignment : (r w : ℕ) → Assignment → Bool
is_assignment r w a = is_of_repository r a && is_of_runner w a

-- What all the assignments of an exchange come to.
record IsGranted (rs : List ℕ) (w : ℕ) (db done : Registry) : Type 0 where
  rest :
      (done.installations ≡ db.installations)
      × (done.repositories ≡ db.repositories)
      × (done.runners ≡ db.runners)
  free : (r : ℕ) → 1 ≤ times_of r rs → count_where (is_of_repository r) db.assignments ≡ 0
  once : (r : ℕ) → times_of r rs ≤ 1
  given :
      (r : ℕ)
      → count_where (is_assignment r w) done.assignments
        ≡ count_where (is_assignment r w) db.assignments + times_of r rs

assign_all-IsGranted :
    (hash : String → String) (rs : List ℕ) (w : ℕ) (db : Registry) {done : Registry}
    → assign_all hash rs w db ≡ granted done
    → IsGranted rs w db done
unfolding assign_all
assign_all-IsGranted hash [] w db {done} e =
    let q : db ≡ done = ground arith in
    subst (IsGranted [] w db) q (record {
      rest = (refl, refl, refl);
      free = λ r h. ground arith;
      once = λ r. omega arith;
      given = λ r. omega arith;
    })
assign_all-IsGranted hash (r ∷ rs) w db {done} e =
    let (db1, f, g) =
      then_assign-granted hash (assign_repository_to_runner r w db) (assign_all hash rs w) e in
    let (zero_of, q) = assign_adds r w db f in
    let s = assign_all-IsGranted hash rs w db1 g in
    let new : Assignment = record { repository_id = r; runner_id = w } in
    let rows : db1.assignments ≡ db.assignments ++ new ∷ [] = rw q refl in
    let has : (k : ℕ)
        → count_where (is_of_repository k) db1.assignments
          ≡ count_where (is_of_repository k) db.assignments + (if r == k then 1 else 0) =
      λ k.
        rw rows
          (omega (arith, count_where-append (is_of_repository k) db.assignments (new ∷ []))) in
    let gives : (k : ℕ)
        → count_where (is_assignment k w) db1.assignments
          ≡ count_where (is_assignment k w) db.assignments + (if r == k then 1 else 0) =
      λ k.
        rw rows
          (ground (arith, count_where-append (is_assignment k w) db.assignments (new ∷ []))) in
    record {
      rest = (s.rest.0 ∙ rw q refl, s.rest.1 ∙ rw q refl, s.rest.2 ∙ rw q refl);
      free = λ k h. elim (Bool-cases (r == k)) [
        | inl b ↦ let e' : r ≡ k = ground arith in rw (← e') zero_of
        | inr b ↦ ground (arith, has k, s.free k)
      ];
      once = λ k. ground (arith, has k, s.free k, s.once k);
      given = λ k. omega (arith, gives k, s.given k);
    }

-- A code whose approval names a repository twice is never exchanged: the second assignment meets
-- the first, and the exchange is rolled back.
pub exchange_repeated :
    (hash : String → String) (now w : ℕ) (secret code proof : String) (db : Registry)
    {c : PairingCode} {a : Approval} (r : ℕ)
    → find_where (is_exchangeable hash now (hash code) (hash proof)) db.pairing_codes ≡ some c
    → c.approval ≡ some a
    → 2 ≤ times_of r a.repository_ids
    → ((exchange_pairing_code hash now w secret code proof db).1 ≡ db)
      × ((exchange_pairing_code hash now w secret code proof db).0 ≢ credential w secret)
exchange_repeated hash now w secret code proof db {c} {a} r found approval twice =
    elim (IsExchange-cases hash now w secret code proof db) [
      | inl e ↦ e
      | inr (c', a', done, e) ↦
          let p : c ≡ c' = some_inj (sym found ∙ e.found) in
          let q : a ≡ a' = some_inj (sym approval ∙ (ap (λ x. x.approval) p ∙ e.approval)) in
          let n : times_of r a.repository_ids ≡ times_of r a'.repository_ids = rw q refl in
          let g =
            assign_all-IsGranted hash a'.repository_ids w
              (with_runner hash now w secret code proof c' a' db) e.assigned in
          absurd (omega (arith, g.once r, n, twice))
    ]

-- A registry that has the new runner and its assignment.
access_of :
    (hash : String → String) (w : ℕ) (secret : String) (i r : ℤ) (db d : Registry)
    {x : Installation} {repo : Repository} (new : PairedRunner)
    → d.runners ≡ db.runners ++ new ∷ []
    → (new.id ≡ w) × (new.credential_hash ≡ hash secret) × (new.revoked_at ≡ none)
    → count_where (has_credential hash secret) db.runners ≡ 0
    → count_where (is_runner w) db.runners ≡ 0
    → find_where (is_installation i) d.installations ≡ some x
    → x.revoked_at ≡ none
    → find_where (is_repository i r) d.repositories ≡ some repo
    → 1 ≤ count_where (is_assignment repo.id w) d.assignments
    → (authenticate_runner hash secret d ≡ authenticated w new.device_name new.capabilities.mode)
      × (authorize_repository i r w d ≡ authorized repo.id)
unfolding authenticate_runner authorize_repository
access_of hash w secret i r db d {x} {repo} new rows own unused fresh known live listed given =
    let f : find_where (has_credential hash secret) d.runners ≡ some new = rw rows (
      find_where-append_new (has_credential hash secret) db.runners new unused
        (rw (own.1) (str_eq_refl (hash secret)))) in
    let g : find_where (is_runner w) d.runners ≡ some new =
      rw rows (find_where-append_new (is_runner w) db.runners new fresh (ground arith)) in
    let z : (count_where (is_assignment repo.id w) d.assignments == 0) ≡ false = ground arith in
    (rw (f, own.2, own.0) refl, rw (known, live, listed, g, own.2, z) refl)

-- An exchange that gives a credential, drawn afresh like the runner's id, gives one by which the
-- runner is authenticated as itself, for analysis only; and the runner is authorized for every
-- repository of the approval, as long as its installation is not revoked.
pub exchange_grants :
    (hash : String → String) (now w : ℕ) (secret code proof : String) (db : Registry)
    {db' : Registry} (i r : ℤ) {x : Installation} {repo : Repository} {c : PairingCode}
    {a : Approval}
    → exchange_pairing_code hash now w secret code proof db ≡ (credential w secret, db')
    → count_where (has_credential hash secret) db.runners ≡ 0
    → count_where (is_runner w) db.runners ≡ 0
    → find_where (is_exchangeable hash now (hash code) (hash proof)) db.pairing_codes ≡ some c
    → c.approval ≡ some a
    → find_where (is_installation i) db.installations ≡ some x
    → x.revoked_at ≡ none
    → find_where (is_repository i r) db.repositories ≡ some repo
    → 1 ≤ times_of repo.id a.repository_ids
    → (authenticate_runner hash secret db' ≡ authenticated w c.device_name analysis_only)
      × (authorize_repository i r w db' ≡ authorized repo.id)
exchange_grants hash now w secret code proof db {db'} i r {x} {repo} {c} {a} h new fresh found
      approval known live listed named =
    elim (IsExchange-cases hash now w secret code proof db) [
      | inl e ↦ absurd (e.1 (rw h refl))
      | inr (c', a', done, e) ↦
          let p : c ≡ c' = some_inj (sym found ∙ e.found) in
          let q : a ≡ a' = some_inj (sym approval ∙ (ap (λ x. x.approval) p ∙ e.approval)) in
          let d : mark_exchanged hash now c'.id done ≡ db' = ap (λ x. x.1) (sym e.result ∙ h) in
          let g =
            assign_all-IsGranted hash a'.repository_ids w
              (with_runner hash now w secret code proof c' a' db) e.assigned in
          let n : 1 ≤ times_of repo.id a'.repository_ids = rw (← q) named in
          let name : c.device_name ≡ c'.device_name = rw p refl in
          rw (name, ← d)
            (access_of hash w secret i r db (mark_exchanged hash now c'.id done) {x = x}
              {repo = repo}
              (new_runner hash w c'.device_name secret initial_runner_capabilities
                (some a'.github_user_id) (some a'.installation_id))
              g.rest.2 (refl, refl, refl) new fresh (rw (g.rest.0) known) live
              (rw (g.rest.1) listed) (omega (arith, g.given repo.id, n)))
    ]
