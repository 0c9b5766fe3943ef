-- ===== src/Identity/Exchange.antt =====
-- An exchange either leaves the registry, or does all of its writes.
use pr_reviewer.Base.{
  refl, [], ◌∷◌, String, ℕ, ◌≢◌, ◌≡◌, ◌⊎◌, ◌++◌, find_where, inl, Option-cases, some, inr, arith,
  count_where, Bool-cases, find_where-none,
}
use pr_reviewer.Identity.Policy.{
  Assigned, register_runner, granted, refused, new_runner, orphaned, unknown_reference,
  assign_repository_to_runner, has_rows,
}
use pr_reviewer.Identity.{Registry, PairingCode, Approval, is_of_repository, is_runner}
use pr_reviewer.Identity.Pairing.{
  exchange_pairing_code, then_assign, credential, settle_exchange, is_exchangeable,
  initial_runner_capabilities, assign_all, mark_exchanged,
}

pub then_assign-granted :
    (hash : String → String) (x : Assigned) (rest : Registry → Assigned) {db' : Registry}
    → then_assign hash x rest ≡ granted db'
    → (db : Registry) × (x ≡ granted db) × (rest db ≡ granted db')
then_assign-granted hash (granted db) rest h = (db, refl, h)
then_assign-granted hash (refused r ref) rest h = absurd (ground arith)
then_assign-granted hash orphaned rest h = absurd (ground arith)
then_assign-granted hash unknown_reference rest h = absurd (ground arith)

-- An assignment that is granted is of a free repository, and adds one row.
pub assign_adds :
    (r w : ℕ) (db : Registry) {db' : Registry}
    → assign_repository_to_runner r w db ≡ granted db'
    → (count_where (is_of_repository r) db.assignments ≡ 0)
      × (db' ≡ record db {
        assignments = db.assignments ++ record { repository_id = r; runner_id = w } ∷ [];
      })
unfolding assign_repository_to_runner
assign_adds r w db {db'} e = elim (Option-cases (find_where (is_of_repository r) db.assignments)) [
  | inl f ↦ elim (Bool-cases (has_rows r w db)) [
    | inl g ↦
        let q = rw (f, g) at e in
        (find_where-none (is_of_repository r) db.assignments f, ground arith)
    | inr g ↦ let q = rw (f, g) at e in absurd (ground arith)
  ]
  | inr (a, f) ↦ elim (Option-cases (find_where (is_runner a.runner_id) db.runners)) [
    | inl g ↦ absurd (ground arith)
    | inr (x, g) ↦ absurd (ground arith)
  ]
]

module _ (hash : String → String) (now w : ℕ) (secret code proof : String) where
  abbrev pub with_runner : PairingCode → Approval → Registry → Registry
  with_runner c a db = record db {
    runners =
        db.runners
        ++ new_runner hash w c.device_name secret initial_runner_capabilities
            (some a.github_user_id) (some a.installation_id)
          ∷ [];
  }

  -- The code `c`, approved by `a`, was exchanged: `done` has the runner and its assignments.
  pub record IsExchange (db : Registry) (c : PairingCode) (a : Approval) (done : Registry)
      : Type 0 where
    pub found :
        find_where (is_exchangeable hash now (hash code) (hash proof)) db.pairing_codes ≡ some c
    pub approval : c.approval ≡ some a
    pub assigned : assign_all hash a.repository_ids w (with_runner c a db) ≡ granted done
    pub result :
        exchange_pairing_code hash now w secret code proof db
        ≡ (credential w secret, mark_exchanged hash now c.id done)

  -- It failed, and the registry is as it was.
  abbrev pub IsRefused : Registry → Type 0
  IsRefused db =
      ((exchange_pairing_code hash now w secret code proof db).1 ≡ db)
      × ((exchange_pairing_code hash now w secret code proof db).0 ≢ credential w secret)

  assigned_cases :
      (x : Assigned) → ((db : Registry) × (x ≡ granted db)) ⊎ ((db : Registry) → x ≢ granted db)
  assigned_cases (granted db) = inl (db, refl)
  assigned_cases (refused r ref) = inr (λ db h. ground arith)
  assigned_cases orphaned = inr (λ db h. ground arith)
  assigned_cases unknown_reference = inr (λ db h. ground arith)

  settle_refused :
      (x : Assigned) (i : ℕ) (db : Registry)
      → ((d : Registry) → x ≢ granted d)
      → ((settle_exchange hash x now i w secret db).1 ≡ db)
        × ((settle_exchange hash x now i w secret db).0 ≢ credential w secret)
  settle_refused (granted d) i db h = absurd (h d refl)
  settle_refused (refused r ref) i db h = (refl, λ e. ground arith)
  settle_refused orphaned i db h = (refl, λ e. ground arith)
  settle_refused unknown_reference i db h = (refl, λ e. ground arith)

  pub IsExchange-cases :
      (db : Registry)
      → IsRefused db
        ⊎ ((c : PairingCode) × (a : Approval) × (done : Registry) × IsExchange db c a done)
  unfolding exchange_pairing_code register_runner
  IsExchange-cases db =
      elim (Option-cases
        (find_where (is_exchangeable hash now (hash code) (hash proof)) db.pairing_codes)) [
          | inl e ↦ inl (rw e (refl, λ q. ground arith))
          | inr (c, e) ↦ elim (Option-cases c.approval) [
            | inl f ↦ inl (rw (e, f) (refl, λ q. ground arith))
            | inr (a, f) ↦
                elim (assigned_cases (assign_all hash a.repository_ids w (with_runner c a db))) [
                  | inr g ↦ inl (rw (e, f) (settle_refused _ c.id db g))
                  | inl (done, g) ↦ inr (
                    c,
                    a,
                    done,
                    record { found = e; approval = f; assigned = g; result = rw (e, f, g) refl },
                  )
                ]
          ]
        ]
