-- ===== src/Identity/Held.antt =====
-- What an assignment needs, and that assigning and exchanging keep it.
use pr_reviewer.Base.{
  refl, [], ◌∷◌, ℕ, List, ◌≤◌, String, count_where, Bool, arith, ◌≡◌, All, some, ◌&&◌, Option-cases,
  subst, count_where-append, find_where, ◌++◌, inr, inl, All-append, map_where, Bool-cases,
  count_where-map_where, sym,
}
use pr_reviewer.Identity.Auth.{rotate_runner_credential, has_credential}
use pr_reviewer.Identity.{
  Registry, PairedRunner, Assignment, is_of_repository, is_runner, is_null, PairingCode, Approval,
}
use pr_reviewer.Identity.Pairing.{assign_all, exchange_pairing_code, initial_runner_capabilities}
use pr_reviewer.Identity.Policy.{assign_repository_to_runner, granted, new_runner}
use pr_reviewer.Identity.Exchange.{IsExchange-cases, then_assign-granted, with_runner, assign_adds}

-- the row of a runner that is not revoked
abbrev pub is_active_runner : ℕ → PairedRunner → Bool
is_active_runner w x = is_runner w x && is_null x.revoked_at

abbrev pub AllHeld : List PairedRunner → List Assignment → Type 0
AllHeld runners = All (λ a. 1 ≤ count_where (is_active_runner a.runner_id) runners)

pub record IsAssigned (runners : List PairedRunner) (assignments : List Assignment) : Type 0 where
  pub one : (r : ℕ) → count_where (is_of_repository r) assignments ≤ 1
  pub ids : (w : ℕ) → count_where (is_runner w) runners ≤ 1
  pub held : AllHeld runners assignments

abbrev pub IsAssignedIn : Registry → Type 0
IsAssignedIn db = IsAssigned db.runners db.assignments

AllHeld-mono :
    (xs ys : List PairedRunner) (rows : List Assignment)
    → ((w : ℕ) → count_where (is_active_runner w) xs ≤ count_where (is_active_runner w) ys)
    → AllHeld xs rows
    → AllHeld ys rows
AllHeld-mono xs ys [] f h = tt
AllHeld-mono xs ys (a ∷ rows) f h =
    (omega (arith, f a.runner_id, h.0), AllHeld-mono xs ys rows f h.1)

assign_repository-IsAssigned :
    (r w : ℕ) (db : Registry) {db' : Registry}
    → IsAssignedIn db
    → 1 ≤ count_where (is_active_runner w) db.runners
    → assign_repository_to_runner r w db ≡ granted db'
    → IsAssignedIn db' × (db'.runners ≡ db.runners)
assign_repository-IsAssigned r w db {db'} v h e =
    let (free, q) = assign_adds r w db e in
    let new : Assignment = record { repository_id = r; runner_id = w } in
    subst (λ x. IsAssignedIn x × (x.runners ≡ db.runners)) (sym q)
      (
        record {
          one = λ k. ground (
            arith,
            v.one k,
            free,
            count_where-append (is_of_repository k) db.assignments (new ∷ []),
          );
          ids = v.ids;
          held =
              All-append (λ a. 1 ≤ count_where (is_active_runner a.runner_id) db.runners)
                db.assignments (new ∷ []) v.held (h, tt);
        },
        refl,
      )

assign_all-IsAssigned :
    (hash : String → String) (rs : List ℕ) (w : ℕ) (db : Registry) {db' : Registry}
    → IsAssignedIn db
    → 1 ≤ count_where (is_active_runner w) db.runners
    → assign_all hash rs w db ≡ granted db'
    → IsAssignedIn db'
unfolding assign_all
assign_all-IsAssigned hash [] w db {db'} v h e =
    let q : db ≡ db' = ground arith in subst IsAssignedIn q v
assign_all-IsAssigned hash (r ∷ rs) w db {db'} v h e =
    let (db1, f, g) =
      then_assign-granted hash (assign_repository_to_runner r w db) (assign_all hash rs w) e in
    let q = assign_repository-IsAssigned r w db v h f in
    assign_all-IsAssigned hash rs w db1 q.0 (rw q.1 h) g

with_runner-IsAssigned :
    (hash : String → String) (now w : ℕ) (secret code proof : String) (c : PairingCode)
    (a : Approval) (db : Registry)
    → IsAssignedIn db
    → count_where (is_runner w) db.runners ≡ 0
    → let d = with_runner hash now w secret code proof c a db in
      IsAssignedIn d × (1 ≤ count_where (is_active_runner w) d.runners)
with_runner-IsAssigned hash now w secret code proof c a db v new =
    let x =
      new_runner hash w c.device_name secret initial_runner_capabilities (some a.github_user_id)
        (some a.installation_id) in
    let grows = λ (q : PairedRunner → Bool). count_where-append q db.runners (x ∷ []) in
    (
      record {
        one = v.one;
        ids = λ k. ground (arith, v.ids k, grows (is_runner k));
        held =
            AllHeld-mono db.runners (db.runners ++ x ∷ []) db.assignments
              (λ k. omega (arith, grows (is_active_runner k))) v.held;
      },
      ground (arith, grows (is_active_runner w)),
    )

pub exchange-IsAssigned :
    (hash : String → String) (now w : ℕ) (secret code proof : String) (db : Registry)
    → IsAssignedIn db
    → count_where (is_runner w) db.runners ≡ 0
    → IsAssignedIn (exchange_pairing_code hash now w secret code proof db).1
unfolding exchange_pairing_code
exchange-IsAssigned hash now w secret code proof db v new =
    elim (IsExchange-cases hash now w secret code proof db) [
      | inl e ↦ rw e.0 v
      | inr (c, a, done, e) ↦
          let r = with_runner-IsAssigned hash now w secret code proof c a db v new in
          rw e.result (
            assign_all-IsAssigned hash a.repository_ids w
              (with_runner hash now w secret code proof c a db) r.0 r.1 e.assigned)
    ]

pub rotate-IsAssigned :
    (hash : String → String) (w : ℕ) (current new : String) (db : Registry)
    → IsAssignedIn db
    → IsAssignedIn (rotate_runner_credential hash w current new db).1
unfolding rotate_runner_credential
rotate-IsAssigned hash w current new db v =
    elim (Option-cases
      (find_where (λ y. is_runner w y && has_credential hash current y) db.runners)) [
        | inl e ↦ rw e v
        | inr (x, e) ↦ elim (Bool-cases (is_null x.revoked_at)) [
          | inr f ↦ rw (e, f) v
          | inl f ↦
              let hit = λ (y : PairedRunner). is_runner w y && has_credential hash current y in
              let set = λ (y : PairedRunner). record y { credential_hash = hash new } in
              rw (e, f)
                (record {
                  one = v.one;
                  ids = λ k.
                      rw (count_where-map_where (is_runner k) hit set db.runners (λ y. refl))
                        (v.ids k);
                  held =
                      AllHeld-mono db.runners (map_where hit set db.runners) db.assignments
                        (λ k. omega (
                          arith,
                          count_where-map_where (is_active_runner k) hit set db.runners (λ y. refl),
                        ))
                        v.held;
                })
        ]
      ]
