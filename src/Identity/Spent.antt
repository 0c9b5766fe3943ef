-- ===== src/Identity/Spent.antt =====
-- A code that was exchanged stays exchanged, and its hash taken.
use pr_reviewer.Base.{
  refl, [], ◌∷◌, String, List, ℕ, ◌≤◌, Bool, Option-cases, ◌&&◌, str_eq, ◌≡◌, count_where,
  find_where, false, arith, inl, map_where, count_where-map_where, inr, ◌∙◌, Bool-cases, ◌==◌, some,
  ◌||◌, count_where-le_mono, sym, str_eq_iff, count_where-append,
}
use pr_reviewer.Jobs.{ℤ}
use pr_reviewer.Identity.Pairing.{
  approve_pairing_by_hash, assign_all, VerifiedInstallationAccess, exchange_pairing_code,
  is_approvable, with_names, upsert_all, approve_code, approval_of, create_pairing_code,
  approve_pairing, new_code,
}
use pr_reviewer.Identity.Policy.{
  assign_repository_to_runner, granted, rename_repository, revoke_runner,
}
use pr_reviewer.Identity.{PairingCode, Registry, is_null, is_runner, is_installation}
use pr_reviewer.Identity.Exchange.{IsExchange-cases, then_assign-granted, with_runner, assign_adds}
use pr_reviewer.Identity.Auth.{rotate_runner_credential, has_credential}
use pr_reviewer.Identity.History.{run, apply, Op, create, approve, exchange, rotate, revoke}
use pr_reviewer.Identity.Apart.{event-IsUntouched, added-IsUntouched}

abbrev pub has_hash : String → PairingCode → Bool
has_hash h c = str_eq c.code_hash h

-- a code under the hash that was not exchanged
abbrev pub is_open : String → PairingCode → Bool
is_open h c = has_hash h c && is_null c.exchanged_at

-- The hash is taken, and the code under it was exchanged.
abbrev pub IsSpent : String → List PairingCode → Type 0
IsSpent h cs = (1 ≤ count_where (has_hash h) cs) × (count_where (is_open h) cs ≡ 0)

-- An update that keeps the hash and opens nothing.
map_where-IsSpent :
    (h : String) (p : PairingCode → Bool) (f : PairingCode → PairingCode) (cs : List PairingCode)
    → ((c : PairingCode) → (f c).code_hash ≡ c.code_hash)
    → ((c : PairingCode) → is_open h c ≡ false → is_open h (f c) ≡ false)
    → IsSpent h cs
    → IsSpent h (map_where p f cs)
map_where-IsSpent h p f cs same shut s =
    (rw (count_where-map_where (has_hash h) p f cs (λ c. rw (same c) refl)) s.0, shut_all cs s.1)
  where
    shut_all :
        (xs : List PairingCode)
        → count_where (is_open h) xs ≡ 0
        → count_where (is_open h) (map_where p f xs) ≡ 0
    shut_all [] e = refl
    shut_all (x ∷ xs) e = ground (arith, shut x, shut_all xs)

assign-codes :
    (r w : ℕ) (db : Registry) {db' : Registry}
    → assign_repository_to_runner r w db ≡ granted db'
    → db'.pairing_codes ≡ db.pairing_codes
assign-codes r w db {db'} e = rw ((assign_adds r w db e).1) refl

pub assign_all-codes :
    (hash : String → String) (rs : List ℕ) (w : ℕ) (db : Registry) {db' : Registry}
    → assign_all hash rs w db ≡ granted db'
    → db'.pairing_codes ≡ db.pairing_codes
unfolding assign_all
assign_all-codes hash [] w db e = ground arith
assign_all-codes hash (r ∷ rs) w db {db'} e =
    let (db1, f, g) =
      then_assign-granted hash (assign_repository_to_runner r w db) (assign_all hash rs w) e in
    assign_all-codes hash rs w db1 g ∙ assign-codes r w db f

exchange-IsSpent :
    (hash : String → String) (h : String) (now w : ℕ) (secret code proof : String) (db : Registry)
    → IsSpent h db.pairing_codes
    → IsSpent h (exchange_pairing_code hash now w secret code proof db).1.pairing_codes
exchange-IsSpent hash h now w secret code proof db s =
    elim (IsExchange-cases hash now w secret code proof db) [
      | inl e ↦ rw e.0 s
      | inr (c, a, done, e) ↦ rw (e.result) (
          rw
            (assign_all-codes hash a.repository_ids w
              (with_runner hash now w secret code proof c a db) e.assigned)
            (map_where-IsSpent h (λ x. x.id == c.id) (λ x. record x { exchanged_at = some now })
              db.pairing_codes (λ x. refl) (λ x q. ground arith) s))
    ]

approve-IsSpent :
    (h : String) (ids : ℤ → ℕ) (now : ℕ) (code_hash : String) (access : VerifiedInstallationAccess)
    (requested : List ℤ) (db : Registry)
    → IsSpent h db.pairing_codes
    → IsSpent h (approve_pairing_by_hash ids now code_hash access requested db).1.pairing_codes
unfolding approve_pairing_by_hash
approve-IsSpent h ids now code_hash access requested db s =
    elim (Option-cases (find_where (is_approvable now code_hash) db.pairing_codes)) [
      | inl e ↦ rw e s
      | inr (c, e) ↦
          elim (Option-cases
            (find_where (is_installation access.installation_id) db.installations)) [
              | inl f ↦ rw (e, f) s
              | inr (x, f) ↦ elim (Bool-cases (is_null x.revoked_at)) [
                | inr g ↦ rw (e, f, g) s
                | inl g ↦ elim (Option-cases (with_names access.repositories requested)) [
                  | inl k ↦ rw (e, f, g, k) s
                  | inr (named, k) ↦
                      let xs =
                        (upsert_all ids now access.installation_id named db.repositories).0 in
                      rw (e, f, g, k)
                        (map_where-IsSpent h (λ x. x.id == c.id)
                          (approve_code (approval_of access xs now)) db.pairing_codes (λ x. refl)
                          (λ x q. q) s)
                ]
              ]
            ]
    ]

create-IsSpent :
    (hash : String → String) (h : String) (id now : ℕ) (code device challenge : String)
    (db : Registry)
    → IsSpent h db.pairing_codes
    → count_where (λ c. c.id == id || str_eq c.code_hash (hash code)) db.pairing_codes ≡ 0
    → IsSpent h (create_pairing_code hash id now code device challenge db).1.pairing_codes
unfolding create_pairing_code
create-IsSpent hash h id now code device challenge db s new =
    elim (Bool-cases (str_eq (hash code) h)) [
      | inl e ↦
          let q : h ≡ hash code = sym ((str_eq_iff (hash code) h).0 e) in
          let le =
            count_where-le_mono (has_hash h) (λ c. c.id == id || str_eq c.code_hash (hash code))
              db.pairing_codes (λ c k. rw (← q) (ground arith)) in
          absurd (omega (arith, le, new, s.0))
      | inr e ↦ ground (
        arith,
        count_where-append (has_hash h) db.pairing_codes
            (new_code hash id now code device challenge ∷ []),
        count_where-append (is_open h) db.pairing_codes
            (new_code hash id now code device challenge ∷ []),
      )
    ]

rotate-codes :
    (hash : String → String) (w : ℕ) (current new : String) (db : Registry)
    → (rotate_runner_credential hash w current new db).1.pairing_codes ≡ db.pairing_codes
unfolding rotate_runner_credential
rotate-codes hash w current new db =
    elim (Option-cases
      (find_where (λ y. is_runner w y && has_credential hash current y) db.runners)) [
        | inl e ↦ rw e refl
        | inr (x, e) ↦ elim (Bool-cases (is_null x.revoked_at)) [
          | inl f ↦ rw (e, f) refl
          | inr f ↦ rw (e, f) refl
        ]
      ]

apply-IsSpent :
    (hash : String → String) (h : String) (now : ℕ) (op : Op) (db : Registry)
    → IsSpent h db.pairing_codes
    → IsSpent h (apply hash now op db).pairing_codes
unfolding apply approve_pairing rename_repository revoke_runner
apply-IsSpent hash h now (Op.installation_event listed ids payload) db s =
    rw ((event-IsUntouched listed ids now payload db).2) s
apply-IsSpent hash h now (Op.repositories_event ids payload) db s =
    rw ((added-IsUntouched ids now payload db).2) s
apply-IsSpent hash h now (Op.rename i name) db s = s
apply-IsSpent hash h now (create id code device challenge) db s =
    elim (Bool-cases
      (count_where (λ c. c.id == id || str_eq c.code_hash (hash code)) db.pairing_codes == 0)) [
        | inl e ↦ rw e (create-IsSpent hash h id now code device challenge db s (ground arith))
        | inr e ↦ rw e s
      ]
apply-IsSpent hash h now (approve ids code access requested) db s =
    approve-IsSpent h ids now (hash code) access requested db s
apply-IsSpent hash h now (exchange w secret code proof) db s =
    elim (Bool-cases (count_where (is_runner w) db.runners == 0)) [
      | inl e ↦ rw e (exchange-IsSpent hash h now w secret code proof db s)
      | inr e ↦ rw e s
    ]
apply-IsSpent hash h now (rotate w current new) db s = rw (rotate-codes hash w current new db) s
apply-IsSpent hash h now (revoke w) db s = s

pub run-IsSpent :
    (hash : String → String) (h : String) (ops : List (ℕ × Op)) (db : Registry)
    → IsSpent h db.pairing_codes
    → IsSpent h (run hash ops db).pairing_codes
unfolding run
run-IsSpent hash h [] db s = s
run-IsSpent hash h ((now, op) ∷ ops) db s =
    run-IsSpent hash h ops (apply hash now op db) (apply-IsSpent hash h now op db s)
