-- ===== src/Identity/Codes.antt =====
-- A pairing code is exchanged once.
use pr_reviewer.Base.{
  refl, [], ◌∷◌, String, List, ℕ, ◌≤◌, Bool, Option-cases, ◌&&◌, str_eq, ◌≡◌, count_where,
  find_where, false, arith, inl, map_where, count_where-map_where, inr, ◌∙◌, Bool-cases, ◌==◌, some,
  true, count_where-find_where, count_where-le_mono, sym, ap, found_other, find_where_passes,
}
use pr_reviewer.Identity.Pairing.{
  exchange_pairing_code, denied, invalid_or_expired_code, is_exchangeable, credential,
  pairing_status, mark_exchanged, invalid_or_expired, is_fresh,
}
use pr_reviewer.Identity.{PairingCode, Registry, is_null}
use pr_reviewer.Identity.Exchange.{IsExchange-cases, with_runner}
use pr_reviewer.Identity.History.{run, Op}
use pr_reviewer.Identity.Spent.{has_hash, IsSpent, run-IsSpent, is_open, assign_all-codes}

-- The code that was found is the only one under its hash, and is marked.
marked-IsSpent :
    (h : String) (now : ℕ) (q : PairingCode → Bool) (cs : List PairingCode) {c : PairingCode}
    → ((x : PairingCode) → q x ≡ true → has_hash h x ≡ true)
    → count_where (has_hash h) cs ≤ 1
    → find_where q cs ≡ some c
    → count_where
        (is_open h)
        (map_where (λ x. x.id == c.id) (λ x. record x { exchanged_at = some now }) cs)
      ≡ 0
marked-IsSpent h now q [] imp u e = refl
marked-IsSpent h now q (x ∷ cs) {c} imp u e =
    let mark = λ (x : PairingCode). record x { exchanged_at = some now } in
    let hit = λ (x : PairingCode). x.id == c.id in
    let le =
      count_where-le_mono (is_open h) (has_hash h) (map_where hit mark cs) (λ x k. ground arith) in
    let same = count_where-map_where (has_hash h) hit mark cs (λ x. refl) in
    elim (Bool-cases (q x)) [
      | inl f ↦
          let r : x ≡ c = ground arith in let i : x.id ≡ c.id = rw r refl in ground (arith, imp x)
      | inr f ↦
          let g : find_where q cs ≡ some c = ground arith in
          ground (
            arith,
            marked-IsSpent h now q cs {c = c} imp (ground arith) g,
            count_where-find_where q cs {v = c} g,
            count_where-le_mono q (has_hash h) cs imp,
          )
    ]

spent_denied :
    (hash : String → String) (now w : ℕ) (secret code proof : String) (db : Registry)
    → IsSpent (hash code) db.pairing_codes
    → exchange_pairing_code hash now w secret code proof db ≡ (denied invalid_or_expired_code, db)
unfolding exchange_pairing_code
spent_denied hash now w secret code proof db s =
    elim (Option-cases
      (find_where (is_exchangeable hash now (hash code) (hash proof)) db.pairing_codes)) [
        | inl e ↦ rw e refl
        | inr (c, e) ↦ absurd (
            ground (
              arith,
              count_where-find_where (is_exchangeable hash now (hash code) (hash proof))
                  db.pairing_codes {v = c} e,
              count_where-le_mono (is_exchangeable hash now (hash code) (hash proof))
                  (is_open (hash code)) db.pairing_codes (λ x h. ground arith),
            ))
      ]

spent_status :
    (hash : String → String) (now : ℕ) (code challenge : String) (db : Registry)
    → IsSpent (hash code) db.pairing_codes
    → pairing_status hash now code challenge db ≡ invalid_or_expired
unfolding pairing_status
spent_status hash now code challenge db s =
    let p = λ (c : PairingCode).
      str_eq c.code_hash (hash code) && (str_eq c.challenge challenge && is_fresh now c) in
    elim (Option-cases (find_where p db.pairing_codes)) [
      | inl e ↦ rw e refl
      | inr (c, e) ↦
          let shut = found_other p (is_open (hash code)) db.pairing_codes {v = c} e s.1 in
          let k : p c ≡ true = find_where_passes p db.pairing_codes {v = c} e in
          let o : is_null c.exchanged_at ≡ false = ground arith in rw (e, o) refl
    ]

exchanged-IsSpent :
    (hash : String → String) (now w : ℕ) (secret code proof : String) (db db' : Registry)
    → count_where (has_hash (hash code)) db.pairing_codes ≤ 1
    → exchange_pairing_code hash now w secret code proof db ≡ (credential w secret, db')
    → IsSpent (hash code) db'.pairing_codes
exchanged-IsSpent hash now w secret code proof db db' u h =
    elim (IsExchange-cases hash now w secret code proof db) [
      | inl e ↦ absurd (e.1 (rw h refl))
      | inr (c, a, done, e) ↦
          let q : mark_exchanged hash now c.id done ≡ db' = ap (λ x. x.1) (sym e.result ∙ h) in
          let p = is_exchangeable hash now (hash code) (hash proof) in
          let mark = λ (x : PairingCode). record x { exchanged_at = some now } in
          let codes =
            assign_all-codes hash a.repository_ids w
              (with_runner hash now w secret code proof c a db) e.assigned in
          let some_one : 1
              ≤ count_where (has_hash (hash code))
                  (map_where (λ x. x.id == c.id) mark db.pairing_codes) =
            omega (
              arith,
              count_where-find_where p db.pairing_codes {v = c} e.found,
              count_where-le_mono p (has_hash (hash code)) db.pairing_codes (λ x k. ground arith),
              count_where-map_where (has_hash (hash code)) (λ x. x.id == c.id) mark db.pairing_codes
                  (λ x. refl),
            ) in
          rw (← q) (
            rw codes (
              some_one,
              marked-IsSpent (hash code) now p db.pairing_codes {c = c} (λ x k. ground arith) u
                  e.found,
            ))
    ]

-- When a code was exchanged for a runner's credential, and no other code has its hash, then
-- whatever happens afterwards the code is refused, with any proof and at any time, its status is
-- invalid_or_expired, and the attempt changes nothing.
pub exchange_once :
    (hash : String → String) (now w : ℕ) (secret code proof : String) (db db' : Registry)
    (ops : List (ℕ × Op)) (later v : ℕ) (secret' proof' challenge : String)
    → count_where (has_hash (hash code)) db.pairing_codes ≤ 1
    → exchange_pairing_code hash now w secret code proof db ≡ (credential w secret, db')
    → let db'' = run hash ops db' in
      (exchange_pairing_code hash later v secret' code proof' db''
        ≡ (denied invalid_or_expired_code, db''))
      × (pairing_status hash later code challenge db'' ≡ invalid_or_expired)
exchange_once hash now w secret code proof db db' ops later v secret' proof' challenge u h =
    let s =
      run-IsSpent hash (hash code) ops db'
        (exchanged-IsSpent hash now w secret code proof db db' u h) in
    (
      spent_denied hash later v secret' code proof' (run hash ops db') s,
      spent_status hash later code challenge (run hash ops db') s,
    )
