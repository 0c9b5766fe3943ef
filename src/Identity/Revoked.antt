-- ===== src/Identity/Revoked.antt =====
-- What a revocation takes: the credential, and the repositories.
use pr_reviewer.Base.{
  refl, [], ◌∷◌, ℕ, List, ◌≡◌, String, count_where, ◌≤◌, find_where, delete_where, Option-cases,
  some, inl, arith, ◌≢◌, inr, count_where-le_mono, Bool-cases, count_where-delete_where, ◌&&◌,
  find_where-map_where, ◌==◌, none, find_where-of_zero, ◌++◌, true, count_where-map_where,
}
use pr_reviewer.Jobs.{ℤ}
use pr_reviewer.Identity.Auth.{authenticate_runner, revoked_runner, has_credential}
use pr_reviewer.Identity.Policy.{
  authorize_repository, revoke_runner, assign_repository_to_runner, authorized, granted, has_rows,
}
use pr_reviewer.Identity.{
  Registry, Assignment, PairedRunner, is_of_repository, is_installation, is_of_runner, is_runner,
  is_null, is_repository,
}
use pr_reviewer.Identity.Access.{is_assignment}

-- What is authorized is assigned.
authorized_assigned :
    (i r : ℤ) (w : ℕ) (db : Registry) (n : ℕ)
    → authorize_repository i r w db ≡ authorized n
    → 1 ≤ count_where (is_assignment n w) db.assignments
unfolding authorize_repository
authorized_assigned i r w db n h =
    elim (Option-cases (find_where (is_installation i) db.installations)) [
      | inl e ↦ absurd (ground arith)
      | inr (x, e) ↦ elim (Bool-cases (is_null x.revoked_at)) [
        | inr l ↦ absurd (ground arith)
        | inl l ↦ elim (Option-cases (find_where (is_repository i r) db.repositories)) [
          | inl f ↦ absurd (ground arith)
          | inr (k, f) ↦ elim (Option-cases (find_where (is_runner w) db.runners)) [
            | inl g ↦ absurd (ground arith)
            | inr (y, g) ↦ elim (Bool-cases (is_null y.revoked_at)) [
              | inr m ↦ absurd (ground arith)
              | inl m ↦ elim (Bool-cases (count_where (is_assignment k.id w) db.assignments == 0)) [
                | inl z ↦ absurd (ground arith)
                | inr z ↦ let q : k.id ≡ n = ground arith in rw (← q) (ground arith)
              ]
            ]
          ]
        ]
      ]
    ]

deleted_none :
    (n w : ℕ) (rows : List Assignment)
    → count_where (is_assignment n w) (delete_where (is_of_runner w) rows) ≡ 0
deleted_none n w [] = refl
deleted_none n w (a ∷ rows) = ground (arith, deleted_none n w rows)

deleted_free :
    (k w : ℕ) (rows : List Assignment)
    → count_where (is_of_repository k) rows ≤ 1
    → 1 ≤ count_where (is_assignment k w) rows
    → count_where (is_of_repository k) (delete_where (is_of_runner w) rows) ≡ 0
deleted_free k w [] u h = refl
deleted_free k w (a ∷ rows) u h = ground (
  arith,
  deleted_free k w rows,
  count_where-le_mono (is_assignment k w) (is_of_repository k) rows (λ x q. ground arith),
  count_where-delete_where (is_of_repository k) (is_of_runner w) rows,
)

-- After a runner is revoked its credential is known but refused, provided that it was the only one
-- with it; nothing it asks for is authorized; and a repository that was its own is free again, so
-- that the next assignment of it, to any runner that has a row, is granted.
pub revoke_runner_lem :
    (hash : String → String) (now w v : ℕ) (secret : String) (db : Registry) {x : PairedRunner}
    → find_where (has_credential hash secret) db.runners ≡ some x
    → x.id ≡ w
    → ((r : ℕ) → count_where (is_of_repository r) db.assignments ≤ 1)
    → (i r : ℤ) (k : ℕ) → 1 ≤ count_where (is_assignment k w) db.assignments
    → has_rows k v db ≡ true
    → let db' = revoke_runner now w db in
      (authenticate_runner hash secret db' ≡ revoked_runner)
      × ((n : ℕ) → authorize_repository i r w db' ≢ authorized n)
      × ((d : Registry) × (assign_repository_to_runner k v db' ≡ granted d))
unfolding authenticate_runner revoke_runner assign_repository_to_runner
revoke_runner_lem hash now w v secret db {x} found own one i r k held rows =
    let gone = λ (y : PairedRunner). is_runner w y && is_null y.revoked_at in
    let set = λ (y : PairedRunner). record y { revoked_at = some now } in
    let f =
      find_where-map_where (has_credential hash secret) gone set db.runners {v = x} (λ y. refl)
        found in
    let none_left : find_where (is_of_repository k) (delete_where (is_of_runner w) db.assignments)
        ≡ none =
      find_where-of_zero (is_of_repository k) (delete_where (is_of_runner w) db.assignments)
        (deleted_free k w db.assignments (one k) held) in
    let still : has_rows k v (revoke_runner now w db) ≡ true =
      ground (arith, count_where-map_where (is_runner v) gone set db.runners (λ y. refl)) in
    (
      rw f (ground arith),
      λ n e. omega (
        arith,
        authorized_assigned i r w (revoke_runner now w db) n e,
        deleted_none n w db.assignments,
      ),
      (
        record (revoke_runner now w db) {
          assignments =
              delete_where (is_of_runner w) db.assignments
              ++ record { repository_id = k; runner_id = v } ∷ [];
        },
        rw (none_left, still) refl,
      ),
    )
