-- ===== src/Identity/Assigned.antt =====
-- A repository is assigned to one runner at most, and to none that is revoked or not there.
use pr_reviewer.Identity.History.{Op, run, apply, exchange, rotate, revoke, create, approve}
use pr_reviewer.Base.{
  refl, [], ◌∷◌, ℕ, List, ◌≤◌, String, count_where, arith, some, ◌&&◌, inr, inl, map_where,
  count_where-delete_where, ◌≢◌, Bool-cases, delete_where, count_where-map_where, ◌==◌, ◌||◌,
  str_eq,
}
use pr_reviewer.Identity.{
  Registry, PairedRunner, Assignment, is_of_repository, is_runner, is_null, is_of_runner,
}
use pr_reviewer.Identity.Pairing.{approve_pairing, create_pairing_code, approve_pairing_by_hash}
use pr_reviewer.Identity.Policy.{revoke_runner, rename_repository}
use pr_reviewer.Identity.Apart.{IsApart, approve-IsApart, event-IsUntouched, added-IsUntouched}
use pr_reviewer.Identity.Sync.{handle_installation_event, handle_installation_repositories_event}
use pr_reviewer.Identity.Held.{
  IsAssignedIn, is_active_runner, IsAssigned, exchange-IsAssigned, AllHeld, rotate-IsAssigned,
}

abbrev revoked : (now w : ℕ) → List PairedRunner → List PairedRunner
revoked now w =
    map_where (λ x. is_runner w x && is_null x.revoked_at) (λ x. record x { revoked_at = some now })

revoked_others :
    (now w k : ℕ)
    → k ≢ w
    → (xs : List PairedRunner)
    → count_where (is_active_runner k) xs ≤ count_where (is_active_runner k) (revoked now w xs)
revoked_others now w k q [] = omega arith
revoked_others now w k q (x ∷ xs) = ground (arith, revoked_others now w k q xs)

-- The assignments that are left are those of other runners.
left-AllHeld :
    (now w : ℕ) (runners : List PairedRunner) (rows : List Assignment)
    → ((k : ℕ)
        → k ≢ w
        → count_where (is_active_runner k) runners
          ≤ count_where (is_active_runner k) (revoked now w runners))
    → AllHeld runners rows
    → AllHeld (revoked now w runners) (delete_where (is_of_runner w) rows)
left-AllHeld now w runners [] f h = tt
left-AllHeld now w runners (a ∷ rows) f h = elim (Bool-cases (is_of_runner w a)) [
  | inl e ↦ rw e (left-AllHeld now w runners rows f h.1)
  | inr e ↦
      rw e (
        omega (arith, h.0, f a.runner_id (λ q. ground arith)),
        left-AllHeld now w runners rows f h.1,
      )
]

revoke-IsAssigned :
    (now w : ℕ) (db : Registry) → IsAssignedIn db → IsAssignedIn (revoke_runner now w db)
unfolding revoke_runner
revoke-IsAssigned now w db v = record {
  one = λ r. omega (
    arith,
    v.one r,
    count_where-delete_where (is_of_repository r) (is_of_runner w) db.assignments,
  );
  ids = λ k.
      rw
        (count_where-map_where (is_runner k) (λ x. is_runner w x && is_null x.revoked_at)
          (λ x. record x { revoked_at = some now }) db.runners (λ y. refl))
        (v.ids k);
  held =
      left-AllHeld now w db.runners db.assignments (λ k q. revoked_others now w k q db.runners)
        v.held;
}

IsApart-keeps : (db db' : Registry) → IsApart db db' → IsAssignedIn db → IsAssignedIn db'
IsApart-keeps db db' a v = rw (a.0, a.1) v

rename-IsAssigned :
    (now i : ℕ) (name : String) (db : Registry)
    → IsAssignedIn db
    → IsAssignedIn (rename_repository now i name db)
unfolding rename_repository
rename-IsAssigned now i name db v = v

create-IsAssigned :
    (hash : String → String) (id now : ℕ) (code device challenge : String) (db : Registry)
    → IsAssignedIn db
    → IsAssignedIn (create_pairing_code hash id now code device challenge db).1
unfolding create_pairing_code
create-IsAssigned hash id now code device challenge db v = v

apply-IsAssigned :
    (hash : String → String) (now : ℕ) (op : Op) (db : Registry)
    → IsAssignedIn db
    → IsAssignedIn (apply hash now op db)
unfolding apply approve_pairing
apply-IsAssigned hash now (Op.installation_event listed ids payload) db v =
    let a = event-IsUntouched listed ids now payload db in
    IsApart-keeps db (handle_installation_event listed ids now payload db) (a.0, a.1) v
apply-IsAssigned hash now (Op.repositories_event ids payload) db v =
    let a = added-IsUntouched ids now payload db in
    IsApart-keeps db (handle_installation_repositories_event ids now payload db) (a.0, a.1) v
apply-IsAssigned hash now (Op.rename i name) db v = rename-IsAssigned now i name db v
apply-IsAssigned hash now (create id code device challenge) db v =
    elim (Bool-cases
      (count_where (λ c. c.id == id || str_eq c.code_hash (hash code)) db.pairing_codes == 0)) [
        | inl e ↦ rw e (create-IsAssigned hash id now code device challenge db v)
        | inr e ↦ rw e v
      ]
apply-IsAssigned hash now (approve ids code access requested) db v =
    IsApart-keeps db (approve_pairing_by_hash ids now (hash code) access requested db).1
      (approve-IsApart ids now (hash code) access requested db) v
apply-IsAssigned hash now (exchange w secret code proof) db v =
    elim (Bool-cases (count_where (is_runner w) db.runners == 0)) [
      | inl e ↦ rw e (exchange-IsAssigned hash now w secret code proof db v (ground arith))
      | inr e ↦ rw e v
    ]
apply-IsAssigned hash now (rotate w current new) db v = rotate-IsAssigned hash w current new db v
apply-IsAssigned hash now (revoke w) db v = revoke-IsAssigned now w db v

-- From a registry where it holds, every history of operations keeps it: a repository is assigned to
-- one runner at most, runners have ids of their own, and the runner of an assignment is there and
-- is not revoked.
pub run-IsAssigned :
    (hash : String → String) (ops : List (ℕ × Op)) (db : Registry)
    → IsAssigned db.runners db.assignments
    → IsAssigned (run hash ops db).runners (run hash ops db).assignments
unfolding run
run-IsAssigned hash [] db v = v
run-IsAssigned hash ((now, op) ∷ ops) db v =
    run-IsAssigned hash ops (apply hash now op db) (apply-IsAssigned hash now op db v)
