-- ===== src/Daemon/Steps.antt =====
-- RunnerDaemon: _land_pending_result, complete_job and process_once.
use pr_reviewer.Base.{List, ℕ, String, Option, none, some, [], ◌∷◌, ◌==◌, if◌then◌else◌, ◌||◌}
use pr_reviewer.LocalStore.{
  PendingAcknowledgement, LocalStore, PendingAcknowledgementReason, network_unreachable,
}
use pr_reviewer.Daemon.{
  Machine, Surroundings, Ended, AckAnswer, ClaimAnswer, refused, accepted, raised, returned,
  answered, protocol_denied, unreachable, ack_unreachable,
}
use pr_reviewer.LocalStore.Pending.{resolve, list_pending, record_pending}
use pr_reviewer.Jobs.Runner.{JobAcknowledgement, JobEnvelope, Claimed, envelope, no_job}
use pr_reviewer.LocalStore.Jobs.{record_claimed, mark_completed}

-- _mark_pending_terminal: the entries are those that were there when it began
abbrev pub resolve_all : (job_id : ℕ) → List PendingAcknowledgement → LocalStore → LocalStore
resolve_all i [] s = s
resolve_all i (p ∷ ps) s =
    let kept = resolve_all i ps s in
    let resolved = resolve_all i ps (resolve p.id s) in if p.job_id == i then resolved else kept

unfoldable pub mark_pending_terminal : (job_id : ℕ) → LocalStore → LocalStore
mark_pending_terminal i s = resolve_all i (list_pending (mark_completed i s)) (mark_completed i s)

module _ {World : Type 0} where
  -- the machine after a call of the surroundings, and after a change of the store
  abbrev pub in_world : Machine World → World → Machine World
  in_world m w = record m { world = w }

  abbrev pub in_store : Machine World → LocalStore → Machine World
  in_store m s = record m { store = s }

module _ {World : Type 0} (c : Surroundings World) where
  abbrev pub credential_in : Option (World → Option String) → World → Option String
  credential_in none w = none
  credential_in (some get) w = get w

  abbrev pub with_credential : Option String → World → World
  with_credential none w = w
  with_credential (some credential) w = c.set_credential credential w

  unfoldable pub refresh_credential : World → World
  refresh_credential w = with_credential (credential_in c.credential w) w

  -- a result that is landed under a fresh lease
  abbrev pub after_landing : (job_id : ℕ) → Machine World → AckAnswer × World → Machine World
  after_landing i m (accepted, w) = record m { store = mark_pending_terminal i m.store; world = w }
  after_landing i m (_, w) = in_world m w

  abbrev pub land_on : (job_id : ℕ) → JobAcknowledgement → Machine World → Claimed → Machine World
  land_on i result m no_job = in_store m (mark_pending_terminal i m.store)
  land_on i result m (envelope e) =
      if e.job_id == i
      then after_landing i m (c.acknowledge e.job_id e.lease_token result m.world)
      else in_store m (mark_pending_terminal i (record_claimed (c.now m.world) e m.store))

  abbrev pub land_answer :
      (job_id : ℕ) → JobAcknowledgement → Machine World → ClaimAnswer → Machine World
  land_answer i result m unreachable = m
  land_answer i result m (refused is_revoked) = record m {
    store = mark_pending_terminal i m.store;
    stop_new_work = m.stop_new_work || is_revoked;
  }
  land_answer i result m (answered claimed) = land_on i result m claimed

  abbrev pub land_claimed :
      (job_id : ℕ) → JobAcknowledgement → Machine World → ClaimAnswer × World → Machine World
  land_claimed i result m (answer, w) = land_answer i result (in_world m w) answer

  unfoldable pub land_pending_result :
      (job_id : ℕ) → JobAcknowledgement → Machine World → Machine World
  land_pending_result i result m = land_claimed i result m (c.claim (refresh_credential m.world))

  abbrev pub keep_result :
      (job_id : ℕ) (lease_token : String)
      → JobAcknowledgement
      → PendingAcknowledgementReason
      → Machine World
      → Machine World
  keep_result i t result reason m =
      in_store m (record_pending (c.now m.world) i t result reason m.store)

  abbrev pub after_acknowledge :
      (job_id : ℕ) (lease_token : String)
      → JobAcknowledgement
      → Machine World
      → AckAnswer × World
      → Ended × Machine World
  after_acknowledge i t result m (accepted, w) =
      (returned, record m { store = mark_completed i m.store; world = w })
  after_acknowledge i t result m (protocol_denied, w) = (
    returned,
    land_pending_result i result
        (keep_result i t result PendingAcknowledgementReason.invalid_or_expired (in_world m w)),
  )
  after_acknowledge i t result m (ack_unreachable, w) =
      (raised, keep_result i t result network_unreachable (in_world m w))

  unfoldable pub complete_job :
      (job_id : ℕ) (lease_token : String)
      → JobAcknowledgement
      → Machine World
      → Ended × Machine World
  complete_job i t result m = after_acknowledge i t result m (c.acknowledge i t result m.world)

  -- the end of a review that returned or raised
  abbrev pub after_review :
      JobEnvelope → Machine World → Option JobAcknowledgement × World → Ended × Machine World
  after_review e m (none, w) = (raised, in_world m w)
  after_review e m (some result, w) = complete_job e.job_id e.lease_token result (in_world m w)

  abbrev pub review_with :
      Option (JobEnvelope → World → Option JobAcknowledgement × World)
      → JobEnvelope
      → Machine World
      → Ended × Machine World
  review_with none e m = (returned, m)
  review_with (some review) e m = after_review e m (review e m.world)

  unfoldable pub run_claimed_job : JobEnvelope → Machine World → Ended × Machine World
  run_claimed_job e m =
      review_with c.review e (in_store m (record_claimed (c.now m.world) e m.store))

  abbrev pub process_answer : Machine World → ClaimAnswer × World → Ended × Machine World
  process_answer m (unreachable, w) = (returned, in_world m w)
  process_answer m (refused is_revoked, w) =
      (returned, record m { stop_new_work = m.stop_new_work || is_revoked; world = w })
  process_answer m (answered no_job, w) = (returned, in_world m w)
  process_answer m (answered (envelope e), w) = run_claimed_job e (in_world m w)

  unfoldable pub process_once : Machine World → Ended × Machine World
  process_once m =
      if m.stop_new_work
      then (returned, m)
      else process_answer m (c.claim (refresh_credential m.world))
