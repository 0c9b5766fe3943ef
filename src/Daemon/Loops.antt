-- ===== src/Daemon/Loops.antt =====
-- RunnerDaemon: recover, replay_pending_acknowledgements, start and _poll_loop.
use pr_reviewer.Base.{List, ℕ, Option, none, some, [], ◌∷◌, zero, suc, if◌then◌else◌}
use pr_reviewer.LocalStore.{
  LocalJob, PendingAcknowledgementReason, PendingAcknowledgement, network_unreachable,
}
use pr_reviewer.Daemon.{Surroundings, Machine, Ended, raised, returned, AckAnswer, accepted}
use pr_reviewer.Jobs.Runner.{JobEnvelope, LeaseState, active}
use pr_reviewer.LocalStore.Jobs.{list_claimed, mark_completed, mark_abandoned}
use pr_reviewer.LocalStore.Pending.{list_pending, resolve, bump_attempt}
use pr_reviewer.Daemon.Steps.{land_pending_result, in_world, review_with, process_once}

-- _envelope_from_local_job
abbrev pub envelope_from_local_job : LocalJob → JobEnvelope
envelope_from_local_job j = record {
  job_id = j.job_id;
  target = j.target;
  lease_token = j.lease_token;
}

module _ {World : Type 0} (c : Surroundings World) where
  abbrev pub recover_lease :
      LocalJob → Machine World → Option LeaseState × World → Ended × Machine World
  recover_lease j m (none, w) = (returned, in_world m w)
  recover_lease j m (some active, w) =
      review_with c c.review (envelope_from_local_job j) (in_world m w)
  recover_lease j m (some _, w) =
      (returned, record m { store = mark_abandoned j.job_id m.store; world = w })

  unfoldable pub recover_job : LocalJob → Machine World → Ended × Machine World
  recover_job j m = recover_lease j m (c.heartbeat j.job_id j.lease_token m.world)

  -- an exception ends the loop that it is raised in
  abbrev pub unless_raised :
      Ended × Machine World → (Machine World → Ended × Machine World) → Ended × Machine World
  unless_raised (raised, m) next = (raised, m)
  unless_raised (returned, m) next = next m

  unfoldable pub recover_all : List LocalJob → Machine World → Ended × Machine World
  recover_all [] m = (returned, m)
  recover_all (j ∷ js) m = let next = recover_all js in unless_raised (recover_job j m) next

  unfoldable pub recover : Machine World → Ended × Machine World
  recover m = recover_all (list_claimed m.store) m

  abbrev pub after_replay :
      PendingAcknowledgement → Machine World → AckAnswer × World → Machine World
  after_replay p m (accepted, w) = record m {
    store = mark_completed p.job_id (resolve p.id m.store);
    world = w;
  }
  after_replay p m (_, w) = record m { store = bump_attempt p.id m.store; world = w }

  abbrev pub replay_for :
      PendingAcknowledgementReason → PendingAcknowledgement → Machine World → Machine World
  replay_for PendingAcknowledgementReason.invalid_or_expired p m =
      land_pending_result c p.job_id p.result m
  replay_for network_unreachable p m =
      after_replay p m (c.acknowledge p.job_id p.lease_token p.result m.world)

  unfoldable pub replay_entry : PendingAcknowledgement → Machine World → Machine World
  replay_entry p m = replay_for p.reason p m

  unfoldable pub replay_all : List PendingAcknowledgement → Machine World → Machine World
  replay_all [] m = m
  replay_all (p ∷ ps) m = replay_all ps (replay_entry p m)

  unfoldable pub replay_pending_acknowledgements : Machine World → Machine World
  replay_pending_acknowledgements m = replay_all (list_pending m.store) m

  -- the rounds of _poll_loop, the first of them
  unfoldable pub poll_loop : (rounds : ℕ) → Machine World → Ended × Machine World
  poll_loop zero m = (returned, m)
  poll_loop (suc n) m =
      let again = poll_loop n in
      let next : Machine World → Ended × Machine World =
        λ k. if k.stop_new_work then (returned, k) else again (in_world k (c.wait k.world)) in
      if c.is_stopping m.world then (returned, m) else unless_raised (process_once c m) next

  -- start, with the rounds of the thread that it starts
  unfoldable pub start : (rounds : ℕ) → Machine World → Ended × Machine World
  start rounds m =
      let begin : Machine World → Ended × Machine World =
        λ k. poll_loop rounds (in_world k (c.clear_stop k.world)) in
      unless_raised (recover m) (λ k. begin (replay_pending_acknowledgements k))
