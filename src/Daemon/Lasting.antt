-- ===== src/Daemon/Lasting.antt =====
-- A result is kept over recovery, replays, restarts and rounds of the poll loop.
use mathlib.Core.List.{Memᴰ}
use pr_reviewer.Base.{refl, List, ℕ, [], ◌∷◌, ◌≡◌, arith, mem-sort_by, subst, sym}
use pr_reviewer.Daemon.{
  Surroundings, Machine, AckAnswer, accepted, protocol_denied, ack_unreachable,
}
use pr_reviewer.Daemon.Kept.{IsSettling, moved, land_pending_result-Change, completed-Change}
use pr_reviewer.Daemon.Loops.{
  replay_pending_acknowledgements, replay_all, replay_entry, after_replay, replay_for,
}
use pr_reviewer.LocalStore.{
  PendingAcknowledgement, PendingAcknowledgementReason, network_unreachable, LocalStore,
}
use pr_reviewer.Daemon.Steps.{in_store, in_world}
use pr_reviewer.LocalStore.Pending.{list_pending, resolve}
use pr_reviewer.Daemon.Changes.{Change, Kept}
use pr_reviewer.Daemon.Numbered.{IsNumbered, Change-IsNumbered, Tracks, Change-Tracks}

module _ {World : Type 0} {c : Surroundings World} {Settled : ℕ → World → Type 0}
    (law : IsSettling c Settled) where
  abbrev To : Machine World → Machine World → Type 0
  To = Change Settled

  after_replay-Change :
      (p : PendingAcknowledgement) (m : Machine World) (o : AckAnswer × World)
      → ((k : ℕ) → Settled k m.world → Settled k o.1)
      → (o.0 ≡ accepted → Settled p.job_id o.1)
      → Tracks p.id p.job_id m.store
      → To m (after_replay c p m o)
  after_replay-Change p m (protocol_denied, w) f g t =
      Change.both (moved law m w f) (Change.bump p.id)
  after_replay-Change p m (ack_unreachable, w) f g t =
      Change.both (moved law m w f) (Change.bump p.id)
  after_replay-Change p m (accepted, w) f g t =
      let d : To (in_world m w) (in_store (in_world m w) (resolve p.id m.store)) =
        Change.drop p.id
          (λ q n e. subst (λ k. Settled k w) (sym (t.job q n (ground arith))) (g refl)) in
      Change.both (moved law m w f) (
        Change.both d
          (completed-Change law p.job_id (in_store (in_world m w) (resolve p.id m.store))))

  replay_for-Change :
      (reason : PendingAcknowledgementReason) (p : PendingAcknowledgement) (m : Machine World)
      → IsNumbered m.store
      → Tracks p.id p.job_id m.store
      → To m (replay_for c reason p m)
  replay_for-Change PendingAcknowledgementReason.invalid_or_expired p m v t =
      land_pending_result-Change law p.job_id p.result m v
  replay_for-Change network_unreachable p m v t =
      after_replay-Change p m (c.acknowledge p.job_id p.lease_token p.result m.world)
        (λ k. law.after_acknowledge k p.job_id p.lease_token p.result m.world)
        (law.accepting p.job_id p.lease_token p.result m.world) t

  replay_all-Change :
      (ps : List PendingAcknowledgement) (m : Machine World)
      → IsNumbered m.store
      → ((p : PendingAcknowledgement) → Memᴰ p ps → Tracks p.id p.job_id m.store)
      → To m (replay_all c ps m)
  unfolding replay_all replay_entry
  replay_all-Change [] m v tracked = Change.stay
  replay_all-Change (p ∷ ps) m v tracked =
      let d = replay_for-Change p.reason p m v (tracked p (Memᴰ.head refl)) in
      Change.both d (
        replay_all-Change ps (replay_entry c p m) (Change-IsNumbered d v)
          (λ q i. Change-Tracks q.id q.job_id d (tracked q (Memᴰ.tail i))))

  pub replay-Change :
      (m : Machine World) → IsNumbered m.store → To m (replay_pending_acknowledgements c m)
  unfolding replay_pending_acknowledgements list_pending
  replay-Change m v =
      replay_all-Change (list_pending m.store) m v
        (λ p i. v p (mem-sort_by (λ q. q.created_at) m.store.pending_acknowledgements i))
