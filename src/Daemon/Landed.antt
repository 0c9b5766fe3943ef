-- ===== src/Daemon/Landed.antt =====
-- A result that waits is brought to a control plane that can be reached by the first replay.
use mathlib.Core.List.{Memᴰ}
use pr_reviewer.Daemon.Loops.{
  replay_pending_acknowledgements, replay_all, replay_for, replay_entry, after_replay,
}
use pr_reviewer.Daemon.{
  Surroundings, Machine, AckAnswer, ClaimAnswer, accepted, unreachable, protocol_denied, refused,
  answered, ack_unreachable,
}
use pr_reviewer.LocalStore.{
  PendingAcknowledgementReason, PendingAcknowledgement, LocalStore, network_unreachable,
}
use pr_reviewer.Daemon.Steps.{
  land_pending_result, refresh_credential, in_world, after_landing, land_answer, credential_in,
}
use pr_reviewer.Base.{
  ℕ, List, subst, ◌≡◌, Bool, ◌∷◌, inl, inr, sym, ◌≢◌, [], Option-cases, ◌⊎◌, ap, refl, Bool-cases,
  ◌==◌, arith, sort_by-mem,
}
use pr_reviewer.LocalStore.Pending.{list_pending}
use pr_reviewer.Daemon.Drained.{IsReachable, replay_drains}
use pr_reviewer.Jobs.Runner.{JobAcknowledgement, envelope, no_job}
use pr_reviewer.Daemon.Logged.{Event, Log, logged, acknowledged, IsReleased, claimed}
use pr_reviewer.Daemon.Numbered.{IsNumbered}

-- What becomes of an entry by the replay: its result was accepted; or, where it waits because its
-- lease was lost, a claim was answered without its job.
abbrev pub IsLanded :
    PendingAcknowledgementReason → (job_id : ℕ) → JobAcknowledgement → Log → Type 0
IsLanded network_unreachable i r log = Memᴰ (acknowledged i r accepted) log
IsLanded PendingAcknowledgementReason.invalid_or_expired i r log =
    Memᴰ (acknowledged i r accepted) log ⊎ IsReleased i log

module _ {World : Type 0} (c : Surroundings World) where
  abbrev Logged : Type 0
  Logged = Machine (World × Log)

  after_replay-world :
      (p : PendingAcknowledgement) (m : Logged) (o : AckAnswer × (World × Log))
      → o.1 ≡ (after_replay (logged c) p m o).world
  after_replay-world p m (accepted, w) = refl
  after_replay-world p m (protocol_denied, w) = refl
  after_replay-world p m (ack_unreachable, w) = refl

  after_landing-world :
      (i : ℕ) (m : Logged) (o : AckAnswer × (World × Log))
      → o.1 ≡ (after_landing (logged c) i m o).world
  after_landing-world i m (accepted, w) = refl
  after_landing-world i m (protocol_denied, w) = refl
  after_landing-world i m (ack_unreachable, w) = refl

  refresh-log : (x : World × Log) → (refresh_credential (logged c) x).1 ≡ x.1
  unfolding refresh_credential
  refresh-log x = elim (Option-cases (credential_in (logged c) (logged c).credential x)) [
    | inl e ↦ rw e refl
    | inr (s, e) ↦ rw e refl
  ]

  land_answer_log :
      (i : ℕ) (r : JobAcknowledgement) (m : Logged) (a : ClaimAnswer) (e : Event)
      → Memᴰ e m.world.1
      → Memᴰ e (land_answer (logged c) i r m a).world.1
  land_answer_log i r m unreachable e h = h
  land_answer_log i r m (refused b) e h = h
  land_answer_log i r m (answered no_job) e h = h
  land_answer_log i r m (answered (envelope v)) e h = elim (Bool-cases (v.job_id == i)) [
    | inl q ↦ rw q (
        subst (λ x. Memᴰ e x.1)
          (after_landing-world i m ((logged c).acknowledge v.job_id v.lease_token r m.world))
          (Memᴰ.tail h))
    | inr q ↦ rw q h
  ]

  -- the log only grows
  replay_for_log :
      (reason : PendingAcknowledgementReason) (p : PendingAcknowledgement) (m : Logged) (e : Event)
      → Memᴰ e m.world.1
      → Memᴰ e (replay_for (logged c) reason p m).world.1
  unfolding land_pending_result
  replay_for_log network_unreachable p m e h =
      subst (λ x. Memᴰ e x.1)
        (after_replay-world p m ((logged c).acknowledge p.job_id p.lease_token p.result m.world))
        (Memᴰ.tail h)
  replay_for_log PendingAcknowledgementReason.invalid_or_expired p m e h =
      let (a, w) = (logged c).claim (refresh_credential (logged c) m.world) in
      land_answer_log p.job_id p.result (in_world m w) a e (Memᴰ.tail (rw (refresh-log m.world) h))

  replay_all_log :
      (ps : List PendingAcknowledgement) (m : Logged) (e : Event)
      → Memᴰ e m.world.1
      → Memᴰ e (replay_all (logged c) ps m).world.1
  unfolding replay_all replay_entry
  replay_all_log [] m e h = h
  replay_all_log (p ∷ ps) m e h =
      replay_all_log ps (replay_entry (logged c) p m) e (replay_for_log p.reason p m e h)

  replay_all-IsLanded :
      (ps : List PendingAcknowledgement) (m : Logged) (reason : PendingAcknowledgementReason)
      (i : ℕ) (r : JobAcknowledgement)
      → IsLanded reason i r m.world.1
      → IsLanded reason i r (replay_all (logged c) ps m).world.1
  replay_all-IsLanded ps m network_unreachable i r h = replay_all_log ps m _ h
  replay_all-IsLanded ps m PendingAcknowledgementReason.invalid_or_expired i r (inl h) =
      inl (replay_all_log ps m _ h)
  replay_all-IsLanded ps m PendingAcknowledgementReason.invalid_or_expired i r (inr (a, h, q)) =
      inr (a, replay_all_log ps m _ h, q)

  module _ (reachable : IsReachable c) where
    logged-IsReachable : IsReachable (logged c)
    logged-IsReachable = record {
      claims = λ x. reachable.claims x.0;
      accepts = λ i t r x. reachable.accepts i t r x.0;
    }

    land_answer-IsLanded :
        (i : ℕ) (r : JobAcknowledgement) (m : Logged) (a : ClaimAnswer)
        → a ≢ unreachable
        → Memᴰ (claimed a) m.world.1
        → IsLanded PendingAcknowledgementReason.invalid_or_expired i r
            (land_answer (logged c) i r m a).world.1
    land_answer-IsLanded i r m unreachable n h = absurd (n refl)
    land_answer-IsLanded i r m (refused b) n h = inr (refused b, h, refl)
    land_answer-IsLanded i r m (answered no_job) n h = inr (answered no_job, h, refl)
    land_answer-IsLanded i r m (answered (envelope v)) n h = elim (Bool-cases (v.job_id == i)) [
      | inl q ↦
          let same : v.job_id ≡ i = ground arith in
          rw q (
            inl (
              subst (λ x. Memᴰ (acknowledged i r accepted) x.1)
                (after_landing-world i m ((logged c).acknowledge v.job_id v.lease_token r m.world))
                (rw (← same) (
                  Memᴰ.head (
                    ap (λ a. acknowledged v.job_id r a)
                      (sym (reachable.accepts v.job_id v.lease_token r m.world.0)))))))
      | inr q ↦
          let h' = land_answer_log i r m (answered (envelope v)) _ h in
          inr (answered (envelope v), h', rw q refl)
    ]

    replay_for-IsLanded :
        (reason : PendingAcknowledgementReason) (p : PendingAcknowledgement) (m : Logged)
        → IsLanded reason p.job_id p.result (replay_for (logged c) reason p m).world.1
    unfolding land_pending_result
    replay_for-IsLanded network_unreachable p m =
        subst (λ x. Memᴰ (acknowledged p.job_id p.result accepted) x.1)
          (after_replay-world p m ((logged c).acknowledge p.job_id p.lease_token p.result m.world))
          (Memᴰ.head (
            ap (λ a. acknowledged p.job_id p.result a)
              (sym (reachable.accepts p.job_id p.lease_token p.result m.world.0))))
    replay_for-IsLanded PendingAcknowledgementReason.invalid_or_expired p m =
        let start = refresh_credential (logged c) m.world in
        let (a, w) = (logged c).claim start in
        land_answer-IsLanded p.job_id p.result (in_world m w) a (reachable.claims start.0)
          (Memᴰ.head refl)

    replayed-IsLanded :
        (ps : List PendingAcknowledgement) (m : Logged) {p : PendingAcknowledgement}
        → Memᴰ p ps
        → IsLanded p.reason p.job_id p.result (replay_all (logged c) ps m).world.1
    unfolding replay_all replay_entry
    replayed-IsLanded [] m i = elim i [ ]
    replayed-IsLanded (x ∷ ps) m {p} (Memᴰ.head e) =
        subst (λ y. IsLanded y.reason y.job_id y.result (replay_all (logged c) (x ∷ ps) m).world.1)
          (sym e)
          (replay_all-IsLanded ps (replay_entry (logged c) x m) x.reason x.job_id x.result
            (replay_for-IsLanded x.reason x m))
    replayed-IsLanded (x ∷ ps) m (Memᴰ.tail i) =
        replayed-IsLanded ps (replay_entry (logged c) x m) i

-- A replay against a control plane that answers every claim and accepts every acknowledgement leaves
-- none pending. Of each result that waited, in the course of the replay, the control plane accepted
-- it; or, only if it waited because its lease was lost, a claim was answered without its job (no job,
-- another one, or a refusal), upon which the runner gives the result up.
pub replay-Stored :
    {World : Type 0} (c : Surroundings World)
    → IsReachable c
    → (p : PendingAcknowledgement) (store : LocalStore) (stop : Bool) (w : World) → IsNumbered store
    → Memᴰ p store.pending_acknowledgements
    → let m : Machine (World × Log) = record {
      store = store;
      stop_new_work = stop;
      world = (w, []);
    } in
      let m' = replay_pending_acknowledgements (logged c) m in
      IsLanded p.reason p.job_id p.result m'.world.1 × (m'.store.pending_acknowledgements ≡ [])
unfolding replay_pending_acknowledgements list_pending
replay-Stored {World = World} c reachable p store stop w v h =
    let m : Machine (World × Log) = record {
      store = store;
      stop_new_work = stop;
      world = (w, []);
    } in
    (
      replayed-IsLanded c reachable (list_pending store) m
          (sort_by-mem (λ q. q.created_at) store.pending_acknowledgements h),
      replay_drains (logged-IsReachable c reachable) m v,
    )
