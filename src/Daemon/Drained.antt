-- ===== src/Daemon/Drained.antt =====
-- A replay against a control plane that can be reached and accepts leaves nothing pending.
use mathlib.Core.List.{Memᴰ}
use pr_reviewer.Base.{
  refl, List, ℕ, [], ◌∷◌, ◌≡◌, ◌≢◌, true, ◌==◌, Bool-cases, inl, inr, arith, String, sort_by-mem,
  count_where, mem-sort_by, first_or_rest, delete_where-mem,
}
use pr_reviewer.Daemon.Steps.{
  mark_pending_terminal, resolve_all, land_pending_result, land_answer, after_landing,
  refresh_credential, in_world,
}
use pr_reviewer.LocalStore.{
  PendingAcknowledgement, LocalStore, PendingAcknowledgementReason, is_job, network_unreachable,
}
use pr_reviewer.Daemon.{
  Surroundings, unreachable, accepted, Machine, AckAnswer, ClaimAnswer, protocol_denied, refused,
  ack_unreachable, answered,
}
use pr_reviewer.LocalStore.Pending.{resolve, list_pending}
use pr_reviewer.Daemon.Numbered.{IsNumbered}
use pr_reviewer.LocalStore.Jobs.{mark_completed, record_claimed}
use pr_reviewer.Jobs.Runner.{JobAcknowledgement, JobEnvelope, envelope, no_job}
use pr_reviewer.Daemon.Loops.{
  replay_pending_acknowledgements, replay_all, replay_entry, after_replay, replay_for,
}

-- Claims are answered and acknowledgements are accepted.
pub record IsReachable {World : Type 0} (c : Surroundings World) : Type 0 where
  pub claims : (w : World) → (c.claim w).0 ≢ unreachable
  pub accepts :
      (i : ℕ) (t : String) (r : JobAcknowledgement) (w : World)
      → (c.acknowledge i t r w).0 ≡ accepted

-- No entry is new.
abbrev Shrinks : LocalStore → LocalStore → Type 0
Shrinks s s' =
    (q : PendingAcknowledgement)
    → Memᴰ q s'.pending_acknowledgements
    → Memᴰ q s.pending_acknowledgements

-- No entry has the number, and none is of the job.
abbrev Gone : ℕ → LocalStore → Type 0
Gone k s = (q : PendingAcknowledgement) → Memᴰ q s.pending_acknowledgements → q.id ≢ k

abbrev IsClear : ℕ → LocalStore → Type 0
IsClear i s = (q : PendingAcknowledgement) → Memᴰ q s.pending_acknowledgements → q.job_id ≢ i

resolve-Gone : (k : ℕ) (s : LocalStore) → Gone k (resolve k s)
unfolding resolve
resolve-Gone k s q i e =
    let h = (delete_where-mem (λ p. p.id == k) s.pending_acknowledgements i).1 in ground (arith)

resolve-Shrinks : (k : ℕ) (s : LocalStore) → Shrinks s (resolve k s)
unfolding resolve
resolve-Shrinks k s q i = (delete_where-mem (λ p. p.id == k) s.pending_acknowledgements i).0

resolve_all-Shrinks :
    (i : ℕ) (ps : List PendingAcknowledgement) (s : LocalStore) → Shrinks s (resolve_all i ps s)
resolve_all-Shrinks i [] s q n = n
resolve_all-Shrinks i (p ∷ ps) s q n = elim (Bool-cases (p.job_id == i)) [
  | inl e ↦ resolve-Shrinks p.id s q (resolve_all-Shrinks i ps (resolve p.id s) q (rw e at n))
  | inr e ↦ resolve_all-Shrinks i ps s q (rw e at n)
]

resolve_all-Gone :
    (i : ℕ) (ps : List PendingAcknowledgement) (s : LocalStore) {p : PendingAcknowledgement}
    → Memᴰ p ps
    → p.job_id ≡ i
    → Gone p.id (resolve_all i ps s)
resolve_all-Gone i [] s n e = elim n [ ]
resolve_all-Gone i (x ∷ ps) s {p} (Memᴰ.head h) e = λ q n k.
    let yes : (x.job_id == i) ≡ true = rw (← h) (ground (arith, e)) in
    resolve-Gone x.id s q (resolve_all-Shrinks i ps (resolve x.id s) q (rw yes at n)) (rw h at k)
resolve_all-Gone i (x ∷ ps) s {p} (Memᴰ.tail m) e = λ q n k. elim (Bool-cases (x.job_id == i)) [
  | inl f ↦ resolve_all-Gone i ps (resolve x.id s) m e q (rw f at n) k
  | inr f ↦ resolve_all-Gone i ps s m e q (rw f at n) k
]

terminal-Shrinks : (i : ℕ) (s : LocalStore) → Shrinks s (mark_pending_terminal i s)
unfolding mark_pending_terminal mark_completed
terminal-Shrinks i s =
    resolve_all-Shrinks i (list_pending (mark_completed i s)) (mark_completed i s)

terminal-IsClear : (i : ℕ) (s : LocalStore) → IsClear i (mark_pending_terminal i s)
unfolding mark_pending_terminal mark_completed list_pending
terminal-IsClear i s q n e =
    let old = terminal-Shrinks i s q n in
    resolve_all-Gone i (list_pending (mark_completed i s)) (mark_completed i s)
      (sort_by-mem (λ p. p.created_at) s.pending_acknowledgements old) e q n refl

abbrev Drains : ℕ → LocalStore → LocalStore → Type 0
Drains i s s' = Shrinks s s' × IsClear i s'

terminal-Drains : (i : ℕ) (s : LocalStore) → Drains i s (mark_pending_terminal i s)
terminal-Drains i s = (terminal-Shrinks i s, terminal-IsClear i s)

claimed-Shrinks : (now : ℕ) (e : JobEnvelope) (s : LocalStore) → Shrinks s (record_claimed now e s)
unfolding record_claimed
claimed-Shrinks now e s q n = elim (Bool-cases (count_where (is_job e.job_id) s.jobs == 0)) [
  | inl z ↦ rw z at n
  | inr z ↦ rw z at n
]

no_member :
    (ps : List PendingAcknowledgement) → ((q : PendingAcknowledgement) → ¬ Memᴰ q ps) → ps ≡ []
no_member [] h = refl
no_member (p ∷ ps) h = absurd (h p (Memᴰ.head refl))

module _ {World : Type 0} {c : Surroundings World} (reachable : IsReachable c) where
  after_landing-Drains :
      (i : ℕ) (m : Machine World) (o : AckAnswer × World)
      → o.0 ≡ accepted
      → Drains i m.store (after_landing c i m o).store
  after_landing-Drains i m (accepted, w) h = terminal-Drains i m.store
  after_landing-Drains i m (protocol_denied, w) h = absurd cc
  after_landing-Drains i m (ack_unreachable, w) h = absurd cc

  land_answer-Drains :
      (i : ℕ) (r : JobAcknowledgement) (m : Machine World) (a : ClaimAnswer)
      → a ≢ unreachable
      → Drains i m.store (land_answer c i r m a).store
  land_answer-Drains i r m unreachable h = absurd (h refl)
  land_answer-Drains i r m (refused b) h = terminal-Drains i m.store
  land_answer-Drains i r m (answered no_job) h = terminal-Drains i m.store
  land_answer-Drains i r m (answered (envelope e)) h = elim (Bool-cases (e.job_id == i)) [
    | inl q ↦ rw q (
        after_landing-Drains i m (c.acknowledge e.job_id e.lease_token r m.world)
          (reachable.accepts e.job_id e.lease_token r m.world))
    | inr q ↦
        let s = record_claimed (c.now m.world) e m.store in
        let (fewer, clear) = terminal-Drains i s in
        rw q ((λ x n. claimed-Shrinks (c.now m.world) e m.store x (fewer x n)), clear)
  ]

  after_replay-Gone :
      (p : PendingAcknowledgement) (m : Machine World) (o : AckAnswer × World)
      → o.0 ≡ accepted
      → Shrinks m.store (after_replay c p m o).store × Gone p.id (after_replay c p m o).store
  unfolding mark_completed
  after_replay-Gone p m (accepted, w) h = (resolve-Shrinks p.id m.store, resolve-Gone p.id m.store)
  after_replay-Gone p m (protocol_denied, w) h = absurd cc
  after_replay-Gone p m (ack_unreachable, w) h = absurd cc

  replay_for-Gone :
      (reason : PendingAcknowledgementReason) (p : PendingAcknowledgement) (m : Machine World)
      → ((q : PendingAcknowledgement)
          → Memᴰ q m.store.pending_acknowledgements
          → q.id ≡ p.id
          → q.job_id ≡ p.job_id)
      → Shrinks m.store (replay_for c reason p m).store × Gone p.id (replay_for c reason p m).store
  unfolding land_pending_result
  replay_for-Gone network_unreachable p m t =
      after_replay-Gone p m (c.acknowledge p.job_id p.lease_token p.result m.world)
        (reachable.accepts p.job_id p.lease_token p.result m.world)
  replay_for-Gone PendingAcknowledgementReason.invalid_or_expired p m t =
      let (a, w) = c.claim (refresh_credential c m.world) in
      let (fewer, clear) =
        land_answer-Drains p.job_id p.result (in_world m w) a
          (reachable.claims (refresh_credential c m.world)) in
      (fewer, λ q n e. clear q n (t q (fewer q n) e))

  replay_all-Gone :
      (ps : List PendingAcknowledgement) (m : Machine World)
      → ((p : PendingAcknowledgement)
          → Memᴰ p ps
          → (q : PendingAcknowledgement) → Memᴰ q m.store.pending_acknowledgements
          → q.id ≡ p.id
          → q.job_id ≡ p.job_id)
      → Shrinks m.store (replay_all c ps m).store
        × ((p : PendingAcknowledgement) → Memᴰ p ps → Gone p.id (replay_all c ps m).store)
  unfolding replay_all replay_entry
  replay_all-Gone [] m t = ((λ q n. n), λ p n. elim n [ ])
  replay_all-Gone (p ∷ ps) m t =
      let (fewer, gone) = replay_for-Gone p.reason p m (t p (Memᴰ.head refl)) in
      let (fewer', gone') =
        replay_all-Gone ps (replay_entry c p m) (λ x i q n. t x (Memᴰ.tail i) q (fewer q n)) in
      (
        (λ q n. fewer q (fewer' q n)),
        first_or_rest (λ x. Gone x.id (replay_all c (p ∷ ps) m).store) p ps
            (λ q n. gone q (fewer' q n)) gone',
      )

  -- A replay against a control plane that answers claims and accepts acknowledgements leaves no
  -- acknowledgement pending, whatever the reasons were.
  pub replay_drains :
      (m : Machine World)
      → IsNumbered m.store
      → (replay_pending_acknowledgements c m).store.pending_acknowledgements ≡ []
  unfolding replay_pending_acknowledgements list_pending
  replay_drains m v =
      let sorted : PendingAcknowledgement → ℕ = λ p. p.created_at in
      let old = m.store.pending_acknowledgements in
      let (fewer, gone) =
        replay_all-Gone (list_pending m.store) m
          (λ p i q n e. (v p (mem-sort_by sorted old i)).job q n (ground (arith, e))) in
      no_member _ (λ q n. gone q (sort_by-mem sorted old (fewer q n)) q n refl)
