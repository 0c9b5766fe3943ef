-- ===== src/Daemon/Kept.antt =====
-- A result that the runner was handed is not lost.
use mathlib.Core.List.{Memᴰ}
use pr_reviewer.Base.{
  refl, List, ℕ, String, Bool, [], ◌∷◌, ◌≡◌, true, false, ◌==◌, not, ◌||◌, Bool-cases, inl, inr,
  arith, some, Option, Option-cases, subst, sym, ◌∙◌, mem-sort_by, count_where, mem-append_last,
}
use pr_reviewer.Daemon.{
  ClaimAnswer, Surroundings, Machine, refused, answered, accepted, unreachable, AckAnswer,
  protocol_denied, ack_unreachable,
}
use pr_reviewer.Jobs.Runner.{JobAcknowledgement, JobEnvelope, envelope, no_job}
use pr_reviewer.LocalStore.{
  PendingAcknowledgement, network_unreachable, is_job, PendingAcknowledgementReason, LocalStore,
}
use pr_reviewer.Daemon.Numbered.{Tracks, Change-Tracks, IsNumbered, Change-IsNumbered}
use pr_reviewer.Daemon.Changes.{Change, Kept, Change-Kept, Stored}
use pr_reviewer.Daemon.Steps.{
  in_store, resolve_all, in_world, mark_pending_terminal, refresh_credential, land_answer,
  credential_in, complete_job, land_pending_result, after_acknowledge, after_landing, keep_result,
}
use pr_reviewer.LocalStore.Pending.{resolve, list_pending, record_pending, pending_row}
use pr_reviewer.LocalStore.Jobs.{mark_completed, record_claimed}

-- The control plane answered, and not with the job.
abbrev pub is_without : ℕ → ClaimAnswer → Bool
is_without i unreachable = false
is_without i (refused b) = true
is_without i (answered no_job) = true
is_without i (answered (envelope e)) = not (e.job_id == i)

-- What the proofs ask of a property `Settled` of a job and the world: that it comes about when a
-- result of the job is accepted, or a claim is answered without the job, which are the occasions on
-- which the runner drops a result; and that it stays. The log of the answers has one such property
-- (Daemon/Logged.antt); nothing is said of the state of the job on the control plane.
pub record IsSettling {World : Type 0} (c : Surroundings World) (Settled : ℕ → World → Type 0)
    : Type 0 where
  pub accepting :
      (i : ℕ) (t : String) (r : JobAcknowledgement) (w : World)
      → (c.acknowledge i t r w).0 ≡ accepted
      → Settled i (c.acknowledge i t r w).1
  pub answering : (i : ℕ) (w : World) → is_without i (c.claim w).0 ≡ true → Settled i (c.claim w).1
  pub after_claim : (i : ℕ) (w : World) → Settled i w → Settled i (c.claim w).1
  pub after_acknowledge :
      (i k : ℕ) (t : String) (r : JobAcknowledgement) (w : World)
      → Settled i w
      → Settled i (c.acknowledge k t r w).1
  pub after_heartbeat :
      (i k : ℕ) (t : String) (w : World) → Settled i w → Settled i (c.heartbeat k t w).1
  pub after_credential :
      (i : ℕ) (x : String) (w : World) → Settled i w → Settled i (c.set_credential x w)
  pub after_review :
      (review : JobEnvelope → World → Option JobAcknowledgement × World)
      → c.review ≡ some review
      → (i : ℕ) (e : JobEnvelope) (w : World) → Settled i w
      → Settled i (review e w).1
  pub after_wait : (i : ℕ) (w : World) → Settled i w → Settled i (c.wait w)
  pub after_clear : (i : ℕ) (w : World) → Settled i w → Settled i (c.clear_stop w)

stored :
    (now i : ℕ) (t : String) (r : JobAcknowledgement) (reason : PendingAcknowledgementReason)
    (s : LocalStore)
    → Stored i r (record_pending now i t r reason s)
unfolding record_pending
stored now i t r reason s = record {
  entry = pending_row s.fresh_pending now i t r reason;
  is_there = mem-append_last s.pending_acknowledgements _;
  job = refl;
  result = refl;
}

module _ {World : Type 0} {c : Surroundings World} {Settled : ℕ → World → Type 0}
    (law : IsSettling c Settled) where
  abbrev To : Machine World → Machine World → Type 0
  To = Change Settled

  resolve_all-Change :
      (i : ℕ) (ps : List PendingAcknowledgement) (m : Machine World)
      → Settled i m.world
      → ((p : PendingAcknowledgement) → Memᴰ p ps → Tracks p.id p.job_id m.store)
      → To m (in_store m (resolve_all i ps m.store))
  resolve_all-Change i [] m h tracked = Change.stay
  resolve_all-Change i (p ∷ ps) m h tracked = elim (Bool-cases (p.job_id == i)) [
    | inr e ↦ rw e (resolve_all-Change i ps m h (λ q n. tracked q (Memᴰ.tail n)))
    | inl e ↦
        let d : To m (in_store m (resolve p.id m.store)) = Change.drop p.id (λ q n g.
          subst (λ k. Settled k m.world)
            (sym ((tracked p (Memᴰ.head refl)).job q n (ground arith) ∙ ground arith)) h) in
        rw e (
          Change.both d (
            resolve_all-Change i ps (in_store m (resolve p.id m.store)) h
              (λ q n. Change-Tracks q.id q.job_id d (tracked q (Memᴰ.tail n)))))
  ]

  terminal-Change :
      (i : ℕ) (m : Machine World)
      → IsNumbered m.store
      → Settled i m.world
      → To m (in_store m (mark_pending_terminal i m.store))
  unfolding mark_pending_terminal mark_completed list_pending
  terminal-Change i m v h =
      let done : To m (in_store m (mark_completed i m.store)) =
        Change.write (mark_completed i m.store) refl refl in
      Change.both done (
        resolve_all-Change i (list_pending (mark_completed i m.store))
          (in_store m (mark_completed i m.store)) h
          (λ p n.
            Change-Tracks p.id p.job_id done
              (v p (mem-sort_by (λ q. q.created_at) m.store.pending_acknowledgements n))))

  -- a call of the surroundings, and what is made of the machine that it leaves
  pub moved :
      (m : Machine World) (w : World)
      → ((i : ℕ) → Settled i m.world → Settled i w)
      → To m (in_world m w)
  moved m w f = Change.move w m.stop_new_work f

  pub refresh-Settled : (i : ℕ) (w : World) → Settled i w → Settled i (refresh_credential c w)
  unfolding refresh_credential
  refresh-Settled i w h = elim (Option-cases (credential_in c c.credential w)) [
    | inl e ↦ rw e h
    | inr (x, e) ↦ rw e (law.after_credential i x w h)
  ]

  pub completed-Change : (i : ℕ) (m : Machine World) → To m (in_store m (mark_completed i m.store))
  unfolding mark_completed
  completed-Change i m = Change.write _ refl refl

  pub claimed-Change :
      (now : ℕ) (e : JobEnvelope) (m : Machine World)
      → To m (in_store m (record_claimed now e m.store))
  unfolding record_claimed
  claimed-Change now e m = elim (Bool-cases (count_where (is_job e.job_id) m.store.jobs == 0)) [
    | inl q ↦ rw q (Change.write _ refl refl)
    | inr q ↦ rw q Change.stay
  ]

  after_landing-Change :
      (i : ℕ) (m : Machine World) (o : AckAnswer × World)
      → IsNumbered m.store
      → ((k : ℕ) → Settled k m.world → Settled k o.1)
      → (o.0 ≡ accepted → Settled i o.1)
      → To m (after_landing c i m o)
  after_landing-Change i m (accepted, w) v f g =
      Change.both (moved m w f) (terminal-Change i (in_world m w) v (g refl))
  after_landing-Change i m (protocol_denied, w) v f g = moved m w f
  after_landing-Change i m (ack_unreachable, w) v f g = moved m w f

  land_answer-Change :
      (i : ℕ) (r : JobAcknowledgement) (m : Machine World) (a : ClaimAnswer)
      → IsNumbered m.store
      → (is_without i a ≡ true → Settled i m.world)
      → To m (land_answer c i r m a)
  land_answer-Change i r m unreachable v h = Change.stay
  land_answer-Change i r m (refused b) v h =
      Change.both (terminal-Change i m v (h refl))
        (Change.move m.world (m.stop_new_work || b) (λ k q. q))
  land_answer-Change i r m (answered no_job) v h = terminal-Change i m v (h refl)
  land_answer-Change i r m (answered (envelope e)) v h = elim (Bool-cases (e.job_id == i)) [
    | inl q ↦
        let same : e.job_id ≡ i = ground arith in
        rw q (
          after_landing-Change i m (c.acknowledge e.job_id e.lease_token r m.world) v
            (λ k. law.after_acknowledge k e.job_id e.lease_token r m.world)
            (λ z.
              subst (λ k. Settled k (c.acknowledge e.job_id e.lease_token r m.world).1) same
                (law.accepting e.job_id e.lease_token r m.world z)))
    | inr q ↦
        let d = claimed-Change (c.now m.world) e m in
        rw q (
          Change.both d (
            terminal-Change i (in_store m (record_claimed (c.now m.world) e m.store))
              (Change-IsNumbered d v) (h (rw q refl))))
  ]

  pub land_pending_result-Change :
      (i : ℕ) (r : JobAcknowledgement) (m : Machine World)
      → IsNumbered m.store
      → To m (land_pending_result c i r m)
  unfolding land_pending_result
  land_pending_result-Change i r m v =
      let start = refresh_credential c m.world in
      let (a, w) = c.claim start in
      Change.both (moved m w (λ k h. law.after_claim k start (refresh-Settled k m.world h)))
        (land_answer-Change i r (in_world m w) a v (law.answering i start))

  after_acknowledge-Change :
      (i : ℕ) (t : String) (r : JobAcknowledgement) (m : Machine World) (o : AckAnswer × World)
      → IsNumbered m.store
      → ((k : ℕ) → Settled k m.world → Settled k o.1)
      → To m (after_acknowledge c i t r m o).1
  after_acknowledge-Change i t r m (accepted, w) v f =
      Change.both (moved m w f) (completed-Change i (in_world m w))
  after_acknowledge-Change i t r m (ack_unreachable, w) v f =
      Change.both (moved m w f) (Change.keep (c.now w) i t r network_unreachable)
  after_acknowledge-Change i t r m (protocol_denied, w) v f =
      let d : To m
          (keep_result c i t r PendingAcknowledgementReason.invalid_or_expired (in_world m w)) =
        Change.both (moved m w f)
          (Change.keep (c.now w) i t r PendingAcknowledgementReason.invalid_or_expired) in
      Change.both d (land_pending_result-Change i r _ (Change-IsNumbered d v))

  pub complete_job-Change :
      (i : ℕ) (t : String) (r : JobAcknowledgement) (m : Machine World)
      → IsNumbered m.store
      → To m (complete_job c i t r m).1
  unfolding complete_job
  complete_job-Change i t r m v =
      after_acknowledge-Change i t r m (c.acknowledge i t r m.world) v
        (λ k. law.after_acknowledge k i t r m.world)

  after_acknowledge-Kept :
      (i : ℕ) (t : String) (r : JobAcknowledgement) (m : Machine World) (o : AckAnswer × World)
      → IsNumbered m.store
      → (o.0 ≡ accepted → Settled i o.1)
      → Kept Settled i r (after_acknowledge c i t r m o).1
  after_acknowledge-Kept i t r m (accepted, w) v f = inl (f refl)
  after_acknowledge-Kept i t r m (ack_unreachable, w) v f =
      inr (stored (c.now w) i t r network_unreachable m.store)
  after_acknowledge-Kept i t r m (protocol_denied, w) v f =
      let d : To (in_world m w)
          (keep_result c i t r PendingAcknowledgementReason.invalid_or_expired (in_world m w)) =
        Change.keep (c.now w) i t r PendingAcknowledgementReason.invalid_or_expired in
      Change-Kept i r (land_pending_result-Change i r _ (Change-IsNumbered d v))
        (inr (stored (c.now w) i t r PendingAcknowledgementReason.invalid_or_expired m.store))

  -- Where complete_job is left, the result is kept, however it was left.
  pub complete_job-Kept :
      (i : ℕ) (t : String) (r : JobAcknowledgement) (m : Machine World)
      → IsNumbered m.store
      → Kept Settled i r (complete_job c i t r m).1
  unfolding complete_job
  complete_job-Kept i t r m v =
      after_acknowledge-Kept i t r m (c.acknowledge i t r m.world) v (law.accepting i t r m.world)
