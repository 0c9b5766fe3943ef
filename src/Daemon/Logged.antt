-- ===== src/Daemon/Logged.antt =====
-- The surroundings of the runner with a record of what the control plane answered: every answer to a
-- claim, and every answer to an acknowledgement, the latest first. The calls are otherwise those of
-- the caller's surroundings.
use mathlib.Core.List.{Memᴰ}
use pr_reviewer.Base.{
  Option, ℕ, List, String, ◌⊎◌, ◌∷◌, ◌≡◌, inl, some, none, true, inr, ap, some_inj, sym, subst,
  refl,
}
use pr_reviewer.Daemon.{ClaimAnswer, Surroundings, AckAnswer, accepted}
use pr_reviewer.Daemon.Kept.{is_without, IsSettling}
use pr_reviewer.Jobs.Runner.{JobAcknowledgement, JobEnvelope}

pub data Event : Type 0 where
  claimed : ClaimAnswer → Event
  acknowledged : (job_id : ℕ) → JobAcknowledgement → AckAnswer → Event

abbrev pub Log : Type 0
Log = List Event

module _ {World : Type 0} where
  abbrev logged_review :
      Option (JobEnvelope → World → Option JobAcknowledgement × World)
      → Option (JobEnvelope → World × Log → Option JobAcknowledgement × (World × Log))
  logged_review none = none
  logged_review (some review) = some (λ e x. let (r, w) = review e x.0 in (r, (w, x.1)))

  abbrev logged_credential : Option (World → Option String) → Option (World × Log → Option String)
  logged_credential none = none
  logged_credential (some get) = some (λ x. get x.0)

  abbrev pub logged : Surroundings World → Surroundings (World × Log)
  logged c = record {
    claim = λ x. let (a, w) = c.claim x.0 in (a, (w, claimed a ∷ x.1));
    heartbeat = λ i t x. let (s, w) = c.heartbeat i t x.0 in (s, (w, x.1));
    acknowledge =
        λ i t r x. let (a, w) = c.acknowledge i t r x.0 in (a, (w, acknowledged i r a ∷ x.1));
    set_credential = λ s x. (c.set_credential s x.0, x.1);
    credential = logged_credential c.credential;
    review = logged_review c.review;
    now = λ x. c.now x.0;
    is_stopping = λ x. c.is_stopping x.0;
    clear_stop = λ x. (c.clear_stop x.0, x.1);
    wait = λ x. (c.wait x.0, x.1);
  }

-- The control plane accepted a result of the job.
abbrev pub IsAccepted : ℕ → Log → Type 0
IsAccepted i log = (r : JobAcknowledgement) × Memᴰ (acknowledged i r accepted) log

-- It answered a claim without the job: it had no job, it had another one, or it refused the runner.
abbrev pub IsReleased : ℕ → Log → Type 0
IsReleased i log = (a : ClaimAnswer) × Memᴰ (claimed a) log × (is_without i a ≡ true)

module _ {World : Type 0} where
  abbrev pub IsDischarged : ℕ → World × Log → Type 0
  IsDischarged i x = IsAccepted i x.1 ⊎ IsReleased i x.1

  IsDischarged-cons :
      (i : ℕ) (w : World) (x : World × Log) (e : Event)
      → IsDischarged i x
      → IsDischarged i (w, e ∷ x.1)
  IsDischarged-cons i w x e (inl (r, m)) = inl (r, Memᴰ.tail m)
  IsDischarged-cons i w x e (inr (a, m, q)) = inr (a, Memᴰ.tail m, q)

  logged_review_log :
      (o : Option (JobEnvelope → World → Option JobAcknowledgement × World))
      (review : JobEnvelope → World × Log → Option JobAcknowledgement × (World × Log))
      → logged_review o ≡ some review
      → (e : JobEnvelope) (x : World × Log) → x.1 ≡ (review e x).1.1
  logged_review_log none review h e x = absurd cc
  logged_review_log (some f) review h e x = ap (λ g. (g e x).1.1) (some_inj h)

  pub logged-IsSettling : (c : Surroundings World) → IsSettling (logged c) IsDischarged
  logged-IsSettling c = record {
    accepting = λ i t r x h. inl (r, Memᴰ.head (ap (λ a. acknowledged i r a) (sym h)));
    answering = λ i x h. inr ((c.claim x.0).0, Memᴰ.head refl, h);
    after_claim = λ i x h. IsDischarged-cons i (c.claim x.0).1 x (claimed (c.claim x.0).0) h;
    after_acknowledge = λ i k t r x h.
        IsDischarged-cons i (c.acknowledge k t r x.0).1 x
          (acknowledged k r (c.acknowledge k t r x.0).0) h;
    after_heartbeat = λ i k t x h. h;
    after_credential = λ i s x h. h;
    after_review = λ review f i e x h.
        subst (λ l. IsAccepted i l ⊎ IsReleased i l) (logged_review_log c.review review f e x) h;
    after_wait = λ i x h. h;
    after_clear = λ i x h. h;
  }
