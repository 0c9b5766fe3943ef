-- ===== src/Provider/Bounds.antt =====
-- The retry loop ends with an outcome, and within its two hard limits.
use pr_reviewer.Base.{
  refl, ℕ, ◌+◌, ◌⊎◌, ◌≡◌, ◌≢◌, suc, inl, inr, ◌-◌, Bool-cases, ◌≤◌, arith, leb, not, zero, ◌||◌,
  ◌==◌, ltb, true, Option, sym, ◌∙◌, some, none,
}
use pr_reviewer.Provider.Retry.{
  Caller, RetryPolicy, later, Outcome, Next, make_attempt, after_attempt, failure, unreachable,
  retry_delay, first_round, retry_provider_call, is_accepted, retry_result,
}
use pr_reviewer.Provider.{ProviderFailure, is_retryable}

-- What the limits are measured by: a clock that does not run backwards, sleeps that take at least
-- as long as asked, and counts of the attempts made and of the time asked to sleep.
pub record Meters {World A : Type 0} (caller : Caller World A) : Type 0 where
  pub time : World → ℕ
  pub slept : World → ℕ
  pub calls : World → ℕ
  pub clock_reads : (w : World) → (caller.clock w).0 ≡ time w
  pub clock_time : (w : World) → time w ≤ time (caller.clock w).1
  pub clock_slept : (w : World) → slept (caller.clock w).1 ≡ slept w
  pub clock_calls : (w : World) → calls (caller.clock w).1 ≡ calls w
  pub attempt_time : (w : World) → time w ≤ time (caller.attempt w).1
  pub attempt_slept : (w : World) → slept (caller.attempt w).1 ≡ slept w
  pub attempt_calls : (w : World) → calls (caller.attempt w).1 ≡ calls w + 1
  pub sleep_time : (d : ℕ) (w : World) → time w + d ≤ time (caller.sleep d w)
  pub sleep_slept : (d : ℕ) (w : World) → slept (caller.sleep d w) ≡ slept w + d
  pub sleep_calls : (d : ℕ) (w : World) → calls (caller.sleep d w) ≡ calls w

module _ {World A : Type 0} (caller : Caller World A) (policy : RetryPolicy) (started : ℕ) where
  abbrev tried : World → World
  tried w = (caller.attempt w).1

  abbrev read : World → World
  read w = (caller.clock w).1

  abbrev time_of : World → ℕ
  time_of w = (caller.clock w).0

  -- A round ends at once, after a look at the clock, or after a sleep that fits in what is left.
  record Round (Q : Outcome A × World → Type 0) (n : ℕ) (next : Next caller policy started)
      (w : World) : Type 0 where
    on_answer :
        (o : Option A ⊎ ProviderFailure) → (caller.attempt w).0 ≡ o → Q (retry_result o, tried w)
    on_late : (f : ProviderFailure) → (caller.attempt w).0 ≡ inr f → Q (failure f, read (tried w))
    on_sleep :
        (f : ProviderFailure) (d : ℕ)
        → (caller.attempt w).0 ≡ inr f
        → n ≢ policy.max_attempts
        → time_of (tried w) - started + d ≤ policy.max_elapsed_seconds
        → Q (next f (caller.sleep d (read (tried w))))

  after_attempt-Round :
      (Q : Outcome A × World → Type 0) (n : ℕ) (next : Next caller policy started) (w : World)
      → Round Q n next w
      → (o : Option A ⊎ ProviderFailure) → (caller.attempt w).0 ≡ o
      → Q (after_attempt caller policy started n o next (tried w))
  after_attempt-Round Q n next w r (inl a) q = r.on_answer (inl a) q
  after_attempt-Round Q n next w r (inr f) q =
      elim (Bool-cases (not (is_retryable f.kind) || n == policy.max_attempts)) [
        | inl e ↦ rw e (r.on_answer (inr f) q)
        | inr e ↦
            let elapsed = time_of (tried w) - started in
            let d = retry_delay f n policy in
            elim (Bool-cases (
              leb policy.max_elapsed_seconds elapsed
              || ltb (policy.max_elapsed_seconds - elapsed) d)) [
                | inl b ↦ rw (e, b) (r.on_late f q)
                | inr b ↦ rw (e, b) (r.on_sleep f d q (λ z. ground arith) (ground arith))
              ]
      ]

  make_attempt-Round :
      (Q : Outcome A × World → Type 0) (n : ℕ) (next : Next caller policy started) (w : World)
      → Round Q n next w
      → Q (make_attempt caller policy started n next w)
  make_attempt-Round Q n next w r = after_attempt-Round Q n next w r (caller.attempt w).0 refl

  -- A round of the loop, whatever the statement about its end.
  later-Round :
      (Q : Outcome A × World → Type 0) (k n : ℕ) (last : ProviderFailure) (w : World)
      → Q (failure last, read w)
      → Round Q n (later caller policy started k (n + 1)) (read w)
      → Q (later caller policy started (suc k) n last w)
  unfolding later
  later-Round Q k n last w q r =
      elim (Bool-cases (leb policy.max_elapsed_seconds (time_of w - started))) [
        | inl b ↦ rw b q
        | inr b ↦ rw b (make_attempt-Round Q n (later caller policy started k (n + 1)) (read w) r)
      ]

module _ {World A : Type 0} (caller : Caller World A) (m : Meters caller) (policy : RetryPolicy)
    (started base : ℕ) where
  open m use {time, slept, calls}

  -- No more than `k` attempts after `w`, and no more sleep in all than the limit on the time.
  abbrev Bounded : (most : ℕ) → Outcome A × World → Type 0
  Bounded most x = (calls x.1 ≤ most) × (slept x.1 ≤ base + policy.max_elapsed_seconds)

  -- the time asked to sleep so far has passed, and is within the limit
  abbrev IsPaced : World → Type 0
  IsPaced w =
      (started ≤ time w)
      × (slept w + started ≤ base + time w)
      × (slept w ≤ base + policy.max_elapsed_seconds)

  IsPaced-clock : (w : World) → IsPaced w → IsPaced (caller.clock w).1
  IsPaced-clock w p = omega (arith, m.clock_time w, m.clock_slept w)

  IsPaced-attempt : (w : World) → IsPaced w → IsPaced (caller.attempt w).1
  IsPaced-attempt w p = omega (arith, m.attempt_time w, m.attempt_slept w)

  IsPaced-sleep :
      (d : ℕ) (w : World)
      → IsPaced w
      → (caller.clock w).0 - started + d ≤ policy.max_elapsed_seconds
      → IsPaced (caller.sleep d (caller.clock w).1)
  IsPaced-sleep d w p h = omega (
    arith,
    m.clock_reads w,
    m.clock_time w,
    m.clock_slept w,
    m.sleep_time d (caller.clock w).1,
    m.sleep_slept d (caller.clock w).1,
  )

  -- A round stays within the bounds when the rest of the loop does, with one attempt fewer.
  Bounded-Round :
      (n most : ℕ) (next : Next caller policy started) (w : World)
      → IsPaced w
      → calls w + 1 ≤ most
      → ((f : ProviderFailure) (x : World)
          → IsPaced x
          → calls x ≤ calls w + 1
          → Bounded most (next f x))
      → Round caller policy started (Bounded most) n next w
  Bounded-Round n most next w p h rest =
      let q = IsPaced-attempt w p in
      record {
        on_answer = λ o q. omega (arith, m.attempt_calls w);
        on_late = λ f q. omega (
          arith,
          m.attempt_calls w,
          m.clock_calls (caller.attempt w).1,
          m.clock_slept (caller.attempt w).1,
        );
        on_sleep = λ f d _ _ fit.
            rest f (caller.sleep d (caller.clock (caller.attempt w).1).1)
              (IsPaced-sleep d (caller.attempt w).1 q fit)
              (omega (
                arith,
                m.attempt_calls w,
                m.clock_calls (caller.attempt w).1,
                m.sleep_calls d (caller.clock (caller.attempt w).1).1,
              ));
      }

  later-Bounded :
      (k n : ℕ) (last : ProviderFailure) (w : World) (most : ℕ)
      → IsPaced w
      → calls w + k ≤ most
      → Bounded most (later caller policy started k n last w)
  unfolding later
  later-Bounded zero n last w most p h = omega arith
  later-Bounded (suc k) n last w most p h =
      later-Round caller policy started (Bounded most) k n last w
        (omega (arith, m.clock_calls w, m.clock_slept w))
        (Bounded-Round n most (later caller policy started k (n + 1)) (caller.clock w).1
          (IsPaced-clock w p) (omega (arith, m.clock_calls w))
          (λ f x q c. later-Bounded k (n + 1) f x most q (omega (arith, m.clock_calls w))))

  first-Bounded :
      (k : ℕ) (w : World)
      → IsPaced w
      → Bounded (calls w + k) (first_round caller policy started k w)
  first-Bounded zero w p = omega arith
  first-Bounded (suc k) w p =
      make_attempt-Round caller policy started (Bounded (calls w + suc k)) 1
        (later caller policy started k 2) w
        (Bounded-Round 1 (calls w + suc k) (later caller policy started k 2) w p (omega arith)
          (λ f x q c. later-Bounded k 2 f x (calls w + suc k) q (omega arith)))

-- `o` is the answer of an attempt that was the last up to `w`.
abbrev pub IsLast :
    {World A : Type 0} (caller : Caller World A)
    → Meters caller
    → Option A ⊎ ProviderFailure
    → World
    → Type 0
IsLast {World} caller m o w = (v : World) × ((caller.attempt v).0 ≡ o) × (m.calls w ≡ m.calls v + 1)

-- The call returns the last attempt's answer, or raises for it if it is None.
abbrev pub IsAnswer :
    {World A : Type 0} (caller : Caller World A) → Meters caller → Outcome A × World → Type 0
IsAnswer {A} caller m x =
    (o : Option A ⊎ ProviderFailure) × (x.0 ≡ retry_result o) × IsLast caller m o x.1

module _ {World A : Type 0} (caller : Caller World A) (m : Meters caller) (policy : RetryPolicy)
    (started : ℕ) where
  tried-IsLast :
      (w : World) (o : Option A ⊎ ProviderFailure)
      → (caller.attempt w).0 ≡ o
      → IsLast caller m o (caller.attempt w).1
  tried-IsLast w o q = (w, q, m.attempt_calls w)

  read-IsLast :
      (w : World) (o : Option A ⊎ ProviderFailure)
      → IsLast caller m o w
      → IsLast caller m o (caller.clock w).1
  read-IsLast w o (v, q, c) = (v, q, omega (arith, m.clock_calls w))

  slept-IsLast :
      (d : ℕ) (w : World) (o : Option A ⊎ ProviderFailure)
      → IsLast caller m o w
      → IsLast caller m o (caller.sleep d w)
  slept-IsLast d w o (v, q, c) = (v, q, omega (arith, m.sleep_calls d w))

  -- A round answers when the rest of the loop does, and at the last attempt by itself.
  Answer-Round :
      (n : ℕ) (next : Next caller policy started) (w : World)
      → (n ≢ policy.max_attempts
          → (f : ProviderFailure) (x : World) → IsLast caller m (inr f) x
          → IsAnswer caller m (next f x))
      → Round caller policy started (IsAnswer caller m) n next w
  Answer-Round n next w rest = record {
    on_answer = λ o q. (o, refl, tried-IsLast w o q);
    on_late =
        λ f q. (inr f, refl, read-IsLast (caller.attempt w).1 (inr f) (tried-IsLast w (inr f) q));
    on_sleep = λ f d q z fit.
        let x = (caller.attempt w).1 in
        rest z f (caller.sleep d (caller.clock x).1) (
          slept-IsLast d (caller.clock x).1 (inr f)
            (read-IsLast x (inr f) (tried-IsLast w (inr f) q)));
  }

  later-IsAnswer :
      (k n : ℕ) (last : ProviderFailure) (w : World)
      → n + k ≡ policy.max_attempts
      → IsLast caller m (inr last) w
      → IsAnswer caller m (later caller policy started (suc k) n last w)
  later-IsAnswer zero n last w e l =
      later-Round caller policy started (IsAnswer caller m) zero n last w
        (inr last, refl, read-IsLast w (inr last) l)
        (Answer-Round n (later caller policy started zero (n + 1)) (caller.clock w).1
          (λ z f x _. absurd (z (omega arith))))
  later-IsAnswer (suc k) n last w e l =
      later-Round caller policy started (IsAnswer caller m) (suc k) n last w
        (inr last, refl, read-IsLast w (inr last) l)
        (Answer-Round n (later caller policy started (suc k) (n + 1)) (caller.clock w).1
          (λ z f x h. later-IsAnswer k (n + 1) f x (omega arith) h))

  first-IsAnswer :
      (k : ℕ) (w : World)
      → k ≡ policy.max_attempts
      → 1 ≤ k
      → IsAnswer caller m (first_round caller policy started k w)
  first-IsAnswer zero w e h = absurd (omega arith)
  first-IsAnswer (suc zero) w e h =
      make_attempt-Round caller policy started (IsAnswer caller m) 1
        (later caller policy started zero 2) w
        (Answer-Round 1 (later caller policy started zero 2) w (λ z f x _. absurd (z e)))
  first-IsAnswer (suc (suc k)) w e h =
      make_attempt-Round caller policy started (IsAnswer caller m) 1
        (later caller policy started (suc k) 2) w
        (Answer-Round 1 (later caller policy started (suc k) 2) w
          (λ z f x l. later-IsAnswer k 2 f x (omega arith) l))

retry_result-reached :
    {A : Type 0} (o : Option A ⊎ ProviderFailure) → ◌≢◌ {A = Outcome A} (retry_result o) unreachable
retry_result-reached (inl none) q = cc
retry_result-reached (inl (some a)) q = cc
retry_result-reached (inr f) q = cc

-- Under a policy that is accepted the loop returns what the last of its attempts answered, value or
-- failure, or raises a ValueError if that answer is None; it never runs out of rounds. It makes at
-- most max_attempts attempts, and sleeps no more than max_elapsed_seconds in all. The clock does not
-- go back, and a sleep lets at least its time pass.
pub retry_provider_call_bounds :
    {World A : Type 0} (caller : Caller World A) (m : Meters caller) (policy : RetryPolicy)
    (w : World)
    → is_accepted policy ≡ true
    → let x = retry_provider_call caller policy w in
      IsAnswer caller m x
      × (x.0 ≢ unreachable)
      × (m.calls x.1 ≤ m.calls w + policy.max_attempts)
      × (m.slept x.1 ≤ m.slept w + policy.max_elapsed_seconds)
unfolding retry_provider_call
retry_provider_call_bounds caller m policy w h =
    let w' = (caller.clock w).1 in
    let started = (caller.clock w).0 in
    let b =
      first-Bounded caller m policy started (m.slept w) policy.max_attempts w'
        (omega (arith, m.clock_reads w, m.clock_time w, m.clock_slept w)) in
    let a = first-IsAnswer caller m policy started policy.max_attempts w' refl (ground arith) in
    (a, λ q. retry_result-reached a.0 (sym a.1 ∙ q), omega (arith, m.clock_calls w), omega arith)
