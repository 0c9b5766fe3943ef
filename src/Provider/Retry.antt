-- ===== src/Provider/Retry.antt =====
-- retry_provider_call: the loop over the attempts, with the caller's attempt, clock and sleep. A
-- provider asks for no negative wait (retry_after_seconds), which time.sleep would refuse.
use pr_reviewer.Base.{
  Bool, ℕ, ◌⊎◌, some, leb, suc, if◌then◌else◌, inl, inr, zero, min, ◌&&◌, ◌||◌, ◌+◌, ◌-◌, not, ltb,
  ◌*◌, ◌^◌, ◌==◌, none, Option,
}
use pr_reviewer.Provider.{ProviderFailure, is_retryable}

pub record RetryPolicy : Type 0 where
  pub max_attempts : ℕ
  pub max_elapsed_seconds : ℕ
  pub initial_delay_seconds : ℕ
  pub max_delay_seconds : ℕ

-- __post_init__ accepts the policy
abbrev pub is_accepted : RetryPolicy → Bool
is_accepted p =
    leb 1 p.max_attempts
    && (ltb 0 p.max_elapsed_seconds && (ltb 0 p.initial_delay_seconds && ltb 0 p.max_delay_seconds))

-- The outcome of the call. `no_outcome` is the ValueError that RetryResult.__post_init__ raises when
-- the attempt returned None; `unreachable` is the AssertionError at the end of the loop.
pub data Outcome (A : Type 0) : Type 0 where
  value : A → Outcome A
  failure : ProviderFailure → Outcome A
  no_outcome : Outcome A
  unreachable : Outcome A

-- RetryResult(value=outcome) and RetryResult(failure=outcome); `inl none` is an attempt's None
abbrev pub retry_result : {A : Type 0} → Option A ⊎ ProviderFailure → Outcome A
retry_result (inl none) = no_outcome
retry_result (inl (some a)) = value a
retry_result (inr f) = failure f

pub record Caller (World A : Type 0) : Type 0 where
  pub attempt : World → (Option A ⊎ ProviderFailure) × World
  pub clock : World → ℕ × World
  pub sleep : ℕ → World → World

unfoldable pub retry_delay : ProviderFailure → (attempt_number : ℕ) → RetryPolicy → ℕ
retry_delay f attempt_number policy = elim f.retry_after_seconds [
  | some seconds ↦ seconds
  | none ↦ min (policy.initial_delay_seconds * 2 ^ (attempt_number - 1)) policy.max_delay_seconds
]

module _ {World A : Type 0} (caller : Caller World A) (policy : RetryPolicy) (started : ℕ) where
  abbrev pub Next : Type 0
  Next = ProviderFailure → World → Outcome A × World

  -- `remaining <= 0 or delay > remaining`; the subtraction of natural numbers stops at 0
  abbrev pub wait_for : (delay elapsed : ℕ) → ProviderFailure → Next → World → Outcome A × World
  wait_for delay elapsed f next w =
      if leb policy.max_elapsed_seconds elapsed || ltb (policy.max_elapsed_seconds - elapsed) delay
      then (failure f, w)
      else next f (caller.sleep delay w)

  abbrev pub after_attempt :
      (attempt_number : ℕ) → Option A ⊎ ProviderFailure → Next → World → Outcome A × World
  after_attempt n (inl a) next w = (retry_result (inl a), w)
  after_attempt n (inr f) next w =
      if not (is_retryable f.kind) || n == policy.max_attempts
      then (failure f, w)
      else let (now, w') = caller.clock w in
        wait_for (retry_delay f n policy) (now - started) f next w'

  abbrev pub make_attempt : (attempt_number : ℕ) → Next → World → Outcome A × World
  make_attempt n next w = let (o, w') = caller.attempt w in after_attempt n o next w'

  -- The rounds after the first: the time is looked at before the attempt.
  unfoldable pub later : (rounds attempt_number : ℕ) → Next
  later zero n last w = (unreachable, w)
  later (suc k) n last w =
      let next = later k (n + 1) in
      let (now, w') = caller.clock w in
      if leb policy.max_elapsed_seconds (now - started)
      then (failure last, w')
      else make_attempt n next w'

  abbrev pub first_round : (rounds : ℕ) → World → Outcome A × World
  first_round zero w = (unreachable, w)
  first_round (suc k) w = make_attempt 1 (later k 2) w

unfoldable pub retry_provider_call :
    {World A : Type 0} → Caller World A → RetryPolicy → World → Outcome A × World
unfolding later
retry_provider_call caller policy w =
    let (started, w') = caller.clock w in first_round caller policy started policy.max_attempts w'
