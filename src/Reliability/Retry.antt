-- ===== src/Reliability/Retry.antt =====
-- reliability/retry.py: next_backoff and run_with_retry, with the caller's operation, clock and
-- sleep on a world. Seconds are natural numbers on one scale.
use pr_reviewer.Base.{
  true, false, Bool, ℕ, ◌⊎◌, Option, some, none, leb, ltb, suc, zero, if◌then◌else◌, inl, inr, min,
  ◌||◌, ◌+◌, not, ◌*◌, ◌^◌,
}

pub record Backoff : Type 0 where
  pub base_seconds : ℕ
  pub cap_seconds : ℕ
  -- times 1.0 - jitter + 2 * jitter * rng(), where each attempt draws a sample
  pub jittered : (attempt : ℕ) → ℕ → ℕ

-- max(0.0, …) of a natural number is that number
unfoldable pub next_backoff : Backoff → (attempt : ℕ) → (retry_after : Option ℕ) → ℕ
next_backoff b attempt (some seconds) = min seconds b.cap_seconds
next_backoff b attempt none = b.jittered attempt (min b.cap_seconds (b.base_seconds * 2 ^ attempt))

-- What run_with_retry returns or raises; `nothing_tried` is the AssertionError after no rounds.
pub data Retried (A E : Type 0) : Type 0 where
  yielded : A → Retried A E
  gave_up : E → Retried A E
  deadline_exceeded : Retried A E
  nothing_tried : Retried A E

pub record Retrier (World A E : Type 0) : Type 0 where
  pub operation : World → (A ⊎ E) × World
  pub is_retryable : E → Bool
  pub clock : World → ℕ × World
  pub sleep : ℕ → World → World
  pub retry_after : E → Option ℕ

abbrev pub is_zero : ℕ → Bool
is_zero zero = true
is_zero (suc n) = false

module _ {World A E : Type 0} (r : Retrier World A E) (b : Backoff) (deadline : ℕ) where
  -- delay > remaining, where remaining may be negative
  abbrev pub wait_or_stop :
      (delay : ℕ) → (World → Retried A E × World) → ℕ × World → Retried A E × World
  wait_or_stop delay next (now, w) =
      if ltb deadline (now + delay) then (deadline_exceeded, w) else next (r.sleep delay w)

  -- `is_last`: attempt + 1 >= max_attempts
  abbrev pub after_operation :
      (attempt : ℕ) (is_last : Bool)
      → (World → Retried A E × World)
      → (A ⊎ E) × World
      → Retried A E × World
  after_operation attempt is_last next (inl a, w) = (yielded a, w)
  after_operation attempt is_last next (inr e, w) =
      if not (r.is_retryable e) || is_last
      then (gave_up e, w)
      else wait_or_stop (next_backoff b attempt (r.retry_after e)) next (r.clock w)

  abbrev pub try_before :
      (attempt : ℕ) (is_last : Bool)
      → (World → Retried A E × World)
      → ℕ × World
      → Retried A E × World
  try_before attempt is_last next (now, w) =
      if leb deadline now
      then (deadline_exceeded, w)
      else after_operation attempt is_last next (r.operation w)

  -- the rounds that are left of range(max_attempts)
  unfoldable pub rounds_from : (rounds attempt : ℕ) → World → Retried A E × World
  rounds_from zero attempt w = (nothing_tried, w)
  rounds_from (suc k) attempt w =
      let next = rounds_from k (attempt + 1) in try_before attempt (is_zero k) next (r.clock w)

  unfoldable pub run_with_retry : (max_attempts : ℕ) → World → Retried A E × World
  run_with_retry max_attempts w = rounds_from max_attempts 0 w
