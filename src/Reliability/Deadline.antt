-- ===== src/Reliability/Deadline.antt =====
-- What run_with_retry does before its deadline, how often it tries, and what it ends with.
use pr_reviewer.Base.{
  ℕ, ◌≤◌, ◌<◌, ◌+◌, ◌≡◌, arith, inl, inr, Bool-cases, suc, zero, leb, ltb, Bool, true, false, ◌≢◌,
  ◌⊎◌, not, ◌||◌,
}
use pr_reviewer.Reliability.Retry.{
  Retrier, Retried, Backoff, rounds_from, nothing_tried, try_before, run_with_retry, wait_or_stop,
  after_operation, next_backoff,
}

-- A property P k of the world after k tries, which the clock keeps, which a try that starts before
-- the deadline takes from k to k + 1, and which a sleep that ends by the deadline keeps.
pub record IsTimely {World A E : Type 0} (r : Retrier World A E) (deadline : ℕ)
    (P : ℕ → World → Type 0) : Type 0 where
  pub clock : (k : ℕ) (w : World) → P k w → P k (r.clock w).1
  pub trying :
      (k : ℕ) (w : World)
      → (r.clock w).0 < deadline
      → P k (r.clock w).1
      → P (k + 1) (r.operation (r.clock w).1).1
  pub sleeping :
      (k delay : ℕ) (w : World)
      → (r.clock w).0 + delay ≤ deadline
      → P k (r.clock w).1
      → P k (r.sleep delay (r.clock w).1)

-- An end after at most n more tries; none is left untried, and nothing else ends it but a result, an
-- error of the operation or the deadline.
pub record IsEnd {World A E : Type 0} (P : ℕ → World → Type 0) (most : ℕ) (o : Retried A E × World)
    : Type 0 where
  pub tries : ℕ
  pub at_most : tries ≤ most
  pub holds_there : P tries o.1
  pub ended : o.0 ≢ nothing_tried

module _ {World A E : Type 0} {r : Retrier World A E} (b : Backoff) {deadline : ℕ}
    {P : ℕ → World → Type 0} (timely : IsTimely r deadline P) where
  wait_or_stop-IsEnd :
      (tries most delay : ℕ) (next : World → Retried A E × World) (w : World)
      → P tries w
      → tries ≤ most
      → ((v : World) → P tries v → IsEnd P most (next v))
      → IsEnd P most (wait_or_stop r b deadline delay next (r.clock w))
  wait_or_stop-IsEnd tries most delay next w h le go =
      let (now, v) = r.clock w in
      elim (Bool-cases (ltb deadline (now + delay))) [
        | inl e ↦ rw e (record {
          tries = tries;
          at_most = le;
          holds_there = timely.clock tries w h;
          ended = λ q. cc;
        })
        | inr e ↦ rw e (
            go (r.sleep delay v)
              (timely.sleeping tries delay w (ground arith) (timely.clock tries w h)))
      ]

  after_operation-IsEnd :
      (attempt tries most : ℕ) (is_last : Bool) (next : World → Retried A E × World)
      (o : (A ⊎ E) × World)
      → P tries o.1
      → tries ≤ most
      → (is_last ≡ false → (v : World) → P tries v → IsEnd P most (next v))
      → IsEnd P most (after_operation r b deadline attempt is_last next o)
  after_operation-IsEnd attempt tries most is_last next (inl a, w) h le go = record {
    tries = tries;
    at_most = le;
    holds_there = h;
    ended = λ q. cc;
  }
  after_operation-IsEnd attempt tries most is_last next (inr e, w) h le go =
      elim (Bool-cases (not (r.is_retryable e) || is_last)) [
        | inl q ↦ rw q (record { tries = tries; at_most = le; holds_there = h; ended = λ z. cc })
        | inr q ↦ rw q (
            wait_or_stop-IsEnd tries most (next_backoff b attempt (r.retry_after e)) next w h le
              (go (ground arith)))
      ]

  try_before-IsEnd :
      (attempt tries most : ℕ) (is_last : Bool) (next : World → Retried A E × World) (w : World)
      → P tries w
      → tries + 1 ≤ most
      → (is_last ≡ false → (v : World) → P (tries + 1) v → IsEnd P most (next v))
      → IsEnd P most (try_before r b deadline attempt is_last next (r.clock w))
  try_before-IsEnd attempt tries most is_last next w h le go =
      let (now, v) = r.clock w in
      elim (Bool-cases (leb deadline now)) [
        | inl e ↦ rw e (record {
          tries = tries;
          at_most = omega (arith, le);
          holds_there = timely.clock tries w h;
          ended = λ q. cc;
        })
        | inr e ↦ rw e (
            after_operation-IsEnd attempt (tries + 1) most is_last next (r.operation v)
              (timely.trying tries w (ground arith) (timely.clock tries w h)) le go)
      ]

  rounds_from-IsEnd :
      (k attempt tries most : ℕ) (w : World)
      → P tries w
      → tries + suc k ≤ most
      → IsEnd P most (rounds_from r b deadline (suc k) attempt w)
  unfolding rounds_from
  rounds_from-IsEnd zero attempt tries most w h le =
      try_before-IsEnd attempt tries most true (rounds_from r b deadline zero (attempt + 1)) w h
        (omega (arith, le)) (λ q. absurd cc)
  rounds_from-IsEnd (suc k) attempt tries most w h le =
      try_before-IsEnd attempt tries most false (rounds_from r b deadline (suc k) (attempt + 1)) w h
        (omega (arith, le))
        (λ q v g. rounds_from-IsEnd k (attempt + 1) (tries + 1) most v g (omega (arith, le)))

  -- With at least one attempt allowed, a retried operation ends after at most that many tries, with
  -- its result, with its error or with RetryDeadlineExceeded. A try starts only before the deadline, and a
  -- sleep is begun only if it ends by the deadline: a property of the world and of the number of
  -- tries that the clock, such a try and such a sleep keep holds at the end.
  pub run_with_retry-IsEnd :
      (max_attempts : ℕ) (w : World)
      → 1 ≤ max_attempts
      → P 0 w
      → IsEnd P max_attempts (run_with_retry r b deadline max_attempts w)
  unfolding run_with_retry
  run_with_retry-IsEnd zero w le h = absurd (omega (arith, le))
  run_with_retry-IsEnd (suc k) w le h = rounds_from-IsEnd k 0 0 (suc k) w h (omega arith)
