-- ===== src/Tests/Retrying.antt =====
-- An operation of one second that fails twice, against a deadline at 20 seconds.
use pr_reviewer.Reliability.Retry.{yielded}
use pr_reviewer.Base.{
  refl, ℕ, ◌≤◌, ◌+◌, ◌≡◌, arith, inl, inr, true, leb, none, String, if◌then◌else◌,
}
use pr_reviewer.Reliability.Retry.{
  Backoff, Retrier, run_with_retry, rounds_from, next_backoff, deadline_exceeded,
}
use pr_reviewer.Reliability.Deadline.{IsTimely, IsEnd, run_with_retry-IsEnd}

record Clocked : Type 0 where
  now : ℕ
  tries : ℕ

abbrev tried : Clocked → Clocked
tried w = record { now = w.now + 1; tries = w.tries + 1 }

abbrev failing_twice : Retrier Clocked String String
failing_twice = record {
  operation = λ w. (if leb 2 w.tries then inl "done" else inr "busy", tried w);
  is_retryable = λ e. true;
  clock = λ w. (w.now, w);
  sleep = λ delay w. record w { now = w.now + delay };
  retry_after = λ e. none;
}

abbrev backoff : Backoff
backoff = record { base_seconds = 2; cap_seconds = 6; jittered = λ attempt n. n }

abbrev untried : Clocked
untried = record { now = 0; tries = 0 }

third_time :
    run_with_retry failing_twice backoff 20 5 untried
    ≡ (yielded "done", record { now = 9; tries = 3 })
unfolding run_with_retry rounds_from next_backoff
third_time = refl

too_late :
    run_with_retry failing_twice backoff 5 5 untried
    ≡ (deadline_exceeded, record { now = 4; tries = 2 })
unfolding run_with_retry rounds_from next_backoff
too_late = refl

-- The tries are counted, and no try is under way a second after the deadline.
abbrev InTime : ℕ → Clocked → Type 0
InTime k w = (w.tries ≡ k) × (w.now ≤ 21)

InTime-IsTimely : IsTimely failing_twice 20 InTime
InTime-IsTimely = record {
  clock = λ k w h. h;
  trying = λ k w early h. (omega (arith, h.0), omega (arith, early));
  sleeping = λ k delay w ends h. (h.0, omega (arith, ends));
}

run_with_retry-IsEnd_example : IsEnd InTime 5 (run_with_retry failing_twice backoff 20 5 untried)
run_with_retry-IsEnd_example =
    run_with_retry-IsEnd backoff InTime-IsTimely 5 untried (omega arith) (refl, omega arith)
