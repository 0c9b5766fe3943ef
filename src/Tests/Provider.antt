-- ===== src/Tests/Provider.antt =====
-- A provider that is rate limited at every attempt, and a circuit that is open. The world counts attempts, and time, which is
-- what was slept.
use pr_reviewer.Base.{refl, String, ℕ, ◌≢◌, Bool, inr, arith, ◌≤◌, false, some, ◌+◌}
use pr_reviewer.Reliability.{opened, CircuitSnapshot}
use pr_reviewer.Provider.Retry.{Caller, RetryPolicy, retry_provider_call, unreachable}
use pr_reviewer.Provider.{ProviderFailure, retryable_rate_limit}
use pr_reviewer.Provider.Bounds.{Meters, retry_provider_call_bounds, IsAnswer}

abbrev limited : ProviderFailure
limited = record {
  kind = retryable_rate_limit;
  reason = "rate limit";
  retry_after_seconds = some 2;
}

abbrev caller : Caller (ℕ × ℕ) String
caller = record {
  attempt = λ w. (inr limited, (w.0 + 1, w.1));
  clock = λ w. (w.1, w);
  sleep = λ d w. (w.0, w.1 + d);
}

abbrev policy : RetryPolicy
policy = record {
  max_attempts = 5;
  max_elapsed_seconds = 7;
  initial_delay_seconds = 1;
  max_delay_seconds = 4;
}

abbrev meters : Meters caller
meters = record {
  time = λ w. w.1;
  slept = λ w. w.1;
  calls = λ w. w.0;
  clock_reads = λ w. refl;
  clock_time = λ w. omega arith;
  clock_slept = λ w. refl;
  clock_calls = λ w. refl;
  attempt_time = λ w. omega arith;
  attempt_slept = λ w. refl;
  attempt_calls = λ w. refl;
  sleep_time = λ d w. omega arith;
  sleep_slept = λ d w. refl;
  sleep_calls = λ d w. refl;
}

retry_provider_call_bounds_example :
    IsAnswer caller meters (retry_provider_call caller policy (0, 0))
    × ((retry_provider_call caller policy (0, 0)).0 ≢ unreachable)
    × (meters.calls (retry_provider_call caller policy (0, 0)).1 ≤ 0 + 5)
    × (meters.slept (retry_provider_call caller policy (0, 0)).1 ≤ 0 + 7)
retry_provider_call_bounds_example = retry_provider_call_bounds caller meters policy (0, 0) refl

abbrev status : ℕ
status = 429

abbrev never : String → String → Bool
never message marker = false

abbrev later : ℕ
later = 30

abbrev tripped : CircuitSnapshot
tripped = record {
  connector = "github";
  state = opened;
  consecutive_failures = 3;
  probe_after_monotonic = some 20;
}
