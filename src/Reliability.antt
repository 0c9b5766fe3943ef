-- ===== src/Reliability.antt =====
-- src/pr_reviewer/reliability/circuit.py: whether a call to a connector may be made. Times are
-- natural numbers; the state of a circuit that cannot be read counts as open.
pub mod Retry
pub mod Deadline
use pr_reviewer.Base.{
  refl, Option, String, ℕ, Bool, none, some, ◌≡◌, true, false, ◌-◌, leb, ◌↔◌, ◌≤◌, arith,
}

pub data CircuitStateName : Type 0 where
  closed opened half_open : CircuitStateName

abbrev pub unknown_circuit_state : CircuitStateName
unknown_circuit_state = opened

pub record CircuitSnapshot : Type 0 where
  pub connector : String
  pub state : CircuitStateName
  pub consecutive_failures : ℕ
  pub probe_after_monotonic : Option ℕ

-- What the caller's `load` comes to; `unreadable` is the CircuitStateUnreadable that it raises.
pub data Loaded : Type 0 where
  unreadable : Loaded
  row : Option CircuitSnapshot → Loaded

abbrev pub load_or_unknown : String → Loaded → Option CircuitSnapshot
load_or_unknown connector unreadable = some (record {
  connector = connector;
  state = unknown_circuit_state;
  consecutive_failures = 0;
  probe_after_monotonic = none;
})
load_or_unknown connector (row snapshot) = snapshot

abbrev pub probe_due : Option ℕ → (now : ℕ) → Bool
probe_due none now = false
probe_due (some t) now = leb t now

abbrev pub allow_state : CircuitStateName → Option ℕ → (now : ℕ) → Bool
allow_state closed probe now = true
allow_state half_open probe now = true
allow_state opened probe now = probe_due probe now

unfoldable pub allow_call : Option CircuitSnapshot → (now : ℕ) → Bool
allow_call none now = true
allow_call (some snapshot) now = allow_state snapshot.state snapshot.probe_after_monotonic now

-- max(0.0, …): the subtraction of natural numbers stops at 0
unfoldable pub seconds_until_probe : CircuitSnapshot → (now : ℕ) → ℕ
seconds_until_probe snapshot now = elim snapshot.probe_after_monotonic [
  | none ↦ 0
  | some t ↦ t - now
]

-- A circuit that cannot be read lets no call through at any time. One that is open with a time to
-- probe lets a call through exactly when the seconds until the probe are 0, and goes on doing so.
allow_call-seconds_until_probe :
    (connector : String) (s : CircuitSnapshot) (t now later : ℕ)
    → s.state ≡ opened
    → s.probe_after_monotonic ≡ some t
    → (allow_call (load_or_unknown connector unreadable) now ≡ false)
      × ((allow_call (load_or_unknown connector (row (some s))) now ≡ true)
          ↔ (seconds_until_probe s now ≡ 0))
      × (allow_call (some s) now ≡ true → now ≤ later → allow_call (some s) later ≡ true)
unfolding allow_call seconds_until_probe
allow_call-seconds_until_probe connector s t now later h e =
    (refl, (λ q. ground arith, λ q. ground arith), λ q r. ground arith)
