-- ===== src/Breaker.antt =====
-- sentinel/core/circuit_breaker.py. The times are readings of `time.monotonic()`, in microseconds;
-- a lock makes each of the three methods below one step. The laws are in the modules below.
pub mod Steps
pub mod Stuck
pub mod Calls
use osl_agent_sentinel.Prelude.{
  ℕ, ◌+◌, ◌-◌, ◌≤◌, ◌<◌, ◌≡◌, ◌≢◌, String, Bool, true, false, ◌||◌, leb, ◌==◌, ℕ_eq, if◌then◌else◌,
  Outcome, ok, err, Error,
}

pub data CircuitState : Type 0 where
  closed open_state half_open : CircuitState

abbrev pub is_open : CircuitState → Bool
is_open open_state = true
is_open _ = false

abbrev pub is_half_open : CircuitState → Bool
is_half_open half_open = true
is_half_open _ = false

pub record CircuitBreaker : Type 0 where
  pub name : String
  pub failure_threshold : ℕ
  pub reset_timeout : ℕ
  pub half_open_probes : ℕ
  pub state : CircuitState
  pub failures : ℕ
  pub opened_at : ℕ
  pub probes_in_flight : ℕ

-- `CircuitBreaker(name=name)`
abbrev pub new_breaker : String → CircuitBreaker
new_breaker name = record {
  name = name;
  failure_threshold = 5;
  reset_timeout = 30_000_000;
  half_open_probes = 3;
  state = closed;
  failures = 0;
  opened_at = 0;
  probes_in_flight = 0;
}

unfoldable pub maybe_transition_to_half_open : ℕ → CircuitBreaker → CircuitBreaker
maybe_transition_to_half_open now b =
    if is_open b.state
    then (if leb (b.opened_at + b.reset_timeout) now
        then record b { state = half_open; probes_in_flight = 0 }
        else b)
    else b

unfoldable pub trip : ℕ → CircuitBreaker → CircuitBreaker
trip now b = record b { state = open_state; opened_at = now; probes_in_flight = 0 }

-- The tests of `call` under its lock, on the breaker after `maybe_transition_to_half_open`.
abbrev pub admit_or_refuse : CircuitBreaker → Outcome (Unit {0}) × CircuitBreaker
admit_or_refuse b =
    if is_open b.state
    then (err Error.dependency_unavailable, b)
    else if is_half_open b.state
    then (if leb b.half_open_probes b.probes_in_flight
        then (err Error.dependency_unavailable, b)
        else (ok tt, record b { probes_in_flight = b.probes_in_flight + 1 }))
    else (ok tt, b)

-- The first half of `call`: what happens before `fn` runs.
unfoldable pub admit : ℕ → CircuitBreaker → Outcome (Unit {0}) × CircuitBreaker
unfolding maybe_transition_to_half_open
admit now b = admit_or_refuse (maybe_transition_to_half_open now b)

unfoldable pub record_failure : ℕ → CircuitBreaker → CircuitBreaker
unfolding trip
record_failure now b =
    let b' : CircuitBreaker = record b { failures = b.failures + 1 } in
    if is_half_open b.state || leb b.failure_threshold (b.failures + 1) then trip now b' else b'

unfoldable pub record_success : CircuitBreaker → CircuitBreaker
record_success b =
    if is_half_open b.state
    then (if b.probes_in_flight - 1 == 0
        then record b { state = closed; failures = 0; probes_in_flight = 0 }
        else record b { probes_in_flight = b.probes_in_flight - 1 })
    else record b { failures = 0 }

module _ {ℓ} {A W : Type ℓ} where
  -- What `call` does once `fn` is done: `now` is the clock at that time.
  unfoldable pub finish : ℕ → Outcome A × W → CircuitBreaker → Outcome A × CircuitBreaker × W
  unfolding record_failure record_success
  finish now (ok a, w) b = (ok a, record_success b, w)
  finish now (err e, w) b = (err e, record_failure now b, w)

  -- `call`, with no other call between its two halves; `fn` acts on the state `w` of its own.
  unfoldable pub call :
      ℕ → ℕ → (W → Outcome A × W) → CircuitBreaker → W → Outcome A × CircuitBreaker × W
  unfolding admit finish
  call now later fn b w =
      let (r, b') = admit now b in elim r [ ok _ ↦ finish later (fn w) b' | err e ↦ (err e, b', w) ]

-- What every sequence of steps keeps.
pub record IsValid (b : CircuitBreaker) : Type 0 where
  pub few : b.probes_in_flight ≤ b.half_open_probes
  pub idle : b.state ≢ half_open → b.probes_in_flight ≡ 0
  pub below : b.state ≡ closed → b.failures < b.failure_threshold
