-- ===== src/Breaker.antt =====
-- crates/havuz-pool/src/breaker.rs: the circuit breaker in front of one target. Each method is one
-- atomic step here; Breaker/Interleaving takes `allows` apart. Times are nanoseconds since `epoch`.
pub mod Invariant
pub mod Refinement
pub mod Tripping
pub mod Probing
pub mod Recovery
pub mod Interleaving
mod Tests
use havuz.Base.{
  ℕ, ◌-◌, ◌*◌, ◌/◌, ◌%◌, ◌^◌, Bool, true, false, not, List, [], ◌∷◌, leb, ◌==◌, if◌then◌else◌,
  add32, add64,
}

pub data BreakerState : Type 0 where
  closed open_ half_open : BreakerState

pub record BreakerConfig : Type 0 where
  pub failure_threshold : ℕ  -- u32
  pub success_threshold : ℕ  -- u32
  pub cooldown : ℕ  -- nanoseconds

pub record CircuitBreaker : Type 0 where
  pub config : BreakerConfig
  pub state : ℕ  -- 0 = closed, 1 = open, 2 = half-open
  pub consecutive_failures : ℕ  -- u32
  pub consecutive_successes : ℕ  -- u32
  pub opened_at_micros : ℕ  -- u64
  pub probe_in_flight : Bool
  pub failures_total : ℕ  -- u64
  pub trips_total : ℕ  -- u64
  pub rejected_total : ℕ  -- u64

abbrev pub default_config : BreakerConfig
default_config = record { failure_threshold = 3; success_threshold = 2; cooldown = 10_000_000_000 }

unfoldable pub new : BreakerConfig → CircuitBreaker
new config = record {
  config = config;
  state = 0;
  consecutive_failures = 0;
  consecutive_successes = 0;
  opened_at_micros = 0;
  probe_in_flight = false;
  failures_total = 0;
  trips_total = 0;
  rejected_total = 0;
}

-- The `match` of `state()`: every code but 0 and 1 reads as half-open.
abbrev pub decode : ℕ → BreakerState
decode code = if code == 0 then closed else if code == 1 then open_ else half_open

abbrev pub state_of : CircuitBreaker → BreakerState
state_of b = decode b.state

-- `Duration::saturating_sub` stops at zero, as `-` does.
unfoldable pub cooldown_elapsed : CircuitBreaker → ℕ → Bool
cooldown_elapsed b now = leb b.config.cooldown (now - b.opened_at_micros * 1000)

-- Taking the probe slot by `compare_exchange(false, true)`.
abbrev take_probe : CircuitBreaker → CircuitBreaker × Bool
take_probe b = (record b { probe_in_flight = true }, not b.probe_in_flight)

abbrev half_open_probe : CircuitBreaker → CircuitBreaker
half_open_probe b = record b { state = 2; consecutive_successes = 0; probe_in_flight = true }

abbrev reject : CircuitBreaker → CircuitBreaker
reject b = record b { rejected_total = add64 b.rejected_total 1 }

allows_in : BreakerState → CircuitBreaker → ℕ → CircuitBreaker × Bool
unfolding cooldown_elapsed
allows_in closed b now = (b, true)
allows_in half_open b now = take_probe b
allows_in open_ b now =
    if cooldown_elapsed b now then (half_open_probe b, true) else (reject b, false)

unfoldable pub allows : CircuitBreaker → ℕ → CircuitBreaker × Bool
unfolding allows_in
allows b now = allows_in (state_of b) b now

-- `(micros as u64)` keeps the low 64 bits.
unfoldable pub trip : CircuitBreaker → ℕ → CircuitBreaker
trip b now = record b {
  state = 1;
  opened_at_micros = (now / 1000) % 2 ^ 64;
  consecutive_failures = 0;
  trips_total = if b.state == 1 then b.trips_total else add64 b.trips_total 1;
}

unfoldable pub record_success : CircuitBreaker → CircuitBreaker
record_success b =
    let c = record b { consecutive_failures = 0; probe_in_flight = false } in
    let successes = add32 b.consecutive_successes 1 in
    elim (state_of b) [
      | half_open ↦
          if leb b.config.success_threshold successes
          then record c { state = 0; consecutive_successes = 0 }
          else record c { consecutive_successes = successes }
      | _ ↦ c
    ]

unfoldable pub record_failure : CircuitBreaker → ℕ → CircuitBreaker
unfolding trip
record_failure b now =
    let c = record b {
      failures_total = add64 b.failures_total 1;
      consecutive_successes = 0;
      probe_in_flight = false;
    } in
    let failures = add32 b.consecutive_failures 1 in
    let d = record c { consecutive_failures = failures } in
    elim (state_of b) [
      | half_open ↦ trip c now
      | _ ↦ if leb b.config.failure_threshold failures then trip d now else d
    ]

unfoldable pub reset : CircuitBreaker → CircuitBreaker
reset b = record b {
  state = 0;
  consecutive_failures = 0;
  consecutive_successes = 0;
  probe_in_flight = false;
}

pub record BreakerSnapshot : Type 0 where
  pub state : BreakerState
  pub failures_total : ℕ
  pub trips_total : ℕ
  pub rejected_total : ℕ

unfoldable pub snapshot : CircuitBreaker → BreakerSnapshot
snapshot b = record {
  state = state_of b;
  failures_total = b.failures_total;
  trips_total = b.trips_total;
  rejected_total = b.rejected_total;
}

-- A call of the breaker's interface, with the time at which it is made.
pub data Call : Type 0 where
  ask : ℕ → Call
  success : Call
  failure : ℕ → Call
  force_closed : Call

unfoldable pub step : CircuitBreaker → Call → CircuitBreaker
unfolding allows record_success record_failure reset
step b (ask now) = (allows b now).0
step b success = record_success b
step b (failure now) = record_failure b now
step b force_closed = reset b

unfoldable pub run : CircuitBreaker → List Call → CircuitBreaker
run b [] = b
run b (c ∷ cs) = run (step b c) cs
