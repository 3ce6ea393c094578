-- ===== src/Breaker/Invariant.antt =====
-- What holds of a breaker (crates/havuz-pool/src/breaker.rs) between two calls.
use havuz.Base.{◌-◌, ◌^◌, ◌≤◌, ◌<◌, ◌≡◌, true, List, [], ◌∷◌, arith}
use havuz.Breaker.{
  BreakerConfig, CircuitBreaker, Call, ask, success, failure, force_closed, new, step, run,
}

abbrev pub IsConfig : BreakerConfig → Type 0
IsConfig c = (c.failure_threshold < 2 ^ 32) × (c.success_threshold < 2 ^ 32)

pub record Inv (b : CircuitBreaker) : Type 0 where
  pub words : IsConfig b.config
  pub code : b.state ≤ 2
  pub failing : b.consecutive_failures ≤ b.config.failure_threshold - 1
  pub succeeding : b.consecutive_successes ≤ b.config.success_threshold - 1
  pub probing : b.probe_in_flight ≡ true → b.state ≡ 2

pub new-Inv : (c : BreakerConfig) → IsConfig c → Inv (new c)
unfolding new
new-Inv c h = ground arith

pub step-Inv : (b : CircuitBreaker) (c : Call) → Inv b → Inv (step b c)
unfolding step
step-Inv b (ask now) v = ground arith
step-Inv b success v = ground arith
step-Inv b (failure now) v = ground arith
step-Inv b force_closed v = ground arith

pub run-Inv : (b : CircuitBreaker) (cs : List Call) → Inv b → Inv (run b cs)
unfolding run
run-Inv b [] v = v
run-Inv b (c ∷ cs) v = run-Inv (step b c) cs (step-Inv b c v)

-- Whatever calls a new breaker receives, its state code is one of the three, both streak counters
-- stay below their thresholds (at zero for a threshold of zero), and the probe slot is taken only
-- in the half-open state. The thresholds are 32-bit words.
pub run-new-Inv : (c : BreakerConfig) (cs : List Call) → IsConfig c → Inv (run (new c) cs)
run-new-Inv c cs h = run-Inv (new c) cs (new-Inv c h)
