-- ===== src/Breaker/Tests.antt =====
-- Runs of a breaker as the tests of crates/havuz-pool/src/breaker.rs make them.
use havuz.Base.{◌≤◌, ◌≡◌, refl, true, false, [], ◌∷◌, arith}
use havuz.Breaker.{
  CircuitBreaker, ask, success, failure, force_closed, closed, open_, default_config, state_of,
  step, run, snapshot, cooldown_elapsed,
}
use havuz.Breaker.Refinement.{phase, moves, run-moves}
use havuz.Breaker.Tripping.{failures}
use havuz.Breaker.Probing.{asks}
use havuz.Breaker.Recovery.{rounds, recovers}
use havuz.Breaker.Interleaving.{turns, starts, race, at_most_two_probes, two_probes_race}
use havuz.Breaker.Interleaving

abbrev fresh : CircuitBreaker
fresh = record {
  config = default_config;
  state = 0;
  consecutive_failures = 0;
  consecutive_successes = 0;
  opened_at_micros = 0;
  probe_in_flight = false;
  failures_total = 0;
  trips_total = 0;
  rejected_total = 0;
}

-- Opened at five milliseconds.
abbrev tripped : CircuitBreaker
tripped = record fresh { state = 1; opened_at_micros = 5000; failures_total = 3; trips_total = 1 }

abbrev recovering : CircuitBreaker
recovering = record tripped { state = 2; probe_in_flight = true }

-- Three failures in a row trip it; failures with successes between do not.
trips : state_of (run fresh (failures (1 ∷ 2 ∷ 3 ∷ []))) ≡ open_
unfolding run step
trips = refl

isolated :
    state_of (run fresh (failure 1 ∷ failure 2 ∷ success ∷ failure 3 ∷ failure 4 ∷ [])) ≡ closed
unfolding run step
isolated = refl

resets : state_of (run tripped (force_closed ∷ [])) ≡ closed
unfolding run step
resets = refl

counts_refusals : (snapshot (run tripped (asks (6_000_000 ∷ 7_000_000 ∷ [])))).rejected_total ≡ 2
unfolding run step snapshot cooldown_elapsed
counts_refusals = refl

run-moves_example :
    phase (run tripped (ask 20_000_000_000 ∷ success ∷ []))
    ≡ moves default_config (phase tripped) (ask 20_000_000_000 ∷ success ∷ [])
run-moves_example = (run-moves tripped (ask 20_000_000_000 ∷ success ∷ []) (ground arith)).0

recovers_example : (run tripped (rounds (20_000_000_000 ∷ 20_000_000_001 ∷ []))).state ≡ 0
unfolding cooldown_elapsed
recovers_example = recovers tripped 20_000_000_000 (20_000_000_001 ∷ []) (ground arith) refl refl

at_most_two_probes_example :
    Interleaving.admitted (turns tripped (starts 3) (race 20_000_000_000)).1 ≤ 2
at_most_two_probes_example = at_most_two_probes tripped 3 (race 20_000_000_000) refl
