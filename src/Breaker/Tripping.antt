-- ===== src/Breaker/Tripping.antt =====
-- How a run of failures opens the breaker (crates/havuz-pool/src/breaker.rs).
use havuz.Base.{
  ℕ, suc, ◌+◌, ◌<◌, ◌≤◌, ◌≡◌, ◌⊎◌, ◌∙◌, ap, refl, List, [], ◌∷◌, leb, if◌then◌else◌, add64, length,
  arith,
}
use havuz.Breaker.{CircuitBreaker, Call, failure, step, run}
use havuz.Breaker.Invariant.{Inv, step-Inv}
use havuz.Breaker.Refinement.{config-step}

abbrev pub failures : List ℕ → List Call
failures [] = []
failures (t ∷ ts) = failure t ∷ failures ts

failure_open :
    (b : CircuitBreaker) (t : ℕ)
    → b.state ≡ 1
    → ((step b (failure t)).state ≡ 1) × ((step b (failure t)).trips_total ≡ b.trips_total)
unfolding step
failure_open b t h = ground arith

failure_closed :
    (b : CircuitBreaker) (t : ℕ)
    → Inv b
    → b.state ≡ 0
    → let q = step b (failure t) in
      ((b.config.failure_threshold ≤ suc b.consecutive_failures)
        × (q.state ≡ 1)
        × (q.trips_total ≡ add64 b.trips_total 1))
      ⊎ ((suc b.consecutive_failures < b.config.failure_threshold)
          × (q.state ≡ 0)
          × (q.consecutive_failures ≡ suc b.consecutive_failures)
          × (q.trips_total ≡ b.trips_total))
unfolding step
failure_closed b t v h = ground arith

open_failures :
    (b : CircuitBreaker) (ts : List ℕ)
    → b.state ≡ 1
    → ((run b (failures ts)).state ≡ 1) × ((run b (failures ts)).trips_total ≡ b.trips_total)
unfolding run
open_failures b [] h = (h, refl)
open_failures b (t ∷ ts) h =
    let (still, same) = failure_open b t h in
    let (s, n) = open_failures (step b (failure t)) ts still in (s, n ∙ same)

closed_failures :
    (b : CircuitBreaker) (ts : List ℕ) (f : ℕ)
    → Inv b
    → b.config.failure_threshold ≡ f
    → b.state ≡ 0
    → b.consecutive_failures < f
    → let q = run b (failures ts) in
      let over = leb f (b.consecutive_failures + length ts) in
      (q.state ≡ (if over then 1 else 0))
      × (q.trips_total ≡ (if over then add64 b.trips_total 1 else b.trips_total))
unfolding run
closed_failures b [] f v e h below = ground arith
closed_failures b (t ∷ ts) f v e h below =
    let q = step b (failure t) in
    ground (
      arith,
      failure_closed b t v h,
      open_failures q ts,
      closed_failures q ts f (step-Inv b (failure t) v)
          (ap (λ k. k.failure_threshold) (config-step b (failure t)) ∙ e),
    )

-- A closed breaker with a clean record trips at exactly its threshold: after any number of failures
-- with no success between, it is open if they are at least the threshold and closed if they are
-- fewer, and they have counted as one trip or none. The threshold is positive.
pub failures_trip_once :
    (b : CircuitBreaker) (ts : List ℕ)
    → Inv b
    → b.state ≡ 0
    → b.consecutive_failures ≡ 0
    → 0 < b.config.failure_threshold
    → let q = run b (failures ts) in
      let over = leb b.config.failure_threshold (length ts) in
      (q.state ≡ (if over then 1 else 0))
      × (q.trips_total ≡ (if over then add64 b.trips_total 1 else b.trips_total))
failures_trip_once b ts v h clean pos =
    ground (arith, closed_failures b ts b.config.failure_threshold v refl h)
