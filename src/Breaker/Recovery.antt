-- ===== src/Breaker/Recovery.antt =====
-- How probes close the breaker, and how a failure opens it again (crates/havuz-pool/src/breaker.rs).
use havuz.Base.{
  ℕ, suc, ◌+◌, ◌*◌, ◌/◌, ◌^◌, ◌<◌, ◌≤◌, ◌≡◌, ◌⊎◌, ◌∙◌, ap, true, false, List, [], ◌∷◌, leb,
  if◌then◌else◌, add64, length, arith,
}
use havuz.Breaker.{CircuitBreaker, Call, ask, success, failure, cooldown_elapsed, allows, step, run}
use havuz.Breaker.Invariant.{Inv, step-Inv}
use havuz.Breaker.Refinement.{config-step}

-- Probes that all succeed, at the given times.
abbrev pub rounds : List ℕ → List Call
rounds [] = []
rounds (t ∷ ts) = ask t ∷ success ∷ rounds ts

-- One probe and its success.
abbrev round : CircuitBreaker → ℕ → CircuitBreaker
round b t = step (step b (ask t)) success

round-config : (b : CircuitBreaker) (t : ℕ) → (round b t).config ≡ b.config
round-config b t = config-step (step b (ask t)) success ∙ config-step b (ask t)

round-Inv : (b : CircuitBreaker) (t : ℕ) → Inv b → Inv (round b t)
round-Inv b t v = step-Inv (step b (ask t)) success (step-Inv b (ask t) v)

round_closed : (b : CircuitBreaker) (t : ℕ) → b.state ≡ 0 → (round b t).state ≡ 0
unfolding step
round_closed b t h = ground arith

round_half_open :
    (b : CircuitBreaker) (t : ℕ)
    → Inv b
    → b.state ≡ 2
    → ((b.config.success_threshold ≤ suc b.consecutive_successes) × ((round b t).state ≡ 0))
      ⊎ ((suc b.consecutive_successes < b.config.success_threshold)
          × ((round b t).state ≡ 2)
          × ((round b t).consecutive_successes ≡ suc b.consecutive_successes))
unfolding step
round_half_open b t v h = ground arith

round_open :
    (b : CircuitBreaker) (t : ℕ)
    → Inv b
    → b.state ≡ 1
    → cooldown_elapsed b t ≡ true
    → ((b.config.success_threshold ≤ 1) × ((round b t).state ≡ 0))
      ⊎ ((1 < b.config.success_threshold)
          × ((round b t).state ≡ 2)
          × ((round b t).consecutive_successes ≡ 1))
unfolding step
round_open b t v h cooled = ground arith

closed_rounds : (b : CircuitBreaker) (ts : List ℕ) → b.state ≡ 0 → (run b (rounds ts)).state ≡ 0
unfolding run
closed_rounds b [] h = h
closed_rounds b (t ∷ ts) h = closed_rounds (round b t) ts (round_closed b t h)

half_open_rounds :
    (b : CircuitBreaker) (ts : List ℕ) (s : ℕ)
    → Inv b
    → b.config.success_threshold ≡ s
    → b.state ≡ 2
    → b.consecutive_successes < s
    → (run b (rounds ts)).state ≡ (if leb s (b.consecutive_successes + length ts) then 0 else 2)
unfolding run
half_open_rounds b [] s v e h below = ground arith
half_open_rounds b (t ∷ ts) s v e h below =
    let q = round b t in
    ground (
      arith,
      round_half_open b t v h,
      closed_rounds q ts,
      half_open_rounds q ts s (round-Inv b t v)
          (ap (λ k. k.success_threshold) (round-config b t) ∙ e),
    )

-- An open breaker whose cooldown has passed recovers by probes that succeed, and by no fewer than
-- its success threshold: after the first such probe and any number of others it is closed if they
-- are at least the threshold together, and half-open if they are fewer.
pub recovers :
    (b : CircuitBreaker) (t : ℕ) (ts : List ℕ)
    → Inv b
    → b.state ≡ 1
    → cooldown_elapsed b t ≡ true
    → (run b (rounds (t ∷ ts))).state
      ≡ (if leb b.config.success_threshold (length (t ∷ ts)) then 0 else 2)
unfolding run
recovers b t ts v h cooled =
    let q = round b t in
    ground (
      arith,
      round_open b t v h cooled,
      closed_rounds q ts,
      half_open_rounds q ts b.config.success_threshold (round-Inv b t v)
          (ap (λ k. k.success_threshold) (round-config b t)),
    )

-- One failure while half-open opens the breaker again at once, as a new trip, and the cooldown
-- starts anew at that failure, to the microsecond: no caller gets through while less than it has
-- passed since. The cooldown is positive and the time fits 64 bits.
pub reopens :
    (b : CircuitBreaker) (t now : ℕ)
    → Inv b
    → b.state ≡ 2
    → t / 1000 < 2 ^ 64
    → 0 < b.config.cooldown
    → now < (t / 1000) * 1000 + b.config.cooldown
    → let q = step b (failure t) in
      (q.state ≡ 1)
      × (q.trips_total ≡ add64 b.trips_total 1)
      × (q.probe_in_flight ≡ false)
      × ((allows q now).1 ≡ false)
unfolding step allows
reopens b t now v h word wait early = ground arith
