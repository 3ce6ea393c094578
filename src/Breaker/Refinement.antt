-- ===== src/Breaker/Refinement.antt =====
-- The state machine that the module comment of crates/havuz-pool/src/breaker.rs draws, and the
-- proof that the counters and flags of the breaker implement it.
use havuz.Base.{
  ℕ, suc, ◌-◌, ◌*◌, ◌/◌, ◌%◌, ◌^◌, ◌≡◌, refl, Bool, true, false, not, List, [], ◌∷◌, leb,
  if◌then◌else◌, ◌∙◌, ap, arith,
}
use havuz.Breaker.{
  BreakerState, BreakerConfig, CircuitBreaker, Call, ask, success, failure, force_closed, state_of,
  allows, step, run,
}
use havuz.Breaker.Invariant.{Inv, step-Inv}

pub data Phase : Type 0 where
  -- Failures in a row.
  closed : ℕ → Phase
  -- When it opened, in microseconds, and the failures in a row since.
  open_ : ℕ → ℕ → Phase
  -- Successes in a row, and whether a probe is out.
  half_open : ℕ → Bool → Phase

abbrev pub phase : CircuitBreaker → Phase
phase b = elim (state_of b) [
  | BreakerState.closed ↦ closed b.consecutive_failures
  | BreakerState.open_ ↦ open_ b.opened_at_micros b.consecutive_failures
  | BreakerState.half_open ↦ half_open b.consecutive_successes b.probe_in_flight
]

abbrev pub micros : ℕ → ℕ
micros now = (now / 1000) % 2 ^ 64

abbrev pub cooled : BreakerConfig → ℕ → ℕ → Bool
cooled c since now = leb c.cooldown (now - since * 1000)

pub admits : BreakerConfig → Phase → ℕ → Bool
admits c (closed n) now = true
admits c (open_ since n) now = cooled c since now
admits c (half_open k busy) now = not busy

pub move : BreakerConfig → Phase → Call → Phase
move c (closed n) (ask now) = closed n
move c (open_ since n) (ask now) = if cooled c since now then half_open 0 true else open_ since n
move c (half_open k busy) (ask now) = half_open k true
move c (closed n) success = closed 0
move c (open_ since n) success = open_ since 0
move c (half_open k busy) success =
    if leb c.success_threshold (suc k) then closed 0 else half_open (suc k) false
move c (closed n) (failure now) =
    if leb c.failure_threshold (suc n) then open_ (micros now) 0 else closed (suc n)
move c (open_ since n) (failure now) =
    if leb c.failure_threshold (suc n) then open_ (micros now) 0 else open_ since (suc n)
move c (half_open k busy) (failure now) = open_ (micros now) 0
move c p force_closed = closed 0

pub moves : BreakerConfig → Phase → List Call → Phase
moves c p [] = p
moves c p (e ∷ es) = moves c (move c p e) es

pub phase-step :
    (b : CircuitBreaker) (e : Call) → Inv b → phase (step b e) ≡ move b.config (phase b) e
unfolding step move
phase-step b (ask now) v = ground arith
phase-step b success v = ground arith
phase-step b (failure now) v = ground arith
phase-step b force_closed v = ground arith

pub allows-admits :
    (b : CircuitBreaker) (now : ℕ) → (allows b now).1 ≡ admits b.config (phase b) now
unfolding allows admits
allows-admits b now = ground arith

pub config-step : (b : CircuitBreaker) (e : Call) → (step b e).config ≡ b.config
unfolding step
config-step b (ask now) = ground arith
config-step b success = ground arith
config-step b (failure now) = ground arith
config-step b force_closed = ground arith

run-moves_at :
    (c : BreakerConfig) (b : CircuitBreaker) (es : List Call)
    → b.config ≡ c
    → Inv b
    → (phase (run b es) ≡ moves c (phase b) es)
      × ((now : ℕ) → (allows (run b es) now).1 ≡ admits c (moves c (phase b) es) now)
unfolding run moves
run-moves_at c b [] e v = (refl, λ now. allows-admits b now ∙ ap (λ k. admits k (phase b) now) e)
run-moves_at c b (x ∷ es) e v =
    let ih = run-moves_at c (step b x) es (config-step b x ∙ e) (step-Inv b x v) in
    let one : phase (step b x) ≡ move c (phase b) x =
      phase-step b x v ∙ ap (λ k. move k (phase b) x) e in
    rw one at ih

-- The breaker implements the drawn state machine: from any breaker that satisfies the invariant,
-- after any calls, its phase is the one that the machine reaches by the same calls, and it then
-- admits a caller exactly if the machine does.
pub run-moves :
    (b : CircuitBreaker) (es : List Call)
    → Inv b
    → (phase (run b es) ≡ moves b.config (phase b) es)
      × ((now : ℕ) → (allows (run b es) now).1 ≡ admits b.config (moves b.config (phase b) es) now)
run-moves b es v = run-moves_at b.config b es refl v
