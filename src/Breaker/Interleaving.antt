-- ===== src/Breaker/Interleaving.antt =====
-- `CircuitBreaker::allows` (crates/havuz-pool/src/breaker.rs) by its atomic operations, as any
-- number of threads interleave them.
use havuz.Base.{
  ℕ, zero, suc, ◌+◌, ◌≤◌, ◌≡◌, refl, Bool, true, false, not, ◌⊎◌, inl, List, [], ◌∷◌, ◌==◌,
  if◌then◌else◌, add64, Bool-cases, inr, arith,
}
use havuz.Breaker.{CircuitBreaker, closed, open_, half_open, state_of, cooldown_elapsed, allows}

-- Where a thread stands in `allows`.
pub data Pc : Type 0 where
  start checking_cooldown taking_probe opening rejecting clearing_successes setting_probe : Pc
  done : Bool → Pc

-- One atomic load, store or exchange. Time is the caller's own, read when the cooldown is checked.
pub advance : Pc → CircuitBreaker → ℕ → CircuitBreaker × Pc
advance start b now = elim (state_of b) [
  | closed ↦ (b, done true)
  | half_open ↦ (b, taking_probe)
  | open_ ↦ (b, checking_cooldown)
]
advance taking_probe b now = (record b { probe_in_flight = true }, done (not b.probe_in_flight))
advance checking_cooldown b now = (b, if cooldown_elapsed b now then opening else rejecting)
advance opening b now =
    if b.state == 1 then (record b { state = 2 }, clearing_successes) else (b, rejecting)
advance clearing_successes b now = (record b { consecutive_successes = 0 }, setting_probe)
advance setting_probe b now = (record b { probe_in_flight = true }, done true)
advance rejecting b now = (record b { rejected_total = add64 b.rejected_total 1 }, done false)
advance (done r) b now = (b, done r)

-- Thread `i` of those in `ts` takes one step at time `now`.
pub turn : CircuitBreaker → List Pc → ℕ → ℕ → CircuitBreaker × List Pc
turn b [] i now = (b, [])
turn b (t ∷ ts) zero now = let (b', t') = advance t b now in (b', t' ∷ ts)
turn b (t ∷ ts) (suc i) now = let (b', ts') = turn b ts i now in (b', t ∷ ts')

-- A schedule: who moves next, and when.
pub turns : CircuitBreaker → List Pc → List (ℕ × ℕ) → CircuitBreaker × List Pc
turns b ts [] = (b, ts)
turns b ts ((i, now) ∷ s) = let (b', ts') = turn b ts i now in turns b' ts' s

pub alone : ℕ → Pc → CircuitBreaker → ℕ → CircuitBreaker × Pc
alone zero t b now = (b, t)
alone (suc n) t b now = let (b', t') = advance t b now in alone n t' b' now

-- A thread that nobody interrupts ends in at most five steps, with the result and the state of
-- `allows` taken as one step.
pub alone-allows :
    (b : CircuitBreaker) (now : ℕ) → alone 5 start b now ≡ ((allows b now).0, done (allows b now).1)
unfolding alone advance allows
alone-allows b now = ground arith

abbrev admitted_by : Pc → ℕ
admitted_by (done true) = 1
admitted_by _ = 0

pub admitted : List Pc → ℕ
admitted [] = 0
admitted (t ∷ ts) = admitted_by t + admitted ts

-- What a thread has been granted, or is about to be.
abbrev claim_of : Pc → ℕ
claim_of (done true) = 1
claim_of clearing_successes = 1
claim_of setting_probe = 1
claim_of _ = 0

claims : List Pc → ℕ
claims [] = 0
claims (t ∷ ts) = claim_of t + claims ts

-- What the shared state can still grant.
abbrev slots : CircuitBreaker → ℕ
slots b = elim (state_of b) [
  | closed ↦ 0
  | open_ ↦ 2
  | half_open ↦ if b.probe_in_flight then 0 else 1
]

abbrev IsTripped : CircuitBreaker → Type 0
IsTripped b = (b.state ≡ 1) ⊎ (b.state ≡ 2)

-- A thread takes the slot only after it has read the half-open state.
abbrev Fits : CircuitBreaker → Pc → Type 0
Fits b t = t ≡ taking_probe → b.state ≡ 2

abbrev AllFit : CircuitBreaker → List Pc → Type 0
AllFit b [] = Unit {0}
AllFit b (t ∷ ts) = Fits b t × AllFit b ts

abbrev Stays : CircuitBreaker → CircuitBreaker → Type 0
Stays b c = IsTripped c × (b.state ≡ 2 → c.state ≡ 2)

AllFit-Stays : (b c : CircuitBreaker) (ts : List Pc) → Stays b c → AllFit b ts → AllFit c ts
AllFit-Stays b c [] h f = tt
AllFit-Stays b c (t ∷ ts) h f = (λ e. h.1 (f.0 e), AllFit-Stays b c ts h f.1)

abbrev Kept : CircuitBreaker → Pc → ℕ → Type 0
Kept b t now =
    Stays b (advance t b now).0
    × Fits (advance t b now).0 (advance t b now).1
    × (claim_of (advance t b now).1 + slots (advance t b now).0 ≤ claim_of t + slots b)

taking_probe_kept : (b : CircuitBreaker) (now : ℕ) → b.state ≡ 2 → Kept b taking_probe now
unfolding advance
taking_probe_kept b now h = elim (Bool-cases b.probe_in_flight) [
  | inl busy ↦ rw busy (ground arith)
  | inr free ↦ rw free (ground arith)
]

advance_claims : (t : Pc) (b : CircuitBreaker) (now : ℕ) → IsTripped b → Fits b t → Kept b t now
unfolding advance
advance_claims start b now h f = ground arith
advance_claims taking_probe b now h f = taking_probe_kept b now (f refl)
advance_claims checking_cooldown b now h f = ground arith
advance_claims opening b now h f = ground arith
advance_claims clearing_successes b now h f = ground arith
advance_claims setting_probe b now h f = ground arith
advance_claims rejecting b now h f = ground arith
advance_claims (done true) b now h f = ground arith
advance_claims (done false) b now h f = ground arith

turn-claims :
    (b : CircuitBreaker) (ts : List Pc) (i now : ℕ)
    → IsTripped b
    → AllFit b ts
    → let (c, us) = turn b ts i now in
      Stays b c × AllFit c us × (claims us + slots c ≤ claims ts + slots b)
unfolding turn claims
turn-claims b [] i now h f = ((h, λ e. e), tt, omega arith)
turn-claims b (t ∷ ts) zero now h f =
    let (stays, fits, less) = advance_claims t b now h f.0 in
    (stays, (fits, AllFit-Stays b (advance t b now).0 ts stays f.1), omega (arith, less))
turn-claims b (t ∷ ts) (suc i) now h f =
    let (stays, fits, less) = turn-claims b ts i now h f.1 in
    (stays, (λ e. stays.1 (f.0 e), fits), omega (arith, less))

claims-turns :
    (b : CircuitBreaker) (ts : List Pc) (s : List (ℕ × ℕ))
    → IsTripped b
    → AllFit b ts
    → claims (turns b ts s).1 ≤ claims ts + slots b
unfolding turns
claims-turns b ts [] h f = omega arith
claims-turns b ts ((i, now) ∷ s) h f =
    let (stays, fits, less) = turn-claims b ts i now h f in
    omega (arith, claims-turns (turn b ts i now).0 (turn b ts i now).1 s stays.0 fits, less)

admitted-le-claims : (ts : List Pc) → admitted ts ≤ claims ts
unfolding admitted claims
admitted-le-claims [] = omega arith
admitted-le-claims (t ∷ ts) = ground (arith, admitted-le-claims ts)

abbrev pub starts : ℕ → List Pc
starts zero = []
starts (suc n) = start ∷ starts n

claims-starts : (n : ℕ) → claims (starts n) ≡ 0
unfolding claims
claims-starts zero = refl
claims-starts (suc n) = omega (arith, claims-starts n)

starts_fit : (b : CircuitBreaker) (n : ℕ) → AllFit b (starts n)
starts_fit b zero = tt
starts_fit b (suc n) = (λ e. cc, starts_fit b n)

-- However many threads race for an open breaker, in whatever order their atomic operations run, at
-- most two of them are let through before an outcome is reported.
pub at_most_two_probes :
    (b : CircuitBreaker) (n : ℕ) (s : List (ℕ × ℕ))
    → b.state ≡ 1
    → admitted (turns b (starts n) s).1 ≤ 2
at_most_two_probes b n s h = ground (
  arith,
  claims-turns b (starts n) s (inl h) (starts_fit b n),
  admitted-le-claims (turns b (starts n) s).1,
  claims-starts n,
)

-- The schedule of a race: the first thread has moved the state to half-open and has not yet taken
-- the probe slot when the second looks.
abbrev pub race : ℕ → List (ℕ × ℕ)
race now = (0, now) ∷ (0, now) ∷ (0, now) ∷ (1, now) ∷ (1, now) ∷ (0, now) ∷ (0, now) ∷ []

-- The bound is reached. For every open breaker with a free probe slot, once the cooldown has
-- passed, there is an order of the atomic operations of two concurrent calls of `allows` by which
-- both are let through: the move to half-open and the taking of the probe slot are not one step.
pub two_probes_race :
    (b : CircuitBreaker) (now : ℕ)
    → b.state ≡ 1
    → b.probe_in_flight ≡ false
    → cooldown_elapsed b now ≡ true
    → admitted (turns b (starts 2) (race now)).1 ≡ 2
unfolding turns turn advance admitted
two_probes_race b now h free cooled = ground arith
