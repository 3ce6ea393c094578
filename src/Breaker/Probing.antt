-- ===== src/Breaker/Probing.antt =====
-- Whom an open breaker lets through (crates/havuz-pool/src/breaker.rs).
use havuz.Base.{
  ℕ, suc, ◌+◌, ◌^◌, ◌<◌, ◌≡◌, refl, true, false, List, [], ◌∷◌, if◌then◌else◌, add64, length, arith,
}
use havuz.Breaker.{CircuitBreaker, Call, ask, cooldown_elapsed, allows, step, run}

abbrev pub asks : List ℕ → List Call
asks [] = []
asks (t ∷ ts) = ask t ∷ asks ts

-- How many callers get through.
pub admitted : CircuitBreaker → List ℕ → ℕ
admitted b [] = 0
admitted b (t ∷ ts) =
    let rest = admitted (allows b t).0 ts in if (allows b t).1 then suc rest else rest

abbrev pub AllWaiting : CircuitBreaker → List ℕ → Type 0
AllWaiting b [] = Unit {0}
AllWaiting b (t ∷ ts) = (cooldown_elapsed b t ≡ false) × AllWaiting b ts

waiting_step :
    (b : CircuitBreaker) (t : ℕ)
    → b.state ≡ 1
    → cooldown_elapsed b t ≡ false
    → allows b t ≡ (record b { rejected_total = add64 b.rejected_total 1 }, false)
unfolding allows
waiting_step b t h w = ground arith

waiting_keep :
    (b : CircuitBreaker) (ts : List ℕ) (n : ℕ)
    → AllWaiting b ts
    → AllWaiting (record b { rejected_total = n }) ts
unfolding cooldown_elapsed
waiting_keep b [] n w = tt
waiting_keep b (t ∷ ts) n w = (w.0, waiting_keep b ts n w.1)

-- Until its cooldown has passed an open breaker refuses every caller, changes in nothing but the
-- count of refusals, and counts each of them.
pub open_refuses :
    (b : CircuitBreaker) (ts : List ℕ)
    → b.state ≡ 1
    → b.rejected_total + length ts < 2 ^ 64
    → AllWaiting b ts
    → (admitted b ts ≡ 0)
      × (run b (asks ts) ≡ record b { rejected_total = b.rejected_total + length ts })
unfolding admitted run step
open_refuses b [] h fits w = ground arith
open_refuses b (t ∷ ts) h fits w =
    let n = add64 b.rejected_total 1 in
    let c = record b { rejected_total = n } in
    ground
      (arith, waiting_step b t h w.0, open_refuses c ts h (omega arith) (waiting_keep b ts n w.1))

busy_refuses :
    (b : CircuitBreaker) (ts : List ℕ) → b.state ≡ 2 → b.probe_in_flight ≡ true → admitted b ts ≡ 0
unfolding admitted allows
busy_refuses b [] h busy = refl
busy_refuses b (t ∷ ts) h busy =
    ground (arith, busy_refuses (record b { probe_in_flight = true }) ts h refl)

-- Of the callers that ask an open breaker once its cooldown has passed, exactly the first is let
-- through, however many follow before an outcome is reported.
pub one_probe :
    (b : CircuitBreaker) (t : ℕ) (ts : List ℕ)
    → b.state ≡ 1
    → cooldown_elapsed b t ≡ true
    → ((allows b t).1 ≡ true) × (admitted b (t ∷ ts) ≡ 1)
unfolding admitted allows
one_probe b t ts h cooled = ground (
  arith,
  busy_refuses (record b { state = 2; consecutive_successes = 0; probe_in_flight = true }) ts refl
      refl,
)
