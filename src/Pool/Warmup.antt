-- ===== src/Pool/Warmup.antt =====
-- `Pool::warmup` (crates/havuz-pool/src/pool.rs): checkouts that are held together, then given back.
use havuz.Base.{
  ℕ, ◌+◌, ◌^◌, ◌≤◌, ◌<◌, ◌≡◌, refl, false, ◌⊎◌, inl, inr, List, [], ◌∷◌, ◌++◌, length,
  length-append, arith,
}
use havuz.Pool.{Pool, Conn}
use havuz.Pool.Checkout.{
  Wait, permit, timeout, closed, Connect, Acquired, ok, err, PoolError, acquire, give_back,
  free_permit,
}
use havuz.Pool.Accounts.{acquire_accounts, Grantable}

-- What the environment answers to one call of `acquire`.
pub record Attempt : Type 0 where
  pub wait : Wait
  pub waited : ℕ
  pub now : ℕ
  pub connect : Connect

pub data Warmed : Type 0 where
  warmed : ℕ → Warmed
  failed : PoolError → Warmed

-- Dropping the held checkouts, each with its permit.
unfoldable pub drop_held : Pool → ℕ → List Conn → Pool
unfolding give_back free_permit
drop_held p now [] = p
drop_held p now (c ∷ cs) = drop_held (free_permit (give_back p c false now)) now cs

-- The loop over `min_idle` attempts. An error returns at once, and drops what is held.
unfoldable pub warmup_from : Pool → ℕ → List Attempt → List Conn → Pool × Warmed
unfolding acquire drop_held
warmup_from p now [] held = (drop_held p now held, warmed (length held))
warmup_from p now (a ∷ rest) held =
    let (q, r) = acquire p a.wait a.waited a.now a.connect in
    elim r [
      | ok c ↦ warmup_from q now rest (held ++ c ∷ [])
      | err e ↦ (drop_held q now held, failed e)
    ]

-- `rest` has one attempt for each of `min_idle` rounds.
unfoldable pub warmup : Pool → ℕ → List Attempt → Pool × Warmed
unfolding warmup_from
warmup p now attempts = warmup_from p now attempts []

give_back-permits : (p : Pool) (c : Conn) (now : ℕ) → (give_back p c false now).permits ≡ p.permits
unfolding give_back
give_back-permits p c now = ground arith

drop_held-permits :
    (p : Pool) (now : ℕ) (cs : List Conn) → (drop_held p now cs).permits ≡ p.permits + length cs
unfolding drop_held free_permit
drop_held-permits p now [] = omega arith
drop_held-permits p now (c ∷ cs) = omega (
  arith,
  drop_held-permits (free_permit (give_back p c false now)) now cs,
  give_back-permits p c now,
)

Acquired-cases : (r : Acquired) → ((c : Conn) × (r ≡ ok c)) ⊎ ((e : PoolError) × (r ≡ err e))
Acquired-cases (ok c) = inl (c, refl)
Acquired-cases (err e) = inr (e, refl)

grantable : (p : Pool) (w : Wait) → 0 < p.permits → Grantable p w
grantable p permit h = h
grantable p timeout h = tt
grantable p closed h = tt

warmup_from-permits :
    (p : Pool) (now : ℕ) (attempts : List Attempt) (held : List Conn)
    → p.counters.active < 2 ^ 64
    → p.counters.waiting < 2 ^ 64
    → length attempts ≤ p.permits
    → (warmup_from p now attempts held).0.permits ≡ p.permits + length held
unfolding warmup_from
warmup_from-permits p now [] held a w h = drop_held-permits p now held
warmup_from-permits p now (x ∷ rest) held a w h =
    let (q, r) = acquire p x.wait x.waited x.now x.connect in
    let (permits, actives, waits) =
      acquire_accounts p x.wait x.waited x.now x.connect a w (grantable p x.wait (omega arith)) in
    elim (Acquired-cases r) [
      | inl (c, e) ↦
          let kept : q.permits + 1 ≡ p.permits = rw e at permits in
          ground (
            arith,
            e,
            kept,
            length-append held (c ∷ []),
            warmup_from-permits q now rest (held ++ c ∷ []) (rw actives (omega arith)) (rw waits w)
                (omega (arith, kept)),
          )
      | inr (x, e) ↦
          let kept : q.permits + 0 ≡ p.permits = rw e at permits in
          ground (arith, e, kept, drop_held-permits q now held)
    ]

-- Warming up takes no permit away: whether every attempt succeeds or one of them fails half way, all
-- permits are free again afterwards. There are at least as many free permits as attempts, and the
-- gauges are below 2^64.
pub warmup-permits :
    (p : Pool) (now : ℕ) (attempts : List Attempt)
    → p.counters.active < 2 ^ 64
    → p.counters.waiting < 2 ^ 64
    → length attempts ≤ p.permits
    → (warmup p now attempts).0.permits ≡ p.permits
unfolding warmup
warmup-permits p now attempts a w h = omega (arith, warmup_from-permits p now attempts [] a w h)
