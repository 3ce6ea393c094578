-- ===== src/Pool/Overshoot.antt =====
-- Connections that the closing task has not closed yet (crates/havuz-pool/src/pool.rs).
use Prim.Native.String.{String}
use havuz.Base.{
  ℕ, zero, suc, ◌+◌, ◌≡◌, ◌<◌, refl, true, false, List, [], ◌∷◌, length, length-append, arith,
}
use havuz.Pool.{Pool, PoolLimits, Conn, active, new}
use havuz.Pool.Checkout.{enter, granted, connected, give_back, free_permit}
use havuz.Pool.World.{
  Task, waiting, permitted, connecting, holding, returning, finished, grant, look, connect, marks,
  drops, frees, act, World, arrives, acts, Reach, Reach-trans, start, next, here, initial,
}

-- A pool that can serve the next caller only by opening a connection.
abbrev IsBare : Pool → Type 0
IsBare p = (p.status ≡ active) × (p.permits_closed ≡ false) × (0 < p.permits) × (p.idle ≡ [])

module _ (p : Pool) (c : Conn) where
  abbrev asked : Pool
  asked = granted (enter p) 0

  abbrev served : Pool
  served = free_permit (give_back (connected asked) c true 0)

  -- One client: it is granted a permit, opens a connection, and its session discards it.
  cycle :
      (ts : List Task)
      → IsBare p
      → Reach (record { pool = p; tasks = ts }) (record { pool = served; tasks = finished ∷ ts })
  unfolding act enter
  cycle ts b =
      next
        (next
          (next
            (next
              (next
                (next (next start (arrives p ts (ground arith)))
                  (acts (enter p) asked waiting permitted (grant 0) _ _ (ground arith) here))
                (acts asked asked permitted connecting (look 0) _ _ (ground arith) here))
              (acts asked (connected asked) connecting (holding c false) (connect c) _ _ refl here))
            (acts (connected asked) (connected asked) (holding c false) (holding c true) marks _ _
              refl here))
          (acts (connected asked) (give_back (connected asked) c true 0) (holding c true) returning
            (drops 0) _ _ refl here))
        (acts (give_back (connected asked) c true 0) served returning finished frees _ _ refl here)

  served-IsBare : IsBare p → IsBare served × (length served.closer ≡ suc (length p.closer))
  unfolding enter granted connected give_back free_permit
  served-IsBare b = ground (arith, length-append p.closer (c ∷ []))

overshoot_from :
    (n : ℕ) (p : Pool) (ts : List Task) (c : Conn)
    → IsBare p
    → (w : World) × Reach (record { pool = p; tasks = ts }) w
      × (length w.pool.closer ≡ n + length p.closer)
overshoot_from zero p ts c b = (record { pool = p; tasks = ts }, start, omega arith)
overshoot_from (suc n) p ts c b =
    let (bare, more) = served-IsBare p c b in
    let (w, r, e) = overshoot_from n (served p c) (finished ∷ ts) c bare in
    (w, Reach-trans (cycle p c ts b) r, omega (arith, more, e))

-- A retired connection waits for the closing task while its permit is already free. So the
-- connections that are open to the database are not bounded by `max_size`: for every positive
-- `max_size` and every number there is a run of the pool in which so many retired connections wait
-- to be closed, without an error, a timeout or a call by an operator.
pub retired_overshoot :
    (name : String) (l : PoolLimits) (n : ℕ)
    → 0 < l.max_size
    → (w : World) × Reach (initial (new name l)) w × (length w.pool.closer ≡ n)
unfolding new
retired_overshoot name l n h =
    let c : Conn = record { id = 0; opened_at = 0; is_broken = false } in
    let (w, r, e) = overshoot_from n (new name l) [] c (refl, refl, h, refl) in
    (w, r, omega (arith, e))
