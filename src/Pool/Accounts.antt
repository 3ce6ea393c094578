-- ===== src/Pool/Accounts.antt =====
-- What `acquire` and a returned checkout leave on the books of a pool, on every branch
-- (crates/havuz-pool/src/pool.rs).
use havuz.Base.{ℕ, ◌+◌, ◌≡◌, ◌<◌, ◌^◌, List, [], ◌∷◌, none, some, Option, ◌%◌, arith}
use havuz.Pool.{Pool, Slot, Conn, take_slot, discard_conn}
use havuz.Pool.Checkout.{
  reuse_from, acquire, enter, granted, Wait, permit, Connect, opened, refused, Acquired, ok, err,
}

abbrev found : Option Conn → ℕ
found none = 0
found (some c) = 1

-- What the loop leaves alone, and that it counts a connection that it found as checked out.
reuse_from_keeps :
    (p : Pool) (now : ℕ) (idle : List Slot)
    → p.counters.active < 2 ^ 64
    → let (q, r) = reuse_from p now idle in
      (q.permits ≡ p.permits)
      × (q.counters.waiting ≡ p.counters.waiting)
      × (q.counters.active ≡ (p.counters.active + found r) % 2 ^ 64)
unfolding reuse_from
reuse_from_keeps p now [] h = ground arith
reuse_from_keeps p now (x ∷ rest) h =
    ground (arith, reuse_from_keeps (discard_conn (take_slot p rest) x.conn) now rest h)

abbrev pub taken : Acquired → ℕ
taken (ok c) = 1
taken (err e) = 0

abbrev pub Grantable : Pool → Wait → Type 0
Grantable p permit = 0 < p.permits
Grantable p _ = Unit {0}

-- On every branch, errors included, a call of `acquire` leaves no trace in the gauge of waiting
-- clients; it keeps one permit and counts one connection as checked out exactly if it succeeds.
-- The gauges are below 2^64, and a grant finds a free permit.
pub acquire_accounts :
    (p : Pool) (wait : Wait) (waited now : ℕ) (answer : Connect)
    → p.counters.active < 2 ^ 64
    → p.counters.waiting < 2 ^ 64
    → Grantable p wait
    → let (q, r) = acquire p wait waited now answer in
      (q.permits + taken r ≡ p.permits)
      × (q.counters.active ≡ (p.counters.active + taken r) % 2 ^ 64)
      × (q.counters.waiting ≡ p.counters.waiting)
unfolding acquire
acquire_accounts p permit waited now (opened c) k w g =
    ground (arith, reuse_from_keeps (granted (enter p) waited) now p.idle)
acquire_accounts p permit waited now (refused e) k w g =
    ground (arith, reuse_from_keeps (granted (enter p) waited) now p.idle)
acquire_accounts p permit waited now Connect.timeout k w g =
    ground (arith, reuse_from_keeps (granted (enter p) waited) now p.idle)
acquire_accounts p Wait.timeout waited now answer k w g = ground arith
acquire_accounts p Wait.closed waited now answer k w g = ground arith
