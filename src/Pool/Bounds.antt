-- ===== src/Pool/Bounds.antt =====
-- The invariant of a pool and its tasks (crates/havuz-pool/src/pool.rs): permits, connections and
-- counters always add up.
use havuz.Base.{ℕ, ◌+◌, ◌%◌, ◌^◌, ◌≤◌, ◌<◌, ◌≡◌, Bool, some, [], ◌∷◌, length, length-append, arith}
use havuz.Pool.{Pool, PoolLimits, Conn}
use havuz.Pool.World.{
  Task, TaskEvent, waiting, permitted, connecting, holding, returning, finished, grant,
  queue_timeout, semaphore_closed, look, connect, connect_error, breaks, marks, resets, drops,
  frees, act,
}
use havuz.Pool.Counting.{waits, permit_of, live_of, held_by}

-- A pool with `h` permits taken, `w` tasks waiting, `o` connections checked out, and `v` either
-- checked out or being opened.
pub record Fits (l : PoolLimits) (p : Pool) (h w o v : ℕ) : Type 0 where
  pub limits : p.limits ≡ l
  pub permits : p.permits + h ≡ l.max_size
  pub room : length p.idle + v ≤ l.max_size
  pub waiting : p.counters.waiting ≡ w % 2 ^ 64
  pub active : p.counters.active ≡ o % 2 ^ 64
  pub idle : p.counters.idle ≡ length p.idle % 2 ^ 64
  pub ledger : p.counters.created_total ≡ (p.counters.closed_total + o + length p.idle) % 2 ^ 64
  pub words : (p.counters.closed_total < 2 ^ 64) × (l.max_size < 2 ^ 32)

module _ (l : PoolLimits) (p q : Pool) (u : Task) (h w o v : ℕ) (below : v ≤ h) where
  abbrev pub Good : Task → Type 0
  Good t = Fits l p (h + permit_of t) (w + waits t) (o + held_by t) (v + live_of t)

  abbrev pub Kept : Type 0
  Kept = Fits l q (h + permit_of u) (w + waits u) (o + held_by u) (v + live_of u)

  waiting-Fits : (e : TaskEvent) → Good waiting → act p waiting e ≡ some (q, u) → Kept
  unfolding act
  waiting-Fits (grant waited) f e = ground arith
  waiting-Fits (queue_timeout waited) f e = ground arith
  waiting-Fits semaphore_closed f e = ground arith
  waiting-Fits _ f e = ground arith

  permitted-Fits : (e : TaskEvent) → Good permitted → act p permitted e ≡ some (q, u) → Kept
  unfolding act
  permitted-Fits (look now) f e = ground arith
  permitted-Fits _ f e = ground arith

  connecting-Fits : (e : TaskEvent) → Good connecting → act p connecting e ≡ some (q, u) → Kept
  unfolding act
  connecting-Fits (connect c) f e = ground arith
  connecting-Fits connect_error f e = ground arith
  connecting-Fits _ f e = ground arith

  returning-Fits : (e : TaskEvent) → Good returning → act p returning e ≡ some (q, u) → Kept
  unfolding act
  returning-Fits frees f e = ground arith
  returning-Fits _ f e = ground arith

  finished-Fits : (e : TaskEvent) → Good finished → act p finished e ≡ some (q, u) → Kept
  unfolding act
  finished-Fits frees f e = ground arith
  finished-Fits _ f e = ground arith

  holding-Fits :
      (c : Conn) (marked : Bool) (e : TaskEvent)
      → Good (holding c marked)
      → act p (holding c marked) e ≡ some (q, u)
      → Kept
  unfolding act
  holding-Fits c marked breaks f e = ground arith
  holding-Fits c marked marks f e = ground arith
  holding-Fits c marked (resets answer) f e = ground arith
  holding-Fits c marked (drops now) f e =
      ground (arith, length-append p.idle (record { conn = c; idle_since = now } ∷ []))
  holding-Fits c marked _ f e = ground arith

  pub act-Fits : (t : Task) (e : TaskEvent) → Good t → act p t e ≡ some (q, u) → Kept
  act-Fits waiting e f a = waiting-Fits e f a
  act-Fits permitted e f a = permitted-Fits e f a
  act-Fits connecting e f a = connecting-Fits e f a
  act-Fits (holding c marked) e f a = holding-Fits c marked e f a
  act-Fits returning e f a = returning-Fits e f a
  act-Fits finished e f a = finished-Fits e f a
