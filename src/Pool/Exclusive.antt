-- ===== src/Pool/Exclusive.antt =====
-- A backend connection of a pool (crates/havuz-pool/src/pool.rs) has one owner at a time.
use Prim.Native.String.{String}
use havuz.Base.{ℕ, ◌+◌, ◌≤◌, ◌<◌, ◌^◌, ◌≡◌, arith}
use havuz.Pool.{PoolLimits, new}
use havuz.Pool.Checkout.{enter}
use havuz.Pool.World.{connect, World, Step, arrives, acts, operates, Reach, start, next, initial}
use havuz.Pool.Counting.{total, total-Replace}
use havuz.Pool.Capacity.{Inv, new-Inv, Reach-Inv}
use havuz.Pool.Ownership.{among, shelved, held, copies, brought, balance}
use havuz.Pool.Transfers.{operate_balance}

-- How often a step brings in the connection `i`.
abbrev pub opened_in : ℕ → {w x : World} → Step w x → ℕ
opened_in i (arrives p ts h) = 0
opened_in i (acts p q t u e ts us a r) = brought i e
opened_in i (operates p ts o) = 0

Step-copies :
    (i : ℕ) (l : PoolLimits) {w x : World} (st : Step w x)
    → Inv l w
    → copies i x ≤ copies i w + opened_in i st
unfolding copies total enter
Step-copies i l (arrives p ts h) v = omega arith
Step-copies i l (acts p q t u e ts us a r) v =
    omega (arith, balance i p q u t e a, total-Replace (held i) r)
Step-copies i l (operates p ts o) v = omega (arith, operate_balance i p o v.words.0)

opened-le-one : (i : ℕ) {w x : World} (st : Step w x) → opened_in i st ≤ 1
opened-le-one i (arrives p ts h) = omega arith
opened-le-one i (acts p q t u (connect c) ts us a r) = ground arith
opened-le-one i (acts p q t u _ ts us a r) = omega arith
opened-le-one i (operates p ts o) = omega arith

once : {a b n : ℕ} → a ≤ 1 → b ≤ a + n → (0 < n → a ≡ 0) → n ≤ 1 → b ≤ 1
once {a} {b} {n} h k f small = grind arith

-- A run in which the connector never answers with a connection that the pool still has.
pub data FreshReach (w : World) : World → Type 0 where
  none_yet : FreshReach w w
  then_ :
      {u v : World}
      → FreshReach w u
      → (st : Step u v) → ((i : ℕ) → 0 < opened_in i st → copies i u ≡ 0)
      → FreshReach w v

pub forget_fresh : {w x : World} → FreshReach w x → Reach w x
forget_fresh none_yet = start
forget_fresh (then_ r st f) = next (forget_fresh r) st

-- At most one owner: at every moment, each connection is in at most one place among the idle
-- queue, the checkouts and the closing task's queue, and there only once. So no two clients ever
-- share a connection, and none that a client holds is idle or about to be closed. The connector
-- is assumed never to answer with a connection that the pool still has.
pub exclusive :
    (name : String) (l : PoolLimits) {w : World}
    → l.max_size < 2 ^ 32
    → FreshReach (initial (new name l)) w
    → (i : ℕ) → copies i w ≤ 1
unfolding copies new total shelved among
exclusive name l h none_yet i = omega arith
exclusive name l h (then_ r st fresh) i =
    let v = Reach-Inv l (forget_fresh r) (new-Inv name l h) in
    once (exclusive name l h r i) (Step-copies i l st v) (fresh i) (opened-le-one i st)
