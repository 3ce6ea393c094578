-- ===== src/Pool/Shutdown.antt =====
-- Draining and closing a pool (crates/havuz-pool/src/pool.rs) while its tasks go on.
use havuz.Base.{
  ℕ, ◌+◌, ◌≡◌, ◌<◌, ◌≢◌, ◌^◌, refl, true, false, some, List, [], length, sub64, length-append,
  arith,
}
use havuz.Pool.{Pool, PoolStatus, is_active, is_draining}
use havuz.Pool.Checkout.{enter}
use havuz.Pool.Admin.{drain, close, close_next, reap, close_idle, shed, sift}
use havuz.Pool.World.{
  Task, TaskEvent, waiting, permitted, connecting, holding, returning, finished, grant, look,
  connect, drops, frees, act, Operation, pauses, resumes, drains, closes, closes_next, reaps,
  operate, World, Step, arrives, acts, operates,
}
use havuz.Pool.Closing.{shed_all, retire_all_lem}

-- What emptying the queue leaves.
pub close_idle_all :
    (p : Pool)
    → p.counters.closed_total < 2 ^ 64
    → let (q, n) = close_idle p 0 in
      (q.idle ≡ [])
      × (n ≡ length p.idle)
      × (length q.closer ≡ length p.closer + length p.idle)
      × (q.status ≡ p.status)
      × (q.counters.closed_total < 2 ^ 64)
unfolding close_idle
close_idle_all p h =
    let (kept, gone) = shed (length p.idle) 0 p.idle [] in
    let q = record p {
      idle = kept;
      counters = record (p.counters) { idle = sub64 p.counters.idle (length gone) };
    } in
    ground (
      arith,
      shed_all (length p.idle) p.idle [] (omega arith),
      retire_all_lem q gone h,
      length-append p.closer gone,
    )

-- ---------------------------------------------------------------- draining goes on

abbrev Dry : Pool → Type 0
Dry p = (is_draining p.status ≡ true) × (p.idle ≡ []) × (p.counters.closed_total < 2 ^ 64)

act-Dry : (p q : Pool) (t u : Task) (e : TaskEvent) → act p t e ≡ some (q, u) → Dry p → Dry q
unfolding act
act-Dry p q waiting u (grant n) a d = ground arith
act-Dry p q waiting u _ a d = ground arith
act-Dry p q permitted u (look n) a d = ground arith
act-Dry p q permitted u _ a d = ground arith
act-Dry p q connecting u (connect c) a d = ground arith
act-Dry p q connecting u _ a d = ground arith
act-Dry p q (holding c m) u (drops n) a d = ground arith
act-Dry p q (holding c m) u _ a d = ground arith
act-Dry p q returning u frees a d = ground arith
act-Dry p q returning u _ a d = ground arith
act-Dry p q finished u frees a d = ground arith
act-Dry p q finished u _ a d = ground arith

reap_empty : (p : Pool) (now : ℕ) → p.idle ≡ [] → (reap p now).0 ≡ p
unfolding reap sift
reap_empty p now h = ground arith

abbrev pub KeepsStatus : Operation → Type 0
KeepsStatus o = (o ≢ pauses) × (o ≢ resumes)

operate-Dry : (p : Pool) (o : Operation) → KeepsStatus o → Dry p → Dry (operate p o)
unfolding operate drain close close_next
operate-Dry p pauses k d = absurd (k.0 refl)
operate-Dry p resumes k d = absurd (k.1 refl)
operate-Dry p drains k d =
    ground (arith, close_idle_all (record p { status = PoolStatus.draining }) d.2)
operate-Dry p closes k d =
    ground
      (arith, close_idle_all (record p { status = PoolStatus.closed; permits_closed = true }) d.2)
operate-Dry p closes_next k d = ground arith
operate-Dry p (reaps now) k d = rw (reap_empty p now d.1) d

-- Steps other than an operator's pausing or resuming of the pool.
abbrev pub IsQuiet : {w x : World} → Step w x → Type 0
IsQuiet (arrives p ts h) = Unit {0}
IsQuiet (acts p q t u e ts us a r) = Unit {0}
IsQuiet (operates p ts o) = KeepsStatus o

pub data QuietReach (w : World) : World → Type 0 where
  none_yet : QuietReach w w
  then_ : {u v : World} → QuietReach w u → (st : Step u v) → IsQuiet st → QuietReach w v

Step-Dry : {w x : World} (st : Step w x) → IsQuiet st → Dry w.pool → Dry x.pool
unfolding enter
Step-Dry (arrives p ts h) k d = d
Step-Dry (acts p q t u e ts us a r) k d = act-Dry p q t u e a d
Step-Dry (operates p ts o) k d = operate-Dry p o k d

reach-Dry : {w x : World} → QuietReach w x → Dry w.pool → Dry x.pool
reach-Dry none_yet d = d
reach-Dry (then_ r st k) d = Step-Dry st k (reach-Dry r d)

drain-Dry : (p : Pool) → p.counters.closed_total < 2 ^ 64 → Dry (drain p).0
unfolding drain
drain-Dry p h = ground (arith, close_idle_all (record p { status = PoolStatus.draining }) h)

-- Once drained, a pool stays drained: whatever the tasks that still hold connections do, and
-- whatever operator calls follow but pausing and resuming, its idle queue stays empty and it
-- refuses new callers. The return of a connection counts as one step.
pub drained_stays_empty :
    (p : Pool) (ts : List Task) {w : World}
    → p.counters.closed_total < 2 ^ 64
    → QuietReach (record { pool = (drain p).0; tasks = ts }) w
    → (w.pool.idle ≡ []) × (is_active w.pool.status ≡ false)
drained_stays_empty p ts {w} h r = let d = reach-Dry r (drain-Dry p h) in ground arith
