-- ===== src/Pool/Capacity.antt =====
-- What holds of a pool (crates/havuz-pool/src/pool.rs) at every moment, whatever its tasks, its
-- operator and its background tasks do: its size stays within the limit, and no permit is lost.
use Prim.Native.String.{String}
use havuz.Base.{
  ℕ, ◌+◌, ◌-◌, ◌%◌, ◌^◌, ◌≤◌, ◌<◌, ◌≡◌, true, some, List, [], length, sub64, add64, arith,
}
use havuz.Pool.{Pool, PoolLimits, PoolStatus, new}
use havuz.Pool.Checkout.{enter}
use havuz.Pool.Admin.{drain, close, pause, resume, close_next, reap, close_idle, shed, sift}
use havuz.Pool.World.{
  Task, Operation, pauses, resumes, drains, closes, closes_next, reaps, operate, World, Step,
  arrives, acts, operates, Reach, start, next, initial, Replace, TaskEvent, act,
}
use havuz.Pool.Counting.{
  waits, permit_of, live_of, held_by, total, others, total-Replace, total_live-le-permit,
}
use havuz.Pool.Bounds.{Fits, act-Fits}
use havuz.Pool.Closing.{shed_all, retire_all_lem}
use havuz.Pool.Reaping.{length-sift}

module _ (l : PoolLimits) where
  close_idle-Fits : (p : Pool) (h w o v : ℕ) → Fits l p h w o v → Fits l (close_idle p 0).0 h w o v
  unfolding close_idle
  close_idle-Fits p h w o v f =
      let (kept, gone) = shed (length p.idle) 0 p.idle [] in
      let q = record p {
        idle = kept;
        counters = record (p.counters) { idle = sub64 p.counters.idle (length gone) };
      } in
      ground
        (arith, shed_all (length p.idle) p.idle [] (omega arith), retire_all_lem q gone f.words.0)

  reap-Fits : (p : Pool) (now h w o v : ℕ) → Fits l p h w o v → Fits l (reap p now).0 h w o v
  unfolding reap
  reap-Fits p now h w o v f =
      let (gone, kept) = sift p now (length p.idle - p.limits.min_idle) p.idle in
      let n = length gone in
      let r = record p {
        idle = kept;
        counters = record (p.counters) {
          idle = sub64 p.counters.idle n;
          discarded_total = add64 p.counters.discarded_total n;
        };
      } in
      ground (
        arith,
        length-sift p now (length p.idle - p.limits.min_idle) p.idle,
        retire_all_lem r gone f.words.0,
      )

  operate-Fits :
      (p : Pool) (o : Operation) (h w out v : ℕ)
      → Fits l p h w out v
      → Fits l (operate p o) h w out v
  unfolding operate drain close pause resume close_next
  operate-Fits p pauses h w out v f = ground arith
  operate-Fits p resumes h w out v f = ground arith
  operate-Fits p drains h w out v f =
      close_idle-Fits (record p { status = PoolStatus.draining }) h w out v (ground arith)
  operate-Fits p closes h w out v f =
      close_idle-Fits (record p { status = PoolStatus.closed; permits_closed = true }) h w out v
        (ground arith)
  operate-Fits p closes_next h w out v f = ground arith
  operate-Fits p (reaps now) h w out v f = reap-Fits p now h w out v f

  enter-Fits :
      (p : Pool) (h w o v : ℕ) → Fits l p h w o v → Fits l (enter p) (0 + h) (1 + w) (0 + o) (0 + v)
  unfolding enter
  enter-Fits p h w o v f = ground arith

  -- The counts of a world's tasks are those that its pool has on its books.
  abbrev pub Inv : World → Type 0
  Inv w =
      Fits l w.pool (total permit_of w.tasks) (total waits w.tasks) (total held_by w.tasks)
        (total live_of w.tasks)

  acts-Inv :
      (p q : Pool) (t u : Task) (e : TaskEvent) {ts us : List Task}
      → act p t e ≡ some (q, u)
      → Replace t u ts us
      → Inv (record { pool = p; tasks = ts })
      → Inv (record { pool = q; tasks = us })
  acts-Inv p q t u e a r f =
      let rest = others r in
      let (h, h') = total-Replace permit_of r in
      let (w, w') = total-Replace waits r in
      let (o, o') = total-Replace held_by r in
      let (v, v') = total-Replace live_of r in
      rw (h', w', o', v')
        (act-Fits l p q u (total permit_of rest) (total waits rest) (total held_by rest)
          (total live_of rest) (total_live-le-permit rest) t e (rw (h, w, o, v) at f) a)

  Step-Inv : {w x : World} → Step w x → Inv w → Inv x
  unfolding total
  Step-Inv (arrives p ts h) f = enter-Fits p _ _ _ _ f
  Step-Inv (acts p q t u e ts us a r) f = acts-Inv p q t u e a r f
  Step-Inv (operates p ts o) f = operate-Fits p o _ _ _ _ f

  pub Reach-Inv : {w x : World} → Reach w x → Inv w → Inv x
  Reach-Inv start f = f
  Reach-Inv (next r st) f = Step-Inv st (Reach-Inv r f)

pub new-Inv : (name : String) (l : PoolLimits) → l.max_size < 2 ^ 32 → Inv l (initial (new name l))
unfolding new total
new-Inv name l h = ground arith

-- At every moment, whatever interleaving of callers, operator and background tasks led to it, the
-- connections in the idle queue, those checked out and those being opened are together no more than
-- `max_size`, a 32-bit word. Connections that are retired and wait to be closed are not among them.
pub capacity :
    (name : String) (l : PoolLimits) {w : World}
    → l.max_size < 2 ^ 32
    → Reach (initial (new name l)) w
    → length w.pool.idle + total live_of w.tasks ≤ l.max_size
capacity name l h r = (Reach-Inv l r (new-Inv name l h)).room

-- At every moment each permit of the semaphore is free or held by exactly one task, so a pool whose
-- tasks have all finished has every permit back, whatever errors, timeouts and discards there were.
pub permits_return :
    (name : String) (l : PoolLimits) {w : World}
    → l.max_size < 2 ^ 32
    → Reach (initial (new name l)) w
    → w.pool.permits + total permit_of w.tasks ≡ l.max_size
permits_return name l h r = (Reach-Inv l r (new-Inv name l h)).permits

-- At every moment between two steps, the connections ever opened are those retired, those checked out
-- and those idle, counted modulo 2^64: none is lost, and none is retired twice.
pub ledger :
    (name : String) (l : PoolLimits) {w : World}
    → l.max_size < 2 ^ 32
    → Reach (initial (new name l)) w
    → w.pool.counters.created_total
      ≡ (w.pool.counters.closed_total + total held_by w.tasks + length w.pool.idle) % 2 ^ 64
ledger name l h r = (Reach-Inv l r (new-Inv name l h)).ledger
