-- ===== src/Pool/Admin.antt =====
-- What an operator and the background tasks do to a pool: pausing, draining, closing and reaping
-- (crates/havuz-pool/src/pool.rs).
use havuz.Base.{
  ℕ, zero, suc, ◌-◌, Bool, true, false, ◌&&◌, Option, none, some, List, [], ◌∷◌, ◌++◌, ltb, leb,
  if◌then◌else◌, add64, sub64, length,
}
use havuz.Pool.{Pool, PoolLimits, Conn, Slot, active, paused, draining, closed, unusable, retire}

-- `VecDeque::pop_back`.
unfoldable pub pop_back : List Slot → Option (List Slot × Slot)
pop_back [] = none
pop_back (s ∷ rest) = elim (pop_back rest) [
  | none ↦ some ([], s)
  | some (front, last) ↦ some (s ∷ front, last)
]

-- The loop of `close_idle`: pop from the back while more than `keep` are left. A round takes one
-- slot, so the length of the queue is fuel enough.
unfoldable pub shed : ℕ → ℕ → List Slot → List Conn → List Slot × List Conn
unfolding pop_back
shed zero keep idle retired = (idle, retired)
shed (suc fuel) keep idle retired = elim (ltb keep (length idle)) [
  | false ↦ (idle, retired)
  | true ↦ elim (pop_back idle) [
    | none ↦ (idle, retired)
    | some (front, last) ↦ shed fuel keep front (retired ++ last.conn ∷ [])
  ]
]

unfoldable pub retire_all : Pool → List Conn → Pool
unfolding retire
retire_all p [] = p
retire_all p (c ∷ cs) = retire_all (retire p c) cs

-- The queue is shortened under its lock, and the gauge lowered after that: a whole call, with the
-- moments in between left out.
unfoldable pub close_idle : Pool → ℕ → Pool × ℕ
unfolding shed retire_all
close_idle p keep =
    let (kept, retired) = shed (length p.idle) keep p.idle [] in
    let q = record p {
      idle = kept;
      counters = record k { idle = sub64 k.idle (length retired) };
    } in
    (retire_all q retired, length retired)
  where
    open p use {counters as k}

unfoldable pub pause : Pool → Pool
pause p = record p { status = paused }

unfoldable pub resume : Pool → Pool
resume p = record p { status = active }

unfoldable pub drain : Pool → Pool × ℕ
unfolding close_idle
drain p = close_idle (record p { status = draining }) 0

unfoldable pub close : Pool → Pool
unfolding close_idle
close p = (close_idle (record p { status = closed; permits_closed = true }) 0).0

-- The background task closes the oldest connection that was handed to it.
unfoldable pub close_next : Pool → Pool
close_next p = elim p.closer [ [] ↦ p | c ∷ rest ↦ record p { closer = rest } ]

-- ---------------------------------------------------------------- reaping

unfoldable pub too_idle : PoolLimits → Slot → ℕ → Bool
too_idle l s now = ltb 0 l.idle_timeout && leb l.idle_timeout (now - s.idle_since)

-- The loop of `reap` over the idle queue: what is retired and what is kept, each in order.
unfoldable pub sift : Pool → ℕ → ℕ → List Slot → List Conn × List Slot
sift p now budget [] = ([], [])
sift p now budget (s ∷ rest) = elim (unusable p s.conn now) [
  | true ↦ let (gone, kept) = sift p now budget rest in (s.conn ∷ gone, kept)
  | false ↦ elim (too_idle p.limits s now && ltb 0 budget) [
    | true ↦ let (gone, kept) = sift p now (budget - 1) rest in (s.conn ∷ gone, kept)
    | false ↦ let (gone, kept) = sift p now budget rest in (gone, s ∷ kept)
  ]
]

-- Here as well the counters follow the queue once its lock is released.
unfoldable pub reap : Pool → ℕ → Pool × ℕ
unfolding sift retire_all
reap p now =
    let (gone, kept) = sift p now (length p.idle - p.limits.min_idle) p.idle in
    let n = length gone in
    let q = record p { idle = kept } in
    let r = record q {
      counters = record k { idle = sub64 k.idle n; discarded_total = add64 k.discarded_total n };
    } in
    (if ltb 0 n then retire_all r gone else q, n)
  where
    open p use {counters as k}
