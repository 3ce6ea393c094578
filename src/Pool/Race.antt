-- ===== src/Pool/Race.antt =====
-- The return of a checkout by its atomic pieces, between which another thread may drain the pool
-- (crates/havuz-pool/src/pool.rs).
use havuz.Base.{
  ℕ, ◌^◌, ◌<◌, ◌≡◌, refl, ap, Bool, true, false, ◌||◌, [], ◌∷◌, ◌++◌, if◌then◌else◌, add64, sub64,
  arith,
}
use havuz.Pool.{Pool, PoolStatus, Conn, is_expired, is_draining, unusable, discard_conn, retire}
use havuz.Pool.Checkout.{give_back}
use havuz.Pool.Admin.{drain}
use havuz.Pool.Shutdown.{close_idle_all}

-- `Drop` of a checkout up to its decision, and whether the connection is to be kept.
unfoldable pub decide_return : Pool → Conn → Bool → ℕ → Pool × Bool
decide_return p c marked now =
    let q = record p { counters = record k { active = sub64 k.active 1 } } in
    if marked || unusable q c now
    then (discard_conn q c, false)
    else if is_draining q.status
    then (retire q c, false)
    else (q, true)
  where
    open p use {counters as k}

-- The count of idle connections goes up.
unfoldable pub count_idle : Pool → Pool
count_idle p = record p { counters = record k { idle = add64 k.idle 1 } }
  where
    open p use {counters as k}

-- The connection goes to the back of the queue.
unfoldable pub push_idle : Pool → Conn → ℕ → Pool
push_idle p c now = record p { idle = p.idle ++ record { conn = c; idle_since = now } ∷ [] }

-- A thread that nobody interrupts does what `give_back` does as one step.
pub give_back-decide_return :
    (p : Pool) (c : Conn) (marked : Bool) (now : ℕ)
    → give_back p c marked now ≡ (
        let (q, kept) = decide_return p c marked now in
        if kept then push_idle (count_idle q) c now else q)
unfolding give_back decide_return count_idle push_idle unusable
give_back-decide_return p c marked now = ground arith

abbrev given_up : Pool → Pool
given_up p = record p { counters = record k { active = sub64 k.active 1 } }
  where
    open p use {counters as k}

decide_to_keep :
    (p : Pool) (c : Conn) (now : ℕ)
    → unusable p c now ≡ false
    → p.status ≡ PoolStatus.active
    → decide_return p c false now ≡ (given_up p, true)
unfolding decide_return unusable is_expired
decide_to_keep p c now fit act = ground arith

drained :
    (p : Pool)
    → p.counters.closed_total < 2 ^ 64
    → ((drain p).0.idle ≡ []) × ((drain p).0.status ≡ PoolStatus.draining)
unfolding drain
drained p h =
    let (none_left, count, handed, status, bound) =
      close_idle_all (record p { status = PoolStatus.draining }) h in
    (none_left, status)

-- Draining can miss a connection that is being returned. Where an active pool gets back a usable
-- connection, and another thread drains the pool after the decision to keep the connection and
-- before it is pushed, the pool is then draining with that connection idle in its queue.
pub drain_misses_return :
    (p : Pool) (c : Conn) (now : ℕ)
    → unusable p c now ≡ false
    → p.status ≡ PoolStatus.active
    → p.counters.closed_total < 2 ^ 64
    → let (q, kept) = decide_return p c false now in
      let r = push_idle (count_idle (drain q).0) c now in
      (kept ≡ true)
      × (r.status ≡ PoolStatus.draining)
      × (r.idle ≡ record { conn = c; idle_since = now } ∷ [])
unfolding count_idle push_idle
drain_misses_return p c now fit act h =
    let (none_left, status) = drained (given_up p) h in
    rw (decide_to_keep p c now fit act)
      (refl, status, ap (λ l. l ++ record { conn = c; idle_since = now } ∷ []) none_left)
