-- ===== src/Pool/Checkout.antt =====
-- `Pool::acquire` and the life of a `Checkout` (crates/havuz-pool/src/pool.rs).
use Prim.Native.String.{String}
use havuz.Base.{
  ℕ, ◌+◌, ◌-◌, ◌/◌, ◌%◌, ◌^◌, Bool, true, false, ◌||◌, Option, none, some, List, [], ◌∷◌, ◌++◌,
  if◌then◌else◌, add64, sub64,
}
use havuz.Counters.{record_wait}
use havuz.Pool.{
  Pool, Conn, Slot, is_active, is_draining, as_str, unusable, retire, discard_conn, take_slot,
  check_out,
}

abbrev pub micros : ℕ → ℕ
micros t = (t / 1000) % 2 ^ 64

abbrev pub millis : ℕ → ℕ
millis t = (t / 1000000) % 2 ^ 64

-- ---------------------------------------------------------------- the wait for a permit

unfoldable pub enter : Pool → Pool
enter p = record p { counters = record k { waiting = add64 k.waiting 1 } }
  where
    open p use {counters as k}

-- `WaitingGuard` is dropped, however the wait ended.
unfoldable pub leave : Pool → Pool
leave p = record p { counters = record k { waiting = sub64 k.waiting 1 } }
  where
    open p use {counters as k}

unfoldable pub granted : Pool → ℕ → Pool
unfolding leave record_wait
granted p waited =
    let q = leave p in
    record q { permits = p.permits - 1; counters = record_wait q.counters (micros waited) }

unfoldable pub timed_out : Pool → ℕ → Pool
unfolding leave record_wait
timed_out p waited =
    let q = leave p in
    let c = record (q.counters) { timeout_total = add64 q.counters.timeout_total 1 } in
    record q { counters = record_wait c (micros waited) }

-- ---------------------------------------------------------------- a connection

-- The loop that reuses an idle connection, over the queue from its front.
unfoldable pub reuse_from : Pool → ℕ → List Slot → Pool × Option Conn
unfolding discard_conn take_slot check_out
reuse_from p now [] = (record p { idle = [] }, none)
reuse_from p now (s ∷ rest) =
    let q = take_slot p rest in
    elim (unusable p s.conn now) [
      | true ↦ reuse_from (discard_conn q s.conn) now rest
      | false ↦ (check_out q, some s.conn)
    ]

unfoldable pub reuse : Pool → ℕ → Pool × Option Conn
unfolding reuse_from
reuse p now = reuse_from p now p.idle

unfoldable pub connected : Pool → Pool
unfolding check_out
connected p =
    check_out (record p { counters = record k { created_total = add64 k.created_total 1 } })
  where
    open p use {counters as k}

unfoldable pub connect_failed : Pool → Pool
connect_failed p = record p {
  counters = record k { connect_error_total = add64 k.connect_error_total 1 };
}
  where
    open p use {counters as k}

unfoldable pub free_permit : Pool → Pool
free_permit p = record p { permits = p.permits + 1 }

-- ---------------------------------------------------------------- `acquire`, uninterrupted

pub data PoolError : Type 0 where
  timeout : String → ℕ → PoolError
  unavailable : String → String → PoolError
  -- The backend refused, or did not answer within so many milliseconds.
  connect_refused : String → String → PoolError
  connect_timeout : String → ℕ → PoolError

pub data Acquired : Type 0 where
  ok : Conn → Acquired
  err : PoolError → Acquired

-- How the wait on the semaphore ended, after how long, and what the connector answered.
pub data Wait : Type 0 where
  permit timeout closed : Wait

pub data Connect : Type 0 where
  opened : Conn → Connect
  refused : String → Connect
  timeout : Connect

unfoldable pub open_new : Pool → Connect → Pool × Acquired
unfolding connected connect_failed free_permit
open_new p (opened c) = (connected p, ok c)
open_new p (refused e) = (free_permit (connect_failed p), err (connect_refused p.name e))
open_new p Connect.timeout =
    (free_permit (connect_failed p), err (connect_timeout p.name (millis p.limits.connect_timeout)))

unfoldable pub after_wait : Pool → Wait → ℕ → ℕ → Connect → Pool × Acquired
unfolding leave granted timed_out reuse open_new
after_wait p closed waited now answer = (leave p, err (unavailable p.name "closed"))
after_wait p Wait.timeout waited now answer =
    (timed_out p waited, err (PoolError.timeout p.name (millis waited)))
after_wait p permit waited now answer =
    let (q, found) = reuse (granted p waited) now in
    elim found [ some c ↦ (q, ok c) | none ↦ open_new q answer ]

unfoldable pub acquire : Pool → Wait → ℕ → ℕ → Connect → Pool × Acquired
unfolding enter after_wait
acquire p wait waited now answer =
    if is_active p.status
    then after_wait (enter p) wait waited now answer
    else (p, err (unavailable p.name (as_str p.status)))

-- ---------------------------------------------------------------- a checkout

-- crates/havuz-proto/src/conn.rs.
pub data ResetOutcome : Type 0 where
  already_clean cleaned discard : ResetOutcome

-- What `recycle` reports; `none` is a reset that failed.
abbrev pub outcome_of : Option ResetOutcome → ResetOutcome
outcome_of none = discard
outcome_of (some o) = o

-- `recycle`: the new pool, whether the checkout is now marked to be discarded, and the outcome.
unfoldable pub recycle : Pool → Bool → Option ResetOutcome → Pool × Bool × ResetOutcome
recycle p marked answer = elim (outcome_of answer) [
  | discard ↦
      (record p { counters = record k { unclean_total = add64 k.unclean_total 1 } }, true, discard)
  | already_clean ↦ (p, marked, already_clean)
  | cleaned ↦ (p, marked, cleaned)
]
  where
    open p use {counters as k}

-- `Drop` of a checkout, up to the release of its permit.
unfoldable pub give_back : Pool → Conn → Bool → ℕ → Pool
unfolding discard_conn retire
give_back p c marked now =
    let q = record p { counters = record k { active = sub64 k.active 1 } } in
    let l = q.counters in
    let unfit = marked || unusable q c now in
    if unfit then discard_conn q c else if is_draining q.status then retire q c else record q {
      counters = record l { idle = add64 l.idle 1 };
      idle = q.idle ++ record { conn = c; idle_since = now } ∷ [];
    }
  where
    open p use {counters as k}
