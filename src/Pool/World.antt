-- ===== src/Pool/World.antt =====
-- The tasks that share a pool (crates/havuz-pool/src/pool.rs), and every step that one of them, an
-- operator or a background task can take between two points at which others may run.
use havuz.Base.{
  ℕ, ◌≡◌, Bool, true, false, ◌||◌, Option, none, some, List, [], ◌∷◌, ◌==◌, if◌then◌else◌,
}
use havuz.Pool.{Pool, Conn, Slot, unusable, is_active, discard_conn, take_slot, check_out}
use havuz.Pool.Checkout.{
  enter, leave, granted, timed_out, connected, connect_failed, free_permit, recycle, give_back,
  ResetOutcome,
}
use havuz.Pool.Admin.{pause, resume, drain, close, close_next, reap}

pub data Task : Type 0 where
  -- In `acquire`: queued for a permit; looking through the idle queue; opening a connection.
  waiting permitted connecting : Task
  -- With a checkout, and whether that is marked to be discarded.
  holding : Conn → Bool → Task
  -- The checkout's `drop` has run, and its permit is the next field to be dropped.
  returning : Task
  finished : Task

pub data TaskEvent : Type 0 where
  -- Times are in nanoseconds: how long the task waited, or the present.
  grant queue_timeout : ℕ → TaskEvent
  semaphore_closed : TaskEvent
  look : ℕ → TaskEvent
  connect : Conn → TaskEvent
  connect_error : TaskEvent
  -- The protocol layer notices a failure; the session marks or resets the connection.
  breaks marks : TaskEvent
  resets : Option ResetOutcome → TaskEvent
  drops : ℕ → TaskEvent
  frees : TaskEvent
  -- The caller's future is dropped while it waits.
  cancelled : TaskEvent

-- One round of the reuse loop.
pub look_at : Pool → ℕ → List Slot → Pool × Task
look_at p now [] = (p, connecting)
look_at p now (s ∷ rest) =
    let q = take_slot p rest in
    if unusable p s.conn now
    then (discard_conn q s.conn, permitted)
    else (check_out q, holding s.conn false)

unfoldable pub act : Pool → Task → TaskEvent → Option (Pool × Task)
unfolding look_at granted timed_out leave connected connect_failed free_permit recycle give_back
    discard_conn take_slot check_out
act p waiting (grant waited) =
    if p.permits_closed || p.permits == 0 then none else some (granted p waited, permitted)
act p waiting (queue_timeout waited) = some (timed_out p waited, finished)
act p waiting semaphore_closed = if p.permits_closed then some (leave p, finished) else none
act p waiting cancelled = some (leave p, finished)
act p permitted (look now) = some (look_at p now p.idle)
act p connecting (connect c) = some (connected p, holding c false)
act p connecting connect_error = some (free_permit (connect_failed p), finished)
act p connecting cancelled = some (free_permit p, finished)
act p (holding c marked) breaks = some (p, holding (record c { is_broken = true }) marked)
act p (holding c marked) marks = some (p, holding c true)
act p (holding c marked) (resets answer) =
    let (q, m, o) = recycle p marked answer in some (q, holding c m)
act p (holding c marked) (drops now) = some (give_back p c marked now, returning)
act p returning frees = some (free_permit p, finished)
act p _ _ = none

-- Calls by an operator, the reaper and the closing task.
pub data Operation : Type 0 where
  pauses resumes drains closes closes_next : Operation
  reaps : ℕ → Operation

unfoldable pub operate : Pool → Operation → Pool
operate p pauses = pause p
operate p resumes = resume p
operate p drains = (drain p).0
operate p closes = close p
operate p closes_next = close_next p
operate p (reaps now) = (reap p now).0

pub record World : Type 0 where
  pub pool : Pool
  pub tasks : List Task

-- One task of the list becomes another.
pub data Replace (t u : Task) : List Task → List Task → Type 0 where
  here : {ts : List Task} → Replace t u (t ∷ ts) (u ∷ ts)
  there : {s : Task} {ts us : List Task} → Replace t u ts us → Replace t u (s ∷ ts) (s ∷ us)

pub data Step : World → World → Type 0 where
  -- A new call of `acquire` while the pool is active; otherwise the call fails and changes nothing.
  arrives :
      (p : Pool) (ts : List Task)
      → is_active p.status ≡ true
      → Step (record { pool = p; tasks = ts }) (record { pool = enter p; tasks = waiting ∷ ts })
  acts :
      (p q : Pool) (t u : Task) (e : TaskEvent) (ts us : List Task)
      → act p t e ≡ some (q, u)
      → Replace t u ts us
      → Step (record { pool = p; tasks = ts }) (record { pool = q; tasks = us })
  operates :
      (p : Pool) (ts : List Task) (o : Operation)
      → Step (record { pool = p; tasks = ts }) (record { pool = operate p o; tasks = ts })

pub data Reach (w : World) : World → Type 0 where
  start : Reach w w
  next : {u v : World} → Reach w u → Step u v → Reach w v

pub Reach-trans : {u v w : World} → Reach u v → Reach v w → Reach u w
Reach-trans r start = r
Reach-trans r (next t st) = next (Reach-trans r t) st

abbrev pub initial : Pool → World
initial p = record { pool = p; tasks = [] }
