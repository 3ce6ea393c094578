-- ===== src/Pool.antt =====
-- crates/havuz-pool/src/pool.rs: the state of one pool of backend connections, and the pieces of
-- its methods between two points at which other tasks may run. Times are nanoseconds.
pub mod Checkout
pub mod Admin
pub mod World
pub mod Counting
pub mod Bounds
pub mod Capacity
pub mod Ownership
pub mod Transfers
pub mod Exclusive
pub mod Reuse
pub mod Accounts
pub mod Reaping
pub mod Floor
pub mod Closing
pub mod Shutdown
pub mod Closed
pub mod Overshoot
pub mod Warmup
pub mod Race
mod Tests
use Prim.Native.String.{String}
use havuz.Base.{
  ℕ, ◌+◌, ◌-◌, Bool, true, false, not, ◌&&◌, ◌||◌, Option, none, some, List, [], ◌∷◌, ◌++◌, ltb,
  leb, if◌then◌else◌, add64, sub64,
}
use havuz.Counters.{Counters, PoolSnapshot, default}
use havuz.Counters

-- `PoolLimits` of crates/havuz-core/src/state.rs, the fields that a pool reads, the durations in
-- nanoseconds.
pub record PoolLimits : Type 0 where
  pub max_size : ℕ  -- u32
  pub min_idle : ℕ  -- u32
  pub max_client_connections : ℕ  -- u32
  pub queue_timeout : ℕ
  pub connect_timeout : ℕ
  pub idle_timeout : ℕ
  pub max_lifetime : ℕ

pub data PoolStatus : Type 0 where
  active paused draining closed : PoolStatus

abbrev pub as_str : PoolStatus → String
as_str active = "active"
as_str paused = "paused"
as_str draining = "draining"
as_str closed = "closed"

-- A backend connection, by an identity, its age and whether its protocol layer has seen it fail.
pub record Conn : Type 0 where
  pub id : ℕ
  pub opened_at : ℕ
  pub is_broken : Bool

pub record Slot : Type 0 where
  pub conn : Conn
  pub idle_since : ℕ

-- `Inner`. `permits` counts the semaphore's free permits; `closer` holds the connections handed to
-- the background task that closes them, oldest first.
pub record Pool : Type 0 where
  pub name : String
  pub limits : PoolLimits
  pub permits : ℕ
  pub permits_closed : Bool
  pub idle : List Slot
  pub counters : Counters
  pub status : PoolStatus
  pub closer : List Conn

unfoldable pub new : String → PoolLimits → Pool
new name limits = record {
  name = name;
  limits = limits;
  permits = limits.max_size;
  permits_closed = false;
  idle = [];
  counters = default;
  status = active;
  closer = [];
}

abbrev pub is_active : PoolStatus → Bool
is_active active = true
is_active _ = false

abbrev pub is_draining : PoolStatus → Bool
is_draining draining = true
is_draining closed = true
is_draining _ = false

unfoldable pub is_expired : Pool → Conn → ℕ → Bool
is_expired p c now = ltb 0 p.limits.max_lifetime && leb p.limits.max_lifetime (now - c.opened_at)

unfoldable pub unusable : Pool → Conn → ℕ → Bool
unusable p c now = c.is_broken || is_expired p c now

unfoldable pub retire : Pool → Conn → Pool
retire p c = record p {
  counters = record k { closed_total = add64 k.closed_total 1 };
  closer = p.closer ++ c ∷ [];
}
  where
    open p use {counters as k}

-- The connection is closed because it is no longer fit.
unfoldable pub discard_conn : Pool → Conn → Pool
unfolding retire
discard_conn p c =
    retire (record p { counters = record k { discarded_total = add64 k.discarded_total 1 } }) c
  where
    open p use {counters as k}

unfoldable pub take_slot : Pool → List Slot → Pool
take_slot p rest = record p { idle = rest; counters = record k { idle = sub64 k.idle 1 } }
  where
    open p use {counters as k}

unfoldable pub check_out : Pool → Pool
check_out p = record p {
  counters = record k { active = add64 k.active 1; checkout_total = add64 k.checkout_total 1 };
}
  where
    open p use {counters as k}

-- `Pool::snapshot`. The counters are loaded one after another while others act: `loaded` holds what
-- each of the loads returned, its own counter at its own moment.
unfoldable pub report : Pool → Counters → PoolSnapshot
report p loaded =
    Counters.snapshot loaded p.name p.limits.max_size p.limits.max_client_connections
      (as_str p.status)
