-- ===== src/Flow.antt =====
-- crates/havuz-proto/src/flow.rs: what a client session has seen on the wire, folded into whether its
-- backend may be given to another client. `PinReason` is that of
-- crates/havuz-registry/src/session.rs and `PoolMode` that of crates/havuz-registry/src/lib.rs.
pub mod History
mod Tests
use havuz.Base.{
  ℕ, Bool, true, false, not, ◌||◌, Option, none, some, if◌then◌else◌, saturating_add64,
}

pub data PinReason : Type 0 where
  session_parameter listen temp_table advisory_lock server_side_prepare : PinReason
  holdable_cursor bulk_transfer replication procedure_state unclassified : PinReason

pub data PoolMode : Type 0 where
  session transaction statement : PoolMode

abbrev pub multiplexes : PoolMode → Bool
multiplexes session = false
multiplexes transaction = true
multiplexes statement = true

pub data FlowEvent : Type 0 where
  idle in_transaction : FlowEvent
  must_pin streaming : PinReason → FlowEvent
  broken : FlowEvent

pub record SessionState : Type 0 where
  pub mode : PoolMode
  pub in_transaction : Bool
  pub pin : Option PinReason
  pub broken : Bool
  pub exchanges : ℕ  -- u64

unfoldable pub new : PoolMode → SessionState
new mode = record { mode = mode; in_transaction = false; pin = none; broken = false; exchanges = 0 }

-- `Option::get_or_insert`: the first reason stays.
abbrev pub get_or_insert : Option PinReason → PinReason → Option PinReason
get_or_insert none r = some r
get_or_insert (some q) r = some q

observe_event : SessionState → FlowEvent → SessionState
observe_event s idle = record s { in_transaction = false }
observe_event s in_transaction = record s { in_transaction = true }
observe_event s (must_pin r) = record s { pin = get_or_insert s.pin r }
observe_event s (streaming r) = record s { pin = get_or_insert s.pin r }
observe_event s broken = record s { broken = true }

unfoldable pub observe : SessionState → FlowEvent → SessionState
unfolding observe_event
observe s e = observe_event (record s { exchanges = saturating_add64 s.exchanges 1 }) e

abbrev pub is_some : Option PinReason → Bool
is_some none = false
is_some (some r) = true

-- The `match` on the mode.
abbrev pub between_transactions : PoolMode → Bool → Bool
between_transactions session open_ = false
between_transactions transaction open_ = not open_
between_transactions statement open_ = not open_

unfoldable pub is_releasable : SessionState → Bool
is_releasable s =
    if s.broken || is_some s.pin then false else between_transactions s.mode s.in_transaction

unfoldable pub released : SessionState → SessionState
released s = record s { in_transaction = false; exchanges = 0 }

unfoldable pub reset : SessionState → SessionState
unfolding new
reset s = new s.mode
