-- ===== src/Routing.antt =====
-- crates/havuz-pg/src/routing.rs: which server a statement goes to. Times and durations are
-- nanoseconds, each read of the clock an argument. A router's methods are one step each; a
-- replica's breaker is that of havuz.Breaker.
pub mod Safety
pub mod ReadAfterWrite
pub mod Fairness
pub mod RoundRobin
pub mod Probes
pub mod Stats
pub mod Health
mod Tests
use Prim.Native.String.{String}
use havuz.Base.{
  ℕ, zero, suc, ◌+◌, ◌-◌, ◌*◌, ◌/◌, ◌%◌, ◌^◌, Bool, true, false, not, ◌||◌, Option, none, some,
  List, [], ◌∷◌, ltb, leb, ◌==◌, if◌then◌else◌, add64, u64_max, max, length, get_elem?,
}
use havuz.Breaker.{BreakerConfig, CircuitBreaker, allows, record_success, record_failure}
use havuz.Breaker

-- crates/havuz-pg/src/classify.rs.
pub data RouteIntent : Type 0 where
  read write : RouteIntent

-- crates/havuz-control/src/report.rs, in the order of `PrimaryReason::ALL`.
pub data PrimaryReason : Type 0 where
  split_disabled write read_after_write transaction_pinned no_replica_available : PrimaryReason

abbrev pub index : PrimaryReason → ℕ
index split_disabled = 0
index PrimaryReason.write = 1
index read_after_write = 2
index transaction_pinned = 3
index no_replica_available = 4

pub data Route : Type 0 where
  primary : PrimaryReason → Route
  replica : ℕ → Route

-- `RoutingConfig` of crates/havuz-core/src/state.rs, as far as the router reads it.
pub record RoutingConfig : Type 0 where
  pub read_write_split : Bool
  pub sticky_after_write : ℕ
  pub max_replica_lag : Option ℕ

-- ---------------------------------------------------------------- one replica

abbrev pub lag_unknown : ℕ
lag_unknown = u64_max

pub record ReplicaState : Type 0 where
  pub label : String
  pub weight : ℕ  -- u32
  pub breaker : CircuitBreaker
  pub lag_millis : ℕ  -- u64

unfoldable pub new_replica : String → ℕ → BreakerConfig → ReplicaState
new_replica label weight config = record {
  label = label;
  weight = max weight 1;
  breaker = Breaker.new config;
  lag_millis = lag_unknown;
}

unfoldable pub set_lag : ReplicaState → Option ℕ → ReplicaState
set_lag r none = record r { lag_millis = lag_unknown }
set_lag r (some d) = record r { lag_millis = (d / 1000000) % 2 ^ 64 }

unfoldable pub lag : ReplicaState → Option ℕ
lag r = if r.lag_millis == lag_unknown then none else some (r.lag_millis * 1000000)

-- The gate on replication delay.
unfoldable pub fresh_enough : ReplicaState → Option ℕ → Bool
unfolding lag
fresh_enough r none = true
fresh_enough r (some limit) = elim (lag r) [ some d ↦ not (ltb limit d) | none ↦ false ]

-- Asking the breaker may take its probe slot.
unfoldable pub is_eligible : ReplicaState → Option ℕ → ℕ → ReplicaState × Bool
is_eligible r max_lag now =
    if fresh_enough r max_lag
    then (let (b, ok) = allows r.breaker now in (record r { breaker = b }, ok))
    else (r, false)

-- ---------------------------------------------------------------- one session

pub record SessionRouting : Type 0 where
  pub last_write : Option ℕ
  pub transaction_route : Option Route

abbrev pub default : SessionRouting
default = record { last_write = none; transaction_route = none }

unfoldable pub note_write : SessionRouting → ℕ → SessionRouting
note_write s now = record s { last_write = some now }

unfoldable pub is_sticky : SessionRouting → ℕ → ℕ → Bool
is_sticky s window now =
    if window == 0
    then false
    else elim s.last_write [ none ↦ false | some at ↦ ltb (now - at) window ]

unfoldable pub begin_transaction : SessionRouting → Route → SessionRouting
begin_transaction s r = record s { transaction_route = some r }

unfoldable pub end_transaction : SessionRouting → SessionRouting
end_transaction s = record s { transaction_route = none }

-- ---------------------------------------------------------------- counts

pub record RoutingStats : Type 0 where
  pub to_primary : ℕ  -- u64
  pub to_replica : ℕ  -- u64
  pub primary_reasons : List ℕ  -- five of u64

abbrev pub bump : List ℕ → ℕ → List ℕ
bump [] i = []
bump (n ∷ ns) zero = add64 n 1 ∷ ns
bump (n ∷ ns) (suc i) = n ∷ bump ns i

unfoldable pub record_route : RoutingStats → Route → RoutingStats
record_route s (primary reason) = record s {
  to_primary = add64 s.to_primary 1;
  primary_reasons = bump s.primary_reasons (index reason);
}
record_route s (replica i) = record s { to_replica = add64 s.to_replica 1 }

-- ---------------------------------------------------------------- the router

pub record Router : Type 0 where
  pub config : RoutingConfig
  pub replicas : List ReplicaState
  pub cursor : ℕ  -- u64
  pub stats : RoutingStats

unfoldable pub new : RoutingConfig → List ReplicaState → Router
new config replicas = record {
  config = config;
  replicas = replicas;
  cursor = 0;
  stats = record { to_primary = 0; to_replica = 0; primary_reasons = 0 ∷ 0 ∷ 0 ∷ 0 ∷ 0 ∷ [] };
}

-- The `filter` over the enumerated replicas, which asks each of them: their new states, and the
-- indices and weights of those that agreed.
unfoldable pub eligible : List ReplicaState → ℕ → Option ℕ → ℕ → List ReplicaState × List (ℕ × ℕ)
eligible [] i max_lag now = ([], [])
eligible (r ∷ rs) i max_lag now =
    let (r', ok) = is_eligible r max_lag now in
    let (rs', found) = eligible rs (suc i) max_lag now in
    (r' ∷ rs', if ok then (i, r.weight) ∷ found else found)

unfoldable pub total_weight : List (ℕ × ℕ) → ℕ
total_weight [] = 0
total_weight ((i, w) ∷ rest) = w + total_weight rest

-- The loop over the accumulated weights.
unfoldable pub at_position : ℕ → ℕ → List (ℕ × ℕ) → Option ℕ
at_position position accumulated [] = none
at_position position accumulated ((i, w) ∷ rest) =
    let more = at_position position (accumulated + w) rest in
    if ltb position (accumulated + w) then some i else more

-- Weighted round-robin: the replica whose turn it is, and the next cursor.
unfoldable pub take_turn : ℕ → List (ℕ × ℕ) → ℕ × Option ℕ
unfolding total_weight at_position
take_turn cursor [] = (cursor, none)
take_turn cursor ((i, w) ∷ rest) =
    let found = (i, w) ∷ rest in (add64 cursor 1, at_position (cursor % total_weight found) 0 found)

unfoldable pub pick_replica : Router → ℕ → Router × Option ℕ
unfolding eligible take_turn
pick_replica r now =
    let (states, found) = eligible r.replicas 0 r.config.max_replica_lag now in
    let (cursor, turn) = take_turn r.cursor found in
    (record r { replicas = states; cursor = cursor }, turn)

abbrev pub pinned : Route → Route
pinned (primary reason) = primary transaction_pinned
pinned (replica i) = replica i

abbrev pub noting : RouteIntent → SessionRouting → ℕ → SessionRouting
noting write s now = note_write s now
noting read s now = s

abbrev pub is_empty : List ReplicaState → Bool
is_empty [] = true
is_empty (r ∷ rs) = false

unfoldable pub decide_read : Router → SessionRouting → ℕ → Router × SessionRouting × Route
decide_read r s now =
    if is_sticky s r.config.sticky_after_write now
    then (r, s, primary read_after_write)
    else (let (q, found) = pick_replica r now in
        (q, s, elim found [ some i ↦ replica i | none ↦ primary no_replica_available ]))

unfoldable pub decide : Router → RouteIntent → SessionRouting → ℕ → Router × SessionRouting × Route
unfolding note_write decide_read
decide r intent s now = elim s.transaction_route [
  | some existing ↦ (r, noting intent s now, pinned existing)
  | none ↦
      if not r.config.read_write_split || is_empty r.replicas
      then (r, noting intent s now, primary split_disabled)
      else elim intent [
        | write ↦ (r, note_write s now, primary PrimaryReason.write)
        | read ↦ decide_read r s now
      ]
]

unfoldable pub choose : Router → RouteIntent → SessionRouting → ℕ → Router × SessionRouting × Route
unfolding decide record_route
choose r intent s now =
    let (q, t, route) = decide r intent s now in
    (record q { stats = record_route q.stats route }, t, route)

-- A change to the replica at an index, if there is one.
abbrev pub update_at : List ReplicaState → ℕ → (ReplicaState → ReplicaState) → List ReplicaState
update_at [] i f = []
update_at (r ∷ rs) zero f = f r ∷ rs
update_at (r ∷ rs) (suc i) f = r ∷ update_at rs i f

unfoldable pub record_result : Router → Route → Bool → ℕ → Router
record_result r (primary reason) success now = r
record_result r (replica i) success now = record r {
  replicas = update_at r.replicas i λ x. record x {
    breaker = if success then record_success x.breaker else record_failure x.breaker now;
  };
}
