-- ===== src/Routing/Tests.antt =====
-- Decisions as the tests of crates/havuz-pg/src/routing.rs check them.
use havuz.Base.{◌≡◌, ◌≢◌, ◌⊎◌, refl, true, false, none, some, List, [], ◌∷◌, arith}
use havuz.Breaker.{CircuitBreaker, default_config, allows}
use havuz.Routing.{
  read, write, primary, replica, RoutingConfig, ReplicaState, SessionRouting, default, Router,
  choose, decide, pick_replica, read_after_write, is_sticky, begin_transaction, end_transaction,
  fresh_enough, new_replica, PrimaryReason, is_eligible,
}
use havuz.Routing.Safety.{IsCalm, MayServe, replica_is_safe}
use havuz.Routing.ReadAfterWrite.{Act, asks, begins, ends, perform, perform_all, reads_own_writes}
use havuz.Routing.RoundRobin.{weights, picks_of, picks_by_weight}

abbrev config : RoutingConfig
config = record {
  read_write_split = true;
  sticky_after_write = 10_000;
  max_replica_lag = some 5_000_000_000;
}

abbrev healthy : CircuitBreaker
healthy = record {
  config = default_config;
  state = 0;
  consecutive_failures = 0;
  consecutive_successes = 0;
  opened_at_micros = 0;
  probe_in_flight = false;
  failures_total = 0;
  trips_total = 0;
  rejected_total = 0;
}

abbrev near : ReplicaState
near = record { label = "near"; weight = 2; breaker = healthy; lag_millis = 10 }

abbrev far : ReplicaState
far = record { label = "far"; weight = 1; breaker = healthy; lag_millis = 20 }

abbrev recovering : ReplicaState
recovering = record far { breaker = record healthy { state = 2 } }

abbrev router_over : List ReplicaState → Router
router_over rs = record {
  config = config;
  replicas = rs;
  cursor = 0;
  stats = record { to_primary = 0; to_replica = 0; primary_reasons = 0 ∷ 0 ∷ 0 ∷ 0 ∷ 0 ∷ [] };
}

abbrev router : Router
router = router_over (near ∷ far ∷ [])

abbrev in_transaction : SessionRouting
in_transaction = record default { transaction_route = some (replica 1) }

reads_go_out : (choose router read default 100).2 ≡ replica 0
unfolding choose pick_replica is_sticky is_eligible fresh_enough allows
reads_go_out = refl

lagging_is_skipped :
    (choose (router_over (record near { lag_millis = 6000 } ∷ far ∷ [])) read default 100).2
    ≡ replica 1
unfolding choose pick_replica is_sticky is_eligible fresh_enough allows
lagging_is_skipped = refl

unmeasured_is_skipped :
    (choose (router_over (new_replica "new" 0 default_config ∷ [])) read default 100).2
    ≡ primary PrimaryReason.no_replica_available
unfolding choose pick_replica is_sticky is_eligible fresh_enough new_replica
unmeasured_is_skipped = refl

write_sticks :
    (choose router read (choose router write default 100).1 200).2 ≡ primary read_after_write
unfolding choose is_sticky
write_sticks = refl

replica_is_safe_example :
    (default.transaction_route ≡ some (replica 0))
    ⊎ ((default.transaction_route ≡ none)
        × (config.read_write_split ≡ true)
        × (read ≡ read)
        × IsCalm default 10_000 100
        × MayServe router.replicas config.max_replica_lag 100 0)
replica_is_safe_example = replica_is_safe router read default 100 0 reads_go_out

abbrev busy_session : List Act
busy_session = begins (replica 0) ∷ ends ∷ []

session_free :
    (perform_all (perform (router, default) (asks write 100)) busy_session).1.transaction_route
    ≡ none
unfolding perform perform_all choose decide begin_transaction end_transaction
session_free = refl

reads_own_writes_example :
    (choose
      (perform_all (perform (router, default) (asks write 100)) busy_session).0
      read
      (perform_all (perform (router, default) (asks write 100)) busy_session).1
      200).2
    ≢ replica 0
reads_own_writes_example =
    reads_own_writes router default 100 200 busy_session (tt, (tt, tt)) session_free (omega arith)
      (omega arith) 0

picks_by_weight_example : picks_of 0 router (λ n. n) 3 ≡ 2
unfolding fresh_enough weights
picks_by_weight_example =
    picks_by_weight router (λ n. n) 0 near ((refl, refl), ((refl, refl), tt)) (omega arith)
      (omega arith) refl
