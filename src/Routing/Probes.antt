-- ===== src/Routing/Probes.antt =====
-- What choosing a replica does to the breakers of the others (crates/havuz-pg/src/routing.rs).
use havuz.Base.{
  ℕ, zero, suc, ◌≡◌, ap, ◌∙◌, true, false, Option, some, List, [], ◌∷◌, get_elem?, arith,
}
use havuz.Breaker.{CircuitBreaker, allows}
use havuz.Routing.{ReplicaState, fresh_enough, is_eligible, Router, eligible, pick_replica}

eligible-states :
    (rs : List ReplicaState) (base : ℕ) (max_lag : Option ℕ) (now k : ℕ) (x : ReplicaState)
    → get_elem? rs k ≡ some x
    → get_elem? (eligible rs base max_lag now).0 k ≡ some (is_eligible x max_lag now).0
unfolding eligible
eligible-states [] base max_lag now k x h = absurd (cc)
eligible-states (r ∷ rs) base max_lag now zero x h = ground arith
eligible-states (r ∷ rs) base max_lag now (suc k) x h =
    eligible-states rs (suc base) max_lag now k x h

half_open_asked :
    (x : ReplicaState) (max_lag : Option ℕ) (now : ℕ)
    → fresh_enough x max_lag ≡ true
    → x.breaker.state ≡ 2
    → x.breaker.probe_in_flight ≡ false
    → (is_eligible x max_lag now).0
      ≡ record x { breaker = record (x.breaker) { probe_in_flight = true } }
unfolding is_eligible allows
half_open_asked x max_lag now fresh half free = ground arith

taken_refuses :
    (b : CircuitBreaker) (later : ℕ)
    → b.state ≡ 2
    → (allows (record b { probe_in_flight = true }) later).1 ≡ false
unfolding allows
taken_refuses b later h = ground arith

-- Picking a replica asks the breaker of every one that is fresh enough, not only of the one picked.
-- So the probe slot of a half-open replica is taken by a pick that goes elsewhere and will report no
-- outcome: after any pick, whichever replica it chose, every half-open replica that is fresh enough
-- and had its slot free has it taken, and refuses to be asked at any later time.
pub pick_takes_probes :
    (r : Router) (now later k : ℕ) (x : ReplicaState)
    → get_elem? r.replicas k ≡ some x
    → fresh_enough x r.config.max_replica_lag ≡ true
    → x.breaker.state ≡ 2
    → x.breaker.probe_in_flight ≡ false
    → let taken = record (x.breaker) { probe_in_flight = true } in
      (get_elem? (pick_replica r now).0.replicas k ≡ some (record x { breaker = taken }))
      × ((allows taken later).1 ≡ false)
unfolding pick_replica
pick_takes_probes r now later k x at fresh half free = (
  eligible-states r.replicas 0 r.config.max_replica_lag now k x at
      ∙ ap some (half_open_asked x r.config.max_replica_lag now fresh half free),
  taken_refuses x.breaker later half,
)
