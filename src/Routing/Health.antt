-- ===== src/Routing/Health.antt =====
-- What a health probe does to a replica (crates/havuz-pg/src/health.rs).
use havuz.Base.{
  ℕ, zero, suc, ◌≡◌, ◌≢◌, refl, Bool, inl, inr, Option, none, some, List, [], ◌∷◌, get_elem?, arith,
}
use havuz.Breaker.{record_success, record_failure}
use havuz.Routing.{
  RouteIntent, replica, ReplicaState, set_lag, SessionRouting, Router, choose, update_at,
}
use havuz.Routing.Safety.{IsFresh, replica_is_safe}

pub data ProbeResult : Type 0 where
  -- Whether the server is a standby, and its delay if that is known.
  healthy : Bool → Option ℕ → ProbeResult
  failed : ProbeResult

unfoldable pub apply_to_replica : ReplicaState → ProbeResult → ℕ → ReplicaState
unfolding set_lag
apply_to_replica r (healthy in_recovery delay) now =
    let s = set_lag r delay in record s { breaker = record_success s.breaker }
apply_to_replica r failed now =
    let s = set_lag r none in record s { breaker = record_failure s.breaker now }

-- The router after a probe of the replica at an index.
abbrev pub probed : Router → ℕ → ProbeResult → ℕ → Router
probed r i result now = record r {
  replicas = update_at r.replicas i λ x. apply_to_replica x result now;
}

get_elem-update_at :
    (rs : List ReplicaState) (i : ℕ) (f : ReplicaState → ReplicaState) (y : ReplicaState)
    → get_elem? (update_at rs i f) i ≡ some y
    → (x : ReplicaState) × (y ≡ f x)
get_elem-update_at [] i f y e = absurd (cc)
get_elem-update_at (r ∷ rs) zero f y e = (r, ground arith)
get_elem-update_at (r ∷ rs) (suc i) f y e = get_elem-update_at rs i f y e

failed_not-IsFresh :
    (x : ReplicaState) (limit now : ℕ) → ¬ IsFresh (apply_to_replica x failed now) (some limit)
unfolding apply_to_replica
failed_not-IsFresh x limit now (inl e) = absurd (cc)
failed_not-IsFresh x limit now (inr (l, e, known, within)) = absurd (known refl)

-- A failed probe takes a replica out of rotation at once. Where a limit on the delay is set, the
-- router's next choice, at any time after the probe, is not that replica, however healthy its
-- breaker still is, for any statement of any session without an open transaction there.
pub failed_probe_stops_reads :
    (r : Router) (i limit now later : ℕ) (intent : RouteIntent) (s : SessionRouting)
    → r.config.max_replica_lag ≡ some limit
    → s.transaction_route ≢ some (replica i)
    → (choose (probed r i failed now) intent s later).2 ≢ replica i
failed_probe_stops_reads r i limit now later intent s limited free e =
    elim (replica_is_safe (probed r i failed now) intent s later i e) [
      | inl pinned ↦ absurd (free pinned)
      | inr (none_open, split, reads, calm, (y, at, fresh, admitted)) ↦
          let (x, is) = get_elem-update_at r.replicas i (λ z. apply_to_replica z failed now) y at in
          let stale : IsFresh (apply_to_replica x failed now) (some limit) =
            rw is at (rw limited at fresh) in
          absurd (failed_not-IsFresh x limit now stale)
    ]
