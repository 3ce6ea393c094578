-- ===== src/Routing/RoundRobin.antt =====
-- Reads spread over healthy replicas by weight (crates/havuz-pg/src/routing.rs).
use havuz.Base.{
  ℕ, zero, suc, ◌+◌, ◌%◌, ◌^◌, ◌<◌, ◌≡◌, refl, ap, ◌∙◌, true, Option, some, List, [], ◌∷◌, add64,
  get_elem?, arith,
}
use havuz.Breaker.{allows}
use havuz.Routing.{
  ReplicaState, fresh_enough, is_eligible, Router, eligible, total_weight, at_position, take_turn,
  pick_replica,
}
use havuz.Routing.Fairness.{hit, weight_of, sum_mod, round_weight}

-- Every replica passes the gate on its delay, and its breaker is closed.
abbrev pub AllHealthy : List ReplicaState → Option ℕ → Type 0
AllHealthy [] max_lag = Unit {0}
AllHealthy (r ∷ rs) max_lag =
    ((fresh_enough r max_lag ≡ true) × (r.breaker.state ≡ 0)) × AllHealthy rs max_lag

listed : ℕ → List ReplicaState → List (ℕ × ℕ)
listed i [] = []
listed i (r ∷ rs) = (i, r.weight) ∷ listed (suc i) rs

unfoldable pub weights : List ReplicaState → ℕ
weights [] = 0
weights (r ∷ rs) = r.weight + weights rs

eligible-healthy :
    (rs : List ReplicaState) (i : ℕ) (max_lag : Option ℕ) (now : ℕ)
    → AllHealthy rs max_lag
    → eligible rs i max_lag now ≡ (rs, listed i rs)
unfolding eligible listed is_eligible allows
eligible-healthy [] i max_lag now h = refl
eligible-healthy (r ∷ rs) i max_lag now h =
    ground (arith, eligible-healthy rs (suc i) max_lag now h.1)

total_weight-listed : (i : ℕ) (rs : List ReplicaState) → total_weight (listed i rs) ≡ weights rs
unfolding listed weights total_weight
total_weight-listed i [] = refl
total_weight-listed i (r ∷ rs) = omega (arith, total_weight-listed (suc i) rs)

weight_of_below : (i j : ℕ) (rs : List ReplicaState) → i < j → weight_of i (listed j rs) ≡ 0
unfolding listed weight_of
weight_of_below i j [] h = refl
weight_of_below i j (r ∷ rs) h = ground (arith, weight_of_below i (suc j) rs)

weight_of-listed :
    (i k j : ℕ) (rs : List ReplicaState) (x : ReplicaState)
    → i ≡ j + k
    → get_elem? rs k ≡ some x
    → weight_of i (listed j rs) ≡ x.weight
unfolding listed weight_of
weight_of-listed i k j [] x e h = absurd (cc)
weight_of-listed i zero j (r ∷ rs) x e h = ground (arith, weight_of_below i (suc j) rs)
weight_of-listed i (suc k) j (r ∷ rs) x e h =
    ground (arith, weight_of-listed i k (suc j) rs x (omega arith) h)

-- How often the router picks the replica `i` in `n` picks in a row, at the given times.
pub picks_of : ℕ → Router → (ℕ → ℕ) → ℕ → ℕ
picks_of i r clock zero = 0
picks_of i r clock (suc n) =
    let rest = picks_of i (pick_replica r (clock n)).0 clock n in
    hit i (pick_replica r (clock n)).1 + rest

take_turn-nonempty :
    (cursor : ℕ) (found : List (ℕ × ℕ))
    → 0 < total_weight found
    → take_turn cursor found ≡ (add64 cursor 1, at_position (cursor % total_weight found) 0 found)
unfolding take_turn total_weight
take_turn-nonempty cursor [] h = absurd (omega arith)
take_turn-nonempty cursor ((i, w) ∷ rest) h = refl

pick_replica-healthy :
    (r : Router) (now : ℕ)
    → AllHealthy r.replicas r.config.max_replica_lag
    → 0 < weights r.replicas
    → r.cursor + 1 < 2 ^ 64
    → pick_replica r now ≡ (
      record r { cursor = suc r.cursor },
      at_position (r.cursor % weights r.replicas) 0 (listed 0 r.replicas),
    )
unfolding pick_replica
pick_replica-healthy r now h pos fits = ground (
  arith,
  eligible-healthy r.replicas 0 r.config.max_replica_lag now h,
  total_weight-listed 0 r.replicas,
  take_turn-nonempty r.cursor (listed 0 r.replicas),
)

picks_of-sum_mod :
    (i n : ℕ) (r : Router) (clock : ℕ → ℕ)
    → AllHealthy r.replicas r.config.max_replica_lag
    → 0 < weights r.replicas
    → r.cursor + n < 2 ^ 64
    → picks_of i r clock n
      ≡ sum_mod (λ p. hit i (at_position p 0 (listed 0 r.replicas))) (weights r.replicas) r.cursor n
unfolding picks_of sum_mod
picks_of-sum_mod i zero r clock h pos fits = refl
picks_of-sum_mod i (suc n) r clock h pos fits =
    rw (pick_replica-healthy r (clock n) h pos (omega arith)) (
      ap
        (λ (k : ℕ). hit i (at_position (r.cursor % weights r.replicas) 0 (listed 0 r.replicas)) + k)
        (picks_of-sum_mod i n (record r { cursor = suc r.cursor }) clock h pos (omega arith)))

-- Weighted round-robin is exact. If every replica is healthy, then in as many picks in a row as the
-- weights add up to, wherever the cursor stands, each replica is picked exactly as often as its
-- weight. The weights are not all zero, and the 64-bit cursor does not wrap meanwhile.
pub picks_by_weight :
    (r : Router) (clock : ℕ → ℕ) (i : ℕ) (x : ReplicaState)
    → AllHealthy r.replicas r.config.max_replica_lag
    → 0 < weights r.replicas
    → r.cursor + weights r.replicas < 2 ^ 64
    → get_elem? r.replicas i ≡ some x
    → picks_of i r clock (weights r.replicas) ≡ x.weight
picks_by_weight r clock i x h pos fits at =
    picks_of-sum_mod i (weights r.replicas) r clock h pos fits
    ∙ (rw (total_weight-listed 0 r.replicas) at (round_weight i r.cursor (listed 0 r.replicas)))
    ∙ weight_of-listed i i 0 r.replicas x (omega arith) at
