-- ===== src/Routing/Safety.antt =====
-- When a statement may reach a replica (crates/havuz-pg/src/routing.rs).
use havuz.Base.{
  ℕ, zero, suc, ◌+◌, ◌*◌, ◌≤◌, ◌≡◌, ◌≢◌, refl, true, false, ◌⊎◌, inl, inr, Option, none, some, List,
  [], ◌∷◌, get_elem?, ltb, Bool-cases, Option-cases, arith,
}
use havuz.Breaker.{allows}
use havuz.Routing.{
  RouteIntent, read, replica, ReplicaState, fresh_enough, lag, lag_unknown, is_eligible,
  SessionRouting, is_sticky, Router, eligible, at_position, take_turn, pick_replica, pinned,
  decide_read, decide, choose,
}

-- Where a limit on the delay is set, the replica's has been measured and is within it.
abbrev pub IsFresh : ReplicaState → Option ℕ → Type 0
IsFresh r max_lag =
    (max_lag ≡ none)
    ⊎ ((limit : ℕ) × (max_lag ≡ some limit)
        × (r.lag_millis ≢ lag_unknown)
        × (r.lag_millis * 1000000 ≤ limit))

-- A session has not written within the window, or the window is empty.
abbrev pub IsCalm : SessionRouting → ℕ → ℕ → Type 0
IsCalm s window now =
    (window ≡ 0)
    ⊎ ((s.last_write ≡ none) ⊎ ((at : ℕ) × (s.last_write ≡ some at) × (at + window ≤ now)))

-- The replica at an index may serve a read now: it is fresh, and its breaker admits it.
abbrev pub MayServe : List ReplicaState → Option ℕ → ℕ → ℕ → Type 0
MayServe rs max_lag now i =
    (r : ReplicaState) × (get_elem? rs i ≡ some r)
    × IsFresh r max_lag
    × ((allows r.breaker now).1 ≡ true)

-- All that `eligible` lists, by their places from `i` on, may serve.
abbrev AllServe : List ReplicaState → Option ℕ → ℕ → ℕ → List (ℕ × ℕ) → Type 0
AllServe rs max_lag now base [] = Unit {0}
AllServe rs max_lag now base ((j, w) ∷ rest) =
    ((k : ℕ) × (j ≡ base + k) × MayServe rs max_lag now k) × AllServe rs max_lag now base rest

AllServe-cons :
    (r : ReplicaState) (rs : List ReplicaState) (max_lag : Option ℕ) (now base : ℕ)
    (found : List (ℕ × ℕ))
    → AllServe rs max_lag now (suc base) found
    → AllServe (r ∷ rs) max_lag now base found
AllServe-cons r rs max_lag now base [] a = tt
AllServe-cons r rs max_lag now base ((j, w) ∷ rest) ((k, e, serve), more) =
    ((suc k, omega (arith, e), serve), AllServe-cons r rs max_lag now base rest more)

fresh_enough-IsFresh :
    (r : ReplicaState) (max_lag : Option ℕ) → fresh_enough r max_lag ≡ true → IsFresh r max_lag
unfolding fresh_enough lag
fresh_enough-IsFresh r none h = inl refl
fresh_enough-IsFresh r (some limit) h = inr (limit, refl, ground arith, ground arith)

calm : (s : SessionRouting) (window now : ℕ) → is_sticky s window now ≡ false → IsCalm s window now
unfolding is_sticky
calm s zero now h = inl refl
calm s (suc n) now h = elim (Option-cases s.last_write) [
  | inl e ↦ inr (inl e)
  | inr (at, e) ↦ inr (inr (at, e, ground arith))
]

is_eligible_lem :
    (r : ReplicaState) (max_lag : Option ℕ) (now : ℕ)
    → (is_eligible r max_lag now).1 ≡ true
    → IsFresh r max_lag × ((allows r.breaker now).1 ≡ true)
unfolding is_eligible
is_eligible_lem r max_lag now h = (fresh_enough-IsFresh r max_lag (ground arith), ground arith)

eligible-AllServe :
    (rs : List ReplicaState) (base : ℕ) (max_lag : Option ℕ) (now : ℕ)
    → AllServe rs max_lag now base (eligible rs base max_lag now).1
unfolding eligible
eligible-AllServe [] base max_lag now = tt
eligible-AllServe (r ∷ rs) base max_lag now =
    let tail =
      AllServe-cons r rs max_lag now base _ (eligible-AllServe rs (suc base) max_lag now) in
    elim (Bool-cases (is_eligible r max_lag now).1) [
      | inl ok ↦
          let (fresh, admitted) = is_eligible_lem r max_lag now ok in
          rw ok ((0, omega arith, (r, refl, fresh, admitted)), tail)
      | inr refused ↦ rw refused tail
    ]

at_position_serves :
    (rs : List ReplicaState) (max_lag : Option ℕ) (now position accumulated i : ℕ)
    (found : List (ℕ × ℕ))
    → AllServe rs max_lag now 0 found
    → at_position position accumulated found ≡ some i
    → MayServe rs max_lag now i
unfolding at_position
at_position_serves rs max_lag now position accumulated i [] a h = absurd (cc)
at_position_serves rs max_lag now position accumulated i ((j, w) ∷ rest) ((k, e, serve), more) h =
    elim (Bool-cases (ltb position (accumulated + w))) [
      | inl here ↦ let same : k ≡ i = ground (arith, e) in rw same at serve
      | inr later ↦
          at_position_serves rs max_lag now position (accumulated + w) i rest more (rw later at h)
    ]

take_turn_serves :
    (rs : List ReplicaState) (max_lag : Option ℕ) (now cursor i : ℕ) (found : List (ℕ × ℕ))
    → AllServe rs max_lag now 0 found
    → (take_turn cursor found).1 ≡ some i
    → MayServe rs max_lag now i
unfolding take_turn
take_turn_serves rs max_lag now cursor i [] a h = absurd (cc)
take_turn_serves rs max_lag now cursor i ((j, w) ∷ rest) a h =
    at_position_serves rs max_lag now _ 0 i ((j, w) ∷ rest) a h

pick_replica_serves :
    (r : Router) (now i : ℕ)
    → (pick_replica r now).1 ≡ some i
    → MayServe r.replicas r.config.max_replica_lag now i
unfolding pick_replica
pick_replica_serves r now i h =
    take_turn_serves r.replicas r.config.max_replica_lag now r.cursor i _
      (eligible-AllServe r.replicas 0 r.config.max_replica_lag now) h

decide_read_replica :
    (r : Router) (s : SessionRouting) (now i : ℕ)
    → (decide_read r s now).2 ≡ replica i
    → (is_sticky s r.config.sticky_after_write now ≡ false) × ((pick_replica r now).1 ≡ some i)
unfolding decide_read
decide_read_replica r s now i h = ground arith

choose_replica :
    (r : Router) (intent : RouteIntent) (s : SessionRouting) (now i : ℕ)
    → (choose r intent s now).2 ≡ replica i
    → (s.transaction_route ≡ some (replica i))
      ⊎ ((s.transaction_route ≡ none)
          × (r.config.read_write_split ≡ true)
          × (intent ≡ read)
          × ((decide_read r s now).2 ≡ replica i))
unfolding choose decide
choose_replica r intent s now i h = ground arith

-- A statement goes to a replica only if its open transaction is already there, or, outside a
-- transaction, if splitting is on, the statement is a read, the session has not written within the
-- sticky window, and that replica may serve: its breaker admits it and, where a limit on the delay
-- is set, its delay is known and within it.
pub replica_is_safe :
    (r : Router) (intent : RouteIntent) (s : SessionRouting) (now i : ℕ)
    → (choose r intent s now).2 ≡ replica i
    → (s.transaction_route ≡ some (replica i))
      ⊎ ((s.transaction_route ≡ none)
          × (r.config.read_write_split ≡ true)
          × (intent ≡ read)
          × IsCalm s r.config.sticky_after_write now
          × MayServe r.replicas r.config.max_replica_lag now i)
replica_is_safe r intent s now i h = elim (choose_replica r intent s now i h) [
  | inl pinned ↦ inl pinned
  | inr (free, split, reads, e) ↦
      let (quiet, picked) = decide_read_replica r s now i e in
      inr (
        free,
        split,
        reads,
        calm s r.config.sticky_after_write now quiet,
        pick_replica_serves r now i picked,
      )
]
