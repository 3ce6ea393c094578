-- ===== src/Routing/Stats.antt =====
-- The counts of routing decisions (crates/havuz-pg/src/routing.rs).
use havuz.Base.{
  ℕ, zero, suc, ◌+◌, ◌%◌, ◌^◌, ◌<◌, ◌≡◌, ap, ◌∙◌, refl, List, [], ◌∷◌, add64, length, arith,
}
use havuz.Routing.{
  RoutingConfig, ReplicaState, new, pick_replica, PrimaryReason, index, Route, primary, replica,
  RoutingStats, bump, record_route, Router, RouteIntent, SessionRouting, choose, decide,
  split_disabled, read_after_write, transaction_pinned, no_replica_available,
}

pub sum_of : List ℕ → ℕ
sum_of [] = 0
sum_of (n ∷ ns) = n + sum_of ns

sum_of-bump :
    (ns : List ℕ) (i : ℕ) → i < length ns → sum_of (bump ns i) % 2 ^ 64 ≡ (sum_of ns + 1) % 2 ^ 64
unfolding sum_of
sum_of-bump [] i h = absurd (omega arith)
sum_of-bump (n ∷ ns) zero h = omega arith
sum_of-bump (n ∷ ns) (suc i) h = omega (arith, sum_of-bump ns i (omega arith))

length-bump : (ns : List ℕ) (i : ℕ) → length (bump ns i) ≡ length ns
length-bump [] i = refl
length-bump (n ∷ ns) zero = refl
length-bump (n ∷ ns) (suc i) = omega (arith, length-bump ns i)

index-lt : (p : PrimaryReason) → index p < 5
index-lt split_disabled = omega arith
index-lt PrimaryReason.write = omega arith
index-lt read_after_write = omega arith
index-lt transaction_pinned = omega arith
index-lt no_replica_available = omega arith

-- Five reasons, which add up to the statements that went to the primary.
pub record Balanced (s : RoutingStats) : Type 0 where
  pub five : length s.primary_reasons ≡ 5
  pub sums : sum_of s.primary_reasons % 2 ^ 64 ≡ s.to_primary % 2 ^ 64

record_route-Balanced : (s : RoutingStats) (r : Route) → Balanced s → Balanced (record_route s r)
unfolding record_route
record_route-Balanced s (primary p) b = record {
  five = length-bump s.primary_reasons (index p) ∙ b.five;
  sums =
      omega (
        arith,
        sum_of-bump s.primary_reasons (index p) (omega (arith, b.five, index-lt p)),
        b.sums,
      );
}
record_route-Balanced s (replica i) b = record { five = b.five; sums = b.sums }

-- Statements of one session after another, each with its session and its time.
unfoldable pub choose_all : Router → List (RouteIntent × SessionRouting × ℕ) → Router
choose_all r [] = r
choose_all r ((intent, s, now) ∷ rest) = choose_all (choose r intent s now).0 rest

decide-stats :
    (r : Router) (intent : RouteIntent) (s : SessionRouting) (now : ℕ)
    → (decide r intent s now).0.stats ≡ r.stats
unfolding decide pick_replica
decide-stats r intent s now = ground arith

choose-stats :
    (r : Router) (intent : RouteIntent) (s : SessionRouting) (now : ℕ)
    → (choose r intent s now).0.stats ≡ record_route r.stats (decide r intent s now).2
unfolding choose
choose-stats r intent s now =
    ap (λ k. record_route k (decide r intent s now).2) (decide-stats r intent s now)

abbrev pub handled : RoutingStats → ℕ
handled s = add64 s.to_primary s.to_replica

handled-record_route :
    (s : RoutingStats) (r : Route) → handled (record_route s r) ≡ add64 (handled s) 1
unfolding record_route
handled-record_route s (primary p) = omega arith
handled-record_route s (replica i) = omega arith

choose_all-counts :
    (r : Router) (asked : List (RouteIntent × SessionRouting × ℕ))
    → Balanced r.stats
    → Balanced (choose_all r asked).stats
      × (handled (choose_all r asked).stats ≡ add64 (handled r.stats) (length asked))
unfolding choose_all
choose_all-counts r [] b = (b, omega arith)
choose_all-counts r ((intent, s, now) ∷ rest) b =
    let q = (choose r intent s now).0 in
    let route = (decide r intent s now).2 in
    let same = choose-stats r intent s now in
    let balanced : Balanced q.stats = rw same (record_route-Balanced r.stats route b) in
    let counted : handled q.stats ≡ add64 (handled r.stats) 1 =
      rw same (handled-record_route r.stats route) in
    let (still, more) = choose_all-counts q rest balanced in (still, more ∙ omega (arith, counted))

-- The counts account for every statement: after any statements of any sessions, those sent to the
-- primary and those sent to a replica are together as many as were routed, and the five reasons for
-- the primary add up to the statements sent there, all modulo 2^64.
pub counts_add_up :
    (config : RoutingConfig) (replicas : List ReplicaState)
    (asked : List (RouteIntent × SessionRouting × ℕ))
    → let s = (choose_all (new config replicas) asked).stats in
      (add64 s.to_primary s.to_replica ≡ length asked % 2 ^ 64)
      × (sum_of s.primary_reasons % 2 ^ 64 ≡ s.to_primary % 2 ^ 64)
unfolding new sum_of
counts_add_up config replicas asked =
    let (b, n) =
      choose_all-counts (new config replicas) asked (record { five = refl; sums = refl }) in
    (n ∙ omega arith, b.sums)
