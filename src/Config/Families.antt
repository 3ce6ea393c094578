-- ===== src/Config/Families.antt =====
-- A listener speaks the protocol of all its pools (crates/havuz-core/src/state.rs).
use havuz.Base.{
  ℕ, ◌≡◌, ap, ◌∙◌, Option, none, some, List, [], ◌∷◌, ◌==◌, ltb, if◌then◌else◌, arith, Bool-cases,
  inl, inr, map,
}
use havuz.Text.{same}
use havuz.Chars.{Str}
use havuz.Prepared.Names.{same_sound}
use havuz.Config.{
  PoolConfig, Pools, FamilyDescriptor, State, Routable, Ports, first_on, routes, claim_ports,
  validate_listeners, validate,
}
use havuz.Config.Claims.{same_port, Claimed-cases, claim_all-refused}
use havuz.Config.Routes.{listeners_are_valid}
use havuz.Config.Listeners.{Listener, add_pool, add_pools, sorted, listeners}

unfoldable family_on : ℕ → Ports → Option Str
family_on port [] = none
family_on port ((p, owner) ∷ more) =
    let rest = family_on port more in if p == port then some owner.1 else rest

-- The ports after the check.
unfoldable final_ports : Ports → Pools → Ports
final_ports ports [] = ports
final_ports ports ((name, pool) ∷ more) =
    final_ports ((pool.listen_port, first_on pool.listen_port (name, pool.family) ports) ∷ ports)
      more

abbrev Keeps : Ports → Ports → Type 0
Keeps a b = (port : ℕ) (f : Str) → family_on port a ≡ some f → family_on port b ≡ some f

abbrev AllMatch : Pools → Ports → Type 0
AllMatch [] ports = Unit {0}
AllMatch ((name, pool) ∷ more) ports =
    (family_on pool.listen_port ports ≡ some pool.family) × AllMatch more ports

first_on-family :
    (port : ℕ) (d : Str × Str) (ports : Ports) (f : Str)
    → family_on port ports ≡ some f
    → (first_on port d ports).1 ≡ f
unfolding family_on first_on
first_on-family port d [] f h = absurd (cc)
first_on-family port d ((p, owner) ∷ more) f h = elim (Bool-cases (p == port)) [
  | inl e ↦ rw e (cc (rw e at h))
  | inr e ↦ rw e (first_on-family port d more f (rw e at h))
]

again-Keeps :
    (port : ℕ) (d : Str × Str) (ports : Ports) → Keeps ports ((port, first_on port d ports) ∷ ports)
unfolding family_on
again-Keeps port d ports q f h = elim (Bool-cases (port == q)) [
  | inl e ↦ rw e (
      ap some
        (first_on-family port d ports f (ap (λ x. family_on x ports) (same_port port q e) ∙ h)))
  | inr e ↦ rw e h
]

checked_port :
    (ports : Ports) (r : Routable) (name : Str) (pool : PoolConfig) (more : Pools) (s : Routable)
    → claim_ports ports r ((name, pool) ∷ more) ≡ routes s
    → ((first_on pool.listen_port (name, pool.family) ports).1 ≡ pool.family)
      × (claim_ports
            ((pool.listen_port, first_on pool.listen_port (name, pool.family) ports) ∷ ports)
            (((pool.listen_port, name), name) ∷ r)
            more
          ≡ routes s)
unfolding claim_ports
checked_port ports r name pool more s h = elim (Bool-cases (pool.listen_port == 0)) [
  | inl e ↦ absurd (cc (rw e at h))
  | inr e ↦
      elim (Bool-cases (same (first_on pool.listen_port (name, pool.family) ports).1 pool.family)) [
        | inl k ↦ (
          same_sound (first_on pool.listen_port (name, pool.family) ports).1 pool.family k,
          rw (e, k) at h,
        )
        | inr k ↦ absurd (cc (rw (e, k) at h))
      ]
]

newest_family :
    (port : ℕ) (owner : Str × Str) (ports : Ports)
    → family_on port ((port, owner) ∷ ports) ≡ some owner.1
unfolding family_on
newest_family port owner ports = ground arith

claim_ports-Keeps :
    (ports : Ports) (r : Routable) (pools : Pools) (s : Routable)
    → claim_ports ports r pools ≡ routes s
    → Keeps ports (final_ports ports pools) × AllMatch pools (final_ports ports pools)
unfolding final_ports
claim_ports-Keeps ports r [] s h = (λ q f k. k, tt)
claim_ports-Keeps ports r ((name, pool) ∷ more) s h =
    let port = pool.listen_port in
    let first = first_on port (name, pool.family) ports in
    let (family, rest) = checked_port ports r name pool more s h in
    let (keeps, all) =
      claim_ports-Keeps ((port, first) ∷ ports) (((port, name), name) ∷ r) more s rest in
    (
      λ q f k. keeps q f (again-Keeps port (name, pool.family) ports q f k),
      (keeps port pool.family (newest_family port first ports ∙ ap some family), all),
    )

-- Every listener has the family of its port.
abbrev AllFound : List Listener → Ports → Type 0
AllFound [] ports = Unit {0}
AllFound (l ∷ more) ports = (family_on l.port ports ≡ some l.family) × AllFound more ports

add_pool-AllFound :
    (name : Str) (p : PoolConfig) (ls : List Listener) (ports : Ports)
    → family_on p.listen_port ports ≡ some p.family
    → AllFound ls ports
    → AllFound (add_pool name p ls) ports
unfolding add_pool
add_pool-AllFound name p [] ports h all = (h, tt)
add_pool-AllFound name p (l ∷ more) ports h (f, all) =
    elim (Bool-cases (ltb p.listen_port l.port)) [
      | inl e ↦ rw e (h, (f, all))
      | inr e ↦ elim (Bool-cases (l.port == p.listen_port)) [
        | inl k ↦ rw (e, k) (f, all)
        | inr k ↦ rw (e, k) (f, add_pool-AllFound name p more ports h all)
      ]
    ]

add_pools-AllFound :
    (ls : List Listener) (pools : Pools) (ports : Ports)
    → AllMatch pools ports
    → AllFound ls ports
    → AllFound (add_pools ls pools) ports
unfolding add_pools
add_pools-AllFound ls [] ports match_ all = all
add_pools-AllFound ls ((name, p) ∷ more) ports (h, match_) all = elim (Bool-cases p.disabled) [
  | inl e ↦ rw e (add_pools-AllFound ls more ports match_ all)
  | inr e ↦ rw e (
      add_pools-AllFound (add_pool name p ls) more ports match_
        (add_pool-AllFound name p ls ports h all))
]

sorted-AllFound :
    (ls : List Listener) (ports : Ports) → AllFound ls ports → AllFound (map sorted ls) ports
unfolding sorted
sorted-AllFound [] ports all = tt
sorted-AllFound (l ∷ more) ports (f, all) = (f, sorted-AllFound more ports all)

-- No pool on the port of a listener has another family.
abbrev pub Speaks : Listener → Pools → Type 0
Speaks l [] = Unit {0}
Speaks l ((name, p) ∷ more) = (p.listen_port ≡ l.port → p.family ≡ l.family) × Speaks l more

abbrev pub AllSpeak : List Listener → Pools → Type 0
AllSpeak [] pools = Unit {0}
AllSpeak (l ∷ more) pools = Speaks l pools × AllSpeak more pools

found-Speaks :
    (l : Listener) (pools : Pools) (ports : Ports)
    → family_on l.port ports ≡ some l.family
    → AllMatch pools ports
    → Speaks l pools
found-Speaks l [] ports f match_ = tt
found-Speaks l ((name, p) ∷ more) ports f (h, match_) =
    (λ e. cc (f, h, ap (λ x. family_on x ports) e), found-Speaks l more ports f match_)

found-AllSpeak :
    (ls : List Listener) (pools : Pools) (ports : Ports)
    → AllFound ls ports
    → AllMatch pools ports
    → AllSpeak ls pools
found-AllSpeak [] pools ports all match_ = tt
found-AllSpeak (l ∷ more) pools ports (f, all) match_ =
    (found-Speaks l pools ports f match_, found-AllSpeak more pools ports all match_)

matched-AllSpeak :
    (pools : Pools) (ports : Ports) → AllMatch pools ports → AllSpeak (listeners pools) pools
unfolding listeners
matched-AllSpeak pools ports match_ =
    found-AllSpeak (map sorted (add_pools [] pools)) pools ports
      (sorted-AllFound (add_pools [] pools) ports (add_pools-AllFound [] pools ports match_ tt))
      match_

checked-AllSpeak :
    (pools : Pools) → validate_listeners pools ≡ none → AllSpeak (listeners pools) pools
unfolding validate_listeners
checked-AllSpeak pools h = elim (Claimed-cases (claim_ports [] [] pools)) [
  | inl (e, k) ↦ absurd (cc (rw k at h, claim_all-refused e pools))
  | inr (r, k) ↦ matched-AllSpeak pools (final_ports [] pools) (claim_ports-Keeps [] [] pools r k).1
]

-- In a configuration that is valid, a listener speaks one protocol: whatever pool is configured on its
-- port, also one that is disabled, has the family that the listener runs the handshake of.
pub listener_speaks_one_family :
    (registry : Str → Option FamilyDescriptor) (s : State)
    → validate registry s ≡ none
    → AllSpeak (listeners s.pools) s.pools
listener_speaks_one_family registry s h =
    checked-AllSpeak s.pools (listeners_are_valid registry s h)
