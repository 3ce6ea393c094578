-- ===== src/Config/Claims.antt =====
-- What the check of the listeners routes, step by step (crates/havuz-core/src/state.rs).
use havuz.Base.{
  ℕ, ◌≡◌, refl, sym, ap, ◌∙◌, true, ◌&&◌, Option, none, some, List, [], ◌∷◌, ◌==◌, arith,
  Bool-cases, ◌⊎◌, inl, inr,
}
use havuz.Text.{same}
use havuz.Chars.{Str}
use havuz.Prepared.Names.{same_refl, same_sound}
use havuz.Config.{
  PoolConfig, Pools, StateError, is_valid_name, Routable, find_route, Ports, first_on, Claimed,
  refused, routes, claim_ports, claim_alias, claim_aliases, claim_all,
}

-- What was routed stays routed.
abbrev pub Extends : Routable → Routable → Type 0
Extends r s =
    (port : ℕ) (name owner : Str)
    → find_route port name r ≡ some owner
    → find_route port name s ≡ some owner

-- Every name that is routed is that of its pool.
abbrev pub OwnNames : Routable → Type 0
OwnNames r = (port : ℕ) (name owner : Str) → find_route port name r ≡ some owner → owner ≡ name

abbrev pub AllNamed : Pools → Routable → Type 0
AllNamed [] r = Unit {0}
AllNamed ((name, pool) ∷ more) r =
    (find_route pool.listen_port name r ≡ some name) × AllNamed more r

abbrev pub AllAliased : ℕ → Str → List Str → Routable → Type 0
AllAliased port name [] r = Unit {0}
AllAliased port name (a ∷ more) r = (find_route port a r ≡ some name) × AllAliased port name more r

abbrev pub AllClaimed : Pools → Routable → Type 0
AllClaimed [] r = Unit {0}
AllClaimed ((name, pool) ∷ more) r =
    AllAliased pool.listen_port name pool.aliases r × AllClaimed more r

pub AllNamed-Extends :
    (pools : Pools) (r s : Routable) → Extends r s → AllNamed pools r → AllNamed pools s
AllNamed-Extends [] r s ext all = tt
AllNamed-Extends ((name, pool) ∷ more) r s ext (h, all) =
    (ext pool.listen_port name name h, AllNamed-Extends more r s ext all)

AllAliased-Extends :
    (port : ℕ) (name : Str) (aliases : List Str) (r s : Routable)
    → Extends r s
    → AllAliased port name aliases r
    → AllAliased port name aliases s
AllAliased-Extends port name [] r s ext all = tt
AllAliased-Extends port name (a ∷ more) r s ext (h, all) =
    (ext port a name h, AllAliased-Extends port name more r s ext all)

found_first :
    (port : ℕ) (name owner : Str) (r : Routable)
    → find_route port name (((port, name), owner) ∷ r) ≡ some owner
unfolding find_route
found_first port name owner r = ground (arith, same_refl name)

own_name-OwnNames :
    (port : ℕ) (name : Str) (r : Routable) → OwnNames r → OwnNames (((port, name), name) ∷ r)
unfolding find_route
own_name-OwnNames port name r own p n o h = elim (Bool-cases ((port == p) && same name n)) [
  | inl e ↦ ground (arith, rw e at h, same_sound name n (ground (arith, e)))
  | inr e ↦ own p n o (rw e at h)
]

own_name-Extends :
    (port : ℕ) (name : Str) (r : Routable) → OwnNames r → Extends r (((port, name), name) ∷ r)
unfolding find_route
own_name-Extends port name r own p n o h = elim (Bool-cases ((port == p) && same name n)) [
  | inl e ↦ rw e (ap some (same_sound name n (ground (arith, e)) ∙ sym (own p n o h)))
  | inr e ↦ rw e h
]

pub same_port : (a b : ℕ) → (a == b) ≡ true → a ≡ b
same_port a b h = ground (arith, h)

new_alias-Extends :
    (port : ℕ) (name alias : Str) (r : Routable)
    → find_route port alias r ≡ none
    → Extends r (((port, alias), name) ∷ r)
unfolding find_route
new_alias-Extends port name alias r free p n o h = elim (Bool-cases ((port == p) && same alias n)) [
  | inl e ↦ absurd (
      cc (
        h,
        free,
        ap (λ x. find_route x alias r) (same_port port p (ground (arith, e))),
        ap (λ x. find_route p x r) (same_sound alias n (ground (arith, e))),
      ))
  | inr e ↦ rw e h
]

next_port :
    (ports : Ports) (r : Routable) (name : Str) (pool : PoolConfig) (more : Pools) (s : Routable)
    → claim_ports ports r ((name, pool) ∷ more) ≡ routes s
    → claim_ports
        ((pool.listen_port, first_on pool.listen_port (name, pool.family) ports) ∷ ports)
        (((pool.listen_port, name), name) ∷ r)
        more
      ≡ routes s
unfolding claim_ports
next_port ports r name pool more s h = elim (Bool-cases (pool.listen_port == 0)) [
  | inl e ↦ absurd (cc (rw e at h))
  | inr e ↦
      elim (Bool-cases (same (first_on pool.listen_port (name, pool.family) ports).1 pool.family)) [
        | inl k ↦ rw (e, k) at h
        | inr k ↦ absurd (cc (rw (e, k) at h))
      ]
]

pub claim_ports-routes :
    (ports : Ports) (r : Routable) (pools : Pools) (s : Routable)
    → claim_ports ports r pools ≡ routes s
    → OwnNames r
    → Extends r s × AllNamed pools s
unfolding claim_ports
claim_ports-routes ports r [] s h own = (λ p n o f. cc (h, f), tt)
claim_ports-routes ports r ((name, pool) ∷ more) s h own =
    let (ext, all) =
      claim_ports-routes
        ((pool.listen_port, first_on pool.listen_port (name, pool.family) ports) ∷ ports)
        (((pool.listen_port, name), name) ∷ r) more s (next_port ports r name pool more s h)
        (own_name-OwnNames pool.listen_port name r own) in
    (
      λ p n o f. ext p n o (own_name-Extends pool.listen_port name r own p n o f),
      (ext pool.listen_port name name (found_first pool.listen_port name name r), all),
    )

alias_is_free :
    (port : ℕ) (name alias : Str) (found : Option Str) (rest : Claimed) (s : Routable)
    → claim_alias port name alias found rest ≡ routes s
    → (found ≡ none) × (rest ≡ routes s)
alias_is_free port name alias (some other) rest s h = absurd (cc)
alias_is_free port name alias none rest s h = (refl, h)

next_alias :
    (port : ℕ) (name alias : Str) (r : Routable) (more : List Str) (s : Routable)
    → claim_aliases port name r (alias ∷ more) ≡ routes s
    → (find_route port alias r ≡ none)
      × (claim_aliases port name (((port, alias), name) ∷ r) more ≡ routes s)
unfolding claim_aliases
next_alias port name alias r more s h = elim (Bool-cases (is_valid_name alias)) [
  | inr e ↦ absurd (cc (rw e at h))
  | inl e ↦ elim (Bool-cases (same alias name)) [
    | inl k ↦ absurd (cc (rw (e, k) at h))
    | inr k ↦
        alias_is_free port name alias (find_route port alias r)
          (claim_aliases port name (((port, alias), name) ∷ r) more) s (rw (e, k) at h)
  ]
]

claim_aliases-routes :
    (port : ℕ) (name : Str) (r : Routable) (aliases : List Str) (s : Routable)
    → claim_aliases port name r aliases ≡ routes s
    → Extends r s × AllAliased port name aliases s
unfolding claim_aliases
claim_aliases-routes port name r [] s h = (λ p n o f. cc (h, f), tt)
claim_aliases-routes port name r (alias ∷ more) s h =
    let (free, rest) = next_alias port name alias r more s h in
    let (ext, all) = claim_aliases-routes port name (((port, alias), name) ∷ r) more s rest in
    (
      λ p n o f. ext p n o (new_alias-Extends port name alias r free p n o f),
      (ext port alias name (found_first port alias name r), all),
    )

pub Claimed-cases :
    (c : Claimed) → ((e : StateError) × (c ≡ refused e)) ⊎ ((r : Routable) × (c ≡ routes r))
Claimed-cases (refused e) = inl (e, refl)
Claimed-cases (routes r) = inr (r, refl)

pub claim_all-refused : (e : StateError) (pools : Pools) → claim_all (refused e) pools ≡ refused e
unfolding claim_all
claim_all-refused e [] = refl
claim_all-refused e (entry ∷ more) = refl

pub claim_all-routes :
    (r : Routable) (pools : Pools) (s : Routable)
    → claim_all (routes r) pools ≡ routes s
    → Extends r s × AllClaimed pools s
unfolding claim_all
claim_all-routes r [] s h = (λ p n o f. cc (h, f), tt)
claim_all-routes r ((name, pool) ∷ more) s h =
    elim (Claimed-cases (claim_aliases pool.listen_port name r pool.aliases)) [
      | inl (e, k) ↦ absurd (cc (rw k at h, claim_all-refused e more))
      | inr (t, k) ↦
          let (ext, all) = claim_aliases-routes pool.listen_port name r pool.aliases t k in
          let (ext', rest) = claim_all-routes t more s (rw k at h) in
          (
            λ p n o f. ext' p n o (ext p n o f),
            (AllAliased-Extends pool.listen_port name pool.aliases t s ext' all, rest),
          )
    ]
