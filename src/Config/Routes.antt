-- ===== src/Config/Routes.antt =====
-- A client's database name reaches one pool (crates/havuz-core/src/state.rs).
use havuz.Base.{
  ℕ, ◌≡◌, sym, ap, ◌∙◌, Bool, true, false, ◌&&◌, ◌||◌, Option, none, some, List, [], ◌∷◌, ◌==◌,
  arith, Bool-cases, inl, inr,
}
use havuz.Text.{same}
use havuz.Chars.{Str}
use havuz.Prepared.Names.{same_sound}
use havuz.Config.{
  PoolConfig, Pools, FamilyDescriptor, State, Routable, find_route, routes, claim_ports, claim_all,
  validate_listeners, validate,
}
use havuz.Config.Claims.{
  AllNamed, AllAliased, AllClaimed, AllNamed-Extends, same_port, claim_ports-routes, Claimed-cases,
  claim_all-refused, claim_all-routes,
}

-- The pool `owner` is reached on a port by a name: its own, or one of its aliases.
unfoldable pub is_alias : Str → List Str → Bool
unfolding same
is_alias name [] = false
is_alias name (a ∷ more) = let rest = is_alias name more in same a name || rest

abbrev pub answers : ℕ → Str → Str → PoolConfig → Bool
answers port name owner pool =
    (pool.listen_port == port) && (same owner name || is_alias name pool.aliases)

pub data Serves (port : ℕ) (name owner : Str) : Pools → Type 0 where
  here :
      (pool : PoolConfig) (more : Pools)
      → answers port name owner pool ≡ true
      → Serves port name owner ((owner, pool) ∷ more)
  later :
      (entry : Str × PoolConfig) (more : Pools)
      → Serves port name owner more
      → Serves port name owner (entry ∷ more)

alias_found :
    (port : ℕ) (name owner : Str) (aliases : List Str) (s : Routable)
    → AllAliased port owner aliases s
    → is_alias name aliases ≡ true
    → find_route port name s ≡ some owner
unfolding is_alias
alias_found port name owner [] s all h = absurd (cc)
alias_found port name owner (a ∷ more) s (f, all) h = elim (Bool-cases (same a name)) [
  | inl e ↦ ap (λ x. find_route port x s) (sym (same_sound a name e)) ∙ f
  | inr e ↦ alias_found port name owner more s all (rw e at h)
]

answer_found :
    (port : ℕ) (name owner : Str) (pool : PoolConfig) (s : Routable)
    → find_route pool.listen_port owner s ≡ some owner
    → AllAliased pool.listen_port owner pool.aliases s
    → answers port name owner pool ≡ true
    → find_route port name s ≡ some owner
answer_found port name owner pool s named all h =
    ap (λ p. find_route p name s) (sym (same_port pool.listen_port port (ground (arith, h))))
    ∙ elim (Bool-cases (same owner name)) [
      | inl e ↦ ap (λ x. find_route pool.listen_port x s) (sym (same_sound owner name e)) ∙ named
      | inr e ↦ alias_found pool.listen_port name owner pool.aliases s all (ground (arith, h, e))
    ]

served_found :
    (port : ℕ) (name owner : Str) (pools : Pools) (s : Routable)
    → Serves port name owner pools
    → AllNamed pools s
    → AllClaimed pools s
    → find_route port name s ≡ some owner
served_found port name owner _ s (here pool more h) (n, named) (c, claimed) =
    answer_found port name owner pool s n c h
served_found port name owner _ s (later entry more v) (n, named) (c, claimed) =
    served_found port name owner more s v named claimed

same_owner :
    (port : ℕ) (name a b : Str) (pools : Pools) (s : Routable)
    → AllNamed pools s
    → AllClaimed pools s
    → Serves port name a pools
    → Serves port name b pools
    → a ≡ b
same_owner port name a b pools s named claimed va vb = cc (
  served_found port name a pools s va named claimed,
  served_found port name b pools s vb named claimed,
)

one_owner :
    (pools : Pools) (port : ℕ) (name a b : Str)
    → validate_listeners pools ≡ none
    → Serves port name a pools
    → Serves port name b pools
    → a ≡ b
unfolding validate_listeners find_route
one_owner pools port name a b h va vb = elim (Claimed-cases (claim_ports [] [] pools)) [
  | inl (e, k) ↦ absurd (cc (rw k at h, claim_all-refused e pools))
  | inr (r, k) ↦ elim (Claimed-cases (claim_all (routes r) pools)) [
    | inl (e, l) ↦ absurd (cc (rw (k, l) at h))
    | inr (s, l) ↦
        let (ext, named) = claim_ports-routes [] [] pools r k (λ p n o f. absurd (cc f)) in
        let (ext', claimed) = claim_all-routes r pools s l in
        same_owner port name a b pools s (AllNamed-Extends pools r s ext' named) claimed va vb
  ]
]

pub listeners_are_valid :
    (registry : Str → Option FamilyDescriptor) (s : State)
    → validate registry s ≡ none
    → validate_listeners s.pools ≡ none
unfolding validate
listeners_are_valid registry s h = ground (arith, h)

-- In a configuration that is valid, a client that names a database on a port means one pool at most:
-- two pools that are reached there by the same name, be it their own or an alias, are one.
pub name_means_one_pool :
    (registry : Str → Option FamilyDescriptor) (s : State) (port : ℕ) (name a b : Str)
    → validate registry s ≡ none
    → Serves port name a s.pools
    → Serves port name b s.pools
    → a ≡ b
name_means_one_pool registry s port name a b h va vb =
    one_owner s.pools port name a b (listeners_are_valid registry s h) va vb
