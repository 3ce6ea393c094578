-- ===== src/Config/Listeners.antt =====
-- The listeners that a configuration asks for (`State::listeners` of crates/havuz-core/src/state.rs).
use havuz.Base.{ℕ, Bool, ◌&&◌, ◌||◌, List, [], ◌∷◌, ◌++◌, ltb, ◌==◌, if◌then◌else◌, map}
use havuz.Text.{same, before}
use havuz.Chars.{Str}
use havuz.Config.{PoolConfig, Pools}

pub record Listener : Type 0 where
  pub port : ℕ
  pub family : Str
  pub pools : List Str
  pub aliases : List (Str × Str)

abbrev pub aliases_of : Str → PoolConfig → List (Str × Str)
aliases_of name p = map (λ alias. (alias, name)) p.aliases

abbrev pub new_listener : Str → PoolConfig → Listener
new_listener name p = record {
  port = p.listen_port;
  family = p.family;
  pools = name ∷ [];
  aliases = aliases_of name p;
}

abbrev pub join_listener : Str → PoolConfig → Listener → Listener
join_listener name p l = record l {
  pools = l.pools ++ name ∷ [];
  aliases = l.aliases ++ aliases_of name p;
}

unfoldable pub add_pool : Str → PoolConfig → List Listener → List Listener
add_pool name p [] = new_listener name p ∷ []
add_pool name p (l ∷ more) =
    let rest = add_pool name p more in
    if ltb p.listen_port l.port
    then new_listener name p ∷ l ∷ more
    else if l.port == p.listen_port
    then join_listener name p l ∷ more
    else l ∷ rest

unfoldable pub add_pools : List Listener → Pools → List Listener
unfolding add_pool
add_pools ls [] = ls
add_pools ls ((name, p) ∷ more) = add_pools (if p.disabled then ls else add_pool name p ls) more

-- The order of pairs of strings.
abbrev pair_before : Str × Str → Str × Str → Bool
unfolding before same
pair_before (a, b) (c, d) = before a c || (same a c && before b d)

unfoldable pub place_alias : Str × Str → List (Str × Str) → List (Str × Str)
unfolding before same
place_alias a [] = a ∷ []
place_alias a (b ∷ more) =
    let rest = place_alias a more in if pair_before b a then b ∷ rest else a ∷ b ∷ more

unfoldable pub sort_aliases : List (Str × Str) → List (Str × Str)
unfolding place_alias
sort_aliases [] = []
sort_aliases (a ∷ more) = place_alias a (sort_aliases more)

unfoldable pub sorted : Listener → Listener
unfolding sort_aliases
sorted l = record l { aliases = sort_aliases l.aliases }

unfoldable pub listeners : Pools → List Listener
unfolding add_pools sorted
listeners pools = map sorted (add_pools [] pools)
