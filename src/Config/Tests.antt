-- ===== src/Config/Tests.antt =====
-- Configurations that are checked.
use havuz.Base.{◌≡◌, refl, Option, none, some, List, [], ◌∷◌, false}
use havuz.Chars.{Str, codes}
use havuz.Flow.{session, transaction}
use havuz.Config.{
  PoolConfig, FamilyDescriptor, State, shared, validate, validate_listeners, routable_name_collides,
  unknown_pool_grant,
}
use havuz.Config.Listeners.{listeners}
use havuz.Config.Families.{AllSpeak, listener_speaks_one_family}
use havuz.Config.Routes.{here, is_alias, name_means_one_pool}

abbrev registry : Str → Option FamilyDescriptor
registry name = some (record {
  is_planned = false;
  pool_modes = session ∷ transaction ∷ [];
  default_profile = (codes "postgresql", transaction);
  other_profiles = [];
})

abbrev pool : List Str → PoolConfig
pool aliases = record {
  family = codes "postgres";
  profile = none;
  mode = transaction;
  targets = codes "pg:5432" ∷ [];
  backend_user = codes "app";
  listen_port = 6432;
  aliases = aliases;
  max_size = 10;
  min_idle = 0;
  read_write_split = false;
  backend_auth = shared;
  disabled = false;
}

abbrev orders : PoolConfig
orders = pool (codes "sales" ∷ [])

abbrev valid : State
valid = record {
  version = 1;
  pools = (codes "orders", orders) ∷ (codes "reports", pool []) ∷ [];
  users = (codes "amy", codes "orders" ∷ []) ∷ [];
}

valid_passes : validate registry valid ≡ none
unfolding validate
valid_passes = refl

-- An alias that another pool has as its name is refused.
alias_collides :
    validate_listeners
      ((codes "orders", pool (codes "reports" ∷ [])) ∷ (codes "reports", pool []) ∷ [])
    ≡ some (routable_name_collides (codes "reports") 6432 (codes "reports") (codes "orders"))
unfolding validate_listeners
alias_collides = refl

stray_grant :
    validate registry (record valid { users = (codes "amy", codes "order" ∷ []) ∷ [] })
    ≡ some (unknown_pool_grant (codes "amy") (codes "order"))
unfolding validate
stray_grant = refl

name_means_one_pool_example : codes "orders" ≡ codes "orders"
unfolding is_alias validate
name_means_one_pool_example =
    name_means_one_pool registry valid 6432 (codes "sales") (codes "orders") (codes "orders") refl
      (here orders ((codes "reports", pool []) ∷ []) refl)
      (here orders ((codes "reports", pool []) ∷ []) refl)

one_listener_for_both :
    listeners valid.pools
    ≡ record {
      port = 6432;
      family = codes "postgres";
      pools = codes "orders" ∷ codes "reports" ∷ [];
      aliases = (codes "sales", codes "orders") ∷ [];
    }
      ∷ []
unfolding listeners
one_listener_for_both = refl

listener_speaks_one_family_example : AllSpeak (listeners valid.pools) valid.pools
unfolding validate
listener_speaks_one_family_example = listener_speaks_one_family registry valid refl
