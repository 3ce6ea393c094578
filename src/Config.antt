-- ===== src/Config.antt =====
-- crates/havuz-core/src/state.rs: how a configuration is checked before it is served or written. Only
-- the fields that the check and the listeners read are modelled. A string is the list of its
-- characters, a map its entries in the order of their keys; the table of database families is an
-- argument.
pub mod Claims
pub mod Families
pub mod Listeners
pub mod Routes
mod Tests
use havuz.Base.{
  ℕ, zero, suc, ◌+◌, Bool, true, false, not, ◌&&◌, ◌||◌, Option, none, some, List, [], ◌∷◌, leb,
  ltb, ◌==◌, if◌then◌else◌, length,
}
use havuz.Text.{same}
use havuz.Chars.{Str, is_ascii_alphanumeric, utf8}
use havuz.Flow.{PoolMode, session, transaction, statement}

pub data BackendAuth : Type 0 where
  shared : BackendAuth
  per_user : BackendAuth
  passthrough : BackendAuth

abbrev pub is_per_user : BackendAuth → Bool
is_per_user shared = false
is_per_user per_user = true
is_per_user passthrough = true

pub record PoolConfig : Type 0 where
  pub family : Str
  pub profile : Option Str
  pub mode : PoolMode
  pub targets : List Str
  pub backend_user : Str
  pub listen_port : ℕ
  pub aliases : List Str
  pub max_size : ℕ
  pub min_idle : ℕ
  pub read_write_split : Bool
  pub backend_auth : BackendAuth
  pub disabled : Bool

abbrev pub Pools : Type 0
Pools = List (Str × PoolConfig)

pub record State : Type 0 where
  pub version : ℕ
  pub pools : Pools
  pub users : List (Str × List Str)

abbrev pub state_version : ℕ
state_version = 1

-- A profile by its id, and the mode that it goes up to.
abbrev pub DriverProfile : Type 0
DriverProfile = Str × PoolMode

-- A family has at least one profile; the first is its default.
pub record FamilyDescriptor : Type 0 where
  pub is_planned : Bool
  pub pool_modes : List PoolMode
  pub default_profile : DriverProfile
  pub other_profiles : List DriverProfile

unfoldable pub find_profile : Str → List DriverProfile → Option DriverProfile
unfolding same
find_profile id [] = none
find_profile id ((i, max) ∷ more) =
    let rest = find_profile id more in if same i id then some (i, max) else rest

abbrev pub profile : FamilyDescriptor → Str → Option DriverProfile
unfolding find_profile
profile family id = find_profile id (family.default_profile ∷ family.other_profiles)

pub data StateError : Type 0 where
  unsupported_version : (found expected : ℕ) → StateError
  bad_pool_name : (pool : Str) → StateError
  bad_user_name : (user : Str) → StateError
  unknown_family : (pool family : Str) → StateError
  unknown_profile : (pool family profile : Str) → StateError
  family_not_implemented : (pool family : Str) → StateError
  pool_mode_unsupported : (pool family : Str) (mode : PoolMode) → StateError
  pool_mode_too_aggressive : (pool profile : Str) (mode max : PoolMode) → StateError
  no_targets : (pool : Str) → StateError
  min_idle_above_max : (pool : Str) (min_idle max_size : ℕ) → StateError
  zero_max_size : (pool : Str) → StateError
  zero_listen_port : (pool : Str) → StateError
  mixed_families_on_port : (first first_family second second_family : Str) (port : ℕ) → StateError
  bad_alias_name : (pool alias : Str) → StateError
  alias_is_own_pool : (pool alias : Str) → StateError
  routable_name_collides : (name : Str) (port : ℕ) (first second : Str) → StateError
  per_user_warmup : (pool : Str) → StateError
  per_user_split_without_probe : (pool : Str) → StateError
  unknown_pool_grant : (user pool : Str) → StateError
  no_grants : (user : Str) → StateError

unfoldable pub byte_len : Str → ℕ
unfolding utf8
byte_len [] = 0
byte_len (c ∷ cs) = length (utf8 c) + byte_len cs

unfoldable pub all_name_chars : Str → Bool
unfolding is_ascii_alphanumeric
all_name_chars [] = true
all_name_chars (c ∷ cs) =
    let rest = all_name_chars cs in (is_ascii_alphanumeric c || (c == b'_') || (c == b'-')) && rest

unfoldable pub is_valid_name : Str → Bool
unfolding is_ascii_alphanumeric byte_len all_name_chars
is_valid_name [] = false
is_valid_name (c ∷ cs) =
    leb (byte_len (c ∷ cs)) 63 && all_name_chars (c ∷ cs) && is_ascii_alphanumeric c

-- Who answers to a name on a port, the newest entry first.
abbrev pub Routable : Type 0
Routable = List ((ℕ × Str) × Str)

unfoldable pub find_route : ℕ → Str → Routable → Option Str
unfolding same
find_route port name [] = none
find_route port name (((p, n), owner) ∷ more) =
    let rest = find_route port name more in if (p == port) && same n name then some owner else rest

-- The first pool of a port, and its family.
abbrev pub Ports : Type 0
Ports = List (ℕ × (Str × Str))

unfoldable pub first_on : ℕ → Str × Str → Ports → Str × Str
first_on port default_ [] = default_
first_on port default_ ((p, owner) ∷ more) =
    let rest = first_on port default_ more in if p == port then owner else rest

pub data Claimed : Type 0 where
  refused : (error : StateError) → Claimed
  routes : (routable : Routable) → Claimed

unfoldable pub claim_ports : Ports → Routable → Pools → Claimed
unfolding first_on same
claim_ports ports routable [] = routes routable
claim_ports ports routable ((name, pool) ∷ more) =
    let first = first_on pool.listen_port (name, pool.family) ports in
    let rest =
      claim_ports ((pool.listen_port, first) ∷ ports) (((pool.listen_port, name), name) ∷ routable)
        more in
    if pool.listen_port == 0
    then refused (zero_listen_port name)
    else if not (same first.1 pool.family)
    then refused (mixed_families_on_port first.0 first.1 name pool.family pool.listen_port)
    else rest

-- An alias that another pool answers to is refused.
abbrev pub claim_alias : ℕ → Str → Str → Option Str → Claimed → Claimed
claim_alias port name alias (some other) rest =
    refused (routable_name_collides alias port other name)
claim_alias port name alias none rest = rest

unfoldable pub claim_aliases : ℕ → Str → Routable → List Str → Claimed
unfolding is_valid_name find_route same
claim_aliases port name routable [] = routes routable
claim_aliases port name routable (alias ∷ more) =
    let rest = claim_aliases port name (((port, alias), name) ∷ routable) more in
    if not (is_valid_name alias)
    then refused (bad_alias_name name alias)
    else if same alias name
    then refused (alias_is_own_pool name alias)
    else claim_alias port name alias (find_route port alias routable) rest

unfoldable pub claim_all : Claimed → Pools → Claimed
unfolding claim_aliases
claim_all claimed [] = claimed
claim_all (refused e) (entry ∷ more) = refused e
claim_all (routes routable) ((name, pool) ∷ more) =
    claim_all (claim_aliases pool.listen_port name routable pool.aliases) more

abbrev pub error_of : Claimed → Option StateError
error_of (refused e) = some e
error_of (routes routable) = none

unfoldable pub validate_listeners : Pools → Option StateError
unfolding claim_ports claim_all
validate_listeners pools = error_of (claim_all (claim_ports [] [] pools) pools)

abbrev pub rank : PoolMode → ℕ
rank session = 0
rank transaction = 1
rank statement = 2

unfoldable pub offers : PoolMode → List PoolMode → Bool
offers mode [] = false
offers mode (m ∷ more) = let rest = offers mode more in (rank m == rank mode) || rest

abbrev pub is_nil : Str → Bool
is_nil [] = true
is_nil (c ∷ cs) = false

abbrev no_target : List Str → Bool
no_target [] = true
no_target (t ∷ more) = false

abbrev check_per_user : Str → PoolConfig → Option StateError
check_per_user name p =
    if not (is_per_user p.backend_auth)
    then none
    else if ltb 0 p.min_idle
    then some (per_user_warmup name)
    else if p.read_write_split && is_nil p.backend_user
    then some (per_user_split_without_probe name)
    else none

abbrev check_limits : Str → PoolConfig → Option StateError
check_limits name p =
    if no_target p.targets
    then some (no_targets name)
    else if p.max_size == 0
    then some (zero_max_size name)
    else if ltb p.max_size p.min_idle
    then some (min_idle_above_max name p.min_idle p.max_size)
    else check_per_user name p

abbrev check_mode : Str → PoolConfig → FamilyDescriptor → DriverProfile → Option StateError
check_mode name p family (id, max) =
    if not (offers p.mode family.pool_modes)
    then some (pool_mode_unsupported name p.family p.mode)
    else if ltb (rank max) (rank p.mode)
    then some (pool_mode_too_aggressive name id p.mode max)
    else check_limits name p

abbrev check_profile : Str → PoolConfig → FamilyDescriptor → Option Str → Option StateError
unfolding offers find_profile
check_profile name p family none = check_mode name p family family.default_profile
check_profile name p family (some id) = elim (profile family id) [
  | none ↦ some (unknown_profile name p.family id)
  | some found ↦ check_mode name p family found
]

-- `PoolConfig::validate`.
abbrev pub validate_pool : (Str → Option FamilyDescriptor) → Str → PoolConfig → Option StateError
unfolding offers find_profile
validate_pool registry name p = elim (registry p.family) [
  | none ↦ some (unknown_family name p.family)
  | some family ↦
      if family.is_planned
      then some (family_not_implemented name p.family)
      else check_profile name p family p.profile
]

-- The first error of two checks.
abbrev pub or_else : Option StateError → Option StateError → Option StateError
or_else (some e) more = some e
or_else none more = more

unfoldable pub validate_pools : (Str → Option FamilyDescriptor) → Pools → Option StateError
unfolding is_valid_name offers find_profile
validate_pools registry [] = none
validate_pools registry ((name, pool) ∷ more) =
    let rest = validate_pools registry more in
    if not (is_valid_name name)
    then some (bad_pool_name name)
    else or_else (validate_pool registry name pool) rest

unfoldable pub has_pool : Str → Pools → Bool
unfolding same
has_pool name [] = false
has_pool name ((n, p) ∷ more) = let rest = has_pool name more in same n name || rest

unfoldable pub validate_grants : Str → Pools → List Str → Option StateError
unfolding has_pool
validate_grants user pools [] = none
validate_grants user pools (granted ∷ more) =
    let rest = validate_grants user pools more in
    if not (has_pool granted pools) then some (unknown_pool_grant user granted) else rest

unfoldable pub validate_users : Pools → List (Str × List Str) → Option StateError
unfolding is_valid_name validate_grants
validate_users pools [] = none
validate_users pools ((name, grants) ∷ more) =
    let rest = validate_users pools more in
    if not (is_valid_name name)
    then some (bad_user_name name)
    else if no_target grants
    then some (no_grants name)
    else or_else (validate_grants name pools grants) rest

-- `State::validate`.
unfoldable pub validate : (Str → Option FamilyDescriptor) → State → Option StateError
unfolding validate_listeners validate_pools validate_users
validate registry s =
    if ltb state_version s.version
    then some (unsupported_version s.version state_version)
    else or_else (validate_listeners s.pools)
        (or_else (validate_pools registry s.pools) (validate_users s.pools s.users))
