-- ===== src/Cancel.antt =====
-- crates/havuz-pg/src/cancel.rs: the keys that havuz hands to its clients and the backends that they
-- point at. A 32-bit integer is its word, from 0 on. The locked map is read and written one call at a
-- time; the random secret of a key is an argument.
pub mod Reach
mod Tests
use havuz.Base.{
  ℕ, ◌+◌, ◌%◌, ◌^◌, max, Bool, true, false, not, ◌&&◌, Option, none, some, List, [], ◌∷◌, leb, ◌==◌,
  if◌then◌else◌, length,
}
use havuz.Text.{Bytes}
use havuz.Chars.{Str}
use havuz.Protocol.Startup
use havuz.Protocol.Startup.{cancel_request}

pub record CancelTarget : Type 0 where
  pub host : Str
  pub port : ℕ
  pub backend_pid : ℕ
  pub backend_secret : ℕ

pub record CancelKey : Type 0 where
  pub process_id : ℕ
  pub secret_key : ℕ

unfoldable pub same_key : CancelKey → CancelKey → Bool
same_key a b = (a.process_id == b.process_id) && (a.secret_key == b.secret_key)

abbrev pub Entries : Type 0
Entries = List (CancelKey × Option CancelTarget)

pub record CancelRegistry : Type 0 where
  pub entries : Entries
  pub next_id : ℕ

abbrev pub new : CancelRegistry
new = record { entries = []; next_id = 1 }

-- `wrapping_add(1).max(1)`: the words from 2 ^ 31 on are the negative numbers.
unfoldable pub following_id : ℕ → ℕ
following_id id = let next = (id + 1) % 2 ^ 32 in if leb (2 ^ 31) next then 1 else max next 1

unfoldable pub remove_key : CancelKey → Entries → Entries
unfolding same_key
remove_key k [] = []
remove_key k ((j, t) ∷ more) =
    let rest = remove_key k more in if same_key j k then rest else (j, t) ∷ rest

-- `HashMap::insert` puts the new entry in the place of an old one.
abbrev insert_key : CancelKey → Option CancelTarget → Entries → Entries
insert_key k target entries = (k, target) ∷ remove_key k entries

-- `scope`, with the secret that was drawn: the key of the new scope.
unfoldable pub scope : CancelRegistry → ℕ → CancelRegistry × CancelKey
unfolding following_id remove_key
scope r secret =
    let key : CancelKey = record { process_id = r.next_id; secret_key = secret } in
    (record { entries = insert_key key none r.entries; next_id = following_id r.next_id }, key)

unfoldable pub set_target : CancelKey → Option CancelTarget → Entries → Entries
unfolding same_key
set_target k target [] = []
set_target k target ((j, t) ∷ more) =
    let rest = set_target k target more in
    if same_key j k then (j, target) ∷ more else (j, t) ∷ rest

unfoldable pub retarget : CancelRegistry → CancelKey → Option CancelTarget → CancelRegistry
unfolding set_target
retarget r k target = record r { entries = set_target k target r.entries }

-- What happens when the last clone of a scope is dropped.
unfoldable pub unregister : CancelRegistry → CancelKey → CancelRegistry
unfolding remove_key
unregister r k = record r { entries = remove_key k r.entries }

unfoldable pub find_key : CancelKey → Entries → Option CancelTarget
unfolding same_key
find_key k [] = none
find_key k ((j, t) ∷ more) = let rest = find_key k more in if same_key j k then t else rest

unfoldable pub lookup : CancelRegistry → CancelKey → Option CancelTarget
unfolding find_key
lookup r k = find_key k r.entries

abbrev pub len : CancelRegistry → ℕ
len r = length r.entries

abbrev pub is_empty : CancelRegistry → Bool
is_empty r = len r == 0

-- The packet that `deliver` sends to the server of a target.
unfoldable pub cancel_packet : CancelTarget → Bytes
unfolding Startup.encode
cancel_packet t = Startup.encode (cancel_request t.backend_pid t.backend_secret)

-- What is delivered, if there is something to cancel.
abbrev pub packet_for : Option CancelTarget → Option Bytes
packet_for none = none
packet_for (some target) = some (cancel_packet target)

-- `CancelHook::cancel`.
unfoldable pub cancel : CancelRegistry → CancelKey → Option Bytes
unfolding lookup cancel_packet
cancel r k = packet_for (lookup r k)
