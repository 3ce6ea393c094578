-- ===== src/Protocol.antt =====
-- crates/havuz-pg/src/protocol.rs: messages on the wire. A 32-bit integer is its word, from 0 on; a
-- socket is the bytes that will still arrive, up to its end.
pub mod Startup
pub mod Framing
pub mod Params
pub mod Packets
mod Tests
use Prim.Native.String.{String}
use havuz.Base.{
  ℕ, zero, suc, ◌+◌, ◌-◌, ◌*◌, ◌/◌, ◌%◌, ◌^◌, Bool, true, false, Option, none, some, List, [], ◌∷◌,
  ◌++◌, ltb, leb, ◌==◌, if◌then◌else◌, length,
}
use havuz.Text.{Bytes, same, is_utf8}

pub data ProtocolError : Type 0 where
  -- The stream ended.
  io : ProtocolError
  bad_length : ℕ → ProtocolError
  too_large : ℕ → ℕ → ProtocolError
  -- Major and minor.
  unsupported_version : ℕ → ℕ → ProtocolError
  malformed_startup : String → ProtocolError
  missing_parameter : String → ProtocolError
  truncated : ProtocolError
  not_utf8 : ProtocolError

pub data Read {ℓ} (A : Type ℓ) : Type ℓ where
  ok : A → Read A
  err : ProtocolError → Read A

pub record Message : Type 0 where
  pub tag : ℕ
  pub body : Bytes

-- `put_i32`: the four bytes of a word, the highest first.
unfoldable pub put_i32 : ℕ → Bytes
put_i32 n = ((n / 2 ^ 24) % 256) ∷ ((n / 2 ^ 16) % 256) ∷ ((n / 2 ^ 8) % 256) ∷ (n % 256) ∷ []

-- `get_i32`, and what is left.
unfoldable pub get_i32 : Bytes → Option (ℕ × Bytes)
get_i32 (a ∷ b ∷ c ∷ d ∷ rest) = some (a * 2 ^ 24 + b * 2 ^ 16 + c * 2 ^ 8 + d, rest)
get_i32 _ = none

abbrev pub is_negative : ℕ → Bool
is_negative n = leb (2 ^ 31) n

-- `read_exact`: so many bytes, and what is left.
unfoldable pub read_exact : ℕ → Bytes → Option (Bytes × Bytes)
read_exact zero bs = some ([], bs)
read_exact (suc n) [] = none
read_exact (suc n) (b ∷ bs) = elim (read_exact n bs) [
  | none ↦ none
  | some (taken, rest) ↦ some (b ∷ taken, rest)
]

abbrev pub max_startup_len : ℕ
max_startup_len = 10_000

abbrev pub max_message_len : ℕ
max_message_len = 64 * 1024 * 1024

-- ---------------------------------------------------------------- messages

unfoldable pub wire_len : Message → ℕ
wire_len m = 1 + 4 + length m.body

unfoldable pub encode : Message → Bytes
unfolding put_i32
encode m = m.tag ∷ put_i32 ((length m.body + 4) % 2 ^ 32) ++ m.body

-- A body of a length whose prefix counts its own four bytes, at least `least` of them.
unfoldable pub read_body : ℕ → ℕ → Bytes → Read (Bytes × Bytes)
read_body least most bs = elim (get_i32 bs) [
  | none ↦ err io
  | some (len, rest) ↦
      if is_negative len
      then err (bad_length len)
      else if ltb len least
      then err (bad_length len)
      else if ltb most (len - 4)
      then err (too_large (len - 4) most)
      else elim (read_exact (len - 4) rest) [ none ↦ err io | some found ↦ ok found ]
]

unfoldable pub read : Bytes → Read (Message × Bytes)
unfolding read_body
read [] = err io
read (tag ∷ bs) = elim (read_body 4 max_message_len bs) [
  | err e ↦ err e
  | ok (body, rest) ↦ ok (record { tag = tag; body = body }, rest)
]
