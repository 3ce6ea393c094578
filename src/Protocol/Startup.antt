-- ===== src/Protocol/Startup.antt =====
-- The first packet on a connection (crates/havuz-pg/src/protocol.rs).
use havuz.Base.{
  ℕ, ◌+◌, ◌-◌, ◌/◌, ◌%◌, ◌^◌, ◌&&◌, Option, none, some, List, [], ◌∷◌, ◌++◌, ◌==◌, if◌then◌else◌,
  length,
}
use havuz.Text.{Bytes, same, is_utf8}
use havuz.Protocol.{
  truncated, not_utf8, malformed_startup, missing_parameter, unsupported_version, Read, ok, err,
  put_i32, get_i32, is_negative, read_body, max_startup_len,
}

abbrev pub protocol_version_3 : ℕ
protocol_version_3 = 196_608

abbrev pub ssl_request_code : ℕ
ssl_request_code = 80_877_103

abbrev pub cancel_request_code : ℕ
cancel_request_code = 80_877_102

abbrev pub gssenc_request_code : ℕ
gssenc_request_code = 80_877_104

pub data StartupPacket : Type 0 where
  startup : List (Bytes × Bytes) → StartupPacket
  ssl_request : StartupPacket
  -- A process id and a secret key.
  cancel_request : ℕ → ℕ → StartupPacket
  gss_enc_request : StartupPacket

abbrev pub user_key : Bytes
user_key = 117 ∷ 115 ∷ 101 ∷ 114 ∷ []

abbrev pub database_key : Bytes
database_key = 100 ∷ 97 ∷ 116 ∷ 97 ∷ 98 ∷ 97 ∷ 115 ∷ 101 ∷ []

-- The value of the first parameter of that name.
unfoldable pub find : List (Bytes × Bytes) → Bytes → Option Bytes
find [] key = none
find ((k, v) ∷ rest) key = let more = find rest key in if same k key then some v else more

unfoldable pub param : StartupPacket → Bytes → Option Bytes
param (startup params) key = find params key
param _ key = none

unfoldable pub user : StartupPacket → Read Bytes
unfolding param
user p = elim (param p user_key) [ some u ↦ ok u | none ↦ err (missing_parameter "user") ]

unfoldable pub database : StartupPacket → Read Bytes
unfolding param user
database p = elim (param p database_key) [ some db ↦ ok db | none ↦ user p ]

unfoldable pub encode_params : List (Bytes × Bytes) → Bytes
encode_params [] = []
encode_params ((k, v) ∷ rest) = k ++ (0 ∷ v ++ (0 ∷ encode_params rest))

-- The length prefix is `buf.len() as i32`.
unfoldable pub encode : StartupPacket → Bytes
encode (startup params) =
    let body = put_i32 protocol_version_3 ++ (encode_params params ++ 0 ∷ []) in
    put_i32 ((length body + 4) % 2 ^ 32) ++ body
encode ssl_request = put_i32 8 ++ put_i32 ssl_request_code
encode gss_enc_request = put_i32 8 ++ put_i32 gssenc_request_code
encode (cancel_request pid key) =
    put_i32 16 ++ (put_i32 cancel_request_code ++ (put_i32 pid ++ put_i32 key))

abbrev on_head : ℕ → List Bytes → List Bytes
on_head b [] = (b ∷ []) ∷ []
on_head b (part ∷ parts) = (b ∷ part) ∷ parts

-- `slice::split` at the zero bytes.
unfoldable pub split_nul : Bytes → List Bytes
split_nul [] = [] ∷ []
split_nul (b ∷ bs) = let rest = split_nul bs in if b == 0 then [] ∷ rest else on_head b rest

-- The loop over the parts: a key and its value at a time, up to an empty key.
unfoldable pub decode_parts : List Bytes → Read (List (Bytes × Bytes))
decode_parts [] = err (malformed_startup "missing terminator")
decode_parts ([] ∷ parts) = ok []
decode_parts ((k ∷ ks) ∷ []) = err (malformed_startup "parameter without a value")
decode_parts ((k ∷ ks) ∷ v ∷ parts) =
    let more = decode_parts parts in
    if is_utf8 (k ∷ ks) && is_utf8 v
    then elim more [ err e ↦ err e | ok params ↦ ok ((k ∷ ks, v) ∷ params) ]
    else err not_utf8

unfoldable pub decode_params : Bytes → Read (List (Bytes × Bytes))
decode_params body = decode_parts (split_nul body)

-- `other >> 16` keeps the sign.
abbrev shift_16 : ℕ → ℕ
shift_16 n = if is_negative n then n / 2 ^ 16 + (2 ^ 32 - 2 ^ 16) else n / 2 ^ 16

unfoldable pub decode_cancel : Bytes → Read StartupPacket
decode_cancel body = elim (get_i32 body) [
  | none ↦ err truncated
  | some (pid, rest) ↦ elim (get_i32 rest) [
    | none ↦ err truncated
    | some (key, tail) ↦ ok (cancel_request pid key)
  ]
]

unfoldable pub decode_startup : Bytes → Read StartupPacket
decode_startup body = elim (decode_params body) [
  | err e ↦ err e
  | ok params ↦ elim (find params user_key) [
    | none ↦ err (missing_parameter "user")
    | some u ↦ ok (startup params)
  ]
]

unfoldable pub decode : Bytes → Read StartupPacket
decode bs = elim (get_i32 bs) [
  | none ↦ err truncated
  | some (code, body) ↦
      if code == ssl_request_code
      then ok ssl_request
      else if code == gssenc_request_code
      then ok gss_enc_request
      else if code == cancel_request_code
      then decode_cancel body
      else if code == protocol_version_3
      then decode_startup body
      else err (unsupported_version (shift_16 code) (code % 2 ^ 16))
]

unfoldable pub read : Bytes → Read (StartupPacket × Bytes)
read bs = elim (read_body 8 max_startup_len bs) [
  | err e ↦ err e
  | ok (body, rest) ↦ elim (decode body) [ err e ↦ err e | ok p ↦ ok (p, rest) ]
]
