-- ===== src/Protocol/Tests.antt =====
-- Packets at concrete inputs (crates/havuz-pg/src/protocol.rs).
use havuz.Base.{◌+◌, ◌-◌, ◌^◌, ◌≡◌, refl, List, [], ◌∷◌, ◌++◌, arith}
use havuz.Text.{Bytes, same, is_utf8}
use havuz.Protocol.{
  Message, ok, err, encode, read, put_i32, get_i32, read_exact, read_body, io, bad_length,
  too_large, malformed_startup, unsupported_version, max_message_len,
}
use havuz.Protocol.Startup.{
  StartupPacket, startup, cancel_request, ssl_request, find, user, database, param, user_key,
  encode_params, decode_params, decode_parts, split_nul, decode,
}
use havuz.Protocol.Startup
use havuz.Protocol.Framing.{read-encode}
use havuz.Protocol.Params.{AllPairs}
use havuz.Protocol.Packets.{read-encode_startup}

abbrev ready : Message
ready = record { tag = 90; body = 73 ∷ [] }

abbrev alice : List (Bytes × Bytes)
alice = (user_key, 97 ∷ 108 ∷ []) ∷ []

short_length_is_refused : read (90 ∷ put_i32 3) ≡ err (bad_length 3)
unfolding read read_body get_i32 put_i32
short_length_is_refused = refl

negative_length_is_refused : read (90 ∷ put_i32 (2 ^ 32 - 1)) ≡ err (bad_length (2 ^ 32 - 1))
unfolding read read_body get_i32 put_i32
negative_length_is_refused = refl

long_message_is_refused :
    read (90 ∷ put_i32 (max_message_len + 5))
    ≡ err (too_large (max_message_len + 1) max_message_len)
unfolding read read_body get_i32 put_i32
long_message_is_refused = refl

stream_ends_early : read (90 ∷ put_i32 6 ++ 1 ∷ []) ≡ err io
unfolding read read_body get_i32 put_i32 read_exact
stream_ends_early = refl

old_version_is_refused : decode (put_i32 131072) ≡ err (unsupported_version 2 0)
unfolding decode get_i32 put_i32
old_version_is_refused = refl

value_is_missing : decode_params (user_key) ≡ err (malformed_startup "parameter without a value")
unfolding decode_params split_nul decode_parts
value_is_missing = refl

database_defaults_to_user : database (startup alice) ≡ ok (97 ∷ 108 ∷ [])
unfolding database user param find same
database_defaults_to_user = refl

read-encode_example : read (encode ready ++ 1 ∷ 2 ∷ []) ≡ ok (ready, 1 ∷ 2 ∷ [])
read-encode_example = read-encode ready (1 ∷ 2 ∷ []) (omega arith)

alice_pairs : AllPairs alice
unfolding is_utf8
alice_pairs = (
  (
    omega arith,
    (omega arith, (omega arith, (omega arith, (omega arith, tt)))),
    (omega arith, (omega arith, tt)),
    refl,
    refl,
  ),
  tt,
)

read-encode_startup_example :
    Startup.read (Startup.encode (startup alice) ++ 7 ∷ []) ≡ ok (startup alice, 7 ∷ [])
unfolding find same encode_params
read-encode_startup_example =
    read-encode_startup (startup alice) (7 ∷ []) (alice_pairs, (97 ∷ 108 ∷ [], refl), omega arith)
