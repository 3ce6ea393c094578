-- ===== src/Protocol/Packets.antt =====
-- The first packet written and read again (crates/havuz-pg/src/protocol.rs).
use havuz.Base.{
  ℕ, ◌∙◌, ◌+◌, ◌≤◌, ◌<◌, ◌≡◌, refl, length-append, some, List, [], ◌∷◌, ◌++◌, ◌%◌, ◌^◌, length,
  arith,
}
use havuz.Text.{Bytes}
use havuz.Protocol.{ok, put_i32, get_i32, max_startup_len}
use havuz.Protocol.Startup.{
  StartupPacket, startup, ssl_request, cancel_request, gss_enc_request, find, user_key,
  encode_params, encode, split_nul, decode_parts, decode_cancel, decode_startup, decode, read,
  protocol_version_3, ssl_request_code, cancel_request_code, gssenc_request_code,
}
use havuz.Protocol.Framing.{get_i32-put_i32, read_body_lem}
use havuz.Protocol.Params.{AllPairs, append_assoc, decode_params_lem}

-- A packet as a client sends it: words of 32 bits, and parameters that name the user and fit the
-- limit on the first packet.
abbrev pub IsSendable : StartupPacket → Type 0
IsSendable (startup ps) =
    AllPairs ps
    × ((u : Bytes) × (find ps user_key ≡ some u))
    × (length (encode_params ps) + 5 ≤ max_startup_len)
IsSendable ssl_request = Unit {0}
IsSendable (cancel_request pid key) = (pid < 2 ^ 32) × (key < 2 ^ 32)
IsSendable gss_enc_request = Unit {0}

terminator : decode_parts (split_nul (0 ∷ [])) ≡ ok []
unfolding decode_parts split_nul
terminator = refl

decode_startup_lem :
    (ps : List (Bytes × Bytes)) (u : Bytes)
    → AllPairs ps
    → find ps user_key ≡ some u
    → decode_startup (encode_params ps ++ 0 ∷ []) ≡ ok (startup ps)
unfolding decode_startup
decode_startup_lem ps u h e =
    rw (decode_params_lem ps (0 ∷ []) h terminator, e, decode_startup) refl

decode-startup :
    (body : Bytes) (p : StartupPacket)
    → decode_startup body ≡ ok p
    → decode (put_i32 protocol_version_3 ++ body) ≡ ok p
unfolding decode
decode-startup body p h = rw (get_i32-put_i32 protocol_version_3 body (omega arith), decode) h

last_word : (n : ℕ) → n < 2 ^ 32 → get_i32 (put_i32 n) ≡ some (n, [])
unfolding put_i32
last_word n h = get_i32-put_i32 n [] h

decode-cancel :
    (pid key : ℕ)
    → pid < 2 ^ 32
    → key < 2 ^ 32
    → decode (put_i32 cancel_request_code ++ (put_i32 pid ++ put_i32 key))
      ≡ ok (cancel_request pid key)
unfolding decode decode_cancel
decode-cancel pid key h k =
    rw
      (
        get_i32-put_i32 cancel_request_code (put_i32 pid ++ put_i32 key) (omega arith),
        get_i32-put_i32 pid (put_i32 key) h,
        last_word key k,
        decode,
        decode_cancel,
      )
      refl

read_lem :
    (len : ℕ) (body rest : Bytes) (p : StartupPacket)
    → len ≡ length body + 4
    → 8 ≤ len
    → length body ≤ max_startup_len
    → decode body ≡ ok p
    → read ((put_i32 (len % 2 ^ 32) ++ body) ++ rest) ≡ ok (p, rest)
unfolding read
read_lem len body rest p e low high d =
    rw
      (
        append_assoc (put_i32 (len % 2 ^ 32)) body rest,
        read_body_lem 8 max_startup_len len body rest e low high (omega arith),
        d,
        read,
      )
      refl

length-put_i32 : (n : ℕ) (bs : Bytes) → length (put_i32 n ++ bs) ≡ 4 + length bs
unfolding put_i32
length-put_i32 n bs = omega arith

length_word : (n : ℕ) → 8 ≡ length (put_i32 n) + 4
unfolding put_i32
length_word n = refl

length_cancel :
    (pid key : ℕ) → length (put_i32 cancel_request_code ++ (put_i32 pid ++ put_i32 key)) ≡ 12
unfolding put_i32
length_cancel pid key = refl

decode_ssl : decode (put_i32 ssl_request_code) ≡ ok ssl_request
unfolding decode get_i32 put_i32
decode_ssl = refl

decode_gss : decode (put_i32 gssenc_request_code) ≡ ok gss_enc_request
unfolding decode get_i32 put_i32
decode_gss = refl

-- The first packet survives the wire: reading what was written gives the packet again and leaves
-- exactly the bytes that follow it. The process id and the key of a cancellation are 32-bit words;
-- the parameters of a startup have keys that are not empty, no zero bytes and UTF-8 throughout, one
-- of them names the user, and together they fit the limit of 10,000 bytes.
pub read-encode_startup :
    (p : StartupPacket) (rest : Bytes) → IsSendable p → read (encode p ++ rest) ≡ ok (p, rest)
unfolding encode
read-encode_startup (startup ps) rest (pairs, (u, named), fits) =
    let body = encode_params ps ++ 0 ∷ [] in
    let size : length (put_i32 protocol_version_3 ++ body) ≡ length (encode_params ps) + 5 =
      length-put_i32 protocol_version_3 body
      ∙ omega (arith, length-append (encode_params ps) (0 ∷ [])) in
    read_lem (length (put_i32 protocol_version_3 ++ body) + 4) (put_i32 protocol_version_3 ++ body)
      rest (startup ps) refl (omega (arith, size)) (omega (arith, size, fits))
      (decode-startup body (startup ps) (decode_startup_lem ps u pairs named))
read-encode_startup ssl_request rest h =
    read_lem 8 (put_i32 ssl_request_code) rest ssl_request (length_word ssl_request_code)
      (omega arith) (omega (arith, length_word ssl_request_code)) decode_ssl
read-encode_startup (cancel_request pid key) rest (a, b) =
    let words = put_i32 pid ++ put_i32 key in
    let size : length (put_i32 cancel_request_code ++ words) ≡ 12 = length_cancel pid key in
    read_lem 16 (put_i32 cancel_request_code ++ words) rest (cancel_request pid key)
      (omega (arith, size)) (omega arith) (omega (arith, size)) (decode-cancel pid key a b)
read-encode_startup gss_enc_request rest h =
    read_lem 8 (put_i32 gssenc_request_code) rest gss_enc_request (length_word gssenc_request_code)
      (omega arith) (omega (arith, length_word gssenc_request_code)) decode_gss
