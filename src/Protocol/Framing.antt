-- ===== src/Protocol/Framing.antt =====
-- Messages written and read again (crates/havuz-pg/src/protocol.rs).
use havuz.Base.{
  ℕ, ◌+◌, ◌-◌, ◌*◌, ◌/◌, ◌%◌, ◌^◌, ◌≤◌, ◌<◌, ◌≡◌, refl, ap, false, some, [], ◌∷◌, ◌++◌, length, ltb,
  arith,
}
use havuz.Text.{Bytes}
use havuz.Protocol.{
  Message, ok, put_i32, get_i32, read_exact, read_body, encode, read, max_message_len, is_negative,
}

word :
    (n : ℕ)
    → n < 2 ^ 32
    → ((n / 2 ^ 24) % 256) * 2 ^ 24
        + ((n / 2 ^ 16) % 256) * 2 ^ 16
        + ((n / 2 ^ 8) % 256) * 2 ^ 8
        + n % 256
      ≡ n
word n h = omega arith

pub get_i32-put_i32 :
    (n : ℕ) (rest : Bytes) → n < 2 ^ 32 → get_i32 (put_i32 n ++ rest) ≡ some (n, rest)
unfolding get_i32 put_i32
get_i32-put_i32 n rest h = ap (λ k. some (k, rest)) (word n h)

pub read_exact_lem : (xs ys : Bytes) → read_exact (length xs) (xs ++ ys) ≡ some (xs, ys)
unfolding read_exact
read_exact_lem [] ys = refl
read_exact_lem (x ∷ xs) ys = rw (read_exact_lem xs ys, read_exact) refl

accepted :
    (least most len : ℕ) (bs rest : Bytes) (found : Bytes × Bytes)
    → get_i32 bs ≡ some (len, rest)
    → least ≤ len
    → len ≤ most + 4
    → len < 2 ^ 31
    → read_exact (len - 4) rest ≡ some found
    → read_body least most bs ≡ ok found
unfolding read_body
accepted least most len bs rest found e low high small r =
    let positive : is_negative len ≡ false = ground arith in
    let enough : ltb len least ≡ false = ground arith in
    let fits : ltb most (len - 4) ≡ false = ground arith in
    rw (e, positive, enough, fits, r, read_body) refl

pub read_body_lem :
    (least most len : ℕ) (body rest : Bytes)
    → len ≡ length body + 4
    → least ≤ len
    → length body ≤ most
    → most + 4 < 2 ^ 31
    → read_body least most (put_i32 (len % 2 ^ 32) ++ (body ++ rest)) ≡ ok (body, rest)
read_body_lem least most len body rest e low high small =
    let word_is : len % 2 ^ 32 ≡ len = omega arith in
    let size : len - 4 ≡ length body = omega arith in
    accepted least most len _ (body ++ rest) (body, rest)
      (rw word_is (get_i32-put_i32 len (body ++ rest) (omega arith))) low (omega arith)
      (omega arith) (rw size (read_exact_lem body rest))

-- A message survives the wire: reading what was written gives the message again and leaves exactly
-- the bytes that follow it, for any tag and any body of at most 64 MiB.
pub read-encode :
    (m : Message) (rest : Bytes)
    → length m.body ≤ max_message_len
    → read (encode m ++ rest) ≡ ok (m, rest)
unfolding read encode put_i32
read-encode m rest h =
    rw
      (
        read_body_lem 4 max_message_len (length m.body + 4) m.body rest refl (omega arith) h
            (omega arith),
        read,
      )
      refl
