-- ===== src/Protocol/Params.antt =====
-- Startup parameters written and read again (crates/havuz-pg/src/protocol.rs).
use havuz.Base.{◌∙◌, ◌<◌, ◌≡◌, refl, ap, sym, true, false, List, [], ◌∷◌, ◌++◌, ◌==◌, length, arith}
use havuz.Text.{Bytes, NulFree, is_utf8}
use havuz.Protocol.{ok}
use havuz.Protocol.Startup.{encode_params, split_nul, decode_parts, decode_params}

split_nul_lem : (xs ys : Bytes) → NulFree xs → split_nul (xs ++ 0 ∷ ys) ≡ xs ∷ split_nul ys
unfolding split_nul
split_nul_lem [] ys h = refl
split_nul_lem (x ∷ xs) ys (h, hs) =
    let not_end : (x == 0) ≡ false = ground arith in
    rw (not_end, split_nul_lem xs ys hs, split_nul) refl

pub append_assoc : (xs ys zs : Bytes) → (xs ++ ys) ++ zs ≡ xs ++ (ys ++ zs)
append_assoc [] ys zs = refl
append_assoc (x ∷ xs) ys zs = ap (λ r. x ∷ r) (append_assoc xs ys zs)

-- Strings without a zero byte and in UTF-8, the key not empty.
abbrev pub IsPair : Bytes × Bytes → Type 0
IsPair (k, v) = (0 < length k) × NulFree k × NulFree v × (is_utf8 k ≡ true) × (is_utf8 v ≡ true)

abbrev pub AllPairs : List (Bytes × Bytes) → Type 0
AllPairs [] = Unit {0}
AllPairs (p ∷ ps) = IsPair p × AllPairs ps

decode_pair :
    (k v : Bytes) (parts : List Bytes) (ps : List (Bytes × Bytes))
    → IsPair (k, v)
    → decode_parts parts ≡ ok ps
    → decode_parts (k ∷ v ∷ parts) ≡ ok ((k, v) ∷ ps)
unfolding decode_parts
decode_pair [] v parts ps (some_key, a, b, u, w) e = absurd (omega (arith, some_key))
decode_pair (x ∷ xs) v parts ps (some_key, a, b, u, w) e = rw (u, w, e, decode_parts) refl

pair_end :
    (k v more end : Bytes) → (k ++ (0 ∷ v ++ 0 ∷ more)) ++ end ≡ k ++ (0 ∷ v ++ (0 ∷ more ++ end))
pair_end k v more end =
    append_assoc k (0 ∷ v ++ 0 ∷ more) end ∙ ap (λ r. k ++ 0 ∷ r) (append_assoc v (0 ∷ more) end)

split_pair :
    (k v more : Bytes)
    → NulFree k
    → NulFree v
    → split_nul (k ++ (0 ∷ v ++ 0 ∷ more)) ≡ k ∷ v ∷ split_nul more
split_pair k v more a b =
    split_nul_lem k (v ++ 0 ∷ more) a ∙ ap (λ r. k ∷ r) (split_nul_lem v more b)

-- The parameters are read back whatever ends them, as long as that itself reads as no parameters.
pub decode_params_lem :
    (ps : List (Bytes × Bytes)) (end : Bytes)
    → AllPairs ps
    → decode_parts (split_nul end) ≡ ok []
    → decode_params (encode_params ps ++ end) ≡ ok ps
unfolding decode_params encode_params
decode_params_lem [] end h e = e
decode_params_lem ((k, v) ∷ ps) end ((some_key, a, b, u, w), hs) e =
    rw (pair_end k v (encode_params ps) end) (
      rw (split_pair k v (encode_params ps ++ end) a b) (
        decode_pair k v (split_nul (encode_params ps ++ end)) ps (some_key, a, b, u, w)
          (decode_params_lem ps end hs e)))

append_nil : (xs : Bytes) → xs ++ [] ≡ xs
append_nil [] = refl
append_nil (x ∷ xs) = ap (λ r. x ∷ r) (append_nil xs)

-- Nothing checks that the packet ends with the empty string: parameters that stop after the last
-- value's own zero byte, without the terminator, are accepted just as those with it, and so are
-- parameters with any bytes behind the terminator.
pub terminator_optional :
    (ps : List (Bytes × Bytes)) (junk : Bytes)
    → AllPairs ps
    → (decode_params (encode_params ps) ≡ ok ps)
      × (decode_params (encode_params ps ++ 0 ∷ junk) ≡ ok ps)
unfolding decode_parts split_nul
terminator_optional ps junk h = (
  ap decode_params (sym (append_nil (encode_params ps))) ∙ decode_params_lem ps [] h refl,
  decode_params_lem ps (0 ∷ junk) h refl,
)
