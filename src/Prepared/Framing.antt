-- ===== src/Prepared/Framing.antt =====
-- Strings that end in a zero byte, read and written (crates/havuz-pg/src/prepared.rs).
use havuz.Base.{ℕ, ◌≡◌, refl, ap, true, [], ◌∷◌, ◌++◌}
use havuz.Text.{NulFree, until_nul_lem}
use havuz.Prepared.Wire.{
  Bytes, ok, is_utf8, parse_parts, build_parse, bind_statement_name, skip_strings, replace_cstring,
}

-- The parser of `Parse` messages undoes the builder: it finds the name, the text and the parameter
-- types again. Name and text are UTF-8 without a zero byte.
pub parse_parts-build_parse :
    (name sql types : Bytes)
    → NulFree name
    → NulFree sql
    → is_utf8 name ≡ true
    → is_utf8 sql ≡ true
    → parse_parts (build_parse name sql types) ≡ ok (name, sql, types)
unfolding parse_parts build_parse
parse_parts-build_parse name sql types n s u v =
    rw (until_nul_lem name (sql ++ 0 ∷ types) n, until_nul_lem sql types s, u, v, parse_parts) refl

pub bind_statement_name_lem :
    (portal name rest : Bytes)
    → NulFree portal
    → NulFree name
    → is_utf8 name ≡ true
    → bind_statement_name (portal ++ (0 ∷ name ++ 0 ∷ rest)) ≡ ok name
unfolding bind_statement_name
bind_statement_name_lem portal name rest p n u =
    rw
      (until_nul_lem portal (name ++ 0 ∷ rest) p, until_nul_lem name rest n, u, bind_statement_name)
      refl

append_cons : (xs : Bytes) (y : ℕ) (zs : Bytes) → (xs ++ y ∷ []) ++ zs ≡ xs ++ y ∷ zs
append_cons [] y zs = refl
append_cons (x ∷ xs) y zs = ap (λ r. x ∷ r) (append_cons xs y zs)

pub replace_second :
    (portal name rest replacement : Bytes)
    → NulFree portal
    → NulFree name
    → replace_cstring (portal ++ (0 ∷ name ++ 0 ∷ rest)) 1 replacement
      ≡ ok (portal ++ (0 ∷ replacement ++ 0 ∷ rest))
unfolding replace_cstring skip_strings
replace_second portal name rest replacement p n =
    rw
      (
        until_nul_lem portal (name ++ 0 ∷ rest) p,
        until_nul_lem name rest n,
        replace_cstring,
        skip_strings,
      )
      ((ap ok (append_cons portal 0 (replacement ++ 0 ∷ rest))))
