-- ===== src/Prepared/Binding.antt =====
-- A client's `Bind` finds what its `Parse` named (crates/havuz-pg/src/prepared.rs).
use havuz.Base.{
  ℕ, ◌≡◌, refl, true, false, some, List, [], ◌∷◌, ◌++◌, if◌then◌else◌, Bool-cases, inl, inr,
}
use havuz.Text.{NulFree}
use havuz.Prepared.Wire.{Bytes, same, Message, ok, is_utf8, build_parse, global_name, parse_parts}
use havuz.Prepared.{
  BackendStatements, has, ClientStatements, PreparedStatement, lookup, delete, replace, replay_then,
  parse, on_parse, on_bind, redirect, redirect_to,
}
use havuz.Prepared.Names.{same_refl, same_sound}
use havuz.Prepared.Framing.{parse_parts-build_parse, bind_statement_name_lem, replace_second}

lookup-delete :
    (l : List (Bytes × PreparedStatement)) (n m : Bytes)
    → same n m ≡ false
    → lookup (delete l n) m ≡ lookup l m
unfolding lookup delete
lookup-delete [] n m h = refl
lookup-delete ((k, s) ∷ rest) n m h = elim (Bool-cases (same k n)) [
  | inl e ↦
      let other : same k m ≡ false = rw (same_sound k n e) h in
      rw (e, other, lookup-delete rest n m h) refl
  | inr e ↦ rw (e, lookup-delete rest n m h) refl
]

abbrev pub parse_of : Bytes → Bytes → Bytes → Message
parse_of name sql types = record { tag = 80; body = build_parse name sql types }

abbrev pub bind_of : Bytes → Bytes → Bytes → Message
bind_of portal name rest = record { tag = 66; body = portal ++ (0 ∷ name ++ 0 ∷ rest) }

abbrev pub statement_of : Bytes → Bytes → Bytes → PreparedStatement
statement_of g sql types = record { global = g; parse_message = build_parse g sql types; sql = sql }

on_parse_lem :
    (digest : Bytes → Bytes) (c : ClientStatements) (x : ℕ) (xs sql types : Bytes)
    → parse_parts (build_parse (x ∷ xs) sql types) ≡ ok (x ∷ xs, sql, types)
    → on_parse digest c (parse_of (x ∷ xs) sql types) ≡ (
      record {
        by_name =
            (x ∷ xs, statement_of (global_name digest sql types) sql types)
            ∷ delete c.by_name (x ∷ xs);
      },
      ok (parse (global_name digest sql types) (parse_of (global_name digest sql types) sql types)),
    )
unfolding on_parse
on_parse_lem digest c x xs sql types h = rw (h, on_parse) refl

redirect_held :
    (portal name rest : Bytes) (b : BackendStatements) (s : PreparedStatement)
    → NulFree portal
    → NulFree name
    → redirect_to (bind_of portal name rest) 1 b s
      ≡ ok (
          if has b s.global
          then replace (bind_of portal s.global rest)
          else replay_then s.parse_message s.global (bind_of portal s.global rest))
unfolding redirect_to
redirect_held portal name rest b s p n =
    rw (replace_second portal name rest s.global p n, redirect_to) refl

on_bind_lem :
    (c : ClientStatements) (portal rest : Bytes) (x : ℕ) (xs : Bytes) (b : BackendStatements)
    (s : PreparedStatement)
    → NulFree portal
    → NulFree (x ∷ xs)
    → is_utf8 (x ∷ xs) ≡ true
    → lookup c.by_name (x ∷ xs) ≡ some s
    → on_bind c (bind_of portal (x ∷ xs) rest) b
      ≡ ok (
          if has b s.global
          then replace (bind_of portal s.global rest)
          else replay_then s.parse_message s.global (bind_of portal s.global rest))
unfolding on_bind redirect
on_bind_lem c portal rest x xs b s p n u e =
    rw (bind_statement_name_lem portal (x ∷ xs) rest p n u, e, on_bind, redirect)
      (redirect_held portal (x ∷ xs) rest b s p n)

lookup_first :
    (n m : Bytes) (s : PreparedStatement) (rest : List (Bytes × PreparedStatement))
    → lookup ((n, s) ∷ delete rest n) m ≡ (if same n m then some s else lookup rest m)
unfolding lookup
lookup_first n m s rest = elim (Bool-cases (same n m)) [
  | inl e ↦ rw e refl
  | inr e ↦ rw (e, lookup-delete rest n m e) refl
]

-- A `Bind` reaches the statement that the same client's `Parse` named, on any backend. After a
-- `Parse` of a text under a name, a `Bind` of that name, to whatever portal and with whatever
-- parameters, is forwarded under the global name of that very text and those parameter types, the
-- portal and the parameters untouched; a backend that has not seen the global name is first sent
-- a `Parse` of that text under it. The client's other names stand for what they stood for. The
-- name is not empty; it, the portal and the text have no zero byte, and name and text are UTF-8.
pub bind_after_parse :
    (digest : Bytes → Bytes) (c : ClientStatements) (x : ℕ) (xs sql types portal rest : Bytes)
    (b : BackendStatements)
    → NulFree portal
    → NulFree (x ∷ xs)
    → NulFree sql
    → is_utf8 (x ∷ xs) ≡ true
    → is_utf8 sql ≡ true
    → let c' = (on_parse digest c (parse_of (x ∷ xs) sql types)).0 in
      let g = global_name digest sql types in
      (on_bind c' (bind_of portal (x ∷ xs) rest) b
        ≡ ok (
            if has b g
            then replace (bind_of portal g rest)
            else replay_then (build_parse g sql types) g (bind_of portal g rest)))
      × ((m : Bytes)
          → lookup c'.by_name m
            ≡ (if same (x ∷ xs) m then some (statement_of g sql types) else lookup c.by_name m))
bind_after_parse digest c x xs sql types portal rest b p n s u v =
    let parsed =
      on_parse_lem digest c x xs sql types (parse_parts-build_parse (x ∷ xs) sql types n s u v) in
    let st = statement_of (global_name digest sql types) sql types in
    rw parsed (
      on_bind_lem _ portal rest x xs b st p n u
          (rw (lookup_first (x ∷ xs) (x ∷ xs) st c.by_name) (rw (same_refl (x ∷ xs)) refl)),
      λ m. lookup_first (x ∷ xs) m st c.by_name,
    )
