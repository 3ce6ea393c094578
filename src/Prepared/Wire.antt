-- ===== src/Prepared/Wire.antt =====
-- The byte-level readers and writers of crates/havuz-pg/src/prepared.rs.
use Prim.Native.String.{String}
use havuz.Text.{Bytes, until_nul, is_utf8}
unfoldable pub use havuz.Text.{same, until_nul, is_utf8}
pub use havuz.Text.{Bytes}
pub use havuz.Protocol.{Message}
use havuz.Base.{
  ℕ, zero, suc, ◌+◌, ◌/◌, ◌%◌, Bool, true, false, ◌||◌, Option, none, some, [], ◌∷◌, ◌++◌, ltb,
  ◌==◌, if◌then◌else◌,
}

pub data PreparedError : Type 0 where
  malformed : String → String → PreparedError
  unknown_statement : Bytes → PreparedError

pub data Checked {ℓ} (A : Type ℓ) : Type ℓ where
  ok : A → Checked A
  err : PreparedError → Checked A

-- ---------------------------------------------------------------- readers

abbrev two_strings : String → String → String → Bytes → Checked (Bytes × Bytes × Bytes)
two_strings message first second body = elim (until_nul body) [
  | none ↦ err (malformed message first)
  | some (name, rest) ↦ elim (until_nul rest) [
    | none ↦ err (malformed message second)
    | some (sql, tail) ↦ ok (name, sql, tail)
  ]
]

-- `ParseParts::decode`: the statement's name, its text and its parameter types.
unfoldable pub parse_parts : Bytes → Checked (Bytes × Bytes × Bytes)
parse_parts body = elim (two_strings "Parse" "no statement name" "no query text" body) [
  | err e ↦ err e
  | ok (name, sql, types) ↦
      if not_utf8 name
      then err (malformed "Parse" "name is not utf-8")
      else if not_utf8 sql
      then err (malformed "Parse" "query is not utf-8")
      else ok (name, sql, types)
]
  where
    not_utf8 : Bytes → Bool
    not_utf8 bs = if is_utf8 bs then false else true

-- The second string of a `Bind`.
unfoldable pub bind_statement_name : Bytes → Checked (Bytes)
bind_statement_name body = elim (two_strings "Bind" "no portal name" "no statement name" body) [
  | err e ↦ err e
  | ok (portal, name, rest) ↦
      if is_utf8 name then ok name else err (malformed "Bind" "name is not utf-8")
]

-- The kind and the name in a `Describe` or `Close`.
unfoldable pub describe_target : Bytes → Checked (ℕ × Bytes)
describe_target [] = err (malformed "Describe/Close" "empty body")
describe_target (kind ∷ rest) = elim (until_nul rest) [
  | none ↦ err (malformed "Describe/Close" "unterminated name")
  | some (name, tail) ↦
      if is_utf8 name then ok (kind, name) else err (malformed "Describe/Close" "name is not utf-8")
]

-- ---------------------------------------------------------------- writers

unfoldable pub build_parse : Bytes → Bytes → Bytes → Bytes
build_parse name sql types = name ++ (0 ∷ sql ++ 0 ∷ types)

-- The bytes up to the start of the string at an index, and those from there on.
unfoldable pub skip_strings : ℕ → Bytes → Option (Bytes × Bytes)
skip_strings zero body = some ([], body)
skip_strings (suc n) body = elim (until_nul body) [
  | none ↦ none
  | some (first, rest) ↦ elim (skip_strings n rest) [
    | none ↦ none
    | some (before, after) ↦ some (first ++ 0 ∷ before, after)
  ]
]

-- A `Describe` or `Close` has a byte for the kind before its string.
abbrev split_kind : ℕ → Bytes → Bytes × Bytes
split_kind zero (kind ∷ b ∷ rest) =
    if kind == 83 || kind == 80 then (kind ∷ [], b ∷ rest) else ([], kind ∷ b ∷ rest)
split_kind index body = ([], body)

unfoldable pub replace_cstring : Bytes → ℕ → Bytes → Checked (Bytes)
replace_cstring body index replacement =
    let (prefix, rest) = split_kind index body in
    elim (skip_strings index rest) [
      | none ↦ err (malformed "message" "unterminated string")
      | some (before, from) ↦ elim (until_nul from) [
        | none ↦ err (malformed "message" "unterminated string")
        | some (old, after) ↦ ok (prefix ++ (before ++ (replacement ++ 0 ∷ after)))
      ]
    ]

abbrev hex_digit : ℕ → ℕ
hex_digit n = if ltb n 10 then 48 + n else 87 + n

unfoldable pub hex_bytes : ℕ → Bytes → Bytes
hex_bytes zero bs = []
hex_bytes (suc n) [] = []
hex_bytes (suc n) (b ∷ bs) = hex_digit (b / 16) ∷ hex_digit (b % 16) ∷ hex_bytes n bs

-- `havuz_`, and the first sixteen bytes of the digest in hexadecimal.
unfoldable pub global_name : (Bytes → Bytes) → Bytes → Bytes → Bytes
unfolding hex_bytes
global_name digest sql param_types =
    104 ∷ 97 ∷ 118 ∷ 117 ∷ 122 ∷ 95 ∷ hex_bytes 16 (digest (sql ++ 0 ∷ param_types))
