-- ===== src/Prepared.antt =====
-- crates/havuz-pg/src/prepared.rs: the names under which prepared statements travel. A string is
-- its bytes, a message body too; a map is the list of its entries and a set the list of its
-- members, the latest last.
pub mod Wire
pub mod Relay
pub mod Names
pub mod Cache
pub mod Mirror
pub mod Client
pub mod Framing
pub mod Binding
pub mod Faults
mod Tests
use Prim.Native.String.{String}
use havuz.Base.{
  ℕ, zero, suc, ◌+◌, ◌/◌, ◌%◌, Bool, true, false, not, ◌&&◌, ◌||◌, Option, none, some, List, [],
  ◌∷◌, ◌++◌, ltb, leb, ◌==◌, if◌then◌else◌, length,
}
use Wire.{
  Bytes, same, Message, PreparedError, unknown_statement, Checked, ok, err, parse_parts,
  build_parse, bind_statement_name, describe_target, replace_cstring, global_name,
}

abbrev pub max_statements : ℕ
max_statements = 256

-- ---------------------------------------------------------------- one backend

unfoldable pub contains : List Bytes → Bytes → Bool
contains [] n = false
contains (m ∷ ms) n = same m n || contains ms n

-- `HashSet::remove`, and `VecDeque::retain` of the other names.
unfoldable pub without : List Bytes → Bytes → List Bytes
without [] n = []
without (m ∷ ms) n = let rest = without ms n in if same m n then rest else m ∷ rest

pub record BackendStatements : Type 0 where
  pub present : List Bytes
  pub order : List Bytes

abbrev pub fresh : BackendStatements
fresh = record { present = []; order = [] }

unfoldable pub has : BackendStatements → Bytes → Bool
has b n = contains b.present n

abbrev added : BackendStatements → Bytes → BackendStatements
added b n = record { present = b.present ++ n ∷ []; order = b.order ++ n ∷ [] }

-- The oldest name goes, if there is one.
unfoldable pub evict : BackendStatements → BackendStatements × Option Bytes
evict b = elim b.order [
  | [] ↦ (b, none)
  | old ∷ rest ↦ (record { present = without b.present old; order = rest }, some old)
]

unfoldable pub insert : BackendStatements → Bytes → BackendStatements × Option Bytes
unfolding has evict
insert b n = elim (has b n) [
  | true ↦ (b, none)
  | false ↦ elim (leb max_statements (length b.present)) [
    | true ↦ let (c, evicted) = evict b in (added c n, evicted)
    | false ↦ (added b n, none)
  ]
]

unfoldable pub remove : BackendStatements → Bytes → BackendStatements
unfolding has
remove b n =
    if has b n then record { present = without b.present n; order = without b.order n } else b

-- After a reset.
unfoldable pub clear : BackendStatements → BackendStatements
clear b = fresh

-- ---------------------------------------------------------------- one client

pub record PreparedStatement : Type 0 where
  pub global : Bytes
  pub parse_message : Bytes
  pub sql : Bytes

pub record ClientStatements : Type 0 where
  pub by_name : List (Bytes × PreparedStatement)

unfoldable pub lookup : List (Bytes × PreparedStatement) → Bytes → Option PreparedStatement
lookup [] n = none
lookup ((m, s) ∷ rest) n = let more = lookup rest n in if same m n then some s else more

unfoldable pub delete : List (Bytes × PreparedStatement) → Bytes → List (Bytes × PreparedStatement)
delete [] n = []
delete ((m, s) ∷ rest) n = let more = delete rest n in if same m n then more else (m, s) ∷ more

unfoldable pub forget : ClientStatements → Bytes → ClientStatements
forget c n = record { by_name = delete c.by_name n }

pub data Rewrite : Type 0 where
  unchanged : Rewrite
  replace : Message → Rewrite
  -- Replay the `Parse` under the global name first, then forward the message.
  replay_then : Bytes → Bytes → Message → Rewrite
  parse : Bytes → Message → Rewrite
  -- The global name, the client's name, and the message.
  close_statement : Bytes → Bytes → Message → Rewrite

-- `on_parse`, with the digest of the SHA-256 library.
unfoldable pub on_parse :
    (Bytes → Bytes) → ClientStatements → Message → ClientStatements × Checked Rewrite
on_parse digest c msg = elim (parse_parts msg.body) [
  | err e ↦ (c, err e)
  | ok ([], sql, param_types) ↦ (c, ok unchanged)
  | ok (b ∷ bs, sql, param_types) ↦
      let name = global_name digest sql param_types in
      let body = build_parse name sql param_types in
      let statement : PreparedStatement = record {
        global = name;
        parse_message = body;
        sql = sql;
      } in
      (
        record { by_name = (b ∷ bs, statement) ∷ delete c.by_name (b ∷ bs) },
        ok (parse name (record { tag = 80; body = body })),
      )
]

unfoldable pub redirect_to : Message → ℕ → BackendStatements → PreparedStatement → Checked Rewrite
redirect_to msg field_index backend s = elim (replace_cstring msg.body field_index s.global) [
  | err e ↦ err e
  | ok body ↦
      let rewritten : Message = record { tag = msg.tag; body = body } in
      ok (
        if has backend s.global
        then replace rewritten
        else replay_then s.parse_message s.global rewritten)
]

unfoldable pub redirect :
    ClientStatements → Message → Bytes → ℕ → BackendStatements → Checked Rewrite
unfolding redirect_to
redirect c msg [] field_index backend = ok unchanged
redirect c msg (b ∷ bs) field_index backend = elim (lookup c.by_name (b ∷ bs)) [
  | none ↦ err (unknown_statement (b ∷ bs))
  | some s ↦ redirect_to msg field_index backend s
]

unfoldable pub on_bind : ClientStatements → Message → BackendStatements → Checked Rewrite
unfolding redirect
on_bind c msg backend = elim (bind_statement_name msg.body) [
  | err e ↦ err e
  | ok name ↦ redirect c msg name 1 backend
]

-- A `Close` of a statement that the client knows.
unfoldable pub closing : PreparedStatement → Bytes → Message → Rewrite → Rewrite
closing s name msg (replace m) = close_statement s.global name m
closing s name msg (replay_then p g m) = close_statement s.global name m
closing s name msg unchanged = close_statement s.global name msg
closing s name msg other = other

unfoldable pub on_describe_or_close :
    ClientStatements → Message → BackendStatements → Checked Rewrite
unfolding redirect
on_describe_or_close c msg backend = elim (describe_target msg.body) [
  | err e ↦ err e
  | ok (kind, name) ↦ elim (kind == 83) [
    | false ↦ ok unchanged
    | true ↦ elim (redirect c msg name 0 backend) [
      | err e ↦ err e
      | ok rewritten ↦ elim (msg.tag == 67) [
        | false ↦ ok rewritten
        | true ↦ elim (lookup c.by_name name) [
          | none ↦ ok rewritten
          | some s ↦ ok (closing s name msg rewritten)
        ]
      ]
    ]
  ]
]
