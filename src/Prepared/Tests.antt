-- ===== src/Prepared/Tests.antt =====
-- Runs of the cache, the rewriting and the relay at concrete inputs, on a server that is a list of
-- names.
use havuz.Base.{
  ℕ, zero, suc, ◌≤◌, ◌≡◌, refl, true, false, some, List, [], ◌∷◌, ◌++◌, length, if◌then◌else◌,
  arith,
}
use havuz.Prepared.Wire.{
  Message, Bytes, same, ok, err, unknown_statement, build_parse, is_utf8, replace_cstring,
  skip_strings, until_nul, hex_bytes, global_name, bind_statement_name,
}
use havuz.Prepared.{
  contains, without, has, fresh, ClientStatements, lookup, replay_then, parse, on_parse, on_bind,
  redirect, redirect_to,
}
use havuz.Prepared.Relay.{settle}
use havuz.Prepared.Names.{AllDistinct, contains-without}
use havuz.Prepared.Cache.{fresh-Inv}
use havuz.Prepared.Mirror.{Server}
use havuz.Prepared.Binding.{parse_of, bind_of, statement_of, bind_after_parse}
use havuz.Prepared.Faults.{failed_parse_remembered}

-- A parse under a free name of a server that is a list.
listed-parse :
    (s : List Bytes) (n m : Bytes) → contains (n ∷ s) m ≡ (if same n m then true else contains s m)
unfolding contains
listed-parse s n m = ground arith

abbrev listed : Server
listed = record {
  State = List Bytes;
  holds = contains;
  parse_name = λ s n. n ∷ s;
  close_name = without;
  pass_on = λ s msg. s;
  holds-parse = λ s n m free. listed-parse s n m;
  holds-close = contains-without;
}

-- A digest for the tests: sixteen bytes that depend on the length of the text.
abbrev digest : Bytes → Bytes
digest bs = length bs ∷ 1 ∷ 2 ∷ 3 ∷ 4 ∷ 5 ∷ 6 ∷ 7 ∷ 8 ∷ 9 ∷ 10 ∷ 11 ∷ 12 ∷ 13 ∷ 14 ∷ 15 ∷ []

abbrev s1 : Bytes
s1 = 115 ∷ 49 ∷ []

abbrev text : Bytes
text = 83 ∷ 32 ∷ 49 ∷ []

abbrev no_statements : ClientStatements
no_statements = record { by_name = [] }

abbrev with_s1 : ClientStatements
with_s1 = record { by_name = (s1, statement_of (global_name digest text []) text []) ∷ [] }

unknown_is_refused : on_bind no_statements (bind_of [] s1 []) fresh ≡ err (unknown_statement s1)
unfolding on_bind bind_statement_name until_nul is_utf8 redirect lookup
unknown_is_refused = refl

bind_is_replayed :
    on_bind with_s1 (bind_of [] s1 (0 ∷ [])) fresh
    ≡ ok (
        replay_then
          (build_parse (global_name digest text []) text [])
          (global_name digest text [])
          (bind_of [] (global_name digest text []) (0 ∷ [])))
unfolding on_bind bind_statement_name until_nul is_utf8 redirect lookup redirect_to replace_cstring
    skip_strings has contains same global_name hex_bytes
bind_is_replayed = refl

bind_after_parse_example :
    lookup (on_parse digest no_statements (parse_of s1 text [])).0.by_name s1
    ≡ some (statement_of (global_name digest text []) text [])
unfolding is_utf8 same
bind_after_parse_example =
    (bind_after_parse digest no_statements 115 (49 ∷ []) text [] [] [] fresh tt
        (omega arith, (omega arith, tt)) (omega arith, (omega arith, (omega arith, tt))) refl
        refl).1
      s1

-- A `Parse` of a new statement, and a `Sync`.
abbrev exchange : List (ClientStatements × Message)
exchange =
    (no_statements, parse_of s1 text []) ∷ (no_statements, record { tag = b'S'; body = [] }) ∷ []

failed_parse_remembered_example :
    has (settle no_statements fresh (parse_of s1 text []) (parse s1 (parse_of s1 text []))).1 s1
    ≡ true
unfolding contains has replace_cstring skip_strings until_nul
failed_parse_remembered_example =
    (failed_parse_remembered listed no_statements fresh [] (parse_of s1 text [])
      (parse_of s1 text []) s1 (0 ∷ s1 ++ 0 ∷ []) (bind_of [] s1 []) (statement_of s1 text [])
      fresh-Inv (λ m. refl) refl refl).0

-- The names of one byte below a number, the highest first.
abbrev names : ℕ → List Bytes
names zero = []
names (suc n) = (n ∷ []) ∷ names n

names_below : (n m : ℕ) → n ≤ m → contains (names n) (m ∷ []) ≡ false
unfolding contains same
names_below zero m h = refl
names_below (suc n) m h = ground (arith, names_below n m)

names_distinct : (n : ℕ) → AllDistinct (names n)
names_distinct zero = tt
names_distinct (suc n) = (names_below n n (omega arith), names_distinct n)

length-names : (n : ℕ) → length (names n) ≡ n
length-names zero = refl
length-names (suc n) = omega (arith, length-names n)
