-- ===== src/SessionParams/Replay/Sql.antt =====
-- The server of a backend, as far as its session parameters go, for what is sent to it by
-- crates/havuz-pg/src/txn.rs.
use havuz.Base.{◌≡◌, Bool, true, Option, none, some, [], ◌∷◌, ◌++◌, if◌then◌else◌}
use havuz.Text.{same}
use havuz.Chars.{Str, codes, to_ascii_lowercase}
use havuz.SessionParams.{is_parameter_name}
use havuz.SessionParams.Sorted.{Params}
use havuz.SessionParams.Replay.{reset_statement}

abbrev pub IsLower : Str → Type 0
IsLower name = to_ascii_lowercase name ≡ name

-- The keys of the map are in lower case.
abbrev pub AllLower : Params → Type 0
AllLower [] = Unit {0}
AllLower ((name, statement) ∷ more) = IsLower name × AllLower more

-- A server that runs whole query texts. What `does_set` accepts sets the parameter of a name in lower
-- case and no other, and is complete where a semicolon follows it: it ends in no comment and no literal
-- that would go on. So does and is a `RESET`.
pub record SqlServer : Type 1 where
  pub State : Type 0
  pub run : State → Str → State
  pub value : State → Str → Option Str
  pub does_set : Str → Str → Bool
  pub set_law :
      (s : State) (name statement m : Str)
      → does_set name statement ≡ true
      → IsLower m
      → value (run s statement) m ≡ (if same name m then some statement else value s m)
  pub reset_law :
      (s : State) (name m : Str)
      → is_parameter_name name ≡ true
      → IsLower name
      → IsLower m
      → value (run s (reset_statement name)) m ≡ (if same name m then none else value s m)
  pub set_ends :
      (s : State) (name statement rest : Str)
      → does_set name statement ≡ true
      → run s (statement ++ (codes "; " ++ rest)) ≡ run (run s statement) rest
  pub reset_ends :
      (s : State) (name rest : Str)
      → is_parameter_name name ≡ true
      → IsLower name
      → run s (reset_statement name ++ (codes "; " ++ rest))
        ≡ run (run s (reset_statement name)) rest

-- Every entry's statement sets the parameter of its name, as far as the server tells.
abbrev pub AllSet : (Str → Str → Bool) → Params → Type 0
AllSet does_set [] = Unit {0}
AllSet does_set ((name, statement) ∷ more) = (does_set name statement ≡ true) × AllSet does_set more
