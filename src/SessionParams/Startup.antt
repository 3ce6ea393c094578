-- ===== src/SessionParams/Startup.antt =====
-- crates/havuz-pg/src/params.rs: the parameters of a client's startup packet.
use havuz.Base.{
  Bool, true, false, ◌||◌, Option, none, some, List, [], ◌∷◌, ◌++◌, ◌==◌, if◌then◌else◌,
}
use havuz.Text.{same}
use havuz.Chars.{
  Str, codes, is_whitespace, to_ascii_lowercase, eq_ignore_ascii_case, strip_prefix, trim,
  split_once,
}
use havuz.SessionParams.{is_parameter_name}
use havuz.SessionParams.Sorted.{Params, insert}

-- `value.replace('\'', "''")`.
unfoldable pub double_quotes : Str → Str
double_quotes [] = []
double_quotes (c ∷ cs) =
    let rest = double_quotes cs in if c == b'\'' then b'\'' ∷ b'\'' ∷ rest else c ∷ rest

unfoldable pub set_statement : Str → Str → Str
unfolding double_quotes
set_statement name value =
    codes "SET " ++ (name ++ (codes " = '" ++ (double_quotes value ++ codes "'")))

unfoldable pub seed : Params → Str → Str → Params
unfolding is_parameter_name to_ascii_lowercase insert set_statement
seed desired key value =
    if is_parameter_name key
    then insert (to_ascii_lowercase key) (set_statement (to_ascii_lowercase key) value) desired
    else desired

abbrev push_token : Str → List Str → List Str
push_token [] tokens = tokens
push_token (c ∷ cs) tokens = (c ∷ cs) ∷ tokens

-- What the token that the position is in goes on with, and the tokens after it; after a backslash the
-- character is taken as it is.
unfoldable pub options_from : Bool → Str → Str × List Str
unfolding is_whitespace
options_from escaped [] = ([], [])
options_from true (c ∷ cs) = let (token, more) = options_from false cs in (c ∷ token, more)
options_from false (c ∷ cs) =
    let (token, more) = options_from (c == b'\\') cs in
    if c == b'\\'
    then (token, more)
    else if is_whitespace c
    then ([], push_token token more)
    else (c ∷ token, more)

unfoldable pub split_options : Str → List Str
unfolding options_from
split_options options = let (token, more) = options_from false options in push_token token more

abbrev push_assignment : Str → List (Str × Str) → List (Str × Str)
push_assignment assignment more = elim (split_once b'=' assignment) [
  | some (key, value) ↦ (trim key, trim value) ∷ more
  | none ↦ more
]

-- The assignment that a token holds, besides `-c` alone.
abbrev own_assignment : Str → Option Str
own_assignment token = elim (strip_prefix (codes "-c") token) [
  | some rest ↦ some rest
  | none ↦ strip_prefix (codes "--") token
]

-- The pairs in the tokens; `true` when the token before was `-c` alone.
unfoldable pub assignments : Bool → List Str → List (Str × Str)
unfolding same strip_prefix split_once trim
assignments taking [] = []
assignments true (token ∷ more) = push_assignment token (assignments false more)
assignments false (token ∷ more) =
    let rest = assignments (same token (codes "-c")) more in
    if same token (codes "-c") then rest else elim (own_assignment token) [
      | some assignment ↦ push_assignment assignment rest
      | none ↦ rest
    ]

unfoldable pub parse_options : Str → List (Str × Str)
unfolding split_options assignments
parse_options options = assignments false (split_options options)

unfoldable pub not_a_parameter : Str → Bool
unfolding eq_ignore_ascii_case
not_a_parameter key =
    eq_ignore_ascii_case key (codes "user")
    || eq_ignore_ascii_case key (codes "database")
    || eq_ignore_ascii_case key (codes "replication")
    || eq_ignore_ascii_case key (codes "options")
    || eq_ignore_ascii_case key (codes "client_encoding")

unfoldable pub seed_all : Params → List (Str × Str) → Params
unfolding seed
seed_all desired [] = desired
seed_all desired ((key, value) ∷ more) = seed_all (seed desired key value) more

abbrev pub seed_entry : Params → Str → Str → Params
seed_entry desired key value =
    if eq_ignore_ascii_case key (codes "options")
    then seed_all desired (parse_options value)
    else if not_a_parameter key
    then desired
    else seed desired key value

-- The loop of `from_startup`.
unfoldable pub seed_startup : Params → List (Str × Str) → Params
unfolding eq_ignore_ascii_case seed_all parse_options not_a_parameter seed
seed_startup desired [] = desired
seed_startup desired ((key, value) ∷ more) = seed_startup (seed_entry desired key value) more
