-- ===== src/SessionParams.antt =====
-- crates/havuz-pg/src/params.rs: the session parameters that a client wants, read from the statements
-- it sends, and the statements that bring a backend in line with them. A `BTreeMap<String, String>`
-- is a list of its entries in the order of the names.
pub mod Sorted
pub mod Startup
pub mod Client
pub mod ReadOnly
pub mod Replay
pub mod Relay
pub mod Named
pub mod Kept
pub mod Quoting
pub mod TextServer
pub mod Fuel
mod Tests
use Prim.Native.String.{String}
use havuz.Base.{
  ℕ, zero, suc, Bool, true, false, not, ◌&&◌, ◌||◌, Option, none, some, List, [], ◌∷◌, ◌++◌, map,
  ◌==◌, if◌then◌else◌, length,
}
use havuz.Text.{same}
use havuz.Chars.{
  Str, codes, is_whitespace, is_ascii_digit, is_ascii_alphabetic, is_ascii_alphanumeric,
  to_ascii_uppercase, to_ascii_lowercase, eq_ignore_ascii_case, strip_prefix, trim_start, trim_end,
  trim, without_suffix, split_whitespace, split_once,
}
use havuz.Lexer.{split_statements, strip_leading_noise, strip_literals}
use havuz.Flow.{PinReason, session_parameter}

pub data SetAction : Type 0 where
  track : (name statement : Str) → SetAction
  reset : (name : Str) → SetAction
  reset_all : SetAction
  pin : PinReason → SetAction
  nothing : SetAction

abbrev pub ends_word : ℕ → Bool
ends_word c = is_whitespace c || (c == b'=') || (c == b',')

unfoldable pub split_word : Str → Str × Str
unfolding is_whitespace
split_word [] = ([], [])
split_word (c ∷ cs) =
    let (word, rest) = split_word cs in if ends_word c then ([], c ∷ cs) else (c ∷ word, rest)

unfoldable pub take_word : Str → Str × Str
unfolding trim_start split_word
take_word input = split_word (trim_start input)

-- `chars.all` over the characters of an identifier after its first.
unfoldable pub all_name_chars : Str → Bool
unfolding is_ascii_alphanumeric
all_name_chars [] = true
all_name_chars (c ∷ cs) =
    let rest = all_name_chars cs in (is_ascii_alphanumeric c || (c == b'_') || (c == b'$')) && rest

unfoldable pub is_identifier : Str → Bool
unfolding is_ascii_alphabetic all_name_chars
is_identifier [] = false
is_identifier (c ∷ cs) = (is_ascii_alphabetic c || (c == b'_')) && all_name_chars cs

unfoldable pub is_parameter_name : Str → Bool
unfolding split_once is_identifier
is_parameter_name name = elim (split_once b'.' name) [
  | none ↦ is_identifier name
  | some (first, second) ↦ elim (split_once b'.' second) [
    | none ↦ is_identifier first && is_identifier second
    | some more ↦ false
  ]
]

abbrev next_is_digit : Str → Bool
next_is_digit [] = false
next_is_digit (c ∷ cs) = is_ascii_digit c

unfoldable pub any_placeholder : Str → Bool
unfolding is_ascii_digit
any_placeholder [] = false
any_placeholder (c ∷ cs) =
    let rest = any_placeholder cs in ((c == b'$') && next_is_digit cs) || rest

unfoldable pub has_placeholder : Str → Bool
unfolding strip_literals any_placeholder
has_placeholder value = any_placeholder (strip_literals value)

abbrev pub unreplayable : SetAction
unreplayable = pin session_parameter

unfoldable pub track_statement : Str → Str → SetAction
unfolding to_ascii_lowercase trim
track_statement statement name = track (to_ascii_lowercase name) (trim statement)

abbrev pub second_word_is : String → Str → Bool
second_word_is word after = eq_ignore_ascii_case (take_word after).0 (codes word)

-- The spellings that set a parameter whose name is not in the statement.
abbrev pub named_by_spelling : Str → Str → Option Str
named_by_spelling upper after =
    if same upper (codes "TIME") && second_word_is "ZONE" after
    then some (codes "timezone")
    else if same upper (codes "NAMES")
    then some (codes "client_encoding")
    else if same upper (codes "SCHEMA")
    then some (codes "search_path")
    else if same upper (codes "XML") && second_word_is "OPTION" after
    then some (codes "xmloption")
    else none

-- The value after `=` or `TO`.
abbrev pub introduced_value : Str → Option Str
introduced_value after = elim (strip_prefix (codes "=") after) [
  | some value ↦ some value
  | none ↦
      if eq_ignore_ascii_case (take_word after).0 (codes "TO")
      then some (take_word after).1
      else none
]

abbrev pub value_action : Str → Str → Str → SetAction
value_action statement first [] = unreplayable
value_action statement first (c ∷ cs) =
    if has_placeholder (c ∷ cs)
    then unreplayable
    else if eq_ignore_ascii_case (c ∷ cs) (codes "DEFAULT")
    then reset (to_ascii_lowercase first)
    else track_statement statement (to_ascii_lowercase first)

abbrev pub assignment : Str → Str → Str → SetAction
assignment statement first after =
    if is_parameter_name first
    then elim (introduced_value (trim_start after)) [
      | none ↦ unreplayable
      | some value ↦ value_action statement first (trim value)
    ]
    else unreplayable

-- The rules on the text after `SET`, with what the text after a first word `SESSION` gives.
abbrev pub set_rules : Str → Str → SetAction → SetAction
set_rules statement rest again =
    let (first, after) = take_word rest in
    let upper = to_ascii_uppercase first in
    let second = to_ascii_uppercase (take_word after).0 in
    if same upper (codes "LOCAL") || same upper (codes "TRANSACTION")
    then nothing
    else if same upper (codes "ROLE") || same upper (codes "CONSTRAINTS")
    then unreplayable
    else if same upper (codes "SESSION")
    then (if same second (codes "AUTHORIZATION") || same second (codes "CHARACTERISTICS")
        then unreplayable
        else again)
    else elim (named_by_spelling upper after) [
      | some name ↦ track_statement statement name
      | none ↦ assignment statement first after
    ]

-- Every call in turn is for less text, so one more than the length is fuel enough.
unfoldable pub classify_set_body : ℕ → Str → Str → SetAction
unfolding take_word same to_ascii_uppercase eq_ignore_ascii_case strip_prefix is_parameter_name trim
    has_placeholder track_statement
classify_set_body zero statement rest = unreplayable
classify_set_body (suc fuel) statement rest =
    let again = classify_set_body fuel statement (take_word rest).1 in
    set_rules statement rest again

unfoldable pub classify_reset_body : Str → SetAction
unfolding take_word same to_ascii_uppercase to_ascii_lowercase eq_ignore_ascii_case
    is_parameter_name
classify_reset_body rest =
    let (first, after) = take_word rest in
    let upper = to_ascii_uppercase first in
    if same upper (codes "ALL")
    then reset_all
    else if same upper (codes "ROLE")
    then reset (codes "role")
    else if same upper (codes "SESSION")
    then reset (codes "session_authorization")
    else if same upper (codes "TIME")
    then (if second_word_is "ZONE" after then reset (codes "timezone") else unreplayable)
    else if is_parameter_name first
    then reset (to_ascii_lowercase first)
    else unreplayable

-- The statement without noise before it, and blanks and one semicolon after it.
unfoldable pub bare : Str → Str
unfolding strip_leading_noise trim_end without_suffix
bare statement = trim_end (without_suffix b';' (trim_end (strip_leading_noise statement)))

unfoldable pub classify_keyword : Str → Str → Str → SetAction
unfolding same classify_set_body classify_reset_body
classify_keyword upper normalized rest =
    if same upper (codes "SET")
    then classify_set_body (suc (length rest)) normalized rest
    else if same upper (codes "RESET")
    then classify_reset_body rest
    else nothing

-- The rules on a statement that is not empty.
unfoldable pub classify_bare : Str → SetAction
unfolding take_word to_ascii_uppercase classify_keyword
classify_bare normalized =
    let (keyword, rest) = take_word normalized in
    classify_keyword (to_ascii_uppercase keyword) normalized rest

abbrev pub classify_trimmed : Str → SetAction
classify_trimmed [] = nothing
classify_trimmed (c ∷ cs) = classify_bare (c ∷ cs)

unfoldable pub classify_set : Str → SetAction
unfolding bare classify_bare
classify_set statement = classify_trimmed (bare statement)

abbrev pub first_word_is : String → Str → Bool
first_word_is word s = eq_ignore_ascii_case (take_word s).0 (codes word)

unfoldable pub undoes_the_batch : Str → Bool
unfolding strip_leading_noise take_word eq_ignore_ascii_case
undoes_the_batch statement =
    first_word_is "ROLLBACK" (strip_leading_noise statement)
    || first_word_is "ABORT" (strip_leading_noise statement)

abbrev pub keep : SetAction → List SetAction → List SetAction
keep nothing more = more
keep action more = action ∷ more

-- The actions of the statements, without those that are none.
unfoldable pub actions_of : List Str → List SetAction
unfolding classify_set
actions_of [] = []
actions_of (s ∷ more) = keep (classify_set s) (actions_of more)

unfoldable pub any_undoes : List Str → Bool
unfolding undoes_the_batch
any_undoes [] = false
any_undoes (s ∷ more) = let later = any_undoes more in undoes_the_batch s || later

abbrev pub unless_undone : List SetAction → Bool → List SetAction
unless_undone [] undone = []
unless_undone (a ∷ more) undone = if undone then unreplayable ∷ [] else a ∷ more

unfoldable pub actions_for_sql : Str → List SetAction
unfolding split_statements actions_of any_undoes
actions_for_sql sql =
    unless_undone (actions_of (split_statements sql)) (any_undoes (split_statements sql))

abbrev pub read_only_guc : Str
read_only_guc = codes "default_transaction_read_only"

unfoldable pub has_read_write : List Str → Bool
unfolding same
has_read_write [] = false
has_read_write (w ∷ []) = false
has_read_write (w ∷ x ∷ more) =
    let later = has_read_write (x ∷ more) in
    (same w (codes "READ") && same x (codes "WRITE")) || later

unfoldable pub mentions_read_write : Str → Bool
unfolding strip_literals to_ascii_uppercase split_whitespace has_read_write
mentions_read_write statement =
    has_read_write (split_whitespace (to_ascii_uppercase (strip_literals statement)))

-- What a `SET` or `RESET` does to the parameter that makes PostgreSQL refuse writes.
abbrev pub action_defeats : SetAction → Str → Bool
action_defeats (track name statement) s = same name read_only_guc
action_defeats (reset name) s = same name read_only_guc
action_defeats reset_all s = true
action_defeats (pin reason) s = mentions_read_write s
action_defeats nothing s = mentions_read_write s

-- The rules on a statement without the noise before it.
unfoldable pub bare_defeats_read_only : Str → Bool
unfolding take_word same to_ascii_uppercase classify_set mentions_read_write eq_ignore_ascii_case
bare_defeats_read_only normalized =
    let (keyword, rest) = take_word normalized in
    let upper = to_ascii_uppercase keyword in
    if same upper (codes "SET") || same upper (codes "RESET")
    then action_defeats (classify_set normalized) normalized
    else if same upper (codes "BEGIN")
    then mentions_read_write normalized
    else if same upper (codes "START")
    then second_word_is "TRANSACTION" rest && mentions_read_write normalized
    else false

unfoldable pub statement_defeats_read_only : Str → Bool
unfolding strip_leading_noise bare_defeats_read_only
statement_defeats_read_only statement = bare_defeats_read_only (strip_leading_noise statement)

unfoldable pub any_defeats : List Str → Bool
unfolding statement_defeats_read_only
any_defeats [] = false
any_defeats (s ∷ more) = let later = any_defeats more in statement_defeats_read_only s || later

unfoldable pub defeats_read_only : Str → Bool
unfolding split_statements any_defeats
defeats_read_only sql = any_defeats (split_statements sql)
