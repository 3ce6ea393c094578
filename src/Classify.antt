-- ===== src/Classify.antt =====
-- crates/havuz-pg/src/classify.rs: what a message costs, and where a statement may run.
pub mod Batch
mod Tests
use Prim.Native.String.{String}
use havuz.Base.{
  ℕ, Bool, true, false, not, ◌&&◌, ◌||◌, Option, none, some, List, [], ◌∷◌, ◌++◌, ◌==◌,
  if◌then◌else◌, get_elem?,
}
use havuz.Text.{Bytes, same, split_nul}
use havuz.Chars.{
  Str, codes, to_ascii_uppercase, to_ascii_lowercase, starts_with, contains, split_whitespace,
  is_blank, from_utf8_lossy,
}
use havuz.Protocol.{Message}
use havuz.Flow.{
  PinReason, listen, temp_table, advisory_lock, server_side_prepare, holdable_cursor, bulk_transfer,
  replication,
}
use havuz.Routing.{RouteIntent, read, write}
use havuz.Lexer.{split_statements, strip_leading_noise, strip_literals, leading_words}
use havuz.SessionParams.{SetAction, pin, classify_set}

pub data ClientIntent : Type 0 where
  terminate sync_point pipelined ordinary : ClientIntent
  pins : PinReason → ClientIntent

abbrev word_is : String → Option Str → Bool
word_is word none = false
word_is word (some w) = same w (codes word)

abbrev either_word : String → String → Option Str → Bool
either_word a b w = word_is a w || word_is b w

abbrev pub pin_of : SetAction → Option PinReason
pin_of (pin reason) = some reason
pin_of action = none

-- Every occurrence of `pg_advisory_` is looked at; none overlaps another.
unfoldable pub mentions_lock : Str → Bool
unfolding starts_with
mentions_lock [] = false
mentions_lock (c ∷ cs) =
    let later = mentions_lock cs in
    (starts_with (codes "pg_advisory_") (c ∷ cs)
      && not (starts_with (codes "pg_advisory_xact_") (c ∷ cs))
      && not (starts_with (codes "pg_advisory_unlock") (c ∷ cs)))
    || later

unfoldable pub mentions_session_advisory_lock : Str → Bool
unfolding to_ascii_lowercase mentions_lock
mentions_session_advisory_lock sql = mentions_lock (to_ascii_lowercase sql)

-- The `match` on the leading words of a statement.
unfoldable pub words_pin_reason : Str → List Str → Option PinReason
unfolding same classify_set contains to_ascii_uppercase mentions_session_advisory_lock
words_pin_reason normalized words =
    let first = get_elem? words 0 in
    let second = get_elem? words 1 in
    let third = get_elem? words 2 in
    if either_word "SET" "RESET" first
    then pin_of (classify_set normalized)
    else if either_word "LISTEN" "UNLISTEN" first
    then some listen
    else if word_is "CREATE" first
    then (if either_word "TEMP" "TEMPORARY" second
          || (either_word "GLOBAL" "LOCAL" second && either_word "TEMP" "TEMPORARY" third)
        then some temp_table
        else none)
    else if either_word "PREPARE" "DEALLOCATE" first
    then some server_side_prepare
    else if word_is "DECLARE" first
    then (if contains (codes "WITH HOLD") (to_ascii_uppercase normalized)
        then some holdable_cursor
        else none)
    else if word_is "COPY" first
    then some bulk_transfer
    else if word_is "START" first && word_is "REPLICATION" second
    then some replication
    else if mentions_session_advisory_lock normalized
    then some advisory_lock
    else none

unfoldable pub statement_pin_reason : Str → Option PinReason
unfolding strip_leading_noise leading_words words_pin_reason
statement_pin_reason statement = elim (strip_leading_noise statement) [
  | [] ↦ none
  | c ∷ cs ↦ words_pin_reason (c ∷ cs) (leading_words (c ∷ cs) 4)
]

abbrev pub or_reason : Option PinReason → Option PinReason → Option PinReason
or_reason none later = later
or_reason (some reason) later = some reason

-- `find_map`.
unfoldable pub first_reason : List Str → Option PinReason
unfolding statement_pin_reason
first_reason [] = none
first_reason (s ∷ more) = let later = first_reason more in or_reason (statement_pin_reason s) later

unfoldable pub sql_pin_reason : Str → Option PinReason
unfolding split_statements first_reason
sql_pin_reason sql = first_reason (split_statements sql)

unfoldable pub text_body : Bytes → Str
unfolding split_nul from_utf8_lossy
text_body body = from_utf8_lossy (split_nul body).0

unfoldable pub parse_message_sql : Bytes → Option Str
unfolding split_nul from_utf8_lossy
parse_message_sql body = elim (split_nul body).1 [
  | none ↦ none
  | some rest ↦ some (from_utf8_lossy (split_nul rest).0)
]

abbrev pub pins_or : ClientIntent → Option PinReason → ClientIntent
pins_or otherwise none = otherwise
pins_or otherwise (some reason) = pins reason

abbrev reason_in : Option Str → Option PinReason
reason_in none = none
reason_in (some sql) = sql_pin_reason sql

unfoldable pub classify : Message → ClientIntent
unfolding text_body parse_message_sql sql_pin_reason
classify m =
    if m.tag == b'X'
    then terminate
    else if m.tag == b'Q'
    then pins_or sync_point (sql_pin_reason (text_body m.body))
    else if m.tag == b'P'
    then pins_or pipelined (reason_in (parse_message_sql m.body))
    else if m.tag == b'S'
    then sync_point
    else if (m.tag == b'H')
        || (m.tag == b'B')
        || (m.tag == b'D')
        || (m.tag == b'E')
        || (m.tag == b'C')
    then pipelined
    else if (m.tag == b'd') || (m.tag == b'c') || (m.tag == b'f')
    then pins bulk_transfer
    else if m.tag == b'F'
    then sync_point
    else ordinary

-- The words of the text that is scanned for keywords.
unfoldable pub scanned : Str → Str
unfolding strip_literals to_ascii_uppercase
scanned normalized = to_ascii_uppercase (strip_literals normalized)

unfoldable pub opens_transaction : Str → Bool
unfolding scanned strip_leading_noise split_whitespace same
opens_transaction sql =
    let words = split_whitespace (scanned (strip_leading_noise sql)) in
    word_is "BEGIN" (get_elem? words 0)
    || (word_is "START" (get_elem? words 0) && word_is "TRANSACTION" (get_elem? words 1))

unfoldable pub starts_read_only_transaction : Str → Bool
unfolding opens_transaction scanned strip_leading_noise contains
starts_read_only_transaction sql =
    opens_transaction sql && contains (codes "READ ONLY") (scanned (strip_leading_noise sql))

unfoldable pub any_marker : List String → Str → Bool
unfolding contains
any_marker [] text = false
any_marker (m ∷ more) text = let later = any_marker more text in contains (codes m) text || later

abbrev pub locks : List String
locks = "FOR UPDATE" ∷ "FOR NO KEY UPDATE" ∷ "FOR SHARE" ∷ "FOR KEY SHARE" ∷ []

abbrev pub hidden_writes : List String
hidden_writes = "NEXTVAL(" ∷ "SETVAL(" ∷ "PG_ADVISORY" ∷ "SELECT INTO" ∷ " INTO " ∷ []

abbrev pub modifying : List String
modifying = "INSERT " ∷ "UPDATE " ∷ "DELETE " ∷ "MERGE " ∷ []

unfoldable pub is_candidate : Option Str → Bool
unfolding same
is_candidate first =
    word_is "SELECT" first
    || word_is "WITH" first
    || word_is "SHOW" first
    || word_is "EXPLAIN" first
    || word_is "TABLE" first
    || word_is "VALUES" first
    || word_is "FETCH" first

-- The rules on a statement that opens no transaction.
unfoldable pub query_route_intent : Option Str → Str → RouteIntent
unfolding is_candidate any_marker same contains
query_route_intent first text =
    if not (is_candidate first)
    then write
    else if any_marker locks text
    then write
    else if any_marker hidden_writes text
    then write
    else if word_is "WITH" first && any_marker modifying text
    then write
    else if word_is "EXPLAIN" first && contains (codes "ANALYZE") text
    then write
    else read

-- The rules on a statement without the noise before it.
unfoldable pub bare_route_intent : Str → Bool → RouteIntent
unfolding is_blank opens_transaction starts_read_only_transaction leading_words query_route_intent
bare_route_intent normalized session_read_only =
    if is_blank normalized
    then read
    else if opens_transaction normalized
    then (if session_read_only || starts_read_only_transaction normalized then read else write)
    else query_route_intent (get_elem? (leading_words normalized 1) 0) (scanned normalized)

unfoldable pub statement_route_intent : Str → Bool → RouteIntent
unfolding strip_leading_noise bare_route_intent
statement_route_intent statement session_read_only =
    bare_route_intent (strip_leading_noise statement) session_read_only

-- The statements but those that are blank.
unfoldable pub substantive : List Str → List Str
unfolding strip_leading_noise is_blank
substantive [] = []
substantive (s ∷ more) =
    let rest = substantive more in if is_blank (strip_leading_noise s) then rest else s ∷ rest

abbrev pub join_intent : RouteIntent → RouteIntent → RouteIntent
join_intent write more = write
join_intent read more = more

unfoldable pub all_read : List Str → Bool → RouteIntent
unfolding statement_route_intent
all_read [] session_read_only = read
all_read (s ∷ more) session_read_only =
    join_intent (statement_route_intent s session_read_only) (all_read more session_read_only)

abbrev pub batch_intent : List Str → Bool → RouteIntent
batch_intent [] session_read_only = write
batch_intent (s ∷ more) session_read_only = all_read (s ∷ more) session_read_only

unfoldable pub route_intent : Str → Bool → RouteIntent
unfolding split_statements substantive all_read
route_intent sql session_read_only =
    batch_intent (substantive (split_statements sql)) session_read_only
