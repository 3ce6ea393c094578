-- ===== src/SessionParams/Tests.antt =====
-- Statements on session parameters, run.
use havuz.Base.{◌≡◌, refl, true, false, none, some, List, [], ◌∷◌, ◌++◌}
use havuz.Chars.{Str, codes}
use havuz.Protocol.{Message}
use havuz.Flow.{SessionState, session_parameter, transaction}
use havuz.SessionParams.{
  track, reset, pin, classify_set, actions_for_sql, defeats_read_only, read_only_guc,
}
use havuz.SessionParams.Sorted.{Params, get}
use havuz.SessionParams.Startup.{parse_options, set_statement}
use havuz.SessionParams.Client.{from_startup, enforce_read_only, read_only_statement}
use havuz.SessionParams.Relay.{
  RelayEvent, received, settled, borrowed, relay_run, read_only_session, read_only_stays,
}
use havuz.SessionParams.Quoting.{read_literal, plain, value_survives_quoting}

set_is_tracked :
    classify_set (codes " SET SESSION Work_Mem = '4MB' ; ")
    ≡ track (codes "work_mem") (codes "SET SESSION Work_Mem = '4MB'")
unfolding classify_set
set_is_tracked = refl

time_zone_is_timezone :
    classify_set (codes "set time zone 'UTC'")
    ≡ track (codes "timezone") (codes "set time zone 'UTC'")
unfolding classify_set
time_zone_is_timezone = refl

placeholder_pins : classify_set (codes "SET a = $1") ≡ pin session_parameter
unfolding classify_set
placeholder_pins = refl

default_resets : classify_set (codes "SET a TO DEFAULT") ≡ reset (codes "a")
unfolding classify_set
default_resets = refl

rollback_refuses : actions_for_sql (codes "BEGIN; SET a = 1; ROLLBACK") ≡ pin session_parameter ∷ []
unfolding actions_for_sql
rollback_refuses = refl

reset_all_defeats : defeats_read_only (codes "SELECT 1; RESET ALL") ≡ true
unfolding defeats_read_only
reset_all_defeats = refl

read_write_defeats :
    defeats_read_only (codes "start transaction isolation level x, read  write") ≡ true
unfolding defeats_read_only
read_write_defeats = refl

-- The parameter of the one transaction, under its own name.
transaction_parameter_passes : defeats_read_only (codes "SET transaction_read_only = off") ≡ false
unfolding defeats_read_only
transaction_parameter_passes = refl

discard_passes : defeats_read_only (codes "DISCARD ALL") ≡ false
unfolding defeats_read_only
discard_passes = refl

set_config_passes :
    defeats_read_only (codes "SELECT set_config('default_transaction_read_only', 'off', false)")
    ≡ false
unfolding defeats_read_only
set_config_passes = refl

-- The batch leaves the transaction open, and a `ROLLBACK` that follows takes the change back.
open_transaction_is_believed :
    actions_for_sql (codes "BEGIN; SET a = 1") ≡ track (codes "a") (codes "SET a = 1") ∷ []
unfolding actions_for_sql
open_transaction_is_believed = refl

backslash_hides_set :
    defeats_read_only (codes "SELECT '\\'; SET default_transaction_read_only = off; SELECT '1'")
    ≡ false
unfolding defeats_read_only
backslash_hides_set = refl

options_are_read :
    parse_options (codes "-c search_path=my\\ app --work_mem=4MB -x")
    ≡ (codes "search_path", codes "my app") ∷ (codes "work_mem", codes "4MB") ∷ []
unfolding parse_options
options_are_read = refl

abbrev startup : List (Str × Str)
startup = (codes "user", codes "bob") ∷ (codes "application_name", codes "o'hare") ∷ []

startup_is_seeded :
    (from_startup startup).desired
    ≡ (codes "application_name", codes "SET application_name = 'o''hare'") ∷ []
unfolding from_startup
startup_is_seeded = refl

abbrev before : Params
before =
    (codes "application_name", codes "SET application_name = 'x'")
    ∷ (codes "work_mem", codes "SET work_mem = 1")
    ∷ []

abbrev ready : List Message
ready =
    record { tag = b'C'; body = codes "SET" ++ 0 ∷ [] }
    ∷ record { tag = b'Z'; body = b'I' ∷ [] }
    ∷ []

abbrev idle : SessionState
idle = record {
  mode = transaction;
  in_transaction = false;
  pin = none;
  broken = false;
  exchanges = 0;
}

abbrev query : Str → Message
query sql = record { tag = b'Q'; body = sql ++ 0 ∷ [] }

abbrev events : List RelayEvent
events =
    received (query (codes "SET work_mem = 2"))
    ∷ settled false
    ∷ received (query (codes "RESET ALL"))
    ∷ settled false
    ∷ borrowed before ready
    ∷ []

-- The `SET` is believed, and the `RESET ALL` is not sent.
guarded_run :
    (relay_run true (read_only_session startup idle []) events).client.desired
    ≡ (codes "application_name", codes "SET application_name = 'o''hare'")
      ∷ (read_only_guc, read_only_statement)
      ∷ (codes "work_mem", codes "SET work_mem = 2")
      ∷ []
unfolding relay_run enforce_read_only from_startup
guarded_run = refl

read_only_stays_example :
    get read_only_guc (relay_run true (read_only_session startup idle []) events).client.desired
    ≡ some read_only_statement
read_only_stays_example = read_only_stays startup idle [] events

value_survives_quoting_example :
    (literal : Str) × (set_statement (codes "application_name") (codes "o'; DROP")
      ≡ codes "SET " ++ (codes "application_name" ++ (codes " = '" ++ literal)))
    × (read_literal false plain literal ≡ some (codes "o'; DROP", []))
value_survives_quoting_example =
    value_survives_quoting false (codes "application_name") (codes "o'; DROP")
      (refl, (refl, (refl, (refl, (refl, (refl, (refl, (refl, tt))))))))

-- A statement that ends in a comment is remembered with it, and is no threat to a read-only session
-- by itself. In the joined text it hides the statement behind it, which is another then.
comment_is_remembered :
    (classify_set (codes "SET application_name = 'x' --")
      ≡ track (codes "application_name") (codes "SET application_name = 'x' --"))
    × (defeats_read_only (codes "SET application_name = 'x' --") ≡ false)
unfolding classify_set defeats_read_only
comment_is_remembered = (refl, refl)
