-- ===== src/Classify/Tests.antt =====
-- Messages and statements classified.
use havuz.Base.{◌≡◌, refl, true, false, none, some, [], ◌∷◌, ◌++◌, map}
use havuz.Chars.{Str, codes}
use havuz.Lexer.{split_statements}
use havuz.Flow.{listen, temp_table, advisory_lock}
use havuz.Routing.{read, write}
use havuz.Classify.{classify, pins, sql_pin_reason, route_intent, substantive}
use havuz.Classify.Batch.{unanimous, routes_statement_by_statement}

listen_pins :
    classify (record { tag = b'Q'; body = codes "select 1; listen jobs" ++ 0 ∷ [] }) ≡ pins listen
unfolding classify
listen_pins = refl

literal_does_not : sql_pin_reason (codes "SELECT 'LISTEN; LISTEN x'") ≡ none
unfolding sql_pin_reason
literal_does_not = refl

temp_pins : sql_pin_reason (codes "/* app */ create local temporary table t ()") ≡ some temp_table
unfolding sql_pin_reason
temp_pins = refl

lock_pins : sql_pin_reason (codes "SELECT PG_ADVISORY_LOCK(1)") ≡ some advisory_lock
unfolding sql_pin_reason
lock_pins = refl

-- A lock of the session all the same.
try_lock_is_missed : sql_pin_reason (codes "SELECT pg_try_advisory_lock(1)") ≡ none
unfolding sql_pin_reason
try_lock_is_missed = refl

row_lock_is_a_write : route_intent (codes "SELECT 1 FOR UPDATE") false ≡ write
unfolding route_intent
row_lock_is_a_write = refl

-- One space is looked for where SQL allows any blanks.
wide_row_lock_is_missed : route_intent (codes "SELECT 1 FROM t FOR\nUPDATE") false ≡ read
unfolding route_intent
wide_row_lock_is_missed = refl

begin_follows_the_session :
    (route_intent (codes "BEGIN; SELECT 1") false ≡ write)
    × (route_intent (codes "BEGIN; SELECT 1") true ≡ read)
unfolding route_intent
begin_follows_the_session = (refl, refl)

-- A backslash before the closing quote hides the statements after it.
backslash_hides :
    (sql_pin_reason (codes "SELECT '\\'; LISTEN x; SELECT '1'") ≡ none)
    × (route_intent (codes "SELECT '\\'; DELETE FROM t; SELECT '1'") false ≡ read)
unfolding sql_pin_reason route_intent
backslash_hides = (refl, refl)

abbrev batch : Str
batch = codes "SELECT 'LISTEN'; BEGIN; LISTEN jobs; "

routes_statement_by_statement_example :
    route_intent batch true
    ≡ unanimous (map (λ s. route_intent s true) (substantive (split_statements batch)))
routes_statement_by_statement_example = routes_statement_by_statement batch true

discard_is_not_pinned : sql_pin_reason (codes "DISCARD ALL") ≡ none
unfolding sql_pin_reason
discard_is_not_pinned = refl
