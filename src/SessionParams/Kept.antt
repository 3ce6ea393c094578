-- ===== src/SessionParams/Kept.antt =====
-- The map of wanted parameters stays in order and its names fit to be written
-- (crates/havuz-pg/src/params.rs, crates/havuz-pg/src/txn.rs).
use havuz.Base.{
  ◌≡◌, refl, Bool, true, false, ◌&&◌, Option, none, some, List, [], ◌∷◌, ◌++◌, Bool-cases, inl, inr,
}
use havuz.Text.{same}
use havuz.Protocol.{Message}
use havuz.Chars.{Str, codes, to_ascii_lowercase, eq_ignore_ascii_case}
use havuz.Flow.{SessionState}
use havuz.SessionParams.{
  SetAction, track, reset, reset_all, pin, nothing, is_parameter_name, actions_for_sql,
  read_only_guc, defeats_read_only,
}
use havuz.SessionParams.Sorted.{
  Params, less, insert, remove, IsOrdered, insert-IsOrdered, remove-IsOrdered,
}
use havuz.SessionParams.Startup.{
  seed, seed_all, seed_startup, seed_entry, not_a_parameter, parse_options, set_statement,
}
use havuz.SessionParams.Client.{
  ClientParams, from_startup, enforce_read_only, read_only_statement, stage, stage_all,
  stage_actions, stage_params, settle_params, settle_cases, apply_action, apply_all, commit_pending,
  has_pending,
}
use havuz.SessionParams.Replay.{delta, sync_params, sync_batch, recorded_after, await_replies}
use havuz.SessionParams.Named.{
  AllNamed, lower_name, IsNamed, AllActionsNamed, actions-AllActionsNamed,
}
use havuz.Classify.{ClientIntent, classify}
use havuz.SessionParams.Relay.{
  Relay, RelayEvent, received, observed, settled, borrowed, relay_step, relay_run, take_sql,
  observe_intent, param_sql, read_only_session,
}

-- In the order of the names, each once, and each a name that needs no quoting.
abbrev pub IsKept : Params → Type 0
IsKept m = IsOrdered m × AllNamed m

insert-AllNamed :
    (name statement : Str) (m : Params)
    → is_parameter_name name ≡ true
    → AllNamed m
    → AllNamed (insert name statement m)
unfolding insert
insert-AllNamed name statement [] h all = (h, tt)
insert-AllNamed name statement ((j, w) ∷ m) h all = elim (Bool-cases (same j name)) [
  | inl e ↦ rw e (h, all.1)
  | inr e ↦ elim (Bool-cases (less name j)) [
    | inl l ↦ rw (e, l) (h, all)
    | inr l ↦ rw (e, l) (all.0, insert-AllNamed name statement m h all.1)
  ]
]

remove-AllNamed : (name : Str) (m : Params) → AllNamed m → AllNamed (remove name m)
unfolding remove
remove-AllNamed name [] all = tt
remove-AllNamed name ((j, w) ∷ m) all = elim (Bool-cases (same j name)) [
  | inl e ↦ rw e (remove-AllNamed name m all.1)
  | inr e ↦ rw e (all.0, remove-AllNamed name m all.1)
]

insert-IsKept :
    (name statement : Str) (m : Params)
    → is_parameter_name name ≡ true
    → IsKept m
    → IsKept (insert name statement m)
insert-IsKept name statement m h k =
    (insert-IsOrdered name statement m k.0, insert-AllNamed name statement m h k.1)

apply_action-IsKept :
    (m : Params) (a : SetAction) → IsNamed a → IsKept m → IsKept (apply_action m a)
unfolding apply_action
apply_action-IsKept m (track name statement) h k = insert-IsKept name statement m h k
apply_action-IsKept m (reset name) h k = (remove-IsOrdered name m k.0, remove-AllNamed name m k.1)
apply_action-IsKept m reset_all h k = (tt, tt)
apply_action-IsKept m (pin reason) h k = k
apply_action-IsKept m nothing h k = k

apply_all-IsKept :
    (m : Params) (actions : List SetAction)
    → AllActionsNamed actions
    → IsKept m
    → IsKept (apply_all m actions)
unfolding apply_all
apply_all-IsKept m [] all k = k
apply_all-IsKept m (a ∷ more) all k =
    apply_all-IsKept (apply_action m a) more all.1 (apply_action-IsKept m a all.0 k)

seed-IsKept : (m : Params) (key value : Str) → IsKept m → IsKept (seed m key value)
unfolding seed
seed-IsKept m key value k = elim (Bool-cases (is_parameter_name key)) [
  | inl e ↦ rw e (
      insert-IsKept (to_ascii_lowercase key) (set_statement (to_ascii_lowercase key) value) m
        (lower_name key e) k)
  | inr e ↦ rw e k
]

seed_all-IsKept : (m : Params) (pairs : List (Str × Str)) → IsKept m → IsKept (seed_all m pairs)
unfolding seed_all
seed_all-IsKept m [] k = k
seed_all-IsKept m ((key, value) ∷ more) k =
    seed_all-IsKept (seed m key value) more (seed-IsKept m key value k)

seed_entry-IsKept : (m : Params) (key value : Str) → IsKept m → IsKept (seed_entry m key value)
seed_entry-IsKept m key value k = elim (Bool-cases (eq_ignore_ascii_case key (codes "options"))) [
  | inl e ↦ rw e (seed_all-IsKept m (parse_options value) k)
  | inr e ↦ elim (Bool-cases (not_a_parameter key)) [
    | inl f ↦ rw (e, f) k
    | inr f ↦ rw (e, f) (seed-IsKept m key value k)
  ]
]

seed_startup-IsKept :
    (m : Params) (pairs : List (Str × Str)) → IsKept m → IsKept (seed_startup m pairs)
unfolding seed_startup
seed_startup-IsKept m [] k = k
seed_startup-IsKept m ((key, value) ∷ more) k =
    seed_startup-IsKept (seed_entry m key value) more (seed_entry-IsKept m key value k)

abbrev pub IsKeptClient : ClientParams → Type 0
IsKeptClient c = IsKept c.desired × AllActionsNamed c.pending

append-Named :
    (xs : List SetAction) (a : SetAction)
    → AllActionsNamed xs
    → IsNamed a
    → AllActionsNamed (xs ++ a ∷ [])
append-Named [] a all h = (h, tt)
append-Named (x ∷ xs) a all h = (all.0, append-Named xs a all.1 h)

stage_all-IsKept :
    (c : ClientParams) (actions : List SetAction)
    → AllActionsNamed actions
    → IsKeptClient c
    → IsKeptClient (stage_all c actions)
unfolding stage_all
stage_all-IsKept c [] all g = g
stage_all-IsKept c (pin reason ∷ more) all g = stage_all-IsKept c more all.1 g
stage_all-IsKept c (nothing ∷ more) all g = stage_all-IsKept c more all.1 g
stage_all-IsKept c (track name statement ∷ more) all g =
    stage_all-IsKept (stage c (track name statement)) more all.1
      (g.0, append-Named c.pending (track name statement) g.1 all.0)
stage_all-IsKept c (reset name ∷ more) all g =
    stage_all-IsKept (stage c (reset name)) more all.1
      (g.0, append-Named c.pending (reset name) g.1 all.0)
stage_all-IsKept c (reset_all ∷ more) all g =
    stage_all-IsKept (stage c reset_all) more all.1
      (g.0, append-Named c.pending reset_all g.1 all.0)

stage_actions-IsKept :
    (c : ClientParams) (state : SessionState) (actions : List SetAction)
    → AllActionsNamed actions
    → IsKeptClient c
    → IsKeptClient (stage_actions c state actions).0
unfolding stage_actions
stage_actions-IsKept c state [] all g = g
stage_actions-IsKept c state (a ∷ more) all g = elim (Bool-cases state.in_transaction) [
  | inl e ↦ rw e g
  | inr e ↦ rw e (stage_all-IsKept c (a ∷ more) all g)
]

-- What is kept for the client, and what is recorded for the backend.
abbrev pub IsKeptRelay : Relay → Type 0
IsKeptRelay r = IsKeptClient r.client × IsKept r.applied

settle_cases-IsKept :
    (pending errored : Bool) (c : ClientParams) (applied : Params)
    → IsKeptClient c
    → IsKept applied
    → IsKeptClient (settle_cases pending errored c applied).0
      × IsKept (settle_cases pending errored c applied).1
unfolding settle_cases commit_pending
settle_cases-IsKept false errored c applied g k = (g, k)
settle_cases-IsKept true true c applied g k = ((g.0, tt), k)
settle_cases-IsKept true false c applied g k =
    let now : IsKept (apply_all c.desired c.pending) =
      apply_all-IsKept c.desired c.pending g.1 g.0 in
    ((now, tt), now)

recorded-IsKept :
    (o : Option (Option Str)) (before desired : Params)
    → IsKept before
    → IsKept desired
    → IsKept (recorded_after o before desired)
recorded-IsKept none before desired b d = b
recorded-IsKept (some none) before desired b d = d
recorded-IsKept (some (some detail)) before desired b d = b

sync_batch-IsKept :
    (desired before : Params) (statements : List Str) (replies : List Message)
    → IsKept before
    → IsKept desired
    → IsKept (sync_batch desired before statements replies).recorded
unfolding sync_batch
sync_batch-IsKept desired before [] replies b d = b
sync_batch-IsKept desired before (s ∷ more) replies b d =
    recorded-IsKept (await_replies none replies) before desired b d

take_sql-IsKept :
    (read_only : Bool) (r : Relay) (intent : ClientIntent) (text : Option Str)
    → IsKeptRelay r
    → IsKeptRelay (take_sql read_only r intent text)
unfolding take_sql stage_params
take_sql-IsKept read_only r intent none g = g
take_sql-IsKept read_only r intent (some sql) g =
    elim (Bool-cases (read_only && defeats_read_only sql)) [
      | inl e ↦ rw e g
      | inr e ↦ rw e (
        stage_actions-IsKept r.client (observe_intent r.state intent) (actions_for_sql sql)
            (actions-AllActionsNamed sql) g.0,
        g.1,
      )
    ]

-- The maps recorded for the backends that are borrowed are kept.
abbrev pub AllKept : List RelayEvent → Type 0
AllKept [] = Unit {0}
AllKept (borrowed before replies ∷ more) = IsKept before × AllKept more
AllKept (received m ∷ more) = AllKept more
AllKept (observed e ∷ more) = AllKept more
AllKept (settled errored ∷ more) = AllKept more

relay_run-IsKept :
    (read_only : Bool) (r : Relay) (events : List RelayEvent)
    → AllKept events
    → IsKeptRelay r
    → IsKeptRelay (relay_run read_only r events)
unfolding relay_run relay_step settle_params sync_params
relay_run-IsKept read_only r [] all g = g
relay_run-IsKept read_only r (received m ∷ more) all g =
    relay_run-IsKept read_only (take_sql read_only r (classify m) (param_sql m)) more all
      (take_sql-IsKept read_only r (classify m) (param_sql m) g)
relay_run-IsKept read_only r (observed e ∷ more) all g =
    relay_run-IsKept read_only (relay_step read_only r (observed e)) more all g
relay_run-IsKept read_only r (settled errored ∷ more) all g =
    relay_run-IsKept read_only (relay_step read_only r (settled errored)) more all
      (settle_cases-IsKept (has_pending r.client) errored r.client r.applied g.0 g.1)
relay_run-IsKept read_only r (borrowed before replies ∷ more) all g =
    relay_run-IsKept read_only (relay_step read_only r (borrowed before replies)) more all.1 (
      g.0,
      sync_batch-IsKept r.client.desired before (delta r.client.desired before) replies all.0 g.0.0,
    )

-- A session that begins with what its client's startup packet asks for.
abbrev pub startup_session : List (Str × Str) → SessionState → Params → Relay
startup_session params state applied = record {
  client = from_startup params;
  state = state;
  applied = applied;
}

guc_named : is_parameter_name read_only_guc ≡ true
unfolding is_parameter_name
guc_named = refl

pub read_only-IsKept :
    (params : List (Str × Str)) (state : SessionState) (applied : Params) (events : List RelayEvent)
    → IsKept applied
    → AllKept events
    → IsKept (relay_run true (read_only_session params state applied) events).client.desired
unfolding enforce_read_only from_startup
read_only-IsKept params state applied events k all =
    (relay_run-IsKept true (read_only_session params state applied) events all (
      (
        insert-IsKept read_only_guc read_only_statement (from_startup params).desired guc_named
            (seed_startup-IsKept [] params (tt, tt)),
        tt,
      ),
      k,
    )).0.0
