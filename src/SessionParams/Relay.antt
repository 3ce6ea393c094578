-- ===== src/SessionParams/Relay.antt =====
-- crates/havuz-pg/src/txn.rs: what the relay of a session does with its client's parameters, message
-- by message.
use havuz.Base.{
  ◌≡◌, refl, ◌∙◌, Bool, true, false, ◌&&◌, Option, none, some, List, [], ◌∷◌, ◌++◌, ◌==◌,
  if◌then◌else◌, Bool-cases, inl, inr,
}
use havuz.Text.{split_nul}
use havuz.Chars.{Str, from_utf8_lossy}
use havuz.Protocol.{Message}
use havuz.Flow.{SessionState, FlowEvent, observe, must_pin}
use havuz.Classify.{ClientIntent, pins, classify}
use havuz.SessionParams.{
  SetAction, track, reset, reset_all, pin, nothing, defeats_read_only, read_only_guc,
  actions_for_sql,
}
use havuz.SessionParams.Sorted.{Params, get, get-insert, get-remove}
use havuz.SessionParams.Client.{
  ClientParams, from_startup, enforce_read_only, read_only_statement, stage, stage_all,
  stage_actions, stage_params, settle_params, settle_cases, apply_action, apply_all, commit_pending,
  has_pending,
}
use havuz.SessionParams.Replay.{sync_params}
use havuz.SessionParams.ReadOnly.{Spares, AllSpare, actions_Spare}

-- The text of a `Query` or a `Parse`; the other messages carry none.
unfoldable pub param_sql : Message → Option Str
unfolding split_nul from_utf8_lossy
param_sql m =
    if m.tag == b'Q'
    then some (from_utf8_lossy (split_nul m.body).0)
    else if m.tag == b'P'
    then elim (split_nul m.body).1 [
      | none ↦ none
      | some rest ↦ some (from_utf8_lossy (split_nul rest).0)
    ]
    else none

-- What happens to a session: a message of its client, what its state is told, the end of an exchange
-- (with an error or not), and a backend taken from the pool, with the parameters recorded for it and
-- its replies.
pub data RelayEvent : Type 0 where
  received : Message → RelayEvent
  observed : FlowEvent → RelayEvent
  settled : (errored : Bool) → RelayEvent
  borrowed : (before : Params) (replies : List Message) → RelayEvent

-- A session's parameters, its state and what is recorded for the backend it holds.
pub record Relay : Type 0 where
  pub client : ClientParams
  pub state : SessionState
  pub applied : Params

abbrev with_client : Relay → ClientParams × SessionState → Relay
with_client r (c, state) = record r { client = c; state = state }

abbrev with_backend : Relay → ClientParams × Params → Relay
with_backend r (c, applied) = record r { client = c; applied = applied }

abbrev pub observe_intent : SessionState → ClientIntent → SessionState
observe_intent state (pins reason) = observe state (must_pin reason)
observe_intent state intent = state

-- A text that would make a read-only session writable is answered with an error and goes no further.
unfoldable pub take_sql : Bool → Relay → ClientIntent → Option Str → Relay
unfolding defeats_read_only stage_params observe
take_sql read_only r intent none = record r { state = observe_intent r.state intent }
take_sql read_only r intent (some sql) =
    if read_only && defeats_read_only sql
    then r
    else with_client r (stage_params (r.client, observe_intent r.state intent) sql)

unfoldable pub relay_step : Bool → Relay → RelayEvent → Relay
unfolding take_sql classify param_sql observe settle_params sync_params
relay_step read_only r (received m) = take_sql read_only r (classify m) (param_sql m)
relay_step read_only r (observed e) = record r { state = observe r.state e }
relay_step read_only r (settled errored) =
    with_backend r (settle_params (r.client, r.applied) errored)
relay_step read_only r (borrowed before replies) = record r {
  applied = (sync_params r.client before replies).recorded;
}

unfoldable pub relay_run : Bool → Relay → List RelayEvent → Relay
unfolding relay_step
relay_run read_only r [] = r
relay_run read_only r (e ∷ more) = relay_run read_only (relay_step read_only r e) more

-- The client wants the server to refuse writes, and nothing that is staged changes that.
abbrev IsGuarded : ClientParams → Type 0
IsGuarded c = (get read_only_guc c.desired ≡ some read_only_statement) × AllSpare c.pending

append_AllSpare :
    (xs : List SetAction) (a : SetAction) → AllSpare xs → Spares a → AllSpare (xs ++ a ∷ [])
append_AllSpare [] a all h = (h, tt)
append_AllSpare (x ∷ xs) a all h = (all.0, append_AllSpare xs a all.1 h)

stage_all-IsGuarded :
    (c : ClientParams) (actions : List SetAction)
    → AllSpare actions
    → IsGuarded c
    → IsGuarded (stage_all c actions)
unfolding stage_all
stage_all-IsGuarded c [] all g = g
stage_all-IsGuarded c (pin reason ∷ more) all g = stage_all-IsGuarded c more all.1 g
stage_all-IsGuarded c (nothing ∷ more) all g = stage_all-IsGuarded c more all.1 g
stage_all-IsGuarded c (track name statement ∷ more) all g =
    stage_all-IsGuarded (stage c (track name statement)) more all.1
      (g.0, append_AllSpare c.pending (track name statement) g.1 all.0)
stage_all-IsGuarded c (reset name ∷ more) all g =
    stage_all-IsGuarded (stage c (reset name)) more all.1
      (g.0, append_AllSpare c.pending (reset name) g.1 all.0)
stage_all-IsGuarded c (reset_all ∷ more) all g =
    stage_all-IsGuarded (stage c reset_all) more all.1
      (g.0, append_AllSpare c.pending reset_all g.1 all.0)

apply_action_keeps :
    (desired : Params) (a : SetAction)
    → Spares a
    → get read_only_guc (apply_action desired a) ≡ get read_only_guc desired
unfolding apply_action
apply_action_keeps desired (track name statement) h =
    get-insert read_only_guc name statement desired ∙ rw h refl
apply_action_keeps desired (reset name) h = get-remove read_only_guc name desired ∙ rw h refl
apply_action_keeps desired reset_all h = absurd (cc)
apply_action_keeps desired (pin reason) h = refl
apply_action_keeps desired nothing h = refl

apply_all_keeps :
    (desired : Params) (actions : List SetAction)
    → AllSpare actions
    → get read_only_guc (apply_all desired actions) ≡ get read_only_guc desired
unfolding apply_all
apply_all_keeps desired [] all = refl
apply_all_keeps desired (a ∷ more) all =
    apply_all_keeps (apply_action desired a) more all.1 ∙ apply_action_keeps desired a all.0

stage_actions-IsGuarded :
    (c : ClientParams) (state : SessionState) (actions : List SetAction)
    → AllSpare actions
    → IsGuarded c
    → IsGuarded (stage_actions c state actions).0
unfolding stage_actions
stage_actions-IsGuarded c state [] all g = g
stage_actions-IsGuarded c state (a ∷ more) all g = elim (Bool-cases state.in_transaction) [
  | inl e ↦ rw e g
  | inr e ↦ rw e (stage_all-IsGuarded c (a ∷ more) all g)
]

settle_cases-IsGuarded :
    (pending errored : Bool) (c : ClientParams) (applied : Params)
    → IsGuarded c
    → IsGuarded (settle_cases pending errored c applied).0
unfolding settle_cases commit_pending
settle_cases-IsGuarded false errored c applied g = g
settle_cases-IsGuarded true true c applied g = (g.0, tt)
settle_cases-IsGuarded true false c applied g = (apply_all_keeps c.desired c.pending g.1 ∙ g.0, tt)

take_sql-IsGuarded :
    (r : Relay) (intent : ClientIntent) (text : Option Str)
    → IsGuarded r.client
    → IsGuarded (take_sql true r intent text).client
unfolding take_sql stage_params
take_sql-IsGuarded r intent none g = g
take_sql-IsGuarded r intent (some sql) g = elim (Bool-cases (defeats_read_only sql)) [
  | inl refused ↦ rw refused g
  | inr passes ↦ rw passes (
      stage_actions-IsGuarded r.client (observe_intent r.state intent) (actions_for_sql sql)
        (actions_Spare sql passes) g)
]

relay_step-IsGuarded :
    (r : Relay) (e : RelayEvent) → IsGuarded r.client → IsGuarded (relay_step true r e).client
unfolding relay_step settle_params
relay_step-IsGuarded r (received m) g = take_sql-IsGuarded r (classify m) (param_sql m) g
relay_step-IsGuarded r (observed e) g = g
relay_step-IsGuarded r (settled errored) g =
    settle_cases-IsGuarded (has_pending r.client) errored r.client r.applied g
relay_step-IsGuarded r (borrowed before replies) g = g

relay_run-IsGuarded :
    (r : Relay) (events : List RelayEvent)
    → IsGuarded r.client
    → IsGuarded (relay_run true r events).client
unfolding relay_run
relay_run-IsGuarded r [] g = g
relay_run-IsGuarded r (e ∷ more) g =
    relay_run-IsGuarded (relay_step true r e) more (relay_step-IsGuarded r e g)

enforced-IsGuarded :
    (params : List (Str × Str)) → IsGuarded (enforce_read_only (from_startup params))
unfolding enforce_read_only from_startup
enforced-IsGuarded params =
    (get-insert read_only_guc read_only_guc read_only_statement (from_startup params).desired, tt)

abbrev pub read_only_session : List (Str × Str) → SessionState → Params → Relay
read_only_session params state applied = record {
  client = enforce_read_only (from_startup params);
  state = state;
  applied = applied;
}

-- Whatever the client's startup packet asks for, whatever it sends and however its exchanges end, a
-- read-only client goes on wanting the parameter that makes PostgreSQL refuse writes.
pub read_only_stays :
    (params : List (Str × Str)) (state : SessionState) (applied : Params) (events : List RelayEvent)
    → get read_only_guc
        (relay_run true (read_only_session params state applied) events).client.desired
      ≡ some read_only_statement
read_only_stays params state applied events =
    (relay_run-IsGuarded (read_only_session params state applied) events
      (enforced-IsGuarded params)).0
