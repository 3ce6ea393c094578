-- ===== src/SessionParams/Client.antt =====
-- crates/havuz-pg/src/params.rs: `ClientParams`; and from crates/havuz-pg/src/txn.rs when its changes
-- are staged, believed or forgotten.
use havuz.Base.{Bool, true, false, List, [], ◌∷◌, ◌++◌, if◌then◌else◌}
use havuz.Chars.{Str, codes}
use havuz.SessionParams.{
  SetAction, track, reset, reset_all, pin, nothing, actions_for_sql, read_only_guc,
}
use havuz.SessionParams.Sorted.{Params, insert, remove}
use havuz.SessionParams.Startup.{seed_startup}
use havuz.Flow.{SessionState, observe, must_pin, session_parameter}

pub record ClientParams : Type 0 where
  pub desired : Params
  pub pending : List SetAction

abbrev pub new : ClientParams
new = record { desired = []; pending = [] }

unfoldable pub from_startup : List (Str × Str) → ClientParams
unfolding seed_startup
from_startup params = record { desired = seed_startup [] params; pending = [] }

abbrev pub read_only_statement : Str
read_only_statement = codes "SET default_transaction_read_only = 'on'"

unfoldable pub enforce_read_only : ClientParams → ClientParams
unfolding insert
enforce_read_only c = record c { desired = insert read_only_guc read_only_statement c.desired }

abbrev pub stage : ClientParams → SetAction → ClientParams
stage c nothing = c
stage c action = record c { pending = c.pending ++ action ∷ [] }

unfoldable pub apply_action : Params → SetAction → Params
unfolding insert remove
apply_action desired (track name statement) = insert name statement desired
apply_action desired (reset name) = remove name desired
apply_action desired reset_all = []
apply_action desired (pin reason) = desired
apply_action desired nothing = desired

unfoldable pub apply_all : Params → List SetAction → Params
unfolding apply_action
apply_all desired [] = desired
apply_all desired (a ∷ more) = apply_all (apply_action desired a) more

unfoldable pub commit_pending : ClientParams → ClientParams
unfolding apply_all
commit_pending c = record { desired = apply_all c.desired c.pending; pending = [] }

abbrev pub discard_pending : ClientParams → ClientParams
discard_pending c = record c { pending = [] }

abbrev pub has_pending : ClientParams → Bool
has_pending c = elim c.pending [ [] ↦ false | a ∷ more ↦ true ]

-- The actions of a statement but the pins, which the session's state has already taken up.
unfoldable pub stage_all : ClientParams → List SetAction → ClientParams
stage_all c [] = c
stage_all c (pin reason ∷ more) = stage_all c more
stage_all c (action ∷ more) = stage_all (stage c action) more

-- In an open transaction the session is pinned instead.
unfoldable pub stage_actions :
    ClientParams → SessionState → List SetAction → ClientParams × SessionState
unfolding observe stage_all
stage_actions c state [] = (c, state)
stage_actions c state (a ∷ more) =
    if state.in_transaction
    then (c, observe state (must_pin session_parameter))
    else (stage_all c (a ∷ more), state)

unfoldable pub stage_params : ClientParams × SessionState → Str → ClientParams × SessionState
unfolding actions_for_sql stage_actions
stage_params (c, state) sql = stage_actions c state (actions_for_sql sql)

-- The two tests of `settle_params`: is anything pending, and did the exchange fail.
unfoldable pub settle_cases : Bool → Bool → ClientParams → Params → ClientParams × Params
unfolding commit_pending
settle_cases false errored c applied = (c, applied)
settle_cases true true c applied = (discard_pending c, applied)
settle_cases true false c applied = (commit_pending c, (commit_pending c).desired)

-- `settle_params`, with the parameters that the backend is recorded to have.
unfoldable pub settle_params : ClientParams × Params → Bool → ClientParams × Params
unfolding settle_cases
settle_params (c, applied) errored = settle_cases (has_pending c) errored c applied
