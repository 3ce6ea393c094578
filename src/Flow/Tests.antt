-- ===== src/Flow/Tests.antt =====
-- Sessions as the tests of crates/havuz-proto/src/flow.rs drive them.
use havuz.Base.{◌≡◌, refl, true, false, [], ◌∷◌, List}
use havuz.Flow.{
  session, transaction, idle, in_transaction, must_pin, streaming, listen, temp_table, new,
  is_releasable, reset,
}
use havuz.Flow.History.{Moment, saw, gave_back, watch, release_decision}

abbrev committed : List Moment
committed = saw in_transaction ∷ saw idle ∷ []

abbrev listens : List Moment
listens = saw (must_pin listen) ∷ saw idle ∷ gave_back ∷ saw (streaming temp_table) ∷ []

session_mode_keeps : is_releasable (watch (new session) (saw idle ∷ [])) ≡ false
unfolding is_releasable watch new
session_mode_keeps = refl

reset_forgets : is_releasable (reset (watch (new transaction) listens)) ≡ true
unfolding is_releasable watch new reset
reset_forgets = refl

release_decision_example : is_releasable (watch (new transaction) committed) ≡ true
release_decision_example = (release_decision transaction committed).1 (refl, refl, refl, refl)
