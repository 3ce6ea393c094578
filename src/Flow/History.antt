-- ===== src/Flow/History.antt =====
-- The release decision of crates/havuz-proto/src/flow.rs, told by what happened.
use havuz.Base.{◌||◌, ◌≡◌, ◌↔◌, refl, Bool, true, false, Option, none, some, List, [], ◌∷◌, arith}
use havuz.Flow.{
  PinReason, PoolMode, FlowEvent, idle, in_transaction, must_pin, streaming, broken, SessionState,
  new, observe, multiplexes, is_releasable, released,
}

-- A message, or the return of the backend to the pool after it.
pub data Moment : Type 0 where
  saw : FlowEvent → Moment
  gave_back : Moment

unfoldable pub watch : SessionState → List Moment → SessionState
unfolding observe released
watch s [] = s
watch s (saw e ∷ es) = watch (observe s e) es
watch s (gave_back ∷ es) = watch (released s) es

-- The first reason to pin, whether by a statement or by a streaming mode.
abbrev pub first_pin : List Moment → Option PinReason
first_pin [] = none
first_pin (saw e ∷ es) = elim e [ must_pin r ↦ some r | streaming r ↦ some r | _ ↦ first_pin es ]
first_pin (gave_back ∷ es) = first_pin es

-- Whether a transaction is open after the moments, if `open_` says whether one was before.
abbrev pub open_after : Bool → List Moment → Bool
open_after open_ [] = open_
open_after open_ (saw e ∷ es) = elim e [
  | idle ↦ open_after false es
  | in_transaction ↦ open_after true es
  | _ ↦ open_after open_ es
]
open_after open_ (gave_back ∷ es) = open_after false es

abbrev or_else : Option PinReason → Option PinReason → Option PinReason
or_else none q = q
or_else (some r) q = some r

watch-mode : (s : SessionState) (es : List Moment) → (watch s es).mode ≡ s.mode
unfolding watch
watch-mode s [] = refl
watch-mode s (saw idle ∷ es) = watch-mode (observe s idle) es
watch-mode s (saw in_transaction ∷ es) = watch-mode (observe s in_transaction) es
watch-mode s (saw (must_pin r) ∷ es) = watch-mode (observe s (must_pin r)) es
watch-mode s (saw (streaming r) ∷ es) = watch-mode (observe s (streaming r)) es
watch-mode s (saw broken ∷ es) = watch-mode (observe s broken) es
watch-mode s (gave_back ∷ es) = watch-mode (released s) es

watch-pin : (s : SessionState) (es : List Moment) → (watch s es).pin ≡ or_else s.pin (first_pin es)
unfolding watch
watch-pin s [] = ground arith
watch-pin s (saw idle ∷ es) = watch-pin (observe s idle) es
watch-pin s (saw in_transaction ∷ es) = watch-pin (observe s in_transaction) es
watch-pin s (saw (must_pin r) ∷ es) = ground (arith, watch-pin (observe s (must_pin r)) es)
watch-pin s (saw (streaming r) ∷ es) = ground (arith, watch-pin (observe s (streaming r)) es)
watch-pin s (saw broken ∷ es) = watch-pin (observe s broken) es
watch-pin s (gave_back ∷ es) = watch-pin (released s) es

watch-in_transaction :
    (s : SessionState) (es : List Moment)
    → (watch s es).in_transaction ≡ open_after s.in_transaction es
unfolding watch
watch-in_transaction s [] = refl
watch-in_transaction s (saw idle ∷ es) = watch-in_transaction (observe s idle) es
watch-in_transaction s (saw in_transaction ∷ es) =
    watch-in_transaction (observe s in_transaction) es
watch-in_transaction s (saw (must_pin r) ∷ es) = watch-in_transaction (observe s (must_pin r)) es
watch-in_transaction s (saw (streaming r) ∷ es) = watch-in_transaction (observe s (streaming r)) es
watch-in_transaction s (saw broken ∷ es) = watch-in_transaction (observe s broken) es
watch-in_transaction s (gave_back ∷ es) = watch-in_transaction (released s) es

abbrev pub was_broken : List Moment → Bool
was_broken [] = false
was_broken (saw e ∷ es) = elim e [ broken ↦ true | _ ↦ was_broken es ]
was_broken (gave_back ∷ es) = was_broken es

watch-broken :
    (s : SessionState) (es : List Moment) → (watch s es).broken ≡ (s.broken || was_broken es)
unfolding watch
watch-broken s [] = ground arith
watch-broken s (saw idle ∷ es) = watch-broken (observe s idle) es
watch-broken s (saw in_transaction ∷ es) = watch-broken (observe s in_transaction) es
watch-broken s (saw (must_pin r) ∷ es) = watch-broken (observe s (must_pin r)) es
watch-broken s (saw (streaming r) ∷ es) = watch-broken (observe s (streaming r)) es
watch-broken s (saw broken ∷ es) = ground (arith, watch-broken (observe s broken) es)
watch-broken s (gave_back ∷ es) = watch-broken (released s) es

-- After any messages and returns of the backend, a session lets its backend go exactly if the pool's
-- mode multiplexes, the backend was never reported unusable, nothing the client did pinned it, and
-- the last report about transactions since the last return, if any, is that none is open.
pub release_decision :
    (mode : PoolMode) (es : List Moment)
    → (is_releasable (watch (new mode) es) ≡ true) ↔ (
        (multiplexes mode ≡ true)
        × (was_broken es ≡ false)
        × (first_pin es ≡ none)
        × (open_after false es ≡ false))
unfolding is_releasable new
release_decision mode es =
    let s = new mode in
    ground (arith, watch-mode s es, watch-pin s es, watch-in_transaction s es, watch-broken s es)
