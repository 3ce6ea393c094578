-- ===== src/Routing/ReadAfterWrite.antt =====
-- A session reads its own writes (crates/havuz-pg/src/routing.rs).
use havuz.Base.{
  ℕ, ◌+◌, ◌≤◌, ◌<◌, ◌≡◌, ◌≢◌, ap, ◌∙◌, refl, true, ◌⊎◌, inl, inr, none, some, List, [], ◌∷◌, arith,
}
use havuz.Routing.{
  RouteIntent, read, write, Route, replica, SessionRouting, is_sticky, begin_transaction,
  end_transaction, Router, choose, decide, pick_replica,
}

-- What happens between a client, its session and the router, with the time of each.
pub data Act : Type 0 where
  asks : RouteIntent → ℕ → Act
  begins : Route → Act
  ends : Act
  -- Any change to the router: other sessions' choices, results, health probes.
  others : Router → Act

unfoldable pub perform : Router × SessionRouting → Act → Router × SessionRouting
perform (r, s) (asks intent now) = let (q, t, route) = choose r intent s now in (q, t)
perform (r, s) (begins route) = (r, begin_transaction s route)
perform (r, s) ends = (r, end_transaction s)
perform (r, s) (others q) = (record q { config = r.config }, s)

unfoldable pub perform_all : Router × SessionRouting → List Act → Router × SessionRouting
perform_all w [] = w
perform_all w (a ∷ acts) = perform_all (perform w a) acts

abbrev pub NotBefore : ℕ → Act → Type 0
NotBefore t (asks intent now) = t ≤ now
NotBefore t (begins route) = Unit {0}
NotBefore t ends = Unit {0}
NotBefore t (others q) = Unit {0}

-- The session's clock does not run backwards from `t` on.
abbrev pub AllAfter : ℕ → List Act → Type 0
AllAfter t [] = Unit {0}
AllAfter t (a ∷ acts) = NotBefore t a × AllAfter t acts

abbrev WroteAfter : ℕ → SessionRouting → Type 0
WroteAfter t s = (at : ℕ) × (s.last_write ≡ some at) × (t ≤ at)

choose_wrote :
    (r : Router) (s : SessionRouting) (intent : RouteIntent) (t now : ℕ)
    → t ≤ now
    → (intent ≡ write) ⊎ WroteAfter t s
    → WroteAfter t (choose r intent s now).1
unfolding choose decide
choose_wrote r s write t now h w = (now, ground arith, h)
choose_wrote r s read t now h (inl e) = absurd (cc)
choose_wrote r s read t now h (inr (at, e, le)) = (at, ground arith, le)

choose_config :
    (r : Router) (s : SessionRouting) (intent : RouteIntent) (now : ℕ)
    → (choose r intent s now).0.config ≡ r.config
unfolding choose decide pick_replica
choose_config r s intent now = ground arith

abbrev Remembers : ℕ → ℕ → Router × SessionRouting → Type 0
Remembers t window w = (w.0.config.sticky_after_write ≡ window) × WroteAfter t w.1

perform-Remembers :
    (t window : ℕ) (w : Router × SessionRouting) (a : Act)
    → NotBefore t a
    → Remembers t window w
    → Remembers t window (perform w a)
unfolding perform begin_transaction end_transaction
perform-Remembers t window (r, s) (asks intent now) h (c, m) = (
  ap (λ k. k.sticky_after_write) (choose_config r s intent now) ∙ c,
  choose_wrote r s intent t now h (inr m),
)
perform-Remembers t window (r, s) (begins route) h m = m
perform-Remembers t window (r, s) ends h m = m
perform-Remembers t window (r, s) (others q) h m = m

perform_all-Remembers :
    (t window : ℕ) (w : Router × SessionRouting) (acts : List Act)
    → AllAfter t acts
    → Remembers t window w
    → Remembers t window (perform_all w acts)
unfolding perform_all
perform_all-Remembers t window w [] h m = m
perform_all-Remembers t window w (a ∷ acts) h m =
    perform_all-Remembers t window (perform w a) acts h.1 (perform-Remembers t window w a h.0 m)

sticky_of_wrote :
    (s : SessionRouting) (t window now : ℕ)
    → WroteAfter t s
    → now < t + window
    → 0 < window
    → is_sticky s window now ≡ true
unfolding is_sticky
sticky_of_wrote s t window now (at, e, le) h pos = ground arith

read_not_replica :
    (r : Router) (s : SessionRouting) (now i : ℕ)
    → s.transaction_route ≡ none
    → is_sticky s r.config.sticky_after_write now ≡ true
    → (choose r read s now).2 ≢ replica i
unfolding choose decide
read_not_replica r s now i free sticky h = ground arith

-- A session reads its own writes. After it has asked for a write at time `t`, a read that it makes
-- outside a transaction less than the sticky window later does not go to a replica, whatever the
-- session, its transactions, other sessions and the health probes have done between. The clock
-- does not run backwards, and the window is positive.
pub reads_own_writes :
    (r : Router) (s : SessionRouting) (t now : ℕ) (acts : List Act)
    → let (r', s') = perform_all (perform (r, s) (asks write t)) acts in
      AllAfter t acts
      → s'.transaction_route ≡ none
      → now < t + r.config.sticky_after_write
      → 0 < r.config.sticky_after_write
      → (i : ℕ) → (choose r' read s' now).2 ≢ replica i
unfolding perform
reads_own_writes r s t now acts after free soon pos i =
    let window = r.config.sticky_after_write in
    let w = perform (r, s) (asks write t) in
    let (same, wrote) = perform_all-Remembers t window w acts after (
      ap (λ k. k.sticky_after_write) (choose_config r s write t),
      choose_wrote r s write t t (omega arith) (inl refl),
    ) in
    read_not_replica (perform_all w acts).0 (perform_all w acts).1 now i free
      (rw same (sticky_of_wrote (perform_all w acts).1 t window now wrote soon pos))
