-- ===== src/Pool/Reuse.antt =====
-- Which connection `Pool::acquire` answers with (crates/havuz-pool/src/pool.rs), and what it and a
-- returned checkout leave behind.
use mathlib.Core.List.{append-nil, append_assoc}
use havuz.Base.{ℕ, ◌≡◌, ◌∙◌, refl, true, false, List, [], ◌∷◌, ◌++◌, none, some, arith}
use havuz.Pool.{Pool, Slot, Conn, unusable, is_active, take_slot, discard_conn, is_expired}
use havuz.Pool.Checkout.{
  reuse_from, acquire, enter, open_new, granted, permit, Connect, opened, refused, ok,
}

abbrev pub conns : List Slot → List Conn
conns [] = []
conns (s ∷ rest) = s.conn ∷ conns rest

abbrev pub AllUnusable : Pool → ℕ → List Slot → Type 0
AllUnusable p now [] = Unit {0}
AllUnusable p now (s ∷ rest) = (unusable p s.conn now ≡ true) × AllUnusable p now rest

unusable-limits :
    (p q : Pool) (c : Conn) (now : ℕ) → q.limits ≡ p.limits → unusable q c now ≡ unusable p c now
unfolding unusable is_expired
unusable-limits p q c now h = rw h refl

AllUnusable-limits :
    (p q : Pool) (now : ℕ) (idle : List Slot)
    → q.limits ≡ p.limits
    → AllUnusable p now idle
    → AllUnusable q now idle
AllUnusable-limits p q now [] h a = tt
AllUnusable-limits p q now (s ∷ rest) h a =
    (unusable-limits p q s.conn now h ∙ a.0, AllUnusable-limits p q now rest h a.1)

discarded-limits :
    (p : Pool) (rest : List Slot) (c : Conn) → (discard_conn (take_slot p rest) c).limits ≡ p.limits
unfolding discard_conn take_slot
discarded-limits p rest c = refl

-- The loop skips unusable connections and stops at the first that is usable.
reuse_from-found :
    (p : Pool) (now : ℕ) (skipped : List Slot) (s : Slot) (rest : List Slot)
    → AllUnusable p now skipped
    → unusable p s.conn now ≡ false
    → ((reuse_from p now (skipped ++ s ∷ rest)).1 ≡ some s.conn)
      × ((reuse_from p now (skipped ++ s ∷ rest)).0.idle ≡ rest)
      × ((reuse_from p now (skipped ++ s ∷ rest)).0.closer ≡ p.closer ++ conns skipped)
unfolding reuse_from
reuse_from-found p now [] s rest h u = ground (arith, append-nil p.closer)
reuse_from-found p now (x ∷ skipped) s rest h u =
    let left = skipped ++ s ∷ rest in
    let q = discard_conn (take_slot p left) x.conn in
    let same = discarded-limits p left x.conn in
    ground (
      arith,
      reuse_from-found q now skipped s rest (AllUnusable-limits p q now skipped same h.1)
          (unusable-limits p q s.conn now same ∙ u),
      append_assoc p.closer (x.conn ∷ []) (conns skipped),
    )

reuse_from-none :
    (p : Pool) (now : ℕ) (idle : List Slot)
    → AllUnusable p now idle
    → ((reuse_from p now idle).1 ≡ none)
      × ((reuse_from p now idle).0.idle ≡ [])
      × ((reuse_from p now idle).0.closer ≡ p.closer ++ conns idle)
unfolding reuse_from
reuse_from-none p now [] h = ground (arith, append-nil p.closer)
reuse_from-none p now (x ∷ rest) h =
    let q = discard_conn (take_slot p rest) x.conn in
    ground (
      arith,
      reuse_from-none q now rest
          (AllUnusable-limits p q now rest (discarded-limits p rest x.conn) h.1),
      append_assoc p.closer (x.conn ∷ []) (conns rest),
    )

pub reuse_from-config :
    (p : Pool) (now : ℕ) (idle : List Slot)
    → ((reuse_from p now idle).0.name ≡ p.name) × ((reuse_from p now idle).0.limits ≡ p.limits)
unfolding reuse_from
reuse_from-config p now [] = (refl, refl)
reuse_from-config p now (x ∷ rest) =
    ground (arith, reuse_from-config (discard_conn (take_slot p rest) x.conn) now rest)

-- An active pool that grants a permit answers with the first usable idle connection, whatever the
-- connector would have answered. The unusable ones before it are handed to the closing task in
-- their order, and those behind it stay in the queue.
pub acquire_reuses :
    (p : Pool) (waited now : ℕ) (answer : Connect) (skipped : List Slot) (s : Slot)
    (rest : List Slot)
    → is_active p.status ≡ true
    → p.idle ≡ skipped ++ s ∷ rest
    → AllUnusable p now skipped
    → unusable p s.conn now ≡ false
    → let (q, r) = acquire p permit waited now answer in
      (r ≡ ok s.conn) × (q.idle ≡ rest) × (q.closer ≡ p.closer ++ conns skipped)
unfolding acquire
acquire_reuses p waited now answer skipped s rest a e h u =
    let g = granted (enter p) waited in
    ground (
      arith,
      reuse_from-found g now skipped s rest (AllUnusable-limits p g now skipped refl h)
          (unusable-limits p g s.conn now refl ∙ u),
    )

-- Where no idle connection is usable, an active pool that grants a permit hands all of them to the
-- closing task and answers what the connector answers: its connection, or its error.
pub acquire_opens :
    (p : Pool) (waited now : ℕ) (answer : Connect)
    → is_active p.status ≡ true
    → AllUnusable p now p.idle
    → let (q, r) = acquire p permit waited now answer in
      (r ≡ (open_new p answer).1) × (q.idle ≡ []) × (q.closer ≡ p.closer ++ conns p.idle)
unfolding acquire
acquire_opens p waited now (opened c) a h =
    let g = granted (enter p) waited in
    ground (arith, reuse_from-none g now p.idle (AllUnusable-limits p g now p.idle refl h))
acquire_opens p waited now (refused e) a h =
    let g = granted (enter p) waited in
    ground (
      arith,
      reuse_from-none g now p.idle (AllUnusable-limits p g now p.idle refl h),
      reuse_from-config g now p.idle,
    )
acquire_opens p waited now Connect.timeout a h =
    let g = granted (enter p) waited in
    ground (
      arith,
      reuse_from-none g now p.idle (AllUnusable-limits p g now p.idle refl h),
      reuse_from-config g now p.idle,
    )
