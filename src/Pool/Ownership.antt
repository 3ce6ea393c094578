-- ===== src/Pool/Ownership.antt =====
-- Who has a connection of a pool (crates/havuz-pool/src/pool.rs): the idle queue, one checkout, or
-- the closing task, and never two of them.
use havuz.Base.{ℕ, ◌+◌, ◌≡◌, refl, Bool, some, List, [], ◌∷◌, ◌++◌, ◌==◌, if◌then◌else◌, arith}
use havuz.Pool.{Pool, Conn, Slot}
use havuz.Pool.World.{
  Task, TaskEvent, waiting, permitted, connecting, holding, returning, finished, grant, look,
  connect, drops, frees, act, World, look_at,
}
use havuz.Pool.Counting.{total}

abbrev pub hits : ℕ → Conn → ℕ
hits i c = if c.id == i then 1 else 0

unfoldable pub among : ℕ → List Conn → ℕ
among i [] = 0
among i (c ∷ cs) = hits i c + among i cs

unfoldable pub shelved : ℕ → List Slot → ℕ
shelved i [] = 0
shelved i (s ∷ ss) = hits i s.conn + shelved i ss

abbrev pub held : ℕ → Task → ℕ
held i (holding c marked) = hits i c
held i _ = 0

-- How often the connection `i` is idle, checked out or on its way to be closed.
unfoldable pub copies : ℕ → World → ℕ
copies i w = shelved i w.pool.idle + total (held i) w.tasks + among i w.pool.closer

pub among-append : (i : ℕ) (cs ds : List Conn) → among i (cs ++ ds) ≡ among i cs + among i ds
unfolding among
among-append i [] ds = omega arith
among-append i (c ∷ cs) ds = omega (arith, among-append i cs ds)

pub shelved-append :
    (i : ℕ) (cs ds : List Slot) → shelved i (cs ++ ds) ≡ shelved i cs + shelved i ds
unfolding shelved
shelved-append i [] ds = omega arith
shelved-append i (c ∷ cs) ds = omega (arith, shelved-append i cs ds)

pub among-append_one :
    (i : ℕ) (cs : List Conn) (c : Conn) → among i (cs ++ c ∷ []) ≡ among i cs + hits i c
unfolding among
among-append_one i cs c = omega (arith, among-append i cs (c ∷ []))

-- The identity that a step of a task brings into the pool.
abbrev pub brought : ℕ → TaskEvent → ℕ
brought i (connect c) = hits i c
brought i _ = 0

module _ (i : ℕ) (p q : Pool) (u : Task) where
  abbrev pub Balanced : Task → TaskEvent → Type 0
  Balanced t e =
      act p t e ≡ some (q, u)
      → shelved i q.idle + held i u + among i q.closer
        ≡ shelved i p.idle + held i t + among i p.closer + brought i e

  idle_balance : (e : TaskEvent) → Balanced waiting e
  unfolding act
  idle_balance (grant waited) a = ground arith
  idle_balance _ a = ground arith

  look_balance :
      (now : ℕ) (idle : List Slot)
      → p.idle ≡ idle
      → some (look_at p now idle) ≡ some (q, u)
      → shelved i q.idle + held i u + among i q.closer ≡ shelved i idle + among i p.closer
  unfolding act shelved among
  look_balance now [] h a = ground arith
  look_balance now (s ∷ rest) h a = ground (arith, among-append i p.closer (s.conn ∷ []))

  permitted_balance : (e : TaskEvent) → Balanced permitted e
  unfolding act
  permitted_balance (look now) a = omega (arith, look_balance now p.idle refl a)
  permitted_balance _ a = ground arith

  connecting_balance : (e : TaskEvent) → Balanced connecting e
  unfolding act
  connecting_balance (connect c) a = ground arith
  connecting_balance _ a = ground arith

  returning_balance : (e : TaskEvent) → Balanced returning e
  unfolding act
  returning_balance frees a = ground arith
  returning_balance _ a = ground arith

  finished_balance : (e : TaskEvent) → Balanced finished e
  unfolding act
  finished_balance frees a = ground arith
  finished_balance _ a = ground arith

  holding_balance : (c : Conn) (marked : Bool) (e : TaskEvent) → Balanced (holding c marked) e
  unfolding act shelved among
  holding_balance c marked (drops now) a = ground (
    arith,
    shelved-append i p.idle (record { conn = c; idle_since = now } ∷ []),
    among-append i p.closer (c ∷ []),
  )
  holding_balance c marked _ a = ground arith

  pub balance : (t : Task) (e : TaskEvent) → Balanced t e
  balance waiting e = idle_balance e
  balance permitted e = permitted_balance e
  balance connecting e = connecting_balance e
  balance (holding c marked) e = holding_balance c marked e
  balance returning e = returning_balance e
  balance finished e = finished_balance e
