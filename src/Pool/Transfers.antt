-- ===== src/Pool/Transfers.antt =====
-- What emptying or reaping the idle queue does to each connection (crates/havuz-pool/src/pool.rs): it
-- moves to the closing task's queue, and is neither lost nor doubled.
use havuz.Base.{
  ℕ, zero, suc, ◌+◌, ◌-◌, ◌≤◌, ◌≡◌, refl, true, false, some, List, [], ◌∷◌, ◌++◌, ◌^◌, ◌<◌, inl,
  inr, Bool-cases, length, ltb, sub64, add64, arith,
}
use havuz.Pool.{Pool, PoolStatus, Conn, Slot}
use havuz.Pool.Admin.{
  pop_back, drain, close, pause, resume, close_next, reap, close_idle, shed, sift,
}
use havuz.Pool.World.{Operation, pauses, resumes, drains, closes, closes_next, reaps, operate}
use havuz.Pool.Closing.{retire_all_lem}
use havuz.Pool.Ownership.{hits, among, shelved, among-append, among-append_one}

shelved-pop_back :
    (i : ℕ) (s : Slot) (rest : List Slot)
    → (front : List Slot) × (last : Slot) × (pop_back (s ∷ rest) ≡ some (front, last))
      × (shelved i front + hits i last.conn ≡ shelved i (s ∷ rest))
unfolding pop_back shelved
shelved-pop_back i s [] = ([], s, refl, omega arith)
shelved-pop_back i s (r ∷ rest) =
    let (front, last, e, n) = shelved-pop_back i r rest in
    (s ∷ front, last, ground (arith, e), omega (arith, n))

shed_balance :
    (i fuel keep : ℕ) (idle : List Slot) (retired : List Conn)
    → let (kept, gone) = shed fuel keep idle retired in
      shelved i kept + among i gone ≡ shelved i idle + among i retired
unfolding shed
shed_balance i zero keep idle retired = refl
shed_balance i (suc fuel) keep [] retired = ground arith
shed_balance i (suc fuel) keep (s ∷ rest) retired =
    let (front, last, e, n) = shelved-pop_back i s rest in
    let more = shed_balance i fuel keep front (retired ++ last.conn ∷ []) in
    ground (arith, e, n, more, among-append_one i retired last.conn)

sift_balance :
    (i : ℕ) (p : Pool) (now budget : ℕ) (idle : List Slot)
    → among i (sift p now budget idle).0 + shelved i (sift p now budget idle).1 ≡ shelved i idle
unfolding sift among shelved
sift_balance i p now budget [] = refl
sift_balance i p now budget (s ∷ rest) =
    ground (arith, sift_balance i p now budget rest, sift_balance i p now (budget - 1) rest)

-- A connection in the idle queue or in the closing task's.
abbrev pub stored : ℕ → Pool → ℕ
stored i p = shelved i p.idle + among i p.closer

close_idle_balance :
    (i : ℕ) (p : Pool) (keep : ℕ)
    → p.counters.closed_total < 2 ^ 64
    → stored i (close_idle p keep).0 ≡ stored i p
unfolding close_idle among
close_idle_balance i p keep h =
    let (kept, gone) = shed (length p.idle) keep p.idle [] in
    let q = record p {
      idle = kept;
      counters = record (p.counters) { idle = sub64 p.counters.idle (length gone) };
    } in
    ground (
      arith,
      shed_balance i (length p.idle) keep p.idle [],
      retire_all_lem q gone h,
      among-append i p.closer gone,
    )

among_none : (i : ℕ) (cs : List Conn) → ltb 0 (length cs) ≡ false → among i cs ≡ 0
unfolding among
among_none i [] h = refl
among_none i (c ∷ cs) h = ground arith

reap_balance :
    (i : ℕ) (p : Pool) (now : ℕ)
    → p.counters.closed_total < 2 ^ 64
    → stored i (reap p now).0 ≡ stored i p
unfolding reap
reap_balance i p now h =
    let budget = length p.idle - p.limits.min_idle in
    let (gone, kept) = sift p now budget p.idle in
    let n = length gone in
    let r = record p {
      idle = kept;
      counters = record (p.counters) {
        idle = sub64 p.counters.idle n;
        discarded_total = add64 p.counters.discarded_total n;
      };
    } in
    elim (Bool-cases (ltb 0 n)) [
      | inl some_gone ↦ ground (
        arith,
        sift_balance i p now budget p.idle,
        retire_all_lem r gone h,
        among-append i p.closer gone,
      )
      | inr none_gone ↦ ground (arith, sift_balance i p now budget p.idle, among_none i gone)
    ]

pub operate_balance :
    (i : ℕ) (p : Pool) (o : Operation)
    → p.counters.closed_total < 2 ^ 64
    → stored i (operate p o) ≤ stored i p
unfolding operate drain close pause resume close_next among
operate_balance i p pauses h = omega arith
operate_balance i p resumes h = omega arith
operate_balance i p drains h =
    omega (arith, close_idle_balance i (record p { status = PoolStatus.draining }) 0 h)
operate_balance i p closes h = omega (
  arith,
  close_idle_balance i (record p { status = PoolStatus.closed; permits_closed = true }) 0 h,
)
operate_balance i p closes_next h = ground arith
operate_balance i p (reaps now) h = omega (arith, reap_balance i p now h)
