-- ===== src/Pool/Closing.antt =====
-- What closing idle connections does to a pool (crates/havuz-pool/src/pool.rs).
use mathlib.Core.List.{append-nil, append_assoc}
use havuz.Base.{
  ℕ, zero, suc, ◌+◌, ◌≤◌, ◌<◌, ◌≡◌, refl, some, List, [], ◌∷◌, ◌++◌, length, length-append, add64,
  ◌^◌, arith,
}
use havuz.Pool.{Pool, Slot, Conn, retire}
use havuz.Pool.Admin.{pop_back, shed, retire_all}

-- Retiring touches the count of closed connections and the closing task's queue, and no more.
pub retire_all_lem :
    (p : Pool) (cs : List Conn)
    → p.counters.closed_total < 2 ^ 64
    → retire_all p cs ≡ record p {
      counters = record (p.counters) { closed_total = add64 p.counters.closed_total (length cs) };
      closer = p.closer ++ cs;
    }
unfolding retire_all retire
retire_all_lem p [] h = ground (arith, append-nil p.closer)
retire_all_lem p (c ∷ cs) h =
    ground (arith, retire_all_lem (retire p c) cs, append_assoc p.closer (c ∷ []) cs)

pub length-pop_back :
    (s : Slot) (rest : List Slot)
    → (front : List Slot) × (last : Slot) × (pop_back (s ∷ rest) ≡ some (front, last))
      × (length front ≡ length rest)
unfolding pop_back
length-pop_back s [] = ([], s, refl, refl)
length-pop_back s (r ∷ rest) =
    let (front, last, e, n) = length-pop_back r rest in
    (s ∷ front, last, ground (arith, e), omega (arith, n))

-- The loop that empties the queue takes everything and leaves nothing.
pub shed_all :
    (fuel : ℕ) (idle : List Slot) (retired : List Conn)
    → length idle ≤ fuel
    → let (kept, gone) = shed fuel 0 idle retired in
      (kept ≡ []) × (length gone ≡ length retired + length idle)
unfolding shed
shed_all zero [] retired h = (refl, omega arith)
shed_all zero (s ∷ rest) retired h = absurd (omega arith)
shed_all (suc fuel) [] retired h = (refl, omega arith)
shed_all (suc fuel) (s ∷ rest) retired h =
    let (front, last, e, n) = length-pop_back s rest in
    let more = shed_all fuel front (retired ++ last.conn ∷ []) (omega (arith, n)) in
    ground (arith, e, n, more, length-append retired (last.conn ∷ []))
