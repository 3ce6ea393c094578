-- ===== src/Pool/Reaping.antt =====
-- What the reaper retires and what it keeps (crates/havuz-pool/src/pool.rs).
use havuz.Base.{
  ℕ, zero, suc, ◌+◌, ◌-◌, ◌≡◌, ◌⊎◌, refl, true, false, List, [], ◌∷◌, length, arith, if◌then◌else◌,
}
use havuz.Pool.{Pool, Slot, unusable}
use havuz.Pool.Admin.{sift, too_idle}

pub length-sift :
    (p : Pool) (now budget : ℕ) (idle : List Slot)
    → length (sift p now budget idle).0 + length (sift p now budget idle).1 ≡ length idle
unfolding sift
length-sift p now budget [] = refl
length-sift p now budget (s ∷ rest) =
    ground (arith, length-sift p now budget rest, length-sift p now (budget - 1) rest)

-- The two rules of the reaper, one after the other: no unusable connection is kept, and of the rest
-- the first `budget` that have been idle too long go.
unfoldable pub usable_only : Pool → ℕ → List Slot → List Slot
usable_only p now [] = []
usable_only p now (s ∷ rest) =
    let kept = usable_only p now rest in if unusable p s.conn now then kept else s ∷ kept

unfoldable pub thin : Pool → ℕ → ℕ → List Slot → List Slot
thin p now zero idle = idle
thin p now (suc budget) [] = []
thin p now (suc budget) (s ∷ rest) = elim (too_idle p.limits s now) [
  | true ↦ thin p now budget rest
  | false ↦ s ∷ thin p now (suc budget) rest
]

sift_zero : (p : Pool) (now : ℕ) (idle : List Slot) → (sift p now 0 idle).1 ≡ usable_only p now idle
unfolding sift usable_only
sift_zero p now [] = refl
sift_zero p now (s ∷ rest) = ground (arith, sift_zero p now rest)

thin_zero : (p : Pool) (now : ℕ) (idle : List Slot) → thin p now 0 idle ≡ idle
unfolding thin
thin_zero p now [] = refl
thin_zero p now (s ∷ rest) = refl

pub sift-thin :
    (p : Pool) (now budget : ℕ) (idle : List Slot)
    → (sift p now budget idle).1 ≡ thin p now budget (usable_only p now idle)
unfolding sift usable_only thin
sift-thin p now zero [] = refl
sift-thin p now (suc budget) [] = refl
sift-thin p now zero (s ∷ rest) =
    ground (arith, sift_zero p now rest, thin_zero p now (usable_only p now rest))
sift-thin p now (suc budget) (s ∷ rest) =
    ground (arith, sift-thin p now (suc budget) rest, sift-thin p now budget rest)

abbrev pub AllStale : Pool → ℕ → List Slot → Type 0
AllStale p now [] = Unit {0}
AllStale p now (s ∷ rest) =
    ((unusable p s.conn now ≡ true) ⊎ (too_idle p.limits s now ≡ true)) × AllStale p now rest

pub length-sift_stale :
    (p : Pool) (now budget : ℕ) (idle : List Slot)
    → AllStale p now idle
    → length (sift p now budget idle).1 ≡ length (usable_only p now idle) - budget
unfolding sift usable_only
length-sift_stale p now budget [] h = omega arith
length-sift_stale p now zero (s ∷ rest) h = ground (arith, length-sift_stale p now zero rest h.1)
length-sift_stale p now (suc budget) (s ∷ rest) h =
    ground (
      arith,
      length-sift_stale p now budget rest h.1,
      length-sift_stale p now (suc budget) rest h.1,
    )
