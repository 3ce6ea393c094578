-- ===== src/Counters/Merge.antt =====
-- What a combined view of several pools keeps of them (crates/havuz-pool/src/counters.rs).
use native.Mathlib.Nat.{mod-eq_of_lt, mul-le-mul_right, le-div_iff_mul-le, div-lt_iff_lt-mul}
use havuz.Base.{ℕ, suc, ◌+◌, ◌*◌, ◌/◌, ◌^◌, ◌≤◌, ◌<◌, ◌≡◌, min, max, arith}
use havuz.Counters.{WaitStats, merge_wait}

-- The sums that a merge forms fit in 64 bits.
abbrev pub Fits : WaitStats → WaitStats → Type 0
Fits w v =
    (w.mean_micros * w.samples + v.mean_micros * v.samples < 2 ^ 64)
    × (w.samples + v.samples < 2 ^ 64)

weighted_low : (k m n s t : ℕ) → k ≤ m → k ≤ n → 0 < s + t → k ≤ (m * s + n * t) / (s + t)
weighted_low k m n s t hm hn pos =
    (le-div_iff_mul-le pos).1 (omega (arith, mul-le-mul_right s hm, mul-le-mul_right t hn))

weighted_high : (k m n s t : ℕ) → m ≤ k → n ≤ k → 0 < s + t → (m * s + n * t) / (s + t) ≤ k
weighted_high k m n s t hm hn pos =
    le-of-lt-suc
      ((div-lt_iff_lt-mul pos).1 (omega (arith, mul-le-mul_right s hm, mul-le-mul_right t hn)))
  where
    le-of-lt-suc : {a b : ℕ} → a < suc b → a ≤ b
    le-of-lt-suc h = omega arith

exact_mean :
    (w v : WaitStats)
    → Fits w v
    → 0 < w.samples + v.samples
    → (merge_wait w v).mean_micros
      ≡ (w.mean_micros * w.samples + v.mean_micros * v.samples) / (w.samples + v.samples)
unfolding merge_wait
exact_mean w v fits pos =
    simp (mod-eq_of_lt, fits.0, fits.1, small_left, small_right) (ground arith)
  where
    small_left : w.mean_micros * w.samples < 2 ^ 64
    small_left = omega arith

    small_right : v.mean_micros * v.samples < 2 ^ 64
    small_right = omega arith

-- The mean wait of two pools lies between theirs, whichever has more samples, as long as the sums
-- fit in 64 bits and there is a sample.
pub merge_mean :
    (w v : WaitStats)
    → Fits w v
    → 0 < w.samples + v.samples
    → (min w.mean_micros v.mean_micros ≤ (merge_wait w v).mean_micros)
      × ((merge_wait w v).mean_micros ≤ max w.mean_micros v.mean_micros)
merge_mean w v fits pos = rw (exact_mean w v fits pos) (
  weighted_low _ w.mean_micros v.mean_micros w.samples v.samples (omega arith) (omega arith) pos,
  weighted_high _ w.mean_micros v.mean_micros w.samples v.samples (omega arith) (omega arith) pos,
)
