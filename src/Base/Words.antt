-- ===== src/Base/Words.antt =====
-- Machine words: a value is a plain number, and each operation writes its wrap-around out.
use Prim.Native.Nat.{ℕ, ◌+◌, ◌-◌, ◌*◌, ◌%◌, ◌^◌, min}

abbrev pub u32_max : ℕ
u32_max = 2 ^ 32 - 1

abbrev pub u64_max : ℕ
u64_max = 2 ^ 64 - 1

-- `fetch_add` of an atomic, and `+` of a release build, wrap.
abbrev pub add32 : ℕ → ℕ → ℕ
add32 a b = (a + b) % 2 ^ 32

abbrev pub add64 : ℕ → ℕ → ℕ
add64 a b = (a + b) % 2 ^ 64

-- `fetch_sub` wraps below zero.
abbrev pub sub64 : ℕ → ℕ → ℕ
sub64 a b = (a + 2 ^ 64 - b) % 2 ^ 64

abbrev pub saturating_add32 : ℕ → ℕ → ℕ
saturating_add32 a b = min (a + b) u32_max

abbrev pub saturating_add64 : ℕ → ℕ → ℕ
saturating_add64 a b = min (a + b) u64_max

abbrev pub mul64 : ℕ → ℕ → ℕ
mul64 a b = (a * b) % 2 ^ 64
