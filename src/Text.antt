-- ===== src/Text.antt =====
-- Strings as their bytes: the ones that end in a zero byte, and those that are UTF-8
-- (crates/havuz-pg/src/prepared.rs, crates/havuz-pg/src/protocol.rs).
use havuz.Base.{
  ℕ, ◌<◌, ◌≡◌, refl, Bool, true, false, ◌&&◌, Option, none, some, List, [], ◌∷◌, ◌++◌, ltb, leb,
  ◌==◌, if◌then◌else◌, arith,
}

abbrev pub Bytes : Type 0
Bytes = List ℕ

unfoldable pub same : Bytes → Bytes → Bool
same [] [] = true
same (a ∷ xs) (b ∷ ys) = let rest = same xs ys in if a == b then rest else false
same _ _ = false

-- The order of strings.
unfoldable pub before : Bytes → Bytes → Bool
before xs [] = false
before [] (b ∷ ys) = true
before (a ∷ xs) (b ∷ ys) = let rest = before xs ys in if a == b then rest else ltb a b

-- The bytes before the first zero byte, and those after it.
unfoldable pub until_nul : Bytes → Option (Bytes × Bytes)
until_nul [] = none
until_nul (b ∷ rest) =
    let more = until_nul rest in
    if b == 0
    then some ([], rest)
    else elim more [ none ↦ none | some (before, after) ↦ some (b ∷ before, after) ]

abbrev cut_at_nul : ℕ → Bytes × Option Bytes → Bytes × Option Bytes
cut_at_nul b (before, after) = (b ∷ before, after)

-- The bytes before the first zero byte, and those after it, if there is one.
unfoldable pub split_nul : Bytes → Bytes × Option Bytes
split_nul [] = ([], none)
split_nul (b ∷ bs) = let rest = split_nul bs in if b == 0 then ([], some bs) else cut_at_nul b rest

abbrev follows : ℕ × ℕ
follows = (128, 191)

-- The ranges of the bytes that follow a first byte of UTF-8.
abbrev pub after_lead : ℕ → Option (List (ℕ × ℕ))
after_lead b =
    if ltb b 128
    then some []
    else if ltb b 194
    then none
    else if ltb b 224
    then some (follows ∷ [])
    else if b == 224
    then some ((160, 191) ∷ follows ∷ [])
    else if b == 237
    then some ((128, 159) ∷ follows ∷ [])
    else if ltb b 240
    then some (follows ∷ follows ∷ [])
    else if b == 240
    then some ((144, 191) ∷ follows ∷ follows ∷ [])
    else if ltb b 244
    then some (follows ∷ follows ∷ follows ∷ [])
    else if b == 244
    then some ((128, 143) ∷ follows ∷ follows ∷ [])
    else none

-- `std::str::from_utf8` accepts the bytes, with the ranges still expected.
unfoldable pub is_utf8_from : List (ℕ × ℕ) → Bytes → Bool
is_utf8_from [] [] = true
is_utf8_from (r ∷ rs) [] = false
is_utf8_from [] (b ∷ bs) = elim (after_lead b) [ none ↦ false | some rs ↦ is_utf8_from rs bs ]
is_utf8_from ((low, high) ∷ rs) (b ∷ bs) =
    let more = is_utf8_from rs bs in leb low b && leb b high && more

unfoldable pub is_utf8 : Bytes → Bool
unfolding is_utf8_from
is_utf8 bs = is_utf8_from [] bs

-- No byte is zero.
abbrev pub NulFree : Bytes → Type 0
NulFree [] = Unit {0}
NulFree (b ∷ bs) = (0 < b) × NulFree bs

pub until_nul_lem : (xs ys : Bytes) → NulFree xs → until_nul (xs ++ 0 ∷ ys) ≡ some (xs, ys)
unfolding until_nul
until_nul_lem [] ys h = refl
until_nul_lem (x ∷ xs) ys (h, hs) = ground (arith, until_nul_lem xs ys hs)
