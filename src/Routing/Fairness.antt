-- ===== src/Routing/Fairness.antt =====
-- Weighted round-robin is exact (crates/havuz-pg/src/routing.rs): sums over whole rounds.
use native.Mathlib.Nat.{zero-add, add-zero, add-mod_right, mod-eq_of_lt}
use havuz.Base.{
  ℕ, zero, suc, ◌+◌, ◌*◌, ◌%◌, ◌≤◌, ◌<◌, ◌≡◌, ap, ◌∙◌, refl, Option, none, some, List, [], ◌∷◌,
  ◌==◌, if◌then◌else◌, arith,
}
use havuz.Routing.{total_weight, at_position}

abbrev pub hit : ℕ → Option ℕ → ℕ
hit i none = 0
hit i (some j) = if j == i then 1 else 0

-- The weight that a list of indices and weights gives to the index `i`.
unfoldable pub weight_of : ℕ → List (ℕ × ℕ) → ℕ
weight_of i [] = 0
weight_of i ((j, w) ∷ rest) = (if j == i then w else 0) + weight_of i rest

-- A function summed over `n` places from `c` on, plainly and at the remainders by `t`.
sum_from : (ℕ → ℕ) → ℕ → ℕ → ℕ
sum_from f c zero = 0
sum_from f c (suc n) = f c + sum_from f (suc c) n

unfoldable pub sum_mod : (ℕ → ℕ) → ℕ → ℕ → ℕ → ℕ
sum_mod f t c zero = 0
sum_mod f t c (suc n) = f (c % t) + sum_mod f t (suc c) n

sum_mod-last : (f : ℕ → ℕ) (t c n : ℕ) → sum_mod f t c (suc n) ≡ sum_mod f t c n + f ((c + n) % t)
unfolding sum_mod
sum_mod-last f t c zero = rw (add-zero c) (omega arith)
sum_mod-last f t c (suc n) =
    let e : c + suc n ≡ suc c + n = omega arith in rw e (omega (arith, sum_mod-last f t (suc c) n))

-- A whole round comes to the same wherever it begins.
sum_mod_round : (f : ℕ → ℕ) (t c : ℕ) → sum_mod f t c t ≡ sum_mod f t 0 t
unfolding sum_mod
sum_mod_round f t zero = refl
sum_mod_round f t (suc c) =
    omega (arith, sum_mod-last f t c t, ap f (add-mod_right c t), sum_mod_round f t c)

sum_mod-below : (f : ℕ → ℕ) (t c n : ℕ) → c + n ≤ t → sum_mod f t c n ≡ sum_from f c n
unfolding sum_mod sum_from
sum_mod-below f t c zero h = refl
sum_mod-below f t c (suc n) h =
    let small : c < t = omega arith in
    rw (mod-eq_of_lt small) (omega (arith, sum_mod-below f t (suc c) n (omega arith)))

sum_from-append :
    (f : ℕ → ℕ) (c n m : ℕ) → sum_from f c (n + m) ≡ sum_from f c n + sum_from f (c + n) m
unfolding sum_from
sum_from-append f c zero m = rw (zero-add m, add-zero c) (omega arith)
sum_from-append f c (suc n) m =
    let e : suc n + m ≡ suc (n + m) = omega arith in
    let d : c + suc n ≡ suc c + n = omega arith in
    rw (e, d) (omega (arith, sum_from-append f (suc c) n m))

sum_from-ext :
    (f g : ℕ → ℕ) (c n : ℕ)
    → ((k : ℕ) → c ≤ k → k < c + n → f k ≡ g k)
    → sum_from f c n ≡ sum_from g c n
unfolding sum_from
sum_from-ext f g c zero h = refl
sum_from-ext f g c (suc n) h = omega (
  arith,
  h c (omega arith) (omega arith),
  sum_from-ext f g (suc c) n (λ k l m. h k (omega arith) (omega arith)),
)

sum_from-constant : (v c n : ℕ) → sum_from (λ k. v) c n ≡ n * v
unfolding sum_from
sum_from-constant v c zero = omega arith
sum_from-constant v c (suc n) = omega (arith, sum_from-constant v (suc c) n)

position_sum :
    (i accumulated : ℕ) (found : List (ℕ × ℕ))
    → sum_from (λ p. hit i (at_position p accumulated found)) accumulated (total_weight found)
      ≡ weight_of i found
unfolding at_position total_weight weight_of
position_sum i a [] = unfold sum_from in refl
position_sum i a ((j, w) ∷ rest) =
    let all : ℕ → ℕ = λ p. hit i (at_position p a ((j, w) ∷ rest)) in
    let later : ℕ → ℕ = λ p. hit i (at_position p (a + w) rest) in
    let head : sum_from all a w ≡ w * hit i (some j) =
      sum_from-ext all (λ p. hit i (some j)) a w (λ k l m. ground arith)
      ∙ sum_from-constant (hit i (some j)) a w in
    let tail : sum_from all (a + w) (total_weight rest)
        ≡ sum_from later (a + w) (total_weight rest) =
      sum_from-ext all later (a + w) (total_weight rest) (λ k l m. ground arith) in
    ground
      (arith, sum_from-append all a w (total_weight rest), head, tail, position_sum i (a + w) rest)

-- Over a whole round of the total weight, from any cursor, the index `i` is chosen as often as its
-- weight says.
pub round_weight :
    (i c : ℕ) (found : List (ℕ × ℕ))
    → let t = total_weight found in
      sum_mod (λ p. hit i (at_position p 0 found)) t c t ≡ weight_of i found
round_weight i c found =
    let t = total_weight found in
    let f : ℕ → ℕ = λ p. hit i (at_position p 0 found) in
    sum_mod_round f t c ∙ sum_mod-below f t 0 t (omega arith) ∙ position_sum i 0 found
