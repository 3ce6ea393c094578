-- ===== src/Prepared/Names.antt =====
-- Sets of names as lists (crates/havuz-pg/src/prepared.rs).
use havuz.Base.{
  ◌≤◌, ◌≡◌, refl, ap, true, false, ◌||◌, List, [], ◌∷◌, ◌++◌, if◌then◌else◌, length, Bool-cases,
  inl, inr, arith,
}
use havuz.Prepared.Wire.{Bytes, same}
use havuz.Prepared.{contains, without}

pub same_refl : (a : Bytes) → same a a ≡ true
unfolding same
same_refl [] = refl
same_refl (x ∷ xs) = ground (arith, same_refl xs)

pub same_sound : (a b : Bytes) → same a b ≡ true → a ≡ b
unfolding same
same_sound [] [] h = refl
same_sound [] (y ∷ ys) h = absurd (cc)
same_sound (x ∷ xs) [] h = absurd (cc)
same_sound (x ∷ xs) (y ∷ ys) h = ground (arith, same_sound xs ys)

pub same_sym : (a b : Bytes) → same a b ≡ same b a
unfolding same
same_sym [] [] = refl
same_sym [] (y ∷ ys) = refl
same_sym (x ∷ xs) [] = refl
same_sym (x ∷ xs) (y ∷ ys) = ground (arith, same_sym xs ys)

same_left : (a b c : Bytes) → same a b ≡ true → same a c ≡ same b c
same_left a b c h = ap (λ x. same x c) (same_sound a b h)

same_right : (a b c : Bytes) → same a b ≡ true → same c a ≡ same c b
same_right a b c h = ap (λ x. same c x) (same_sound a b h)

pub contains_at : (ms : List Bytes) (a b : Bytes) → same a b ≡ true → contains ms a ≡ contains ms b
contains_at ms a b h = ap (contains ms) (same_sound a b h)

pub contains-without :
    (ms : List Bytes) (n m : Bytes)
    → contains (without ms n) m ≡ (if same n m then false else contains ms m)
unfolding contains without
contains-without [] n m = ground arith
contains-without (k ∷ ks) n m = elim (Bool-cases (same k n)) [
  | inl same_name ↦
      rw same_name (ground (arith, contains-without ks n m, same_left k n m same_name))
  | inr other ↦ elim (Bool-cases (same n m)) [
    | inl e ↦ rw other (rw e (ground (arith, contains-without ks n m, same_right n m k e)))
    | inr e ↦ rw other (rw e (ground (arith, contains-without ks n m)))
  ]
]

pub contains-append :
    (ms : List Bytes) (n m : Bytes) → contains (ms ++ n ∷ []) m ≡ (contains ms m || same n m)
unfolding contains
contains-append [] n m = ground arith
contains-append (k ∷ ks) n m = ground (arith, contains-append ks n m)

pub without-absent : (ms : List Bytes) (n : Bytes) → contains ms n ≡ false → without ms n ≡ ms
unfolding contains without
without-absent [] n h = refl
without-absent (k ∷ ks) n h = ground (arith, without-absent ks n)

abbrev pub AllDistinct : List Bytes → Type 0
AllDistinct [] = Unit {0}
AllDistinct (m ∷ ms) = (contains ms m ≡ false) × AllDistinct ms

pub without-AllDistinct :
    (ms : List Bytes) (n : Bytes) → AllDistinct ms → AllDistinct (without ms n)
unfolding without
without-AllDistinct [] n d = tt
without-AllDistinct (k ∷ ks) n d = elim (Bool-cases (same k n)) [
  | inl e ↦ rw e (without-AllDistinct ks n d.1)
  | inr e ↦ rw e (ground (arith, contains-without ks n k, d.0), without-AllDistinct ks n d.1)
]

pub append-AllDistinct :
    (ms : List Bytes) (n : Bytes)
    → contains ms n ≡ false
    → AllDistinct ms
    → AllDistinct (ms ++ n ∷ [])
unfolding contains
append-AllDistinct [] n h d = (refl, tt)
append-AllDistinct (k ∷ ks) n h d = (
  ground (arith, contains-append ks n k, same_sym k n, d.0, h),
  append-AllDistinct ks n (ground (arith, h)) d.1,
)

pub length-without : (ms : List Bytes) (n : Bytes) → length (without ms n) ≤ length ms
unfolding without
length-without [] n = omega arith
length-without (k ∷ ks) n = ground (arith, length-without ks n)
