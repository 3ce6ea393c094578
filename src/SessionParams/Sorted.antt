-- ===== src/SessionParams/Sorted.antt =====
-- `BTreeMap<String, String>` as the list of its entries, in the order of the names: the operations
-- that crates/havuz-pg/src/params.rs uses, and what a name then stands for.
use mathlib.Core.Path.{subst}
use havuz.Base.{
  ◌≡◌, refl, sym, ap, ◌∙◌, Bool, true, false, Option, none, some, List, [], ◌∷◌, ◌==◌, ltb,
  if◌then◌else◌, Bool-cases, inl, inr, arith,
}
use havuz.Text.{same}
use havuz.Chars.{Str}
use havuz.Prepared.Names.{same_sound, same_sym}

abbrev pub Params : Type 0
Params = List (Str × Str)

-- The order of the bytes, which is that of the characters.
unfoldable pub less : Str → Str → Bool
less a [] = false
less [] (d ∷ b) = true
less (c ∷ a) (d ∷ b) =
    let rest = less a b in if ltb c d then true else if c == d then rest else false

unfoldable pub get : Str → Params → Option Str
unfolding same
get k [] = none
get k ((j, v) ∷ m) = let rest = get k m in if same j k then some v else rest

unfoldable pub insert : Str → Str → Params → Params
unfolding same less
insert k v [] = (k, v) ∷ []
insert k v ((j, w) ∷ m) =
    let rest = insert k v m in
    if same j k then (k, v) ∷ m else if less k j then (k, v) ∷ (j, w) ∷ m else (j, w) ∷ rest

unfoldable pub remove : Str → Params → Params
unfolding same
remove k [] = []
remove k ((j, w) ∷ m) = let rest = remove k m in if same j k then rest else (j, w) ∷ rest

same_at : (a b c : Str) → same a b ≡ true → same a c ≡ same b c
same_at a b c h = ap (λ x. same x c) (same_sound a b h)

apart : (i k j : Str) → same i k ≡ false → same i j ≡ true → same k j ≡ false
apart i k j e h = ap (same k) (sym (same_sound i j h)) ∙ (same_sym k i ∙ e)

pub get-insert :
    (j k v : Str) (m : Params) → get j (insert k v m) ≡ (if same k j then some v else get j m)
unfolding get insert
get-insert j k v [] = refl
get-insert j k v ((i, w) ∷ m) = elim (Bool-cases (same i k)) [
  | inl e ↦ rw e (rw (same_at i k j e) (ground arith))
  | inr e ↦ elim (Bool-cases (less k i)) [
    | inl l ↦ rw e (rw l refl)
    | inr l ↦ rw e (rw l (ground (arith, get-insert j k v m, apart i k j e)))
  ]
]

pub get-remove :
    (j k : Str) (m : Params) → get j (remove k m) ≡ (if same k j then none else get j m)
unfolding get remove
get-remove j k [] = ground arith
get-remove j k ((i, w) ∷ m) = elim (Bool-cases (same i k)) [
  | inl e ↦ rw e (rw (same_at i k j e) (ground (arith, get-remove j k m)))
  | inr e ↦ rw e (ground (arith, get-remove j k m, apart i k j e))
]

-- Every name in the map is after the given one.
abbrev pub Above : Str → Params → Type 0
Above k [] = Unit {0}
Above k ((j, w) ∷ m) = (less k j ≡ true) × Above k m

abbrev pub IsOrdered : Params → Type 0
IsOrdered [] = Unit {0}
IsOrdered ((j, w) ∷ m) = Above j m × IsOrdered m

pub less_irrefl : (a : Str) → less a a ≡ false
unfolding less
less_irrefl [] = refl
less_irrefl (c ∷ a) = ground (arith, less_irrefl a)

less_trans : (a b c : Str) → less a b ≡ true → less b c ≡ true → less a c ≡ true
unfolding less
less_trans a b [] h k = absurd (cc)
less_trans a [] (z ∷ c) h k = absurd (cc)
less_trans [] (y ∷ b) (z ∷ c) h k = refl
less_trans (x ∷ a) (y ∷ b) (z ∷ c) h k = ground (arith, less_trans a b c)

less_total : (a b : Str) → same a b ≡ false → less b a ≡ false → less a b ≡ true
unfolding less same
less_total [] [] h k = absurd (cc)
less_total [] (y ∷ b) h k = refl
less_total (x ∷ a) [] h k = absurd (cc)
less_total (x ∷ a) (y ∷ b) h k = ground (arith, less_total a b)

Above-trans : (j k : Str) (m : Params) → less j k ≡ true → Above k m → Above j m
Above-trans j k [] h a = tt
Above-trans j k ((i, w) ∷ m) h a = (less_trans j k i h a.0, Above-trans j k m h a.1)

insert-Above : (j k v : Str) (m : Params) → less j k ≡ true → Above j m → Above j (insert k v m)
unfolding insert
insert-Above j k v [] h a = (h, tt)
insert-Above j k v ((i, w) ∷ m) h a = elim (Bool-cases (same i k)) [
  | inl e ↦ rw e (h, a.1)
  | inr e ↦ elim (Bool-cases (less k i)) [
    | inl l ↦ rw (e, l) (h, a)
    | inr l ↦ rw (e, l) (a.0, insert-Above j k v m h a.1)
  ]
]

pub insert-IsOrdered : (k v : Str) (m : Params) → IsOrdered m → IsOrdered (insert k v m)
unfolding insert
insert-IsOrdered k v [] o = (tt, tt)
insert-IsOrdered k v ((i, w) ∷ m) o = elim (Bool-cases (same i k)) [
  | inl e ↦ rw e (subst (λ n. Above n m) (same_sound i k e) o.0, o.1)
  | inr e ↦ elim (Bool-cases (less k i)) [
    | inl l ↦ rw (e, l) ((l, Above-trans k i m l o.0), o)
    | inr l ↦ rw (e, l) (insert-Above i k v m (less_total i k e l) o.0, insert-IsOrdered k v m o.1)
  ]
]

remove-Above : (j k : Str) (m : Params) → Above j m → Above j (remove k m)
unfolding remove
remove-Above j k [] a = tt
remove-Above j k ((i, w) ∷ m) a = elim (Bool-cases (same i k)) [
  | inl e ↦ rw e (remove-Above j k m a.1)
  | inr e ↦ rw e (a.0, remove-Above j k m a.1)
]

pub remove-IsOrdered : (k : Str) (m : Params) → IsOrdered m → IsOrdered (remove k m)
unfolding remove
remove-IsOrdered k [] o = tt
remove-IsOrdered k ((i, w) ∷ m) o = elim (Bool-cases (same i k)) [
  | inl e ↦ rw e (remove-IsOrdered k m o.1)
  | inr e ↦ rw e (remove-Above i k m o.0, remove-IsOrdered k m o.1)
]

pub Above-absent : (k : Str) (m : Params) → Above k m → get k m ≡ none
unfolding get
Above-absent k [] a = refl
Above-absent k ((i, w) ∷ m) a = elim (Bool-cases (same i k)) [
  | inl e ↦ absurd (cc (a.0, less_irrefl k, ap (less k) (same_sound i k e)))
  | inr e ↦ rw e (Above-absent k m a.1)
]
