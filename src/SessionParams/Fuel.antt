-- ===== src/SessionParams/Fuel.antt =====
-- The recursion of `classify_set_body` ends (crates/havuz-pg/src/params.rs).
use havuz.Base.{
  ℕ, zero, suc, ◌+◌, ◌≤◌, ◌<◌, ◌≡◌, refl, ap, true, [], ◌∷◌, Bool-cases, inl, inr, length, arith,
}
use havuz.Text.{same}
use havuz.Chars.{Str, codes, trim_start, to_ascii_uppercase}
use havuz.SessionParams.{SetAction, ends_word, split_word, take_word, set_rules, classify_set_body}

length-trim_start : (s : Str) → length (trim_start s) ≤ length s
unfolding trim_start
length-trim_start [] = omega arith
length-trim_start (c ∷ cs) = ground (arith, length-trim_start cs)

length-split_word : (s : Str) → length (split_word s).0 + length (split_word s).1 ≡ length s
unfolding split_word
length-split_word [] = omega arith
length-split_word (c ∷ s) = elim (Bool-cases (ends_word c)) [
  | inl e ↦ rw e (omega arith)
  | inr e ↦ rw e (omega (arith, length-split_word s))
]

word_is_long : (w : Str) → same (to_ascii_uppercase w) (codes "SESSION") ≡ true → 0 < length w
unfolding same to_ascii_uppercase
word_is_long [] h = absurd (cc)
word_is_long (c ∷ w) h = omega arith

session_shortens :
    (rest : Str)
    → same (to_ascii_uppercase (take_word rest).0) (codes "SESSION") ≡ true
    → length (take_word rest).1 < length rest
unfolding take_word
session_shortens rest h = omega (
  arith,
  length-split_word (trim_start rest),
  length-trim_start rest,
  word_is_long (split_word (trim_start rest)).0 h,
)

set_rules_again :
    (statement rest : Str) (x y : SetAction)
    → (same (to_ascii_uppercase (take_word rest).0) (codes "SESSION") ≡ true → x ≡ y)
    → set_rules statement rest x ≡ set_rules statement rest y
set_rules_again statement rest x y h =
    elim (Bool-cases (same (to_ascii_uppercase (take_word rest).0) (codes "SESSION"))) [
      | inl e ↦ ap (set_rules statement rest) (h e)
      | inr e ↦ rw e refl
    ]

-- Any fuel above the length of the text gives the same: the calls of `classify_set_body` come to an
-- end by themselves.
pub set_body_ends :
    (fuel more : ℕ) (statement rest : Str)
    → length rest < fuel
    → length rest < more
    → classify_set_body fuel statement rest ≡ classify_set_body more statement rest
unfolding classify_set_body
set_body_ends zero more statement rest h k = absurd (omega (arith, h))
set_body_ends (suc fuel) zero statement rest h k = absurd (omega (arith, k))
set_body_ends (suc fuel) (suc more) statement rest h k =
    set_rules_again statement rest (classify_set_body fuel statement (take_word rest).1)
      (classify_set_body more statement (take_word rest).1)
      (λ e.
        set_body_ends fuel more statement (take_word rest).1
          (omega (arith, session_shortens rest e, h)) (omega (arith, session_shortens rest e, k)))
