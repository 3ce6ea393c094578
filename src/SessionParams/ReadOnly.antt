-- ===== src/SessionParams/ReadOnly.antt =====
-- A read-only client stays read-only (crates/havuz-pg/src/params.rs, crates/havuz-pg/src/txn.rs).
use mathlib.Core.Path.{subst}
use havuz.Base.{
  ℕ, ◌≡◌, refl, sym, ap, ◌∙◌, Bool, true, false, ◌||◌, List, [], ◌∷◌, ◌++◌, Bool-cases, ◌⊎◌, inl,
  inr, arith,
}
use havuz.Text.{same}
use havuz.Chars.{
  Str, codes, is_whitespace, trim_start, trim_end, without_suffix, to_ascii_uppercase,
}
use havuz.Chars.Laws.{IsPrefix, IsPrefix-trans, trim_end-IsPrefix, without_suffix-IsPrefix}
use havuz.Lexer.{strip_leading_noise, split_statements}
use havuz.Lexer.Noise.{noise_is_gone}
use havuz.Flow.{session_parameter}
use havuz.SessionParams.{
  SetAction, track, reset, reset_all, pin, nothing, split_word, take_word, classify_bare,
  classify_set, bare, bare_defeats_read_only, statement_defeats_read_only, any_defeats,
  defeats_read_only, action_defeats, read_only_guc, classify_keyword, ends_word, keep,
  classify_trimmed, unless_undone, actions_of, actions_for_sql, any_undoes,
}

longer_by_one :
    (c : ℕ) (p q : Str × Str) → (p.1 ≡ []) ⊎ (q.0 ≡ p.0) → (p.1 ≡ []) ⊎ ((c ∷ q.0) ≡ (c ∷ p.0))
longer_by_one c p q (inl e) = inl e
longer_by_one c p q (inr e) = inr (ap (λ w. c ∷ w) e)

-- Either the first word is the whole text, or more text does not change it.
split_word_longer :
    (p rest : Str) → ((split_word p).1 ≡ []) ⊎ ((split_word (p ++ rest)).0 ≡ (split_word p).0)
unfolding split_word
split_word_longer [] rest = inl refl
split_word_longer (c ∷ p) rest = elim (Bool-cases (ends_word c)) [
  | inl e ↦ rw e (inr refl)
  | inr e ↦
      rw e (longer_by_one c (split_word p) (split_word (p ++ rest)) (split_word_longer p rest))
]

trim_blank : (c : ℕ) (p : Str) → is_whitespace c ≡ true → take_word (c ∷ p) ≡ take_word p
unfolding take_word
trim_blank c p e = rw (trim_start, e) refl

keeps_word : (c : ℕ) (p : Str) → is_whitespace c ≡ false → trim_start (c ∷ p) ≡ c ∷ p
unfolding trim_start
keeps_word c p e = rw e refl

trim_word : (c : ℕ) (p : Str) → is_whitespace c ≡ false → take_word (c ∷ p) ≡ split_word (c ∷ p)
unfolding take_word
trim_word c p e = ap split_word (keeps_word c p e)

take_word_longer :
    (p rest : Str) → ((take_word p).1 ≡ []) ⊎ ((take_word (p ++ rest)).0 ≡ (take_word p).0)
unfolding take_word
take_word_longer [] rest = inl refl
take_word_longer (c ∷ p) rest = elim (Bool-cases (is_whitespace c)) [
  | inl e ↦ rw (trim_blank c p e, trim_blank c (p ++ rest) e) (take_word_longer p rest)
  | inr e ↦ rw (trim_word c p e, trim_word c (p ++ rest) e) (split_word_longer (c ∷ p) rest)
]

-- The action leaves the parameter alone that makes PostgreSQL refuse writes.
abbrev pub Spares : SetAction → Type 0
Spares (track name statement) = same name read_only_guc ≡ false
Spares (reset name) = same name read_only_guc ≡ false
Spares reset_all = false ≡ true
Spares (pin reason) = Unit {0}
Spares nothing = Unit {0}

not_defeated : (a : SetAction) (s : Str) → action_defeats a s ≡ false → Spares a
not_defeated (track name statement) s h = h
not_defeated (reset name) s h = h
not_defeated reset_all s h = sym h
not_defeated (pin reason) s h = tt
not_defeated nothing s h = tt

is_command : Str → Bool
unfolding same to_ascii_uppercase
is_command keyword =
    same (to_ascii_uppercase keyword) (codes "SET")
    || same (to_ascii_uppercase keyword) (codes "RESET")

other_is_nothing :
    (keyword b rest : Str)
    → is_command keyword ≡ false
    → classify_keyword (to_ascii_uppercase keyword) b rest ≡ nothing
unfolding classify_keyword is_command
other_is_nothing keyword b rest h = ground (arith, h)

keyword_alone :
    (upper b : Str)
    → (classify_keyword upper b [] ≡ pin session_parameter)
      ⊎ (classify_keyword upper b [] ≡ nothing)
unfolding classify_keyword
keyword_alone upper b = elim (Bool-cases (same upper (codes "SET"))) [
  | inl e ↦ rw e (inl refl)
  | inr e ↦ elim (Bool-cases (same upper (codes "RESET"))) [
    | inl f ↦ rw (e, f) (inl refl)
    | inr f ↦ rw (e, f) (inr refl)
  ]
]

pinned_or_nothing : (a : SetAction) → (a ≡ pin session_parameter) ⊎ (a ≡ nothing) → Spares a
pinned_or_nothing a (inl e) = subst Spares (sym e) tt
pinned_or_nothing a (inr e) = subst Spares (sym e) tt

alone_Spares : (upper b rest : Str) → rest ≡ [] → Spares (classify_keyword upper b rest)
alone_Spares upper b rest h =
    subst (λ r. Spares (classify_keyword upper b r)) (sym h)
      (pinned_or_nothing (classify_keyword upper b []) (keyword_alone upper b))

command_defeats :
    (n : Str)
    → is_command (take_word n).0 ≡ true
    → bare_defeats_read_only n ≡ action_defeats (classify_set n) n
unfolding bare_defeats_read_only is_command
command_defeats n h = rw (bare_defeats_read_only, h) refl

-- A text in front of more text: what it is classified as leaves the parameter alone, if the whole
-- text is not a command.
part_Spares :
    (b n : Str) → IsPrefix b n → is_command (take_word n).0 ≡ false → Spares (classify_bare b)
unfolding classify_bare
part_Spares b n (rest, e) h = elim (take_word_longer b rest) [
  | inl alone ↦ alone_Spares (to_ascii_uppercase (take_word b).0) b (take_word b).1 alone
  | inr same_word ↦
      subst Spares
        (sym (
          other_is_nothing (take_word b).0 b (take_word b).1
            (ap is_command (sym same_word ∙ ap (λ t. (take_word t).0) e) ∙ h)))
        tt
]

bare-IsPrefix : (s : Str) → IsPrefix (bare s) (strip_leading_noise s)
unfolding bare
bare-IsPrefix s =
    let n = strip_leading_noise s in
    IsPrefix-trans (bare s) (trim_end n) n
      (IsPrefix-trans (bare s) (without_suffix b';' (trim_end n)) (trim_end n)
        (trim_end-IsPrefix (without_suffix b';' (trim_end n)))
        (without_suffix-IsPrefix b';' (trim_end n)))
      (trim_end-IsPrefix n)

bare_again : (s : Str) → bare (strip_leading_noise s) ≡ bare s
unfolding bare
bare_again s = ap (λ n. trim_end (without_suffix b';' (trim_end n))) (noise_is_gone s).3

classify_again : (s : Str) → classify_set (strip_leading_noise s) ≡ classify_set s
unfolding classify_set
classify_again s = ap classify_trimmed (bare_again s)

trimmed_Spares :
    (b n : Str) → IsPrefix b n → is_command (take_word n).0 ≡ false → Spares (classify_trimmed b)
trimmed_Spares [] n p h = tt
trimmed_Spares (c ∷ b) n p h = part_Spares (c ∷ b) n p h

other_Spares :
    (s : Str) → is_command (take_word (strip_leading_noise s)).0 ≡ false → Spares (classify_set s)
unfolding classify_set
other_Spares s h = trimmed_Spares (bare s) (strip_leading_noise s) (bare-IsPrefix s) h

statement_Spares : (s : Str) → statement_defeats_read_only s ≡ false → Spares (classify_set s)
unfolding statement_defeats_read_only
statement_Spares s h =
    let n = strip_leading_noise s in
    elim (Bool-cases (is_command (take_word n).0)) [
      | inl e ↦
          subst Spares (classify_again s)
            (not_defeated (classify_set n) n (sym (command_defeats n e) ∙ h))
      | inr e ↦ other_Spares s e
    ]

abbrev pub AllSpare : List SetAction → Type 0
AllSpare [] = Unit {0}
AllSpare (a ∷ more) = Spares a × AllSpare more

keep-Spares :
    (a : SetAction) (more : List SetAction) → Spares a → AllSpare more → AllSpare (keep a more)
keep-Spares (track name statement) more h all = (h, all)
keep-Spares (reset name) more h all = (h, all)
keep-Spares reset_all more h all = (h, all)
keep-Spares (pin reason) more h all = (h, all)
keep-Spares nothing more h all = all

statements_Spare : (ss : List Str) → any_defeats ss ≡ false → AllSpare (actions_of ss)
unfolding any_defeats actions_of
statements_Spare [] h = tt
statements_Spare (s ∷ more) h =
    keep-Spares (classify_set s) (actions_of more) (statement_Spares s (ground (arith, h)))
      (statements_Spare more (ground (arith, h)))

unless_undone_Spare :
    (actions : List SetAction) (undone : Bool)
    → AllSpare actions
    → AllSpare (unless_undone actions undone)
unless_undone_Spare [] undone all = tt
unless_undone_Spare (a ∷ more) true all = (tt, tt)
unless_undone_Spare (a ∷ more) false all = all

-- The actions of a text that is not refused leave the parameter alone.
pub actions_Spare : (sql : Str) → defeats_read_only sql ≡ false → AllSpare (actions_for_sql sql)
unfolding defeats_read_only actions_for_sql
actions_Spare sql h =
    unless_undone_Spare (actions_of (split_statements sql)) (any_undoes (split_statements sql))
      (statements_Spare (split_statements sql) h)
