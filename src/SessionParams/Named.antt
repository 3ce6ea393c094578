-- ===== src/SessionParams/Named.antt =====
-- The names under which parameters are remembered can be written into a statement
-- (crates/havuz-pg/src/params.rs).
use havuz.Base.{
  ℕ, zero, suc, ◌≡◌, refl, Bool, true, false, ◌&&◌, ◌||◌, Option, none, some, List, [], ◌∷◌, ◌==◌,
  if◌then◌else◌, Bool-cases, Option-cases, inl, inr, length, arith,
}
use havuz.Text.{same}
use havuz.Chars.{
  Str, codes, to_lower, to_ascii_lowercase, to_ascii_uppercase, split_once, eq_ignore_ascii_case,
  trim_start, trim,
}
use havuz.Lexer.{split_statements}
use havuz.SessionParams.Sorted.{Params}
use havuz.SessionParams.{
  SetAction, track, reset, reset_all, pin, nothing, is_identifier, all_name_chars,
  is_parameter_name, take_word, classify_set_body, classify_reset_body, classify_keyword,
  classify_trimmed, classify_bare, classify_set, bare, actions_of, actions_for_sql, any_undoes,
  unless_undone, track_statement, assignment, value_action, named_by_spelling, keep,
  has_placeholder, introduced_value, second_word_is,
}

-- Every name in the map is one that can be written into a statement.
abbrev pub AllNamed : Params → Type 0
AllNamed [] = Unit {0}
AllNamed ((name, statement) ∷ more) = (is_parameter_name name ≡ true) × AllNamed more

lower_rest : (s : Str) → all_name_chars s ≡ true → all_name_chars (to_ascii_lowercase s) ≡ true
unfolding all_name_chars to_ascii_lowercase
lower_rest [] h = refl
lower_rest (c ∷ s) h = ground (arith, h, lower_rest s)

lower_identifier : (s : Str) → is_identifier s ≡ true → is_identifier (to_ascii_lowercase s) ≡ true
unfolding is_identifier to_ascii_lowercase
lower_identifier [] h = h
lower_identifier (c ∷ s) h = ground (arith, h, lower_rest s)

lower_split : Option (Str × Str) → Option (Str × Str)
lower_split none = none
lower_split (some (a, b)) = some (to_ascii_lowercase a, to_ascii_lowercase b)

lower_dot : (c : ℕ) → (to_lower c == b'.') ≡ (c == b'.')
unfolding to_lower
lower_dot c = ground arith

split_once-lower :
    (s : Str) → split_once b'.' (to_ascii_lowercase s) ≡ lower_split (split_once b'.' s)
unfolding split_once to_ascii_lowercase lower_split
split_once-lower [] = refl
split_once-lower (c ∷ s) = elim (Bool-cases (c == b'.')) [
  | inl dot ↦ rw (lower_dot c, dot) refl
  | inr no_dot ↦ elim (Option-cases (split_once b'.' s)) [
    | inl e ↦ rw (lower_dot c, no_dot, split_once-lower s, e) refl
    | inr (parts, e) ↦ rw (lower_dot c, no_dot, split_once-lower s, e) refl
  ]
]

pub lower_name :
    (s : Str) → is_parameter_name s ≡ true → is_parameter_name (to_ascii_lowercase s) ≡ true
unfolding is_parameter_name lower_split
lower_name s h = elim (Option-cases (split_once b'.' s)) [
  | inl e ↦ ground (arith, h, e, split_once-lower s, lower_identifier s)
  | inr ((a, b), e) ↦ elim (Option-cases (split_once b'.' b)) [
    | inl f ↦ ground (
      arith,
      h,
      e,
      f,
      split_once-lower s,
      split_once-lower b,
      lower_identifier a,
      lower_identifier b,
    )
    | inr (more, f) ↦ ground (arith, h, e, f)
  ]
]

abbrev pub IsNamed : SetAction → Type 0
IsNamed (track name statement) = is_parameter_name name ≡ true
IsNamed (reset name) = is_parameter_name name ≡ true
IsNamed reset_all = Unit {0}
IsNamed (pin reason) = Unit {0}
IsNamed nothing = Unit {0}

track-IsNamed :
    (statement name : Str)
    → is_parameter_name name ≡ true
    → IsNamed (track_statement statement name)
unfolding track_statement
track-IsNamed statement name h = lower_name name h

value_action-IsNamed :
    (statement first value : Str)
    → is_parameter_name first ≡ true
    → IsNamed (value_action statement first value)
value_action-IsNamed statement first [] h = tt
value_action-IsNamed statement first (c ∷ cs) h = elim (Bool-cases (has_placeholder (c ∷ cs))) [
  | inl e ↦ rw e tt
  | inr e ↦ elim (Bool-cases (eq_ignore_ascii_case (c ∷ cs) (codes "DEFAULT"))) [
    | inl f ↦ rw (e, f) (lower_name first h)
    | inr f ↦ rw (e, f) (track-IsNamed statement (to_ascii_lowercase first) (lower_name first h))
  ]
]

assignment-IsNamed : (statement first after : Str) → IsNamed (assignment statement first after)
assignment-IsNamed statement first after = elim (Bool-cases (is_parameter_name first)) [
  | inr e ↦ rw e tt
  | inl e ↦ elim (Option-cases (introduced_value (trim_start after))) [
    | inl f ↦ rw (e, f) tt
    | inr (value, f) ↦ rw (e, f) (value_action-IsNamed statement first (trim value) e)
  ]
]

either : (b : Bool) (x y : SetAction) → IsNamed x → IsNamed y → IsNamed (if b then x else y)
either true x y h k = h
either false x y h k = k

where_true :
    (b : Bool) (x y : SetAction) → (b ≡ true → IsNamed x) → IsNamed y → IsNamed (if b then x else y)
where_true true x y h k = h refl
where_true false x y h k = k

reset-IsNamed : (rest : Str) → IsNamed (classify_reset_body rest)
unfolding classify_reset_body
reset-IsNamed rest = either (same (to_ascii_uppercase (take_word rest).0) (codes "ALL")) _ _ tt (
    either (same (to_ascii_uppercase (take_word rest).0) (codes "ROLE")) _ _ refl (
      either (same (to_ascii_uppercase (take_word rest).0) (codes "SESSION")) _ _ refl (
        either (same (to_ascii_uppercase (take_word rest).0) (codes "TIME")) _ _
          (either (second_word_is "ZONE" (take_word rest).1) _ _ refl tt)
          (where_true (is_parameter_name (take_word rest).0) _ _
            (λ e. lower_name (take_word rest).0 e) tt))))

abbrev SpellsName : Option Str → Type 0
SpellsName none = Unit {0}
SpellsName (some name) = is_parameter_name name ≡ true

spelled :
    (b : Bool) (x y : Option Str) → SpellsName x → SpellsName y → SpellsName (if b then x else y)
spelled true x y h k = h
spelled false x y h k = k

named_by_spelling-SpellsName : (upper after : Str) → SpellsName (named_by_spelling upper after)
unfolding is_parameter_name
named_by_spelling-SpellsName upper after =
    spelled (same upper (codes "TIME") && second_word_is "ZONE" after) _ _ refl (
      spelled (same upper (codes "NAMES")) _ _ refl (
        spelled (same upper (codes "SCHEMA")) _ _ refl
          (spelled (same upper (codes "XML") && second_word_is "OPTION" after) _ _ refl tt)))

spelled-IsNamed :
    (o : Option Str) (statement first after : Str)
    → SpellsName o
    → IsNamed (elim o [
      | some name ↦ track_statement statement name
      | none ↦ assignment statement first after
    ])
spelled-IsNamed none statement first after h = assignment-IsNamed statement first after
spelled-IsNamed (some name) statement first after h = track-IsNamed statement name h

set-IsNamed : (fuel : ℕ) (statement rest : Str) → IsNamed (classify_set_body fuel statement rest)
unfolding classify_set_body
set-IsNamed zero statement rest = tt
set-IsNamed (suc fuel) statement rest =
    let first = (take_word rest).0 in
    let after = (take_word rest).1 in
    let upper = to_ascii_uppercase first in
    let second = to_ascii_uppercase (take_word after).0 in
    either (same upper (codes "LOCAL") || same upper (codes "TRANSACTION")) _ _ tt (
      either (same upper (codes "ROLE") || same upper (codes "CONSTRAINTS")) _ _ tt (
        either (same upper (codes "SESSION")) _ _
          (either (same second (codes "AUTHORIZATION") || same second (codes "CHARACTERISTICS")) _ _
            tt (set-IsNamed fuel statement after))
          (spelled-IsNamed (named_by_spelling upper after) statement first after
            (named_by_spelling-SpellsName upper after))))

keyword-IsNamed : (upper b rest : Str) → IsNamed (classify_keyword upper b rest)
unfolding classify_keyword
keyword-IsNamed upper b rest =
    either (same upper (codes "SET")) _ _ (set-IsNamed (suc (length rest)) b rest)
      (either (same upper (codes "RESET")) _ _ (reset-IsNamed rest) tt)

trimmed-IsNamed : (b : Str) → IsNamed (classify_trimmed b)
unfolding classify_bare
trimmed-IsNamed [] = tt
trimmed-IsNamed (c ∷ b) =
    keyword-IsNamed (to_ascii_uppercase (take_word (c ∷ b)).0) (c ∷ b) (take_word (c ∷ b)).1

abbrev pub AllActionsNamed : List SetAction → Type 0
AllActionsNamed [] = Unit {0}
AllActionsNamed (a ∷ more) = IsNamed a × AllActionsNamed more

keep-Named :
    (a : SetAction) (more : List SetAction)
    → IsNamed a
    → AllActionsNamed more
    → AllActionsNamed (keep a more)
keep-Named (track name statement) more h all = (h, all)
keep-Named (reset name) more h all = (h, all)
keep-Named reset_all more h all = (h, all)
keep-Named (pin reason) more h all = (h, all)
keep-Named nothing more h all = all

statements-Named : (ss : List Str) → AllActionsNamed (actions_of ss)
unfolding actions_of classify_set
statements-Named [] = tt
statements-Named (s ∷ more) =
    keep-Named (classify_set s) (actions_of more) (trimmed-IsNamed (bare s)) (statements-Named more)

unless_undone-Named :
    (actions : List SetAction) (undone : Bool)
    → AllActionsNamed actions
    → AllActionsNamed (unless_undone actions undone)
unless_undone-Named [] undone all = tt
unless_undone-Named (a ∷ more) true all = (tt, tt)
unless_undone-Named (a ∷ more) false all = all

pub actions-AllActionsNamed : (sql : Str) → AllActionsNamed (actions_for_sql sql)
unfolding actions_for_sql
actions-AllActionsNamed sql =
    unless_undone-Named (actions_of (split_statements sql)) (any_undoes (split_statements sql))
      (statements-Named (split_statements sql))
