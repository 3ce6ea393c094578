-- ===== src/SessionRules.antt =====
-- crates/havuz-registry/src/session.rs: how a product's statements are judged by their leading words,
-- where a family does not parse them. The words of a rule are ASCII, so their length in bytes is that
-- in characters.
pub mod Specific
mod Tests
use havuz.Base.{
  ℕ, Bool, true, false, not, ◌&&◌, ◌||◌, Option, none, some, List, [], ◌∷◌, ◌++◌, ◌==◌, ltb,
  if◌then◌else◌, length,
}
use havuz.Chars.{Str, trim_start, split_whitespace, to_ascii_uppercase, strip_prefix}
use havuz.Lexer.{take}
use havuz.Flow.{PinReason, unclassified}

pub record PinRule : Type 0 where
  pub words : Str
  pub reason : PinReason

pub record SessionRules : Type 0 where
  pub reset_query : Option Str
  pub pins : List PinRule
  pub shareable : List Str

-- `SessionRules::OPAQUE`.
abbrev pub opaque_rules : SessionRules
opaque_rules = record { reset_query = none; pins = []; shareable = [] }

abbrev pub classifies : SessionRules → Bool
classifies r = elim r.shareable [ [] ↦ false | safe ∷ more ↦ true ]

abbrev is_syntax : ℕ → Bool
is_syntax c = (c == b';') || (c == b'(') || (c == b')')

-- `trim_start_matches('(')`.
unfoldable pub trim_parens : Str → Str
trim_parens [] = []
trim_parens (c ∷ cs) = let rest = trim_parens cs in if c == b'(' then rest else c ∷ cs

unfoldable pub trim_syntax_start : Str → Str
trim_syntax_start [] = []
trim_syntax_start (c ∷ cs) = let rest = trim_syntax_start cs in if is_syntax c then rest else c ∷ cs

unfoldable pub all_syntax : Str → Bool
all_syntax [] = true
all_syntax (c ∷ cs) = let rest = all_syntax cs in is_syntax c && rest

unfoldable pub trim_syntax_end : Str → Str
unfolding all_syntax
trim_syntax_end [] = []
trim_syntax_end (c ∷ cs) =
    let rest = trim_syntax_end cs in if all_syntax (c ∷ cs) then [] else c ∷ rest

-- A word after the others, with a space between them.
abbrev push_word : Str → Str → Str
push_word [] word = word
push_word (c ∷ out) word = (c ∷ out) ++ b' ' ∷ word

abbrev push_unless_empty : Str → Str → Str
push_unless_empty out [] = out
push_unless_empty out (c ∷ word) = push_word out (to_ascii_uppercase (c ∷ word))

unfoldable pub joined : Str → List Str → Str
unfolding trim_syntax_start trim_syntax_end to_ascii_uppercase
joined out [] = out
joined out (word ∷ more) =
    joined (push_unless_empty out (trim_syntax_end (trim_syntax_start word))) more

unfoldable pub leading_words : Str → Str
unfolding trim_start trim_parens split_whitespace joined
leading_words sql = joined [] (take 6 (split_whitespace (trim_parens (trim_start sql))))

abbrev begins_with_space : Str → Bool
begins_with_space [] = true
begins_with_space (c ∷ cs) = c == b' '

abbrev on_boundary : Option Str → Bool
on_boundary none = false
on_boundary (some rest) = begins_with_space rest

unfoldable pub starts_with_words : Str → Str → Bool
unfolding strip_prefix
starts_with_words head words = on_boundary (strip_prefix words head)

-- The most specific rule so far: the length of its words, and why it pins, if it does.
abbrev pub Best : Type 0
Best = Option (ℕ × Option PinReason)

abbrev pub is_longer : Best → ℕ → Bool
is_longer none len = true
is_longer (some (best, verdict)) len = ltb best len

unfoldable pub best_pin : Str → Best → List PinRule → Best
unfolding starts_with_words
best_pin head best [] = best
best_pin head best (rule ∷ more) =
    best_pin head
      (if starts_with_words head rule.words && is_longer best (length rule.words)
        then some (length rule.words, some rule.reason)
        else best)
      more

unfoldable pub best_safe : Str → Best → List Str → Best
unfolding starts_with_words
best_safe head best [] = best
best_safe head best (safe ∷ more) =
    best_safe head
      (if starts_with_words head safe && is_longer best (length safe)
        then some (length safe, none)
        else best)
      more

abbrev pub verdict : Best → Option PinReason
verdict none = some unclassified
verdict (some (len, reason)) = reason

-- The judgement on leading words.
unfoldable pub judge : SessionRules → Str → Option PinReason
unfolding best_pin best_safe
judge r head = verdict (best_safe head (best_pin head none r.pins) r.shareable)

unfoldable pub classify : SessionRules → Str → Option PinReason
unfolding leading_words judge
classify r sql = if classifies r then judge r (leading_words sql) else some unclassified
