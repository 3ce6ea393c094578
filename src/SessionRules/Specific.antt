-- ===== src/SessionRules/Specific.antt =====
-- A statement is shared only on the word of the most specific rule
-- (crates/havuz-registry/src/session.rs).
use havuz.Base.{
  ℕ, ◌≡◌, refl, true, false, ◌&&◌, Option, none, some, List, [], ◌∷◌, leb, if◌then◌else◌, length,
  arith, Bool-cases, inl, inr,
}
use havuz.Chars.{Str}
use havuz.Flow.{PinReason}
use havuz.SessionRules.{
  PinRule, SessionRules, classifies, leading_words, starts_with_words, Best, is_longer, best_pin,
  best_safe, verdict, judge, classify,
}

-- Every pin rule that matches the words is shorter than `len`.
abbrev pub AllShorter : Str → ℕ → List PinRule → Type 0
AllShorter head len [] = Unit {0}
AllShorter head len (rule ∷ more) =
    ((starts_with_words head rule.words && leb len (length rule.words)) ≡ false)
    × AllShorter head len more

-- One of the entries that are safe matches, and is longer than every pin rule that matches.
pub data SharedBy (head : Str) (pins : List PinRule) : List Str → Type 0 where
  here :
      (safe : Str) (more : List Str)
      → starts_with_words head safe ≡ true
      → AllShorter head (length safe) pins
      → SharedBy head pins (safe ∷ more)
  later :
      (safe : Str) (more : List Str) → SharedBy head pins more → SharedBy head pins (safe ∷ more)

-- What the best pin rule is at least as long as.
Covers : Str → Best → List PinRule → Type 0
Covers head best [] = Unit {0}
Covers head best (rule ∷ more) =
    ((starts_with_words head rule.words && is_longer best (length rule.words)) ≡ false)
    × Covers head best more

-- The best so far pins, if there is one.
abbrev IsPin : Best → Type 0
IsPin none = Unit {0}
IsPin (some (len, none)) = true ≡ false
IsPin (some (len, some reason)) = Unit {0}

longer_still :
    (best : Best) (len k : ℕ) (v : Option PinReason)
    → is_longer best len ≡ true
    → is_longer best k ≡ false
    → is_longer (some (len, v)) k ≡ false
longer_still none len k v h l = absurd (cc)
longer_still (some (n, w)) len k v h l = ground (arith, h, l)

longer-Covers :
    (head : Str) (best : Best) (len : ℕ) (v : Option PinReason) (rules : List PinRule)
    → is_longer best len ≡ true
    → Covers head best rules
    → Covers head (some (len, v)) rules
unfolding Covers
longer-Covers head best len v [] h c = tt
longer-Covers head best len v (rule ∷ more) h c = (
  elim (Bool-cases (starts_with_words head rule.words)) [
    | inl e ↦ rw e (longer_still best len (length rule.words) v h (rw e at c.0))
    | inr e ↦ rw e refl
  ],
  longer-Covers head best len v more h c.1,
)

abbrev with_pin : Str → Best → PinRule → Best
with_pin head best rule =
    if starts_with_words head rule.words && is_longer best (length rule.words)
    then some (length rule.words, some rule.reason)
    else best

with_pin-Covers :
    (head : Str) (best : Best) (rule : PinRule) (rules : List PinRule)
    → Covers head best rules
    → Covers head (with_pin head best rule) rules
with_pin-Covers head best rule rules c =
    elim (Bool-cases (starts_with_words head rule.words && is_longer best (length rule.words))) [
      | inl e ↦ rw e (
          longer-Covers head best (length rule.words) (some rule.reason) rules (ground (arith, e))
            c)
      | inr e ↦ rw e c
    ]

with_pin_covers :
    (head : Str) (best : Best) (rule : PinRule)
    → (starts_with_words head rule.words && is_longer (with_pin head best rule) (length rule.words))
      ≡ false
with_pin_covers head best rule =
    elim (Bool-cases (starts_with_words head rule.words && is_longer best (length rule.words))) [
      | inl e ↦ rw e (ground arith)
      | inr e ↦ rw e e
    ]

with_pin-IsPin :
    (head : Str) (best : Best) (rule : PinRule) → IsPin best → IsPin (with_pin head best rule)
with_pin-IsPin head best rule p =
    elim (Bool-cases (starts_with_words head rule.words && is_longer best (length rule.words))) [
      | inl e ↦ rw e tt
      | inr e ↦ rw e p
    ]

best_pin-Covers_kept :
    (head : Str) (best : Best) (rules done : List PinRule)
    → Covers head best done
    → Covers head (best_pin head best rules) done
unfolding best_pin
best_pin-Covers_kept head best [] done c = c
best_pin-Covers_kept head best (rule ∷ more) done c =
    best_pin-Covers_kept head (with_pin head best rule) more done
      (with_pin-Covers head best rule done c)

best_pin-Covers :
    (head : Str) (best : Best) (rules : List PinRule) → Covers head (best_pin head best rules) rules
unfolding best_pin Covers
best_pin-Covers head best [] = tt
best_pin-Covers head best (rule ∷ more) = (
  (best_pin-Covers_kept head (with_pin head best rule) more (rule ∷ [])
      (with_pin_covers head best rule, tt)).0,
  best_pin-Covers head (with_pin head best rule) more,
)

best_pin-IsPin :
    (head : Str) (best : Best) (rules : List PinRule)
    → IsPin best
    → IsPin (best_pin head best rules)
unfolding best_pin
best_pin-IsPin head best [] p = p
best_pin-IsPin head best (rule ∷ more) p =
    best_pin-IsPin head (with_pin head best rule) more (with_pin-IsPin head best rule p)

shorter_than :
    (best : Best) (len k : ℕ)
    → is_longer best len ≡ true
    → is_longer best k ≡ false
    → leb len k ≡ false
shorter_than none len k h l = absurd (cc)
shorter_than (some (n, w)) len k h l = ground (arith, h, l)

covered_are_shorter :
    (head : Str) (best : Best) (len : ℕ) (rules : List PinRule)
    → is_longer best len ≡ true
    → Covers head best rules
    → AllShorter head len rules
unfolding Covers
covered_are_shorter head best len [] h c = tt
covered_are_shorter head best len (rule ∷ more) h c = (
  elim (Bool-cases (starts_with_words head rule.words)) [
    | inl e ↦ rw e (shorter_than best len (length rule.words) h (rw e at c.0))
    | inr e ↦ rw e refl
  ],
  covered_are_shorter head best len more h c.1,
)

pin_is_no_share : (best : Best) → IsPin best → verdict best ≡ none → true ≡ false
pin_is_no_share none p h = absurd (cc)
pin_is_no_share (some (len, none)) p h = p
pin_is_no_share (some (len, some reason)) p h = absurd (cc)

shared_by :
    (head : Str) (best : Best) (pins : List PinRule) (safes : List Str)
    → Covers head best pins
    → IsPin best
    → verdict (best_safe head best safes) ≡ none
    → SharedBy head pins safes
unfolding best_safe
shared_by head best pins [] c p h = absurd (cc (pin_is_no_share best p h))
shared_by head best pins (safe ∷ more) c p h =
    elim (Bool-cases (starts_with_words head safe && is_longer best (length safe))) [
      | inl e ↦
          here safe more (ground (arith, e))
            (covered_are_shorter head best (length safe) pins (ground (arith, e)) c)
      | inr e ↦ later safe more (shared_by head best pins more c p (rw e at h))
    ]

judged_shared :
    (r : SessionRules) (head : Str) → judge r head ≡ none → SharedBy head r.pins r.shareable
unfolding judge
judged_shared r head h =
    shared_by head (best_pin head none r.pins) r.pins r.shareable (best_pin-Covers head none r.pins)
      (best_pin-IsPin head none r.pins tt) h

-- A statement is taken to leave nothing behind only if an entry of the product's list of safe
-- statements begins it that is longer than every rule for pinning that begins it as well, in whatever
-- order the lists are written.
pub sharing_needs_longer_rule :
    (r : SessionRules) (sql : Str)
    → classify r sql ≡ none
    → SharedBy (leading_words sql) r.pins r.shareable
unfolding classify
sharing_needs_longer_rule r sql h = elim (Bool-cases (classifies r)) [
  | inl e ↦ judged_shared r (leading_words sql) (rw e at h)
  | inr e ↦ absurd (cc (rw e at h))
]
