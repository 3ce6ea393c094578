-- ===== src/SessionParams/Quoting.antt =====
-- A value of the startup packet as the literal of a `SET` (crates/havuz-pg/src/params.rs).
use havuz.Base.{
  ◌≡◌, refl, sym, Bool, true, false, ◌&&◌, Option, none, some, [], ◌∷◌, ◌++◌, ◌==◌, if◌then◌else◌,
  Bool-cases, inl, inr, arith, ℕ,
}
use havuz.Chars.{Str, codes}
use havuz.SessionParams.Startup.{double_quotes, set_statement}

abbrev before_value : ℕ → Option (Str × Str) → Option (Str × Str)
before_value c none = none
before_value c (some (value, rest)) = some (c ∷ value, rest)

-- What a server has just read of a literal: nothing that matters, a quote, or a backslash that escapes.
pub data Mode : Type 0 where
  plain quote escape : Mode

-- How a server reads a literal after its opening quote: a quote that is doubled stands for one, and
-- another one ends the literal. A backslash escapes the next character where
-- `standard_conforming_strings` is off, and is ordinary where it is on, as it is by default.
unfoldable pub read_literal : Bool → Mode → Str → Option (Str × Str)
read_literal escapes plain [] = none
read_literal escapes quote [] = some ([], [])
read_literal escapes escape [] = none
read_literal escapes plain (c ∷ cs) =
    let quoted = read_literal escapes quote cs in
    let escaped = read_literal escapes escape cs in
    let rest = read_literal escapes plain cs in
    if c == b'\'' then quoted else if escapes && (c == b'\\') then escaped else before_value c rest
read_literal escapes quote (c ∷ cs) =
    let rest = read_literal escapes plain cs in
    if c == b'\'' then before_value b'\'' rest else some ([], c ∷ cs)
read_literal escapes escape (c ∷ cs) = before_value c (read_literal escapes plain cs)

-- Where backslashes escape, the text has none.
abbrev pub Unescaped : Bool → Str → Type 0
Unescaped escapes [] = Unit {0}
Unescaped escapes (c ∷ cs) = ((escapes && (c == b'\\')) ≡ false) × Unescaped escapes cs

is_quote : (c : ℕ) → (c == b'\'') ≡ true → c ≡ b'\''
is_quote c h = ground (arith, h)

empty_read :
    (escapes : Bool) → read_literal escapes plain (double_quotes [] ++ b'\'' ∷ []) ≡ some ([], [])
unfolding read_literal double_quotes
empty_read escapes = refl

quote_doubled :
    (escapes : Bool) (c : ℕ) (cs rest : Str)
    → (c == b'\'') ≡ true
    → read_literal escapes plain (double_quotes (c ∷ cs) ++ rest)
      ≡ before_value c (read_literal escapes plain (double_quotes cs ++ rest))
unfolding double_quotes read_literal
quote_doubled escapes c cs rest h = rw (h, sym (is_quote c h)) refl

plain_kept :
    (escapes : Bool) (c : ℕ) (cs : Str)
    → (c == b'\'') ≡ false
    → (escapes && (c == b'\\')) ≡ false
    → read_literal escapes plain (c ∷ cs) ≡ before_value c (read_literal escapes plain cs)
unfolding read_literal
plain_kept escapes c cs h k = rw (h, k) refl

double_plain :
    (c : ℕ) (cs : Str) → (c == b'\'') ≡ false → double_quotes (c ∷ cs) ≡ c ∷ double_quotes cs
unfolding double_quotes
double_plain c cs h = rw h refl

literal_read :
    (escapes : Bool) (value : Str)
    → Unescaped escapes value
    → read_literal escapes plain (double_quotes value ++ b'\'' ∷ []) ≡ some (value, [])
literal_read escapes [] u = empty_read escapes
literal_read escapes (c ∷ cs) (k, u) = elim (Bool-cases (c == b'\'')) [
  | inl e ↦ rw (quote_doubled escapes c cs (b'\'' ∷ []) e, literal_read escapes cs u) refl
  | inr e ↦
      rw
        (
          double_plain c cs e,
          plain_kept escapes c (double_quotes cs ++ b'\'' ∷ []) e k,
          literal_read escapes cs u,
        )
        refl
]

-- The statement that is seeded for a startup parameter is `SET`, the name and one literal, which a
-- server reads as the value that the client gave, up to the end of the statement: whatever quotes the
-- value holds, none of it is read as SQL. This takes a server on which `standard_conforming_strings`
-- is on, or a value without backslashes.
pub value_survives_quoting :
    (escapes : Bool) (name value : Str)
    → Unescaped escapes value
    → (literal : Str) × (set_statement name value
        ≡ codes "SET " ++ (name ++ (codes " = '" ++ literal)))
      × (read_literal escapes plain literal ≡ some (value, []))
unfolding set_statement
value_survives_quoting escapes name value u =
    (double_quotes value ++ codes "'", refl, literal_read escapes value u)
