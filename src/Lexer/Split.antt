-- ===== src/Lexer/Split.antt =====
-- Statements, and the text scanned for keywords (crates/havuz-pg/src/classify.rs).
use havuz.Base.{
  ℕ, zero, suc, ◌≤◌, ◌≡◌, refl, sym, ap, ◌∙◌, true, false, none, some, List, [], ◌∷◌, ◌++◌, ◌==◌,
  if◌then◌else◌, length, map, Bool-cases, Option-cases, ◌⊎◌, inl, inr, arith,
}
use havuz.Chars.{Str, utf8}
use havuz.Lexer.{hidden, or_zero, listed, split_from, split_statements, strip_from, strip_literals}
use havuz.Lexer.Local.{hidden_local}

-- Where a text is cut at each semicolon, whatever stands around it.
unfoldable pub cut_from : Str → Str × List Str
cut_from [] = ([], [])
cut_from (c ∷ cs) =
    let (s, more) = cut_from cs in if c == b';' then ([], listed cs s more) else (c ∷ s, more)

unfoldable pub cut : Str → List Str
unfolding cut_from
cut s = listed s (cut_from s).0 (cut_from s).1

-- A statement is the whole rest, or it ends at a semicolon and no item reaches past it.
Shape : ℕ → Str → Str → Type 0
Shape skip sql s = (s ≡ sql) ⊎ ((ys : Str) × (sql ≡ s ++ b';' ∷ ys) × (skip ≤ length s))

pub split_hidden :
    (c n : ℕ) (cs : Str)
    → hidden c cs ≡ some n
    → split_from 0 (c ∷ cs) ≡ (c ∷ (split_from n cs).0, (split_from n cs).1)
unfolding split_from
split_hidden c n cs e = rw (e, split_from) refl

pub split_plain :
    (c : ℕ) (cs : Str)
    → hidden c cs ≡ none
    → (c == b';') ≡ false
    → split_from 0 (c ∷ cs) ≡ (c ∷ (split_from 0 cs).0, (split_from 0 cs).1)
unfolding split_from
split_plain c cs e h = rw (e, split_from, h) refl

pub split_semicolon :
    (c : ℕ) (cs : Str)
    → hidden c cs ≡ none
    → (c == b';') ≡ true
    → split_from 0 (c ∷ cs) ≡ ([], split_statements cs)
unfolding split_from split_statements
split_semicolon c cs e h = rw (e, split_from, h) refl

extend : (c k n : ℕ) (cs s : Str) → k ≤ suc n → Shape n cs s → Shape k (c ∷ cs) (c ∷ s)
unfolding Shape
extend c k n cs s h (inl e) = inl (ap (λ t. c ∷ t) e)
extend c k n cs s h (inr (ys, e, fits)) = inr (ys, ap (λ t. c ∷ t) e, omega (arith, h, fits))

split_Shape : (skip : ℕ) (sql : Str) → Shape skip sql (split_from skip sql).0
unfolding split_from Shape
split_Shape skip [] = inl refl
split_Shape (suc skip) (c ∷ cs) =
    extend c (suc skip) skip cs (split_from skip cs).0 (omega arith) (split_Shape skip cs)
split_Shape zero (c ∷ cs) = elim (Option-cases (hidden c cs)) [
  | inr (n, e) ↦
      rw (split_hidden c n cs e)
        (extend c 0 n cs (split_from n cs).0 (omega arith) (split_Shape n cs))
  | inl e ↦ elim (Bool-cases (c == b';')) [
    | inl h ↦ rw (split_semicolon c cs e h) (inr (cs, ground (arith, h), omega arith))
    | inr h ↦
        rw (split_plain c cs e h)
          (extend c 0 0 cs (split_from 0 cs).0 (omega arith) (split_Shape 0 cs))
  ]
]

hidden_at :
    (c n : ℕ) (cs s : Str) → or_zero (hidden c cs) ≡ n → Shape n cs s → hidden c s ≡ hidden c cs
unfolding Shape
hidden_at c n cs s e (inl whole) = ap (hidden c) whole
hidden_at c n cs s e (inr (ys, whole, fits)) =
    hidden_local c s ys (omega (arith, e, fits, ap (λ t. or_zero (hidden c t)) whole))
    ∙ ap (hidden c) (sym whole)

-- A statement on its own has the same item at its front as the text around it.
pub hidden_kept :
    (c n : ℕ) (cs : Str) → or_zero (hidden c cs) ≡ n → hidden c (split_from n cs).0 ≡ hidden c cs
hidden_kept c n cs e = hidden_at c n cs (split_from n cs).0 e (split_Shape n cs)

strip_hidden :
    (c n : ℕ) (cs : Str) → hidden c cs ≡ some n → strip_from 0 (c ∷ cs) ≡ b' ' ∷ strip_from n cs
unfolding strip_from
strip_hidden c n cs e = rw (e, strip_from) refl

strip_plain :
    (c : ℕ) (cs : Str) → hidden c cs ≡ none → strip_from 0 (c ∷ cs) ≡ utf8 c ++ strip_from 0 cs
unfolding strip_from
strip_plain c cs e = rw (e, strip_from) refl

-- No byte of another character is a semicolon.
cut-utf8 :
    (c : ℕ) (t : Str)
    → (c == b';') ≡ false
    → cut_from (utf8 c ++ t) ≡ (utf8 c ++ (cut_from t).0, (cut_from t).1)
unfolding cut_from utf8
cut-utf8 c t h = ground (arith, h)

cut-utf8_semicolon : (c : ℕ) (t : Str) → (c == b';') ≡ true → cut_from (utf8 c ++ t) ≡ ([], cut t)
unfolding cut_from utf8 cut
cut-utf8_semicolon c t h = ground (arith, h)

listed-utf8 : (c : ℕ) (t s : Str) (more : List Str) → listed (utf8 c ++ t) s more ≡ s ∷ more
unfolding utf8
listed-utf8 c t s more = ground arith

listed-strip :
    (cs : Str) (s : Str) (more : List Str)
    → listed (strip_from 0 cs) (strip_from 0 s) (map strip_literals more)
      ≡ map strip_literals (listed cs s more)
unfolding strip_from strip_literals
listed-strip [] s more = refl
listed-strip (c ∷ cs) s more = elim (Option-cases (hidden c cs)) [
  | inr (n, e) ↦ rw (strip_hidden c n cs e) refl
  | inl e ↦
      rw (strip_plain c cs e)
        (listed-utf8 c (strip_from 0 cs) (strip_from 0 s) (map strip_literals more))
]

cut_parts :
    (cs : Str)
    → cut_from (strip_literals cs)
      ≡ (strip_literals (split_from 0 cs).0, map strip_literals (split_from 0 cs).1)
    → cut (strip_literals cs) ≡ map strip_literals (split_statements cs)
unfolding cut split_statements strip_literals
cut_parts cs e =
    rw (ap (λ p. p.0) e, ap (λ p. p.1) e) (listed-strip cs (split_from 0 cs).0 (split_from 0 cs).1)

cut-strip :
    (skip : ℕ) (sql : Str)
    → cut_from (strip_from skip sql)
      ≡ (strip_from skip (split_from skip sql).0, map strip_literals (split_from skip sql).1)
unfolding strip_from split_from cut_from strip_literals
cut-strip skip [] = refl
cut-strip (suc skip) (c ∷ cs) = cut-strip skip cs
cut-strip zero (c ∷ cs) = elim (Option-cases (hidden c cs)) [
  | inr (n, e) ↦
      rw
        (
          split_hidden c n cs e,
          strip_hidden c n cs e,
          strip_hidden c n (split_from n cs).0 (hidden_kept c n cs (ap or_zero e) ∙ e),
        )
        (rw (cut-strip n cs) refl)
  | inl e ↦ elim (Bool-cases (c == b';')) [
    | inl h ↦
        rw (split_semicolon c cs e h, strip_plain c cs e, cut-utf8_semicolon c (strip_from 0 cs) h)
          (ap (λ t. ([], t)) (cut_parts cs (cut-strip 0 cs)))
    | inr h ↦
        rw
          (
            split_plain c cs e h,
            strip_plain c cs e,
            strip_plain c (split_from 0 cs).0 (hidden_kept c 0 cs (ap or_zero e) ∙ e),
            cut-utf8 c (strip_from 0 cs) h,
          )
          (rw (cut-strip 0 cs) refl)
  ]
]

-- Splitting a text into statements and stripping the literals of each gives what stripping the whole
-- text and cutting it at every semicolon gives: no literal, dollar quote or comment holds a
-- separator, and a statement reads the same alone as in its batch.
pub split_then_strip :
    (sql : Str) → map strip_literals (split_statements sql) ≡ cut (strip_literals sql)
unfolding strip_literals
split_then_strip sql = sym (cut_parts sql (cut-strip 0 sql))
