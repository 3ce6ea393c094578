-- ===== src/Rewrite/Pieces.antt =====
-- What becomes of one piece of a statement, in front of whatever follows
-- (crates/havuz-jdbc/src/rewrite.rs).
use havuz.Base.{
  ℕ, suc, ◌≡◌, refl, ap, ◌∙◌, true, false, ◌&&◌, ◌||◌, none, some, [], ◌∷◌, ◌++◌, ◌==◌,
  if◌then◌else◌, length, arith, Bool-cases, inl, inr,
}
use havuz.Chars.{Str, is_ascii_digit}
use havuz.Lexer.{begins, line_len}
use havuz.Rewrite.{
  Rewritten, copied, numbered, piece_at, copy_quoted, dollar_quote, push_char, push_mark,
  rewrite_from, leading_digits, parse_u16, placeholder, begins_with_digit, piece_at_dollar,
}

-- No line break in a text.
abbrev pub NoBreak : Str → Type 0
NoBreak [] = Unit {0}
NoBreak (c ∷ cs) = ((c == b'\n') ≡ false) × NoBreak cs

-- A character of code in front of a text: it opens nothing.
abbrev pub Ordinary : ℕ → Str → Type 0
Ordinary c rest =
    (((c == b'\'') || (c == b'"')) ≡ false)
    × (((c == b'-') && begins b'-' rest) ≡ false)
    × (((c == b'/') && begins b'*' rest) ≡ false)
    × ((c == b'$') ≡ false)

pub rewrite_copied :
    (c : ℕ) (cs : Str) (n : ℕ)
    → piece_at c cs ≡ copied n
    → rewrite_from 0 0 (c ∷ cs) ≡ push_char c (rewrite_from n 0 cs)
unfolding rewrite_from
rewrite_copied c cs n e = rw (e, rewrite_from) refl

rewrite_numbered :
    (c : ℕ) (cs : Str) (n : ℕ)
    → piece_at c cs ≡ numbered n
    → rewrite_from 0 0 (c ∷ cs) ≡ push_mark n (rewrite_from 0 (length (leading_digits cs)) cs)
unfolding rewrite_from
rewrite_numbered c cs n e = rw (e, rewrite_from) refl

-- A text in front of what is rewritten.
abbrev pub push_text : Str → Rewritten → Rewritten
push_text [] r = r
push_text (c ∷ cs) r = push_char c (push_text cs r)

copies_text : (s t : Str) → rewrite_from (length s) 0 (s ++ t) ≡ push_text s (rewrite_from 0 0 t)
unfolding rewrite_from
copies_text [] t = refl
copies_text (d ∷ s) t = ap (push_char d) (copies_text s t)

-- A text as it is written between two delimiters: each of them in it is doubled.
unfoldable pub doubled : ℕ → Str → Str
doubled q [] = []
doubled q (c ∷ cs) = let rest = doubled q cs in if c == q then q ∷ q ∷ rest else c ∷ rest

double_step :
    (q : ℕ) (cs rest : Str)
    → (q == q) ≡ true
    → copy_quoted q 0 (q ∷ q ∷ (cs ++ rest)) ≡ suc (suc (copy_quoted q 0 (cs ++ rest)))
unfolding copy_quoted
double_step q cs rest self = rw (copy_quoted, self) refl

other_step :
    (q c : ℕ) (cs : Str) → (c == q) ≡ false → copy_quoted q 0 (c ∷ cs) ≡ suc (copy_quoted q 0 cs)
unfolding copy_quoted
other_step q c cs other = rw (copy_quoted, other) refl

closing_step :
    (q : ℕ) (rest : Str) → (q == q) ≡ true → begins q rest ≡ false → copy_quoted q 0 (q ∷ rest) ≡ 1
unfolding copy_quoted
closing_step q rest self ends = rw (copy_quoted, self, ends) refl

copy_quoted-doubled :
    (q : ℕ) (body rest : Str)
    → (q == q) ≡ true
    → begins q rest ≡ false
    → copy_quoted q 0 (doubled q body ++ q ∷ rest) ≡ suc (length (doubled q body))
unfolding doubled
copy_quoted-doubled q [] rest self ends = closing_step q rest self ends
copy_quoted-doubled q (c ∷ body) rest self ends = elim (Bool-cases (c == q)) [
  | inl e ↦ rw e (
      double_step q (doubled q body) (q ∷ rest) self
      ∙ ap (λ n. suc (suc n)) (copy_quoted-doubled q body rest self ends))
  | inr e ↦ rw e (
      other_step q c (doubled q body ++ q ∷ rest) e
      ∙ ap suc (copy_quoted-doubled q body rest self ends))
]

line_len_lem : (body rest : Str) → NoBreak body → line_len (body ++ b'\n' ∷ rest) ≡ length body
unfolding line_len
line_len_lem [] rest h = refl
line_len_lem (c ∷ cs) rest (h, more) = rw h (ap suc (line_len_lem cs rest more))

literal_piece :
    (q : ℕ) (s : Str)
    → ((q == b'\'') || (q == b'"')) ≡ true
    → piece_at q s ≡ copied (copy_quoted q 0 s)
unfolding piece_at
literal_piece q s quote = rw quote refl

same_number : (q : ℕ) → (q == q) ≡ true
same_number q = ground arith

copies_and_one :
    (s : Str) (c : ℕ) (t : Str)
    → rewrite_from (suc (length s)) 0 (s ++ c ∷ t) ≡ push_text s (push_char c (rewrite_from 0 0 t))
unfolding rewrite_from
copies_and_one [] c t = refl
copies_and_one (d ∷ s) c t = ap (push_char d) (copies_and_one s c t)

pub literal_copied :
    (q : ℕ) (body rest : Str)
    → ((q == b'\'') || (q == b'"')) ≡ true
    → begins q rest ≡ false
    → rewrite_from 0 0 (q ∷ (doubled q body ++ q ∷ rest))
      ≡ push_char q (push_text (doubled q body) (push_char q (rewrite_from 0 0 rest)))
literal_copied q body rest quote ends =
    rewrite_copied q (doubled q body ++ q ∷ rest) (suc (length (doubled q body))) (
      literal_piece q (doubled q body ++ q ∷ rest) quote
      ∙ ap copied (copy_quoted-doubled q body rest (same_number q) ends))
    ∙ ap (push_char q) (copies_and_one (doubled q body) q rest)

comment_piece :
    (body rest : Str)
    → NoBreak body
    → piece_at b'-' (b'-' ∷ (body ++ b'\n' ∷ rest)) ≡ copied (suc (length body))
unfolding piece_at line_len
comment_piece body rest h = ap (λ n. copied (suc n)) (line_len_lem body rest h)

pub plain_piece : (c : ℕ) (rest : Str) → Ordinary c rest → piece_at c rest ≡ copied 0
unfolding piece_at
plain_piece c rest (quote, dash, slash, dollar) = rw (quote, dash, slash, dollar) refl

break_copied :
    (rest : Str) → rewrite_from 0 0 (b'\n' ∷ rest) ≡ push_char b'\n' (rewrite_from 0 0 rest)
break_copied rest = rewrite_copied b'\n' rest 0 (plain_piece b'\n' rest (refl, refl, refl, refl))

pub comment_copied :
    (body rest : Str)
    → NoBreak body
    → rewrite_from 0 0 (b'-' ∷ b'-' ∷ (body ++ b'\n' ∷ rest))
      ≡ push_char b'-' (push_text (b'-' ∷ body) (push_char b'\n' (rewrite_from 0 0 rest)))
comment_copied body rest h =
    rewrite_copied b'-' (b'-' ∷ (body ++ b'\n' ∷ rest)) (suc (length body))
      (comment_piece body rest h)
    ∙ ap (push_char b'-') (
        copies_text (b'-' ∷ body) (b'\n' ∷ rest) ∙ ap (push_text (b'-' ∷ body)) (break_copied rest))

abbrev pub AllDigits : Str → Type 0
AllDigits [] = Unit {0}
AllDigits (c ∷ cs) = (is_ascii_digit c ≡ true) × AllDigits cs

leading_digits-append :
    (ds rest : Str)
    → AllDigits ds
    → begins_with_digit rest ≡ false
    → leading_digits (ds ++ rest) ≡ ds
unfolding leading_digits
leading_digits-append [] [] all ends = refl
leading_digits-append [] (c ∷ rest) all ends = rw (leading_digits, ends) refl
leading_digits-append (d ∷ ds) rest (h, all) ends =
    rw (leading_digits, h, leading_digits-append ds rest all ends) refl

drops_text : (s t : Str) → rewrite_from 0 (length s) (s ++ t) ≡ rewrite_from 0 0 t
unfolding rewrite_from
drops_text [] t = refl
drops_text (c ∷ s) t = drops_text s t

dollar_piece : (cs : Str) → piece_at b'$' cs ≡ piece_at_dollar (dollar_quote cs) (placeholder cs)
unfolding piece_at
dollar_piece cs = refl

digit_opens_no_quote : (d : ℕ) (cs : Str) → is_ascii_digit d ≡ true → dollar_quote (d ∷ cs) ≡ none
unfolding dollar_quote
digit_opens_no_quote d cs h = rw h refl

placeholder-digits :
    (ds rest : Str) (n : ℕ)
    → AllDigits ds
    → begins_with_digit rest ≡ false
    → parse_u16 ds ≡ some n
    → placeholder (ds ++ rest) ≡ some n
unfolding placeholder
placeholder-digits ds rest n all ends parsed =
    ap parse_u16 (leading_digits-append ds rest all ends) ∙ parsed

number_piece :
    (d : ℕ) (ds rest : Str) (n : ℕ)
    → AllDigits (d ∷ ds)
    → begins_with_digit rest ≡ false
    → parse_u16 (d ∷ ds) ≡ some n
    → piece_at b'$' (d ∷ (ds ++ rest)) ≡ numbered n
number_piece d ds rest n all ends parsed =
    dollar_piece (d ∷ (ds ++ rest))
    ∙ (ap (λ q. piece_at_dollar q (placeholder (d ∷ (ds ++ rest))))
          (digit_opens_no_quote d (ds ++ rest) all.0)
        ∙ ap (piece_at_dollar none) (placeholder-digits (d ∷ ds) rest n all ends parsed))

pub marked :
    (d : ℕ) (ds rest : Str) (n : ℕ)
    → AllDigits (d ∷ ds)
    → begins_with_digit rest ≡ false
    → parse_u16 (d ∷ ds) ≡ some n
    → rewrite_from 0 0 (b'$' ∷ (d ∷ (ds ++ rest))) ≡ push_mark n (rewrite_from 0 0 rest)
marked d ds rest n all ends parsed =
    rewrite_numbered b'$' (d ∷ (ds ++ rest)) n (number_piece d ds rest n all ends parsed)
    ∙ ap (push_mark n) (
        ap (λ k. rewrite_from 0 (length k) (d ∷ (ds ++ rest)))
          (leading_digits-append (d ∷ ds) rest all ends)
        ∙ drops_text (d ∷ ds) rest)
