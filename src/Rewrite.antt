-- ===== src/Rewrite.antt =====
-- crates/havuz-jdbc/src/rewrite.rs: PostgreSQL's numbered placeholders become the question marks of
-- JDBC, in code and nowhere else. A text is the list of its characters; the loops test ASCII bytes
-- alone. A run of ordinary characters, which the code copies at once, is copied one by one.
pub mod Pieces
pub mod Literals
mod Tests
use havuz.Base.{
  ℕ, zero, suc, ◌+◌, ◌-◌, ◌*◌, max, Bool, true, false, ◌&&◌, ◌||◌, Option, none, some, List, [],
  ◌∷◌, leb, ◌==◌, if◌then◌else◌, length,
}
use havuz.Chars.{Str, is_ascii_digit}
use havuz.Lexer.{begins, tag_rest_len, take, body_len, line_len, block_len}

pub record Rewritten : Type 0 where
  pub sql : Str
  pub highest : ℕ
  pub order : List ℕ

abbrev quoted_step : ℕ → ℕ → Str → Option ℕ
quoted_step delimiter c rest =
    if c == delimiter then (if begins delimiter rest then some 1 else none) else some 0

-- The length of a quoted run after its opening delimiter, with characters to be passed over first; it
-- ends with the text where the closing one is missing.
unfoldable pub copy_quoted : ℕ → ℕ → Str → ℕ
copy_quoted delimiter skip [] = 0
copy_quoted delimiter (suc skip) (c ∷ cs) = suc (copy_quoted delimiter skip cs)
copy_quoted delimiter zero (c ∷ cs) = elim (quoted_step delimiter c cs) [
  | none ↦ 1
  | some n ↦ suc (copy_quoted delimiter n cs)
]

abbrev pub begins_with_digit : Str → Bool
begins_with_digit [] = false
begins_with_digit (c ∷ cs) = is_ascii_digit c

-- The length of a dollar-quoted text after its first `$`; a digit cannot start a tag.
unfoldable pub dollar_quote : Str → Option ℕ
unfolding is_ascii_digit tag_rest_len body_len
dollar_quote cs =
    if begins_with_digit cs
    then none
    else elim (tag_rest_len cs) [ none ↦ none | some n ↦ some (body_len (b'$' ∷ take n cs) n cs) ]

unfoldable pub leading_digits : Str → Str
unfolding is_ascii_digit
leading_digits [] = []
leading_digits (c ∷ cs) = let more = leading_digits cs in if is_ascii_digit c then c ∷ more else []

unfoldable pub value_of : ℕ → Str → ℕ
value_of n [] = n
value_of n (c ∷ cs) = value_of (n * 10 + (c - b'0')) cs

unfoldable pub all_digits : Str → Bool
unfolding is_ascii_digit
all_digits [] = true
all_digits (c ∷ cs) = let more = all_digits cs in is_ascii_digit c && more

-- `parse::<u16>`; the sign that it allows never stands here, since the text is a run of digits.
unfoldable pub parse_u16 : Str → Option ℕ
unfolding value_of all_digits
parse_u16 [] = none
parse_u16 (c ∷ cs) =
    if all_digits (c ∷ cs) && leb (value_of 0 (c ∷ cs)) 65_535
    then some (value_of 0 (c ∷ cs))
    else none

-- The number of a placeholder, from what follows its `$`.
unfoldable pub placeholder : Str → Option ℕ
unfolding leading_digits parse_u16
placeholder cs = parse_u16 (leading_digits cs)

-- What begins at a character: text that is copied, so many characters after this one, or a
-- placeholder.
pub data Piece : Type 0 where
  copied : (more : ℕ) → Piece
  numbered : (number : ℕ) → Piece

abbrev pub piece_at_dollar : Option ℕ → Option ℕ → Piece
piece_at_dollar (some n) number = copied n
piece_at_dollar none (some number) = numbered number
piece_at_dollar none none = copied 0

unfoldable pub piece_at : ℕ → Str → Piece
unfolding copy_quoted line_len block_len dollar_quote placeholder
piece_at c cs =
    if (c == b'\'') || (c == b'"')
    then copied (copy_quoted c 0 cs)
    else if (c == b'-') && begins b'-' cs
    then copied (line_len cs)
    else if (c == b'/') && begins b'*' cs
    then copied (block_len 1 1 cs)
    else if c == b'$'
    then piece_at_dollar (dollar_quote cs) (placeholder cs)
    else copied 0

abbrev pub push_char : ℕ → Rewritten → Rewritten
push_char c r = record r { sql = c ∷ r.sql }

-- `$0` is no placeholder that could be bound.
abbrev pub push_mark : ℕ → Rewritten → Rewritten
push_mark zero r = record r { sql = b'?' ∷ r.sql }
push_mark (suc n) r = record {
  sql = b'?' ∷ r.sql;
  highest = max r.highest (suc n);
  order = n ∷ r.order;
}

-- The loop, with characters to be copied first and then characters to be dropped.
unfoldable pub rewrite_from : ℕ → ℕ → Str → Rewritten
unfolding piece_at leading_digits
rewrite_from copy drop_ [] = record { sql = []; highest = 0; order = [] }
rewrite_from (suc copy) drop_ (c ∷ cs) = push_char c (rewrite_from copy drop_ cs)
rewrite_from zero (suc drop_) (c ∷ cs) = rewrite_from zero drop_ cs
rewrite_from zero zero (c ∷ cs) = elim (piece_at c cs) [
  | copied more ↦ push_char c (rewrite_from more 0 cs)
  | numbered number ↦ push_mark number (rewrite_from 0 (length (leading_digits cs)) cs)
]

unfoldable pub to_jdbc : Str → Rewritten
unfolding rewrite_from
to_jdbc sql = rewrite_from 0 0 sql
