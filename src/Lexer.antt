-- ===== src/Lexer.antt =====
-- crates/havuz-pg/src/classify.rs: the scanner that knows string literals, dollar quotes and comments.
-- `split_statements` and `strip_literals` walk the same items with the same inner loops; here one
-- function gives the length of the item at a position and both use it. The loops test ASCII bytes
-- alone, so they step over characters as they step over bytes. An index that jumps ahead is a number
-- of characters still to be passed over.
pub mod Local
pub mod Split
pub mod Rejoin
pub mod Noise
pub mod Skipped
mod Tests
use havuz.Base.{
  ℕ, zero, suc, ◌+◌, ◌-◌, Bool, true, false, ◌&&◌, ◌||◌, Option, none, some, List, [], ◌∷◌, ◌++◌,
  map, ltb, ◌==◌, if◌then◌else◌, length,
}
use havuz.Chars.{
  Str, codes, is_ascii_alphanumeric, starts_with, strip_prefix, trim_start, to_ascii_uppercase,
  split_whitespace, utf8,
}

abbrev pub begins : ℕ → Str → Bool
begins q [] = false
begins q (c ∷ cs) = c == q

-- One step of the loop inside a quoted literal: the characters to pass over besides this one, or
-- none when the literal ends here.
abbrev pub quote_step : ℕ → ℕ → Str → Option ℕ
quote_step q c rest =
    if c == b'\\'
    then some 1
    else if c == q
    then (if begins q rest then some 1 else none)
    else some 0

-- The length of a quoted literal after its opening quote, the closing one counted also where it is
-- missing, with characters to be passed over first.
unfoldable pub quote_len : ℕ → ℕ → Str → ℕ
quote_len q skip [] = suc skip
quote_len q (suc skip) (c ∷ cs) = suc (quote_len q skip cs)
quote_len q zero (c ∷ cs) = elim (quote_step q c cs) [ none ↦ 1 | some n ↦ suc (quote_len q n cs) ]

-- The characters of a tag up to its closing `$`, that one counted.
unfoldable pub tag_rest_len : Str → Option ℕ
unfolding is_ascii_alphanumeric
tag_rest_len [] = none
tag_rest_len (c ∷ cs) =
    let more = tag_rest_len cs in
    if is_ascii_alphanumeric c || (c == b'_')
    then elim more [ none ↦ none | some n ↦ some (suc n) ]
    else if c == b'$'
    then some 1
    else none

unfoldable pub dollar_tag_len : Str → Option ℕ
unfolding tag_rest_len
dollar_tag_len [] = none
dollar_tag_len (c ∷ cs) =
    if c == b'$' then elim (tag_rest_len cs) [ none ↦ none | some n ↦ some (suc n) ] else none

abbrev pub take {ℓ} : {A : Type ℓ} → ℕ → List A → List A
take zero s = []
take (suc n) [] = []
take (suc n) (c ∷ cs) = c ∷ take n cs

-- The length of a dollar-quoted body with its closing tag, the characters of the opening tag passed
-- over first.
unfoldable pub body_len : Str → ℕ → Str → ℕ
unfolding starts_with
body_len tag skip [] = 0
body_len tag (suc skip) (c ∷ cs) = suc (body_len tag skip cs)
body_len tag zero (c ∷ cs) =
    let more = body_len tag zero cs in if starts_with tag (c ∷ cs) then length tag else suc more

unfoldable pub line_len : Str → ℕ
line_len [] = 0
line_len (c ∷ cs) = let more = line_len cs in if c == b'\n' then 0 else suc more

-- One step inside block comments: the depth after it, and the characters to pass over.
abbrev pub block_step : ℕ → ℕ → Str → ℕ × ℕ
block_step depth c rest =
    if (c == b'/') && begins b'*' rest
    then (suc (suc depth), 1)
    else if (c == b'*') && begins b'/' rest
    then (depth, 1)
    else (suc depth, 0)

-- The length of block comments, nested `depth` times, with characters to be passed over first.
unfoldable pub block_len : ℕ → ℕ → Str → ℕ
block_len skip depth [] = 0
block_len (suc skip) depth (c ∷ cs) = suc (block_len skip depth cs)
block_len zero zero (c ∷ cs) = 0
block_len zero (suc depth) (c ∷ cs) =
    let (depth', skip) = block_step depth c cs in suc (block_len skip depth' cs)

-- The length less one of the literal, dollar quote or comment that begins at a character; none where
-- it is an ordinary character.
unfoldable pub hidden : ℕ → Str → Option ℕ
unfolding quote_len dollar_tag_len body_len line_len block_len
hidden c cs =
    if (c == b'\'') || (c == b'"')
    then some (quote_len c 0 cs)
    else if c == b'$'
    then elim (tag_rest_len cs) [ none ↦ none | some n ↦ some (body_len (c ∷ take n cs) n cs) ]
    else if (c == b'-') && begins b'-' cs
    then some (line_len cs)
    else if (c == b'/') && begins b'*' cs
    then some (block_len 1 1 cs)
    else none

abbrev pub listed : Str → Str → List Str → List Str
listed [] s more = []
listed (c ∷ cs) s more = s ∷ more

-- The rest of the statement that the position is in, and the statements after it.
unfoldable pub split_from : ℕ → Str → Str × List Str
unfolding hidden
split_from skip [] = ([], [])
split_from (suc skip) (c ∷ cs) = let (s, more) = split_from skip cs in (c ∷ s, more)
split_from zero (c ∷ cs) = elim (hidden c cs) [
  | some n ↦ let (s, more) = split_from n cs in (c ∷ s, more)
  | none ↦
      let (s, more) = split_from 0 cs in if c == b';' then ([], listed cs s more) else (c ∷ s, more)
]

-- `split_statements`: the last statement counts only where text is left for it.
unfoldable pub split_statements : Str → List Str
unfolding split_from
split_statements sql = let (s, more) = split_from 0 sql in listed sql s more

-- The text that is scanned for keywords: an item is one space, and a byte is pushed as a character.
unfoldable pub strip_from : ℕ → Str → Str
unfolding hidden utf8
strip_from skip [] = []
strip_from (suc skip) (c ∷ cs) = strip_from skip cs
strip_from zero (c ∷ cs) = elim (hidden c cs) [
  | some n ↦ b' ' ∷ strip_from n cs
  | none ↦ utf8 c ++ strip_from 0 cs
]

unfoldable pub strip_literals : Str → Str
unfolding strip_from
strip_literals sql = strip_from 0 sql

-- The text after the first occurrence of `*/`.
unfoldable pub after_comment : Str → Option Str
unfolding strip_prefix
after_comment [] = none
after_comment (c ∷ cs) =
    let later = after_comment cs in
    elim (strip_prefix (codes "*/") (c ∷ cs)) [ some rest ↦ some rest | none ↦ later ]

unfoldable pub after_line : Str → Str
after_line [] = []
after_line (c ∷ cs) = let later = after_line cs in if c == b'\n' then cs else later

-- One turn of the loop: what is left to be looked at, or none when the text begins in earnest.
unfoldable pub noise_step : Str → Option Str
unfolding strip_prefix after_comment after_line trim_start
noise_step s = elim (strip_prefix (codes "--") s) [
  | some after ↦ some (trim_start (after_line after))
  | none ↦ elim (strip_prefix (codes "/*") s) [
    | some after ↦ elim (after_comment after) [
      | some rest ↦ some (trim_start rest)
      | none ↦ some []
    ]
    | none ↦ none
  ]
]

unfoldable pub strip_noise : ℕ → Str → Str
unfolding noise_step
strip_noise zero s = s
strip_noise (suc fuel) s = elim (noise_step s) [ none ↦ s | some rest ↦ strip_noise fuel rest ]

-- `strip_leading_noise`: every turn takes two characters at least, so the length is fuel enough.
unfoldable pub strip_leading_noise : Str → Str
unfolding strip_noise trim_start
strip_leading_noise sql = strip_noise (length sql) (trim_start sql)

unfoldable pub leading_words : Str → ℕ → List Str
unfolding split_whitespace to_ascii_uppercase
leading_words sql n = map to_ascii_uppercase (take n (split_whitespace sql))

abbrev pub or_zero : Option ℕ → ℕ
or_zero none = 0
or_zero (some n) = n
