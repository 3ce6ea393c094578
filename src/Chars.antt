-- ===== src/Chars.antt =====
-- `&str` and `String`: a text is the list of its characters, each by its code point. The operations
-- of the standard library that crates/havuz-pg/src/classify.rs and
-- crates/havuz-pg/src/params.rs call on texts.
pub mod Laws
mod Tests
use Prim.Native.Char.{code}
use Prim.Native.String.{String}
use havuz.Base.{
  ℕ, ◌+◌, ◌-◌, ◌*◌, ◌/◌, ◌%◌, Bool, true, false, not, ◌&&◌, ◌||◌, Option, none, some, List, [], ◌∷◌,
  ◌++◌, map, ltb, leb, ◌==◌, if◌then◌else◌,
}
use havuz.Text.{same, after_lead}

abbrev pub Str : Type 0
Str = List ℕ

abbrev pub codes : String → Str
codes String.[] = []
codes (String.◌∷◌ c s) = code c ∷ codes s

abbrev pub between : ℕ → ℕ → ℕ → Bool
between low high c = leb low c && leb c high

unfoldable pub is_ascii_digit : ℕ → Bool
is_ascii_digit c = between b'0' b'9' c

unfoldable pub is_ascii_alphabetic : ℕ → Bool
is_ascii_alphabetic c = between b'a' b'z' c || between b'A' b'Z' c

unfoldable pub is_ascii_alphanumeric : ℕ → Bool
unfolding is_ascii_digit is_ascii_alphabetic
is_ascii_alphanumeric c = is_ascii_alphabetic c || is_ascii_digit c

-- `char::is_whitespace`: the property White_Space of Unicode.
unfoldable pub is_whitespace : ℕ → Bool
is_whitespace c =
    between 9 13 c
    || (c == 32)
    || (c == 133)
    || (c == 160)
    || (c == 5760)
    || between 8192 8202 c
    || between 8232 8233 c
    || (c == 8239)
    || (c == 8287)
    || (c == 12288)

unfoldable pub to_upper : ℕ → ℕ
to_upper c = if between b'a' b'z' c then c - 32 else c

unfoldable pub to_lower : ℕ → ℕ
to_lower c = if between b'A' b'Z' c then c + 32 else c

unfoldable pub to_ascii_uppercase : Str → Str
unfolding to_upper
to_ascii_uppercase s = map to_upper s

unfoldable pub to_ascii_lowercase : Str → Str
unfolding to_lower
to_ascii_lowercase s = map to_lower s

unfoldable pub eq_ignore_ascii_case : Str → Str → Bool
unfolding to_ascii_lowercase same
eq_ignore_ascii_case s t = same (to_ascii_lowercase s) (to_ascii_lowercase t)

-- What is left after a prefix, if the text begins with it.
unfoldable pub strip_prefix : Str → Str → Option Str
strip_prefix [] s = some s
strip_prefix (p ∷ ps) [] = none
strip_prefix (p ∷ ps) (c ∷ cs) = let rest = strip_prefix ps cs in if p == c then rest else none

unfoldable pub starts_with : Str → Str → Bool
unfolding strip_prefix
starts_with p s = elim (strip_prefix p s) [ none ↦ false | some rest ↦ true ]

unfoldable pub contains : Str → Str → Bool
unfolding starts_with
contains part [] = starts_with part []
contains part (c ∷ cs) = let later = contains part cs in starts_with part (c ∷ cs) || later

unfoldable pub trim_start : Str → Str
unfolding is_whitespace
trim_start [] = []
trim_start (c ∷ cs) = let rest = trim_start cs in if is_whitespace c then rest else c ∷ cs

unfoldable pub is_blank : Str → Bool
unfolding is_whitespace
is_blank [] = true
is_blank (c ∷ cs) = let rest = is_blank cs in is_whitespace c && rest

unfoldable pub trim_end : Str → Str
unfolding is_blank
trim_end [] = []
trim_end (c ∷ cs) = let rest = trim_end cs in if is_blank (c ∷ cs) then [] else c ∷ rest

unfoldable pub trim : Str → Str
unfolding trim_start trim_end
trim s = trim_end (trim_start s)

-- `strip_suffix(c).unwrap_or(s)` for one character.
unfoldable pub without_suffix : ℕ → Str → Str
without_suffix c [] = []
without_suffix c (d ∷ []) = if d == c then [] else d ∷ []
without_suffix c (d ∷ e ∷ s) = d ∷ without_suffix c (e ∷ s)

-- A word before the others, unless there is none.
abbrev push : Str → List Str → List Str
push [] ws = ws
push (c ∷ cs) ws = (c ∷ cs) ∷ ws

-- The word that the text begins in the middle of, and the words after it.
unfoldable pub words_from : Str → Str × List Str
unfolding is_whitespace
words_from [] = ([], [])
words_from (c ∷ cs) =
    let (word, more) = words_from cs in
    if is_whitespace c then ([], push word more) else (c ∷ word, more)

unfoldable pub split_whitespace : Str → List Str
unfolding words_from
split_whitespace s = let (word, more) = words_from s in push word more

-- The text before the first occurrence of a character and the one after it.
unfoldable pub split_once : ℕ → Str → Option (Str × Str)
split_once d [] = none
split_once d (c ∷ cs) =
    let more = split_once d cs in
    if c == d
    then some ([], cs)
    else elim more [ none ↦ none | some (before, after) ↦ some (c ∷ before, after) ]

-- The UTF-8 bytes of a character.
unfoldable pub utf8 : ℕ → List ℕ
utf8 c =
    if ltb c 128
    then c ∷ []
    else if ltb c 2_048
    then (192 + c / 64) ∷ (128 + c % 64) ∷ []
    else if ltb c 65_536
    then (224 + c / 4_096) ∷ (128 + (c / 64) % 64) ∷ (128 + c % 64) ∷ []
    else (240 + c / 262_144)
      ∷ (128 + (c / 4_096) % 64)
      ∷ (128 + (c / 64) % 64)
      ∷ (128 + c % 64)
      ∷ []

-- The bits of a first byte that are of the character.
abbrev lead_bits : ℕ → ℕ
lead_bits b =
    if ltb b 128 then b else if ltb b 224 then b % 32 else if ltb b 240 then b % 16 else b % 8

abbrev replacement : ℕ
replacement = 65_533

-- The text goes on at a byte that begins a character, or that cannot.
abbrev Next : Type 0
Next = List (ℕ × ℕ) × ℕ × Str

-- The state at a byte at which a character begins: the ranges then expected, the bits so far, and
-- what the byte gives at once.
abbrev begin_char : ℕ → Next
begin_char b = elim (after_lead b) [
  | none ↦ ([], 0, replacement ∷ [])
  | some [] ↦ ([], 0, b ∷ [])
  | some (r ∷ rs) ↦ (r ∷ rs, lead_bits b, [])
]

abbrev continue_char : ℕ × ℕ → List (ℕ × ℕ) → ℕ → ℕ → Next
continue_char (low, high) rs bits b =
    if between low high b
    then elim rs [
      | [] ↦ ([], 0, (bits * 64 + b % 64) ∷ [])
      | r ∷ more ↦ (r ∷ more, bits * 64 + b % 64, [])
    ]
    else let (rs', bits', out) = begin_char b in (rs', bits', replacement ∷ out)

-- `String::from_utf8_lossy`, with the ranges of the bytes still expected: a sequence that breaks off
-- gives one replacement character, and the byte that breaks it is read anew.
unfoldable pub lossy_from : List (ℕ × ℕ) → ℕ → List ℕ → Str
lossy_from [] bits [] = []
lossy_from (r ∷ rs) bits [] = replacement ∷ []
lossy_from [] bits (b ∷ bs) = let (rs, bits', out) = begin_char b in out ++ lossy_from rs bits' bs
lossy_from (r ∷ rs) bits (b ∷ bs) =
    let (rs', bits', out) = continue_char r rs bits b in out ++ lossy_from rs' bits' bs

unfoldable pub from_utf8_lossy : List ℕ → Str
unfolding lossy_from
from_utf8_lossy bs = lossy_from [] 0 bs
