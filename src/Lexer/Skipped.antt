-- ===== src/Lexer/Skipped.antt =====
-- Blanks and comments in front of a statement are skipped, and nothing of the statement is
-- (crates/havuz-pg/src/classify.rs).
use havuz.Base.{
  ℕ, zero, suc, ◌≤◌, ◌<◌, ◌≡◌, refl, ap, ◌∙◌, true, false, ◌&&◌, none, some, List, [], ◌∷◌, ◌++◌,
  ◌==◌, length, arith,
}
use havuz.Chars.{Str, codes, strip_prefix, trim_start, is_whitespace}
use havuz.Lexer.{begins, after_comment, after_line, noise_step, strip_noise, strip_leading_noise}
use havuz.Lexer.Noise.{strip_noise_goes, quiet_stays}

-- What may stand in front of a statement: a blank, a comment to the end of its line, a block comment.
pub data Noise : Type 0 where
  blank : (c : ℕ) → Noise
  line : (body : Str) → Noise
  block : (body : Str) → Noise

unfoldable pub in_front : List Noise → Str → Str
in_front [] code = code
in_front (blank c ∷ more) code = c ∷ in_front more code
in_front (line body ∷ more) code = b'-' ∷ b'-' ∷ (body ++ b'\n' ∷ in_front more code)
in_front (block body ∷ more) code = b'/' ∷ b'*' ∷ (body ++ b'*' ∷ b'/' ∷ in_front more code)

abbrev pub NoBreak : Str → Type 0
NoBreak [] = Unit {0}
NoBreak (c ∷ cs) = ((c == b'\n') ≡ false) × NoBreak cs

abbrev pub NoEnd : Str → Type 0
NoEnd [] = Unit {0}
NoEnd (c ∷ cs) = (((c == b'*') && begins b'/' cs) ≡ false) × NoEnd cs

abbrev pub AllNoise : List Noise → Type 0
AllNoise [] = Unit {0}
AllNoise (blank c ∷ more) = (is_whitespace c ≡ true) × AllNoise more
AllNoise (line body ∷ more) = NoBreak body × AllNoise more
AllNoise (block body ∷ more) = NoEnd body × AllNoise more

after_line_lem : (body rest : Str) → NoBreak body → after_line (body ++ b'\n' ∷ rest) ≡ rest
unfolding after_line
after_line_lem [] rest h = refl
after_line_lem (c ∷ cs) rest (h, more) = rw h (after_line_lem cs rest more)

begins_still : (cs rest : Str) → begins b'/' (cs ++ b'*' ∷ rest) ≡ begins b'/' cs
begins_still [] rest = refl
begins_still (c ∷ cs) rest = refl

no_end_here :
    (c : ℕ) (cs : Str)
    → ((c == b'*') && begins b'/' cs) ≡ false
    → strip_prefix (codes "*/") (c ∷ cs) ≡ none
unfolding strip_prefix
no_end_here c [] h = ground arith
no_end_here c (d ∷ cs) h = ground (arith, h)

after_comment_goes :
    (c : ℕ) (cs : Str)
    → strip_prefix (codes "*/") (c ∷ cs) ≡ none
    → after_comment (c ∷ cs) ≡ after_comment cs
unfolding after_comment
after_comment_goes c cs h = rw (h, after_comment) refl

comment_ends : (rest : Str) → after_comment (b'*' ∷ b'/' ∷ rest) ≡ some rest
unfolding after_comment strip_prefix
comment_ends rest = refl

after_comment_lem :
    (body rest : Str) → NoEnd body → after_comment (body ++ b'*' ∷ b'/' ∷ rest) ≡ some rest
after_comment_lem [] rest h = comment_ends rest
after_comment_lem (c ∷ cs) rest (h, more) =
    after_comment_goes c (cs ++ b'*' ∷ b'/' ∷ rest) (
      no_end_here c (cs ++ b'*' ∷ b'/' ∷ rest)
        (ap (λ b. (c == b'*') && b) (begins_still cs (b'/' ∷ rest)) ∙ h))
    ∙ after_comment_lem cs rest more

line_step :
    (body rest : Str)
    → NoBreak body
    → noise_step (b'-' ∷ b'-' ∷ (body ++ b'\n' ∷ rest)) ≡ some (trim_start rest)
unfolding noise_step strip_prefix
line_step body rest h = ap (λ t. some (trim_start t)) (after_line_lem body rest h)

block_step :
    (body rest : Str)
    → NoEnd body
    → noise_step (b'/' ∷ b'*' ∷ (body ++ b'*' ∷ b'/' ∷ rest)) ≡ some (trim_start rest)
unfolding noise_step strip_prefix
block_step body rest h = rw (noise_step, after_comment_lem body rest h) refl

trim_blank : (c : ℕ) (s : Str) → is_whitespace c ≡ true → trim_start (c ∷ s) ≡ trim_start s
unfolding trim_start
trim_blank c s h = rw h refl

trim_dash : (s : Str) → trim_start (b'-' ∷ s) ≡ b'-' ∷ s
unfolding trim_start is_whitespace
trim_dash s = refl

trim_slash : (s : Str) → trim_start (b'/' ∷ s) ≡ b'/' ∷ s
unfolding trim_start is_whitespace
trim_slash s = refl

length-tail : (body : Str) (c : ℕ) (rest : Str) → length rest < length (body ++ c ∷ rest)
length-tail [] c rest = omega arith
length-tail (d ∷ body) c rest = omega (arith, length-tail body c rest)

quiet_code :
    (code : Str)
    → strip_prefix (codes "--") code ≡ none
    → strip_prefix (codes "/*") code ≡ none
    → noise_step code ≡ none
unfolding noise_step
quiet_code code h k = rw (h, k) refl

module _ (code : Str) (trimmed : trim_start code ≡ code) (quiet : noise_step code ≡ none) where
  one_turn :
      (fuel : ℕ) (s rest : Str)
      → noise_step s ≡ some (trim_start rest)
      → trim_start s ≡ s
      → strip_noise fuel (trim_start rest) ≡ code
      → strip_noise (suc fuel) (trim_start s) ≡ code
  one_turn fuel s rest step stays found =
      rw stays (strip_noise_goes fuel s (trim_start rest) step ∙ found)

  skips :
      (fuel : ℕ) (ns : List Noise)
      → AllNoise ns
      → length (in_front ns code) ≤ fuel
      → strip_noise fuel (trim_start (in_front ns code)) ≡ code
  unfolding in_front
  skips fuel [] all fits = rw trimmed (quiet_stays fuel code quiet)
  skips fuel (blank c ∷ more) (h, all) fits =
      rw (trim_blank c (in_front more code) h) (skips fuel more all (omega (arith, fits)))
  skips zero (line body ∷ more) (h, all) fits = absurd (omega (arith, fits))
  skips zero (block body ∷ more) (h, all) fits = absurd (omega (arith, fits))
  skips (suc fuel) (line body ∷ more) (h, all) fits =
      let rest = in_front more code in
      one_turn fuel (b'-' ∷ b'-' ∷ (body ++ b'\n' ∷ rest)) rest (line_step body rest h)
        (trim_dash (b'-' ∷ (body ++ b'\n' ∷ rest)))
        (skips fuel more all (omega (arith, fits, length-tail body b'\n' rest)))
  skips (suc fuel) (block body ∷ more) (h, all) fits =
      let rest = in_front more code in
      one_turn fuel (b'/' ∷ b'*' ∷ (body ++ b'*' ∷ b'/' ∷ rest)) rest (block_step body rest h)
        (trim_slash (b'*' ∷ (body ++ b'*' ∷ b'/' ∷ rest)))
        (skips fuel more all (omega (arith, fits, length-tail body b'*' (b'/' ∷ rest))))

-- However many blanks, line comments and block comments stand in front of a text that begins with
-- neither, what is left is exactly that text. A block comment here ends at its first `*/`: one that is
-- nested in PostgreSQL's way is not one of these.
pub code_is_found :
    (ns : List Noise) (code : Str)
    → AllNoise ns
    → trim_start code ≡ code
    → strip_prefix (codes "--") code ≡ none
    → strip_prefix (codes "/*") code ≡ none
    → strip_leading_noise (in_front ns code) ≡ code
unfolding strip_leading_noise
code_is_found ns code all trimmed no_line no_block =
    skips code trimmed (quiet_code code no_line no_block) (length (in_front ns code)) ns all
      (omega arith)
