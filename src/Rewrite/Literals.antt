-- ===== src/Rewrite/Literals.antt =====
-- A statement piece by piece: what is copied, and what a question mark stands for
-- (crates/havuz-jdbc/src/rewrite.rs).
use havuz.Base.{ℕ, ◌≡◌, true, false, ◌||◌, some, List, [], ◌∷◌, ◌++◌, ◌==◌}
use havuz.Chars.{Str}
use havuz.Lexer.{begins}
use havuz.Rewrite.{Rewritten, push_char, push_mark, parse_u16, begins_with_digit}
use havuz.Rewrite.Pieces.{NoBreak, Ordinary, AllDigits, doubled, push_text}

-- A statement in segments: characters of code, quoted texts with their delimiter, comments to the end
-- of their line, and placeholders by their digits and number.
pub data Segment : Type 0 where
  code : (c : ℕ) → Segment
  quoted : (q : ℕ) (body : Str) → Segment
  comment : (body : Str) → Segment
  parameter : (d : ℕ) (ds : Str) (n : ℕ) → Segment

-- The statement as it is sent.
unfoldable pub source_text : List Segment → Str
unfolding doubled
source_text [] = []
source_text (code c ∷ more) = c ∷ source_text more
source_text (quoted q body ∷ more) = q ∷ (doubled q body ++ q ∷ source_text more)
source_text (comment body ∷ more) = b'-' ∷ b'-' ∷ (body ++ b'\n' ∷ source_text more)
source_text (parameter d ds n ∷ more) = b'$' ∷ (d ∷ (ds ++ source_text more))

-- What is to become of it: only a placeholder is changed.
unfoldable pub rendered : List Segment → Rewritten
unfolding doubled
rendered [] = record { sql = []; highest = 0; order = [] }
rendered (code c ∷ more) = push_char c (rendered more)
rendered (quoted q body ∷ more) =
    push_char q (push_text (doubled q body) (push_char q (rendered more)))
rendered (comment body ∷ more) =
    push_char b'-' (push_text (b'-' ∷ body) (push_char b'\n' (rendered more)))
rendered (parameter d ds n ∷ more) = push_mark n (rendered more)

-- Each segment is what it says, and ends where the next one begins.
unfoldable pub AllWritten : List Segment → Type 0
unfolding source_text
AllWritten [] = Unit {0}
AllWritten (code c ∷ more) = Ordinary c (source_text more) × AllWritten more
AllWritten (quoted q body ∷ more) =
    (((q == b'\'') || (q == b'"')) ≡ true) × (begins q (source_text more) ≡ false) × AllWritten more
AllWritten (comment body ∷ more) = NoBreak body × AllWritten more
AllWritten (parameter d ds n ∷ more) =
    AllDigits (d ∷ ds)
    × (begins_with_digit (source_text more) ≡ false)
    × (parse_u16 (d ∷ ds) ≡ some n)
    × AllWritten more
