-- ===== src/Lexer/Tests.antt =====
-- The scanner, run.
use havuz.Base.{◌≡◌, refl, none, List, [], ◌∷◌, ◌++◌, map, ◌⊎◌}
use havuz.Chars.{Str, codes, trim_start, strip_prefix, is_whitespace}
use havuz.Lexer.{split_statements, strip_literals, strip_leading_noise}
use havuz.Lexer.Split.{cut, split_then_strip}
use havuz.Lexer.Rejoin.{join, rejoins, AllSingle, statements_are_single}
use havuz.Lexer.Skipped.{Noise, blank, line, block, in_front, code_is_found}
use havuz.Lexer.Noise.{noise_is_gone}

quoted_semicolon :
    split_statements (codes "a ';' b; $x$ ; $x$ /* ; /* ; */ ; */ -- ;\n; c")
    ≡ codes "a ';' b" ∷ codes " $x$ ; $x$ /* ; /* ; */ ; */ -- ;\n" ∷ codes " c" ∷ []
unfolding split_statements
quoted_semicolon = refl

literals_go : strip_literals (codes "a 'FOR UPDATE' $1 \"b\"\"c\" -- d\ne") ≡ codes "a   $1    \ne"
unfolding strip_literals
literals_go = refl

noise_goes : strip_leading_noise (codes " -- x\n /* y */ SET a") ≡ codes "SET a"
unfolding strip_leading_noise
noise_goes = refl

trailing : split_statements (codes "a;") ≡ codes "a" ∷ []
unfolding split_statements
trailing = refl

abbrev batch : Str
batch = codes "SELECT ';' /* ; */; LISTEN \"a;b\" -- ;\n; COMMIT;"

split_then_strip_example : map strip_literals (split_statements batch) ≡ cut (strip_literals batch)
split_then_strip_example = split_then_strip batch

rejoins_example :
    (join (split_statements batch) ≡ batch) ⊎ (join (split_statements batch) ++ b';' ∷ [] ≡ batch)
rejoins_example = rejoins batch

statements_are_single_example : AllSingle (split_statements batch)
statements_are_single_example = statements_are_single batch

noise_is_gone_example :
    (trim_start (strip_leading_noise (codes " -- x\n /* y */ SET a = 1"))
      ≡ strip_leading_noise (codes " -- x\n /* y */ SET a = 1"))
    × (strip_prefix (codes "--") (strip_leading_noise (codes " -- x\n /* y */ SET a = 1")) ≡ none)
    × (strip_prefix (codes "/*") (strip_leading_noise (codes " -- x\n /* y */ SET a = 1")) ≡ none)
    × (strip_leading_noise (strip_leading_noise (codes " -- x\n /* y */ SET a = 1"))
        ≡ strip_leading_noise (codes " -- x\n /* y */ SET a = 1"))
noise_is_gone_example = noise_is_gone (codes " -- x\n /* y */ SET a = 1")

-- A comment within a comment ends the outer one as well.
nested_comment_leaves_text :
    strip_leading_noise (codes "/* a /* b */ c */ SET x = 1") ≡ codes "c */ SET x = 1"
unfolding strip_leading_noise
nested_comment_leaves_text = refl

abbrev front : List Noise
front = blank b' ' ∷ line (codes " x") ∷ block (codes "* y *") ∷ blank b' ' ∷ []

code_is_found_example : strip_leading_noise (codes " -- x\n/** y **/ SET a = 1") ≡ codes "SET a = 1"
unfolding in_front is_whitespace trim_start strip_prefix
code_is_found_example =
    code_is_found front (codes "SET a = 1")
      (refl, ((refl, (refl, tt)), ((refl, (refl, (refl, (refl, (refl, tt))))), (refl, tt)))) refl
      refl refl
