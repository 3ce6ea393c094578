-- ===== src/Rewrite/Tests.antt =====
-- Statements rewritten.
use havuz.Base.{◌≡◌, refl, List, [], ◌∷◌}
use havuz.Chars.{codes}
use havuz.Rewrite.{to_jdbc}
use havuz.Rewrite.Literals.{Segment, code, quoted, comment, parameter}

literals_are_data : to_jdbc (codes "select 'costs $1', $2, $1 -- $3\n, $a$ $1 $a$") ≡ record {
  sql = codes "select 'costs $1', ?, ? -- $3\n, $a$ $1 $a$";
  highest = 2;
  order = 1 ∷ 0 ∷ [];
}
unfolding to_jdbc
literals_are_data = refl

-- A mark for which there is no parameter.
zero_is_marked :
    to_jdbc (codes "select $0") ≡ record { sql = codes "select ?"; highest = 0; order = [] }
unfolding to_jdbc
zero_is_marked = refl

-- The end of a name is taken for a placeholder.
name_is_cut : (to_jdbc (codes "select total$1 from t")).sql ≡ codes "select total? from t"
unfolding to_jdbc
name_is_cut = refl

-- `='it''s $1'--$2`, a line break and `$12`.
abbrev statement : List Segment
statement =
    code b'='
    ∷ quoted b'\'' (codes "it's $1")
    ∷ comment (codes "$2")
    ∷ parameter b'1' (codes "2") 12
    ∷ []
