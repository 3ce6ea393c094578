-- ===== src/SessionParams/TextServer.antt =====
-- A server for the runs of crates/havuz-pg/src/params.rs at concrete inputs: it splits a text at its
-- semicolons, and takes each statement apart by its first two words.
use havuz.Base.{
  ◌≡◌, refl, sym, ap, ◌∙◌, Bool, true, false, not, ◌&&◌, Option, none, some, List, [], ◌∷◌, ◌++◌,
  ◌==◌, if◌then◌else◌, Bool-cases, Option-cases, inl, inr, arith,
}
use havuz.Text.{same}
use havuz.Chars.{
  Str, codes, strip_prefix, split_once, is_ascii_alphabetic, is_ascii_alphanumeric, is_ascii_digit,
}
use havuz.Prepared.Names.{same_sound}
use havuz.SessionParams.{is_parameter_name, is_identifier, all_name_chars, split_word}
use havuz.SessionParams.Sorted.{Params, get, insert, remove, get-insert, get-remove}
use havuz.SessionParams.Replay.{reset_statement}
use havuz.SessionParams.Replay.Sql.{SqlServer, IsLower}

abbrev run_set : Params → Option Str → Str → Params
run_set m none statement = m
run_set m (some rest) statement = insert (split_word rest).0 statement m

abbrev run_statement : Params → Option Str → Str → Params
run_statement m (some name) statement = remove name m
run_statement m none statement = run_set m (strip_prefix (codes "SET ") statement) statement

abbrev apply : Params → Str → Params
apply m statement = run_statement m (strip_prefix (codes "RESET ") statement) statement

-- The statements of a text, the space after a semicolon kept.
unfoldable pub pieces : Str → Str × List Str
pieces [] = ([], [])
pieces (c ∷ cs) = let (s, more) = pieces cs in if c == b';' then ([], s ∷ more) else (c ∷ s, more)

abbrev unspaced : Str → Str
unspaced [] = []
unspaced (c ∷ cs) = cs

abbrev apply_all : Params → List Str → Params
apply_all m [] = m
apply_all m (s ∷ more) = apply_all (apply m (unspaced s)) more

abbrev apply_pieces : Params → Str × List Str → Params
apply_pieces m (s, more) = apply_all (apply m s) more

unfoldable pub run : Params → Str → Params
unfolding pieces
run m text = apply_pieces m (pieces text)

unfoldable pub lacks_semicolon : Str → Bool
lacks_semicolon [] = true
lacks_semicolon (c ∷ cs) = let rest = lacks_semicolon cs in not (c == b';') && rest

abbrev names_set : Option Str → Option Str → Str → Bool
names_set (some reset_name) rest name = false
names_set none none name = false
names_set none (some rest) name = same (split_word rest).0 name

unfoldable pub does_set : Str → Str → Bool
unfolding lacks_semicolon
does_set name statement =
    names_set (strip_prefix (codes "RESET ") statement) (strip_prefix (codes "SET ") statement) name
    && lacks_semicolon statement

unfoldable pub value : Params → Str → Option Str
value m name = get name m

one_piece : (s : Str) → lacks_semicolon s ≡ true → pieces s ≡ (s, [])
unfolding pieces lacks_semicolon
one_piece [] h = refl
one_piece (c ∷ cs) h = ground (arith, h, one_piece cs)

first_piece :
    (s rest : Str)
    → lacks_semicolon s ≡ true
    → pieces (s ++ (codes "; " ++ rest)) ≡ (s, (b' ' ∷ (pieces rest).0) ∷ (pieces rest).1)
unfolding pieces lacks_semicolon
first_piece [] rest h = refl
first_piece (c ∷ cs) rest h = ground (arith, h, first_piece cs rest)

run_one : (m : Params) (s : Str) → lacks_semicolon s ≡ true → run m s ≡ apply m s
unfolding run
run_one m s h = ap (apply_pieces m) (one_piece s h)

run_ends :
    (m : Params) (s rest : Str)
    → lacks_semicolon s ≡ true
    → run m (s ++ (codes "; " ++ rest)) ≡ run (run m s) rest
unfolding run
run_ends m s rest h =
    ap (apply_pieces m) (first_piece s rest h)
    ∙ ap (λ k. apply_pieces k (pieces rest)) (sym (run_one m s h))

set_law_at :
    (r t : Option Str) (m : Params) (name statement k : Str)
    → strip_prefix (codes "RESET ") statement ≡ r
    → strip_prefix (codes "SET ") statement ≡ t
    → names_set r t name ≡ true
    → get k (apply m statement) ≡ (if same name k then some statement else get k m)
set_law_at (some n) t m name statement k e f h = absurd (cc)
set_law_at none none m name statement k e f h = absurd (cc)
set_law_at none (some rest) m name statement k e f h =
    rw (e, f)
      (get-insert k (split_word rest).0 statement m
        ∙ ap (λ n. if same n k then some statement else get k m)
            (same_sound (split_word rest).0 name h))

both : (a b : Bool) → (a && b) ≡ true → (a ≡ true) × (b ≡ true)
both a b h = ground (arith, h)

pub set_law :
    (m : Params) (name statement k : Str)
    → does_set name statement ≡ true
    → IsLower k
    → value (run m statement) k ≡ (if same name k then some statement else value m k)
unfolding value does_set
set_law m name statement k h low =
    let (sets, whole) =
      both
        (names_set (strip_prefix (codes "RESET ") statement) (strip_prefix (codes "SET ") statement)
          name)
        (lacks_semicolon statement) h in
    ap (get k) (run_one m statement whole)
    ∙ set_law_at (strip_prefix (codes "RESET ") statement) (strip_prefix (codes "SET ") statement) m
        name statement k refl refl sets

pub set_ends :
    (m : Params) (name statement rest : Str)
    → does_set name statement ≡ true
    → run m (statement ++ (codes "; " ++ rest)) ≡ run (run m statement) rest
unfolding does_set
set_ends m name statement rest h =
    run_ends m statement rest
      (both
        (names_set (strip_prefix (codes "RESET ") statement) (strip_prefix (codes "SET ") statement)
          name)
        (lacks_semicolon statement) h).1

name_chars_lack : (s : Str) → all_name_chars s ≡ true → lacks_semicolon s ≡ true
unfolding all_name_chars lacks_semicolon is_ascii_alphanumeric is_ascii_alphabetic is_ascii_digit
name_chars_lack [] h = refl
name_chars_lack (c ∷ cs) h = ground (arith, h, name_chars_lack cs)

identifier_lacks : (s : Str) → is_identifier s ≡ true → lacks_semicolon s ≡ true
unfolding is_identifier lacks_semicolon is_ascii_alphabetic
identifier_lacks [] h = refl
identifier_lacks (c ∷ cs) h = ground (arith, h, name_chars_lack cs)

split_lacks :
    (s a b : Str)
    → split_once b'.' s ≡ some (a, b)
    → lacks_semicolon a ≡ true
    → lacks_semicolon b ≡ true
    → lacks_semicolon s ≡ true
unfolding split_once lacks_semicolon
split_lacks [] a b e h k = refl
split_lacks (c ∷ cs) a b e h k = elim (Bool-cases (c == b'.')) [
  | inl dot ↦ ground (arith, rw dot at e, k, dot)
  | inr no_dot ↦ elim (Option-cases (split_once b'.' cs)) [
    | inl n ↦ absurd (cc (rw (no_dot, n) at e))
    | inr ((x, y), n) ↦ ground (arith, rw (no_dot, n) at e, h, k, split_lacks cs x y n)
  ]
]

name_lacks : (s : Str) → is_parameter_name s ≡ true → lacks_semicolon s ≡ true
unfolding is_parameter_name
name_lacks s h = elim (Option-cases (split_once b'.' s)) [
  | inl e ↦ identifier_lacks s (rw (is_parameter_name, e) at h)
  | inr ((a, b), e) ↦ elim (Option-cases (split_once b'.' b)) [
    | inl f ↦
        let (x, y) = both (is_identifier a) (is_identifier b) (rw (is_parameter_name, e, f) at h) in
        split_lacks s a b e (identifier_lacks a x) (identifier_lacks b y)
    | inr (more, f) ↦ absurd (cc (rw (is_parameter_name, e, f) at h))
  ]
]

reset_lacks :
    (name : Str) → is_parameter_name name ≡ true → lacks_semicolon (reset_statement name) ≡ true
unfolding lacks_semicolon
reset_lacks name h = name_lacks name h

reset_applied : (m : Params) (name : Str) → apply m (reset_statement name) ≡ remove name m
unfolding strip_prefix
reset_applied m name = refl

pub reset_law :
    (m : Params) (name k : Str)
    → is_parameter_name name ≡ true
    → IsLower name
    → IsLower k
    → value (run m (reset_statement name)) k ≡ (if same name k then none else value m k)
unfolding value
reset_law m name k h low lower =
    ap (get k) (run_one m (reset_statement name) (reset_lacks name h) ∙ reset_applied m name)
    ∙ get-remove k name m

pub reset_ends :
    (m : Params) (name rest : Str)
    → is_parameter_name name ≡ true
    → IsLower name
    → run m (reset_statement name ++ (codes "; " ++ rest)) ≡ run (run m (reset_statement name)) rest
reset_ends m name rest h low = run_ends m (reset_statement name) rest (reset_lacks name h)

pub value_agrees : (m : Params) (k : Str) → IsLower k → value m k ≡ get k m
unfolding value
value_agrees m k low = refl

abbrev pub text_server : SqlServer
text_server = record {
  State = Params;
  run = run;
  value = value;
  does_set = does_set;
  set_law = set_law;
  reset_law = reset_law;
  set_ends = set_ends;
  reset_ends = reset_ends;
}
