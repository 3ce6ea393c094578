-- ===== src/Capture/Bounds.antt =====
-- A sample of results is bounded (crates/havuz-control/src/trace.rs).
use havuz.Base.{
  ℕ, zero, suc, ◌+◌, ◌≤◌, ◌<◌, ◌≡◌, refl, ap, ◌∙◌, Bool, ◌||◌, Option, none, some, List, [], ◌∷◌,
  ◌++◌, leb, ltb, length, arith, Bool-cases, inl, inr, saturating_add64,
}
use havuz.Text.{Bytes}
use havuz.Capture.{
  Row, ResultSet, ResultCapture, new, max_result_rows, max_result_bytes, empty_set,
  begin_result_set, update_at, open_set, with_tag, with_row, command_complete, record_error,
  row_bytes, keep_row, push_row, Report, described, row_seen, completed, failed, hear, hear_all,
}

unfoldable pub rows_bytes : List Row → ℕ
unfolding row_bytes
rows_bytes [] = 0
rows_bytes (row ∷ more) = row_bytes row + rows_bytes more

-- What a trace really holds.
unfoldable pub kept_rows : List ResultSet → ℕ
kept_rows [] = 0
kept_rows (s ∷ more) = length s.rows + kept_rows more

unfoldable pub kept_bytes : List ResultSet → ℕ
unfolding rows_bytes
kept_bytes [] = 0
kept_bytes (s ∷ more) = rows_bytes s.rows + kept_bytes more

abbrev pub InRange : Option ℕ → List ResultSet → Type 0
InRange none sets = Unit {0}
InRange (some i) sets = i < length sets

abbrev Counted : List ResultSet → ℕ → ℕ → Type 0
Counted sets rows bytes = (kept_rows sets ≡ rows) × (kept_bytes sets ≡ bytes)

abbrev Holds : ResultCapture → Type 0
Holds c =
    Counted c.sets c.captured_rows c.bytes
    × InRange c.current_set c.sets
    × (c.captured_rows ≤ max_result_rows)
    × (c.bytes ≤ max_result_bytes)

length-snoc {ℓ} : {A : Type ℓ} (xs : List A) (x : A) → length (xs ++ x ∷ []) ≡ suc (length xs)
length-snoc [] x = refl
length-snoc (y ∷ xs) x = ap suc (length-snoc xs x)

rows_bytes-snoc :
    (rows : List Row) (row : Row) → rows_bytes (rows ++ row ∷ []) ≡ rows_bytes rows + row_bytes row
unfolding rows_bytes
rows_bytes-snoc [] row = omega arith
rows_bytes-snoc (r ∷ rows) row = omega (arith, rows_bytes-snoc rows row)

kept_rows-snoc :
    (sets : List ResultSet) (columns : List Bytes)
    → kept_rows (sets ++ empty_set columns ∷ []) ≡ kept_rows sets
unfolding kept_rows
kept_rows-snoc [] columns = refl
kept_rows-snoc (s ∷ sets) columns = ap (λ n. length s.rows + n) (kept_rows-snoc sets columns)

kept_bytes-snoc :
    (sets : List ResultSet) (columns : List Bytes)
    → kept_bytes (sets ++ empty_set columns ∷ []) ≡ kept_bytes sets
unfolding kept_bytes rows_bytes
kept_bytes-snoc [] columns = refl
kept_bytes-snoc (s ∷ sets) columns = ap (λ n. rows_bytes s.rows + n) (kept_bytes-snoc sets columns)

tag-Counted :
    (i : ℕ) (tag : Bytes) (sets : List ResultSet)
    → Counted (update_at i (with_tag tag) sets) (kept_rows sets) (kept_bytes sets)
unfolding update_at kept_rows kept_bytes
tag-Counted i tag [] = (refl, refl)
tag-Counted zero tag (s ∷ sets) = (refl, refl)
tag-Counted (suc i) tag (s ∷ sets) = (
  ap (λ n. length s.rows + n) (tag-Counted i tag sets).0,
  ap (λ n. rows_bytes s.rows + n) (tag-Counted i tag sets).1,
)

row-Counted :
    (i : ℕ) (row : Row) (sets : List ResultSet)
    → i < length sets
    → Counted
        (update_at i (with_row row) sets)
        (kept_rows sets + 1)
        (kept_bytes sets + row_bytes row)
unfolding update_at kept_rows kept_bytes
row-Counted i row [] h = absurd (omega (arith, h))
row-Counted zero row (s ∷ sets) h =
    (omega (arith, length-snoc s.rows row), omega (arith, rows_bytes-snoc s.rows row))
row-Counted (suc i) row (s ∷ sets) h =
    let (a, b) = row-Counted i row sets (omega (arith, h)) in (omega (arith, a), omega (arith, b))

length-update_at :
    (i : ℕ) (f : ResultSet → ResultSet) (sets : List ResultSet)
    → length (update_at i f sets) ≡ length sets
unfolding update_at
length-update_at i f [] = refl
length-update_at zero f (s ∷ sets) = refl
length-update_at (suc i) f (s ∷ sets) = ap suc (length-update_at i f sets)

-- The open set exists, and opening one changes no count.
opened :
    (current : Option ℕ) (sets : List ResultSet)
    → InRange current sets
    → let (s, i) = open_set current sets in
      (i < length s) × Counted s (kept_rows sets) (kept_bytes sets)
opened (some i) sets h = (h, (refl, refl))
opened none sets h = (
  omega (arith, length-snoc sets (empty_set [])),
  (kept_rows-snoc sets [], kept_bytes-snoc sets []),
)

begin_result_set-Holds :
    (c : ResultCapture) (columns : List Bytes) → Holds c → Holds (begin_result_set c columns)
unfolding begin_result_set
begin_result_set-Holds c columns ((rows, bytes), range, few, small) =
    elim (Bool-cases c.keep_rows) [
      | inl e ↦ rw e (
        (kept_rows-snoc c.sets columns ∙ rows, kept_bytes-snoc c.sets columns ∙ bytes),
        omega (arith, length-snoc c.sets (empty_set columns)),
        few,
        small,
      )
      | inr e ↦ rw e ((rows, bytes), range, few, small)
    ]

command_complete-Holds :
    (c : ResultCapture) (tag : Bytes) (n : ℕ) → Holds c → Holds (command_complete c tag n)
unfolding command_complete
command_complete-Holds c tag n ((rows, bytes), range, few, small) = elim (Bool-cases c.keep_rows) [
  | inl e ↦
      let (sets, i) = open_set c.current_set c.sets in
      let (inside, (r, b)) = opened c.current_set c.sets range in
      rw e (
        ((tag-Counted i tag sets).0 ∙ (r ∙ rows), (tag-Counted i tag sets).1 ∙ (b ∙ bytes)),
        tt,
        few,
        small,
      )
  | inr e ↦ rw e ((rows, bytes), range, few, small)
]

keep_row-Holds :
    (c : ResultCapture) (row : Row)
    → Holds c
    → c.captured_rows < max_result_rows
    → c.bytes + row_bytes row ≤ max_result_bytes
    → Holds (keep_row c row (row_bytes row))
unfolding keep_row
keep_row-Holds c row ((rows, bytes), range, below, within) few small =
    let (sets, i) = open_set c.current_set c.sets in
    let (inside, (r, b)) = opened c.current_set c.sets range in
    let (a, d) = row-Counted i row sets inside in
    (
      (omega (arith, a, r, rows), omega (arith, d, b, bytes)),
      omega (arith, inside, length-update_at i (with_row row) sets),
      omega (arith, few),
      small,
    )

push_row-Holds : (c : ResultCapture) (row : Row) → Holds c → Holds (push_row c row)
unfolding push_row
push_row-Holds c row holds = elim (Bool-cases c.keep_rows) [
  | inr e ↦ rw e holds
  | inl e ↦
      elim (Bool-cases (leb max_result_rows c.captured_rows || leb max_result_bytes c.bytes)) [
        | inl full ↦ rw (e, full) holds
        | inr space ↦
            elim (Bool-cases (ltb max_result_bytes (saturating_add64 c.bytes (row_bytes row)))) [
              | inl large ↦ rw (e, space, large) holds
              | inr small ↦
                  rw (e, space, small)
                    (keep_row-Holds c row holds (ground (arith, space)) (ground (arith, small)))
            ]
      ]
]

hear-Holds : (c : ResultCapture) (r : Report) → Holds c → Holds (hear c r)
unfolding record_error
hear-Holds c (described columns) h = begin_result_set-Holds c columns h
hear-Holds c (row_seen row) h = push_row-Holds c row h
hear-Holds c (completed tag rows) h = command_complete-Holds c tag rows h
hear-Holds c (failed code message) h = h

hear_all-Holds : (c : ResultCapture) (rs : List Report) → Holds c → Holds (hear_all c rs)
unfolding hear_all
hear_all-Holds c [] h = h
hear_all-Holds c (r ∷ rs) h = hear_all-Holds (hear c r) rs (hear-Holds c r h)

-- Whatever a connection reports, a trace holds at most 100 rows and at most 262,144 bytes of their
-- values, over all result sets, and the two counts that the capture keeps are what it holds.
pub sample_is_bounded :
    (keep : Bool) (rs : List Report)
    → let c = hear_all (new keep) rs in
      (kept_rows c.sets ≤ max_result_rows)
      × (kept_bytes c.sets ≤ max_result_bytes)
      × (kept_rows c.sets ≡ c.captured_rows)
      × (kept_bytes c.sets ≡ c.bytes)
unfolding kept_rows kept_bytes
sample_is_bounded keep rs =
    let ((rows, bytes), range, few, small) =
      hear_all-Holds (new keep) rs ((refl, refl), tt, omega arith, omega arith) in
    (omega (arith, rows, few), omega (arith, bytes, small), rows, bytes)
