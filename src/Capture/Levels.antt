-- ===== src/Capture/Levels.antt =====
-- A pool that records statements alone keeps none of their data (crates/havuz-control/src/trace.rs).
use havuz.Base.{
  ℕ, ◌≡◌, refl, sym, ap, ◌∙◌, true, false, Option, some, List, [], ◌∷◌, arith, saturating_add64,
}
use havuz.Text.{Bytes}
use havuz.Capture.{
  Row, ResultCapture, new, begin_result_set, command_complete, record_error, push_row, keep_row,
  Report, described, row_seen, completed, failed, hear, hear_all,
}

-- What a trace says of the statement, not of its data.
pub record Facts : Type 0 where
  pub row_count : ℕ
  pub command_tag : Option Bytes
  pub error : Option (Bytes × Bytes)

abbrev pub facts : ResultCapture → Facts
facts c = record { row_count = c.row_count; command_tag = c.command_tag; error = c.error }

abbrev Bare : ResultCapture → Type 0
Bare c = (c.keep_rows ≡ false) × (c.sets ≡ []) × (c.truncated ≡ false)

hear-Bare : (c : ResultCapture) (r : Report) → Bare c → Bare (hear c r)
unfolding begin_result_set push_row command_complete record_error
hear-Bare c (described columns) (off, sets, cut) = rw off (refl, sets, cut)
hear-Bare c (row_seen row) (off, sets, cut) = rw off (refl, sets, cut)
hear-Bare c (completed tag rows) (off, sets, cut) = rw off (refl, sets, cut)
hear-Bare c (failed code message) h = h

-- What a report says of the statement.
abbrev told : Facts → Report → Facts
told f (described columns) = f
told f (row_seen row) = f
told f (completed tag rows) = record f {
  row_count = saturating_add64 f.row_count rows;
  command_tag = some tag;
}
told f (failed code message) = record f { error = some (code, message) }

push_row-facts : (c : ResultCapture) (row : Row) → facts (push_row c row) ≡ facts c
unfolding push_row keep_row
push_row-facts c row = ground arith

hear-facts : (c : ResultCapture) (r : Report) → facts (hear c r) ≡ told (facts c) r
unfolding begin_result_set command_complete record_error
hear-facts c (described columns) = ground arith
hear-facts c (row_seen row) = push_row-facts c row
hear-facts c (completed tag rows) = ground arith
hear-facts c (failed code message) = refl

abbrev told_all : Facts → List Report → Facts
told_all f [] = f
told_all f (r ∷ more) = told_all (told f r) more

hear_all-facts :
    (c : ResultCapture) (rs : List Report) → facts (hear_all c rs) ≡ told_all (facts c) rs
unfolding hear_all
hear_all-facts c [] = refl
hear_all-facts c (r ∷ rs) = hear_all-facts (hear c r) rs ∙ ap (λ f. told_all f rs) (hear-facts c r)

hear_all-Bare : (c : ResultCapture) (rs : List Report) → Bare c → Bare (hear_all c rs)
unfolding hear_all
hear_all-Bare c [] h = h
hear_all-Bare c (r ∷ rs) h = hear_all-Bare (hear c r) rs (hear-Bare c r h)

-- Where a pool records statements alone, nothing of a result is held and nothing is called cut off,
-- whatever the connection reports; and the tag, the number of rows and the error are those that a
-- trace with results has.
pub statements_alone :
    (rs : List Report)
    → ((hear_all (new false) rs).sets ≡ [])
      × ((hear_all (new false) rs).truncated ≡ false)
      × (facts (hear_all (new false) rs) ≡ facts (hear_all (new true) rs))
statements_alone rs =
    let (off, sets, cut) = hear_all-Bare (new false) rs (refl, refl, refl) in
    (sets, cut, hear_all-facts (new false) rs ∙ sym (hear_all-facts (new true) rs))
