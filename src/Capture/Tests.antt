-- ===== src/Capture/Tests.antt =====
-- Results reported to a trace.
use havuz.Base.{◌≡◌, ◌≤◌, ℕ, zero, suc, refl, none, some, List, [], ◌∷◌, true, false, length}
use havuz.Capture.{
  Row, Report, described, row_seen, completed, new, hear_all, max_result_rows, max_result_bytes,
}
use havuz.Capture.Bounds.{kept_rows, kept_bytes, sample_is_bounded}
use havuz.Capture.Levels.{facts, statements_alone}

abbrev one_value : Row
one_value = some (7 ∷ []) ∷ none ∷ []

abbrev rows : ℕ → List Report
rows zero = completed (83 ∷ []) 120 ∷ []
rows (suc n) = row_seen one_value ∷ rows n

hundred_rows_are_kept :
    (kept_rows (hear_all (new true) (rows 120)).sets ≡ 100)
    × ((hear_all (new true) (rows 120)).truncated ≡ true)
    × ((hear_all (new true) (rows 120)).row_count ≡ 120)
unfolding hear_all kept_rows
hundred_rows_are_kept = (refl, refl, refl)

-- A sample that is full is called cut off, also where the statement had no row more.
full_is_cut : (hear_all (new true) (rows 100)).truncated ≡ true
unfolding hear_all
full_is_cut = refl

abbrev two_statements : List Report
two_statements =
    described ((97 ∷ []) ∷ [])
    ∷ row_seen one_value
    ∷ completed (83 ∷ []) 1
    ∷ row_seen one_value
    ∷ []

orphan_has_a_set : length (hear_all (new true) two_statements).sets ≡ 2
unfolding hear_all
orphan_has_a_set = refl

sample_is_bounded_example :
    (kept_rows (hear_all (new true) two_statements).sets ≤ max_result_rows)
    × (kept_bytes (hear_all (new true) two_statements).sets ≤ max_result_bytes)
    × (kept_rows (hear_all (new true) two_statements).sets
        ≡ (hear_all (new true) two_statements).captured_rows)
    × (kept_bytes (hear_all (new true) two_statements).sets
        ≡ (hear_all (new true) two_statements).bytes)
sample_is_bounded_example = sample_is_bounded true two_statements

statements_alone_example :
    ((hear_all (new false) two_statements).sets ≡ [])
    × ((hear_all (new false) two_statements).truncated ≡ false)
    × (facts (hear_all (new false) two_statements) ≡ facts (hear_all (new true) two_statements))
statements_alone_example = statements_alone two_statements
