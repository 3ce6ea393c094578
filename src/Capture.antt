-- ===== src/Capture.antt =====
-- crates/havuz-control/src/trace.rs: the sample of a statement's results that its trace keeps
-- (`ResultCapture`). A string is the list of its bytes. `result` is its `sets` here; its other field is
-- set when it is taken.
pub mod Bounds
pub mod Levels
mod Tests
use havuz.Base.{
  ℕ, zero, suc, ◌+◌, ◌-◌, ◌^◌, min, Bool, true, false, not, ◌||◌, Option, none, some, List, [], ◌∷◌,
  ◌++◌, leb, ltb, if◌then◌else◌, length, saturating_add64,
}
use havuz.Text.{Bytes}

abbrev pub max_result_rows : ℕ
max_result_rows = 100

abbrev pub max_result_bytes : ℕ
max_result_bytes = 262_144

abbrev pub Row : Type 0
Row = List (Option Bytes)

pub record ResultSet : Type 0 where
  pub columns : List Bytes
  pub rows : List Row
  pub command_tag : Option Bytes

pub record QueryResult : Type 0 where
  pub sets : List ResultSet
  pub omitted : Bool

pub record ResultCapture : Type 0 where
  pub keep_rows : Bool
  pub sets : List ResultSet
  pub current_set : Option ℕ
  pub row_count : ℕ
  pub captured_rows : ℕ
  pub bytes : ℕ
  pub truncated : Bool
  pub command_tag : Option Bytes
  pub error : Option (Bytes × Bytes)

abbrev pub new : Bool → ResultCapture
new keep_rows = record {
  keep_rows = keep_rows;
  sets = [];
  current_set = none;
  row_count = 0;
  captured_rows = 0;
  bytes = 0;
  truncated = false;
  command_tag = none;
  error = none;
}

abbrev pub empty_set : List Bytes → ResultSet
empty_set columns = record { columns = columns; rows = []; command_tag = none }

unfoldable pub begin_result_set : ResultCapture → List Bytes → ResultCapture
begin_result_set c columns =
    if not c.keep_rows
    then c
    else record c { sets = c.sets ++ empty_set columns ∷ []; current_set = some (length c.sets) }

unfoldable pub update_at : ℕ → (ResultSet → ResultSet) → List ResultSet → List ResultSet
update_at i f [] = []
update_at zero f (s ∷ more) = f s ∷ more
update_at (suc i) f (s ∷ more) = s ∷ update_at i f more

-- The set that is open, or a new one without columns, and its index.
abbrev pub open_set : Option ℕ → List ResultSet → List ResultSet × ℕ
open_set (some i) sets = (sets, i)
open_set none sets = (sets ++ empty_set [] ∷ [], length sets)

abbrev pub with_tag : Bytes → ResultSet → ResultSet
with_tag tag s = record s { command_tag = some tag }

abbrev pub with_row : Row → ResultSet → ResultSet
with_row row s = record s { rows = s.rows ++ row ∷ [] }

abbrev pub note_complete : ResultCapture → Bytes → ℕ → ResultCapture
note_complete c tag rows = record c {
  row_count = saturating_add64 c.row_count rows;
  command_tag = some tag;
}

unfoldable pub command_complete : ResultCapture → Bytes → ℕ → ResultCapture
unfolding update_at
command_complete c tag rows =
    let d = note_complete c tag rows in
    if not c.keep_rows
    then d
    else let (sets, i) = open_set c.current_set c.sets in
      record d { sets = update_at i (with_tag tag) sets; current_set = none }

unfoldable pub record_error : ResultCapture → Bytes → Bytes → ResultCapture
record_error c code message = record c { error = some (code, message) }

unfoldable pub row_bytes : Row → ℕ
row_bytes [] = 0
row_bytes (none ∷ more) = row_bytes more
row_bytes (some value ∷ more) = length value + row_bytes more

-- A row that fits is kept.
unfoldable pub keep_row : ResultCapture → Row → ℕ → ResultCapture
unfolding update_at
keep_row c row size =
    let (sets, i) = open_set c.current_set c.sets in
    record c {
      sets = update_at i (with_row row) sets;
      current_set = some i;
      bytes = c.bytes + size;
      captured_rows = c.captured_rows + 1;
      truncated = c.truncated || leb max_result_rows (c.captured_rows + 1);
    }

unfoldable pub push_row : ResultCapture → Row → ResultCapture
unfolding keep_row row_bytes
push_row c row =
    if not c.keep_rows
    then c
    else if leb max_result_rows c.captured_rows || leb max_result_bytes c.bytes
    then record c { truncated = true }
    else if ltb max_result_bytes (saturating_add64 c.bytes (row_bytes row))
    then record c { truncated = true }
    else keep_row c row (row_bytes row)

-- What `complete` takes of a capture.
abbrev pub taken : ResultCapture → QueryResult
taken c = record { sets = c.sets; omitted = not c.keep_rows }

-- What a connection reports to a trace.
pub data Report : Type 0 where
  described : (columns : List Bytes) → Report
  row_seen : (row : Row) → Report
  completed : (tag : Bytes) (rows : ℕ) → Report
  failed : (code message : Bytes) → Report

abbrev pub hear : ResultCapture → Report → ResultCapture
hear c (described columns) = begin_result_set c columns
hear c (row_seen row) = push_row c row
hear c (completed tag rows) = command_complete c tag rows
hear c (failed code message) = record_error c code message

unfoldable pub hear_all : ResultCapture → List Report → ResultCapture
unfolding begin_result_set push_row command_complete record_error
hear_all c [] = c
hear_all c (r ∷ more) = hear_all (hear c r) more
