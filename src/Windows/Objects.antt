-- ===== src/Windows/Objects.antt =====
-- The windows of rows (`record_batches_to_json_rows` of qsql-core/src/engine.rs) with the objects that
-- the code makes of rows.
use quiver_sql.Base.{
  ℕ, String, false, List, [], ◌∷◌, Option, none, some, get_elem?, length, ok, sequence, take, drop,
  ◌≡◌, refl,
}
use quiver_sql.Errors.{pos}
use quiver_sql.Sessions.Maps.{insert, remove}
use quiver_sql.Arrow.{cells_of}
use quiver_sql.Arrow.Rows.{
  ArrayCell, integer, chars, int64, utf8, Batches, RowLaws, typed_value_to_json,
  array_value_to_json, json_object, json_batches, json_batches-SliceLaws,
}
use quiver_sql.Windows.{record_batch_to_json_rows, json_rows, record_batches_to_json_rows}
use quiver_sql.Windows.Exact.{record_batches_to_json_rows_lem}

-- For record batches whose slices have the columns of the rows that they are slices of, the objects
-- of a window are those of its rows, in order, or the first of their errors.
objects_of_window :
    (a : Batches) (batches : List a.RecordBatch) (start_row row_count : ℕ)
    → RowLaws a
    → record_batches_to_json_rows (json_batches a) batches start_row row_count
      ≡ sequence (take row_count (drop start_row (cells_of (json_batches a) batches)))
objects_of_window a batches start_row row_count laws =
    record_batches_to_json_rows_lem (json_batches a) (json_batches-SliceLaws a laws) batches
      start_row row_count

abbrev Row : Type 0
Row = List (String × ArrayCell (Unit {0}))

abbrev or_empty : Option Row → Row
or_empty none = []
or_empty (some r) = r

-- Batches that are lists of rows.
abbrev rows : Batches
rows = record {
  RecordBatch = List Row;
  SchemaRef = Unit;
  Float = Unit {0};
  is_finite = λ x. false;
  num_rows = λ b. length b;
  get_array_memory_size = λ b. length b;
  slice = λ b o n. take n (drop o b);
  columns_at = λ b i. or_empty (get_elem? b i);
  schema = λ b. tt;
  write_ipc = λ s bs. ok "ipc";
}

abbrev person : ℕ → String → Row
person n s =
    ("id", record { is_null = false; value = int64 (pos n) })
    ∷ ("name", record { is_null = false; value = utf8 s })
    ∷ []

second_person :
    record_batches_to_json_rows
      (json_batches rows)
      ((person 1 "ann" ∷ person 2 "bob" ∷ []) ∷ [])
      1
      1
    ≡ ok ((("name", chars "bob") ∷ ("id", integer (pos 2)) ∷ []) ∷ [])
unfolding record_batches_to_json_rows json_rows record_batch_to_json_rows json_object
    array_value_to_json typed_value_to_json insert remove
second_person = refl
