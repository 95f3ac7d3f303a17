-- ===== src/FixedWidth/Stream.antt =====
-- `build_batch`, `StreamState::next_batch` and the stream of `FixedWidthExec::execute` in
-- `qsql-core/src/fixed_width.rs`. The file is what `read_line` returns, call by call; Arrow's
-- `RecordBatch::try_new` is a parameter.
use quiver_sql.Base.{
  ℕ, zero, suc, ◌+◌, min, Bool, true, false, String, List, [], ◌∷◌, Option, none, some, Result, ok,
  err, ◌>>=◌, length, get_elem?, saturating_sub, usize_max, ◌==◌, str_eq, if◌then◌else◌,
}
use quiver_sql.SqlTypes.{Field}
use quiver_sql.FixedWidth.{FixedWidthLayout}
use quiver_sql.FixedWidth.Values.{trim_newlines}
use quiver_sql.FixedWidth.Columns.{
  FixedWidthError, Cell, batch_failed, read_failed, index_panic, build_column,
}

-- What `read_line` returns before the end of the file: a line with its line break, or an error.
abbrev pub Reader : Type 0
Reader = List (Result String String)

abbrev pub batch_size : ℕ
batch_size = 8192

-- What the loop of `next_batch` ends with: the lines, whether the file ended, and what is unread.
abbrev pub Lines : Type 0
Lines = List String × (Bool × Reader)

abbrev pub add_line : String → Lines → Lines
add_line line (lines, (eof, reader)) = (line ∷ lines, (eof, reader))

-- `while lines.len() < target`, with `target - lines.len()` as the count.
unfoldable pub read_lines : ℕ → Reader → Result FixedWidthError Lines
read_lines zero reader = ok ([], (false, reader))
read_lines (suc n) [] = ok ([], (true, []))
read_lines (suc n) (err e ∷ reader) = err (read_failed e)
read_lines (suc n) (ok buf ∷ reader) =
    let skipped = read_lines (suc n) reader in
    let more = read_lines n reader >>= λ l. ok (add_line (trim_newlines buf) l) in
    if str_eq (trim_newlines buf) "" then skipped else more

-- The indices `0..n`, from a start.
range : ℕ → ℕ → List ℕ
range from zero = []
range from (suc n) = from ∷ range (from + 1) n

abbrev pub or_index_panic : {A : Type 0} → Option A → Result FixedWidthError A
or_index_panic none = err index_panic
or_index_panic (some a) = ok a

-- The parts of `StreamState` that a scan never changes.
pub record Scan : Type 0 where
  pub layout : FixedWidthLayout
  pub projected_schema : List Field
  pub projection : Option (List ℕ)
  pub limit : Option ℕ

-- The parts of `StreamState` that `next_batch` changes.
pub record StreamState : Type 0 where
  pub reader : Reader
  pub rows_emitted : ℕ
  pub done : Bool

-- `let selected = match projection`.
unfoldable pub selected : Scan → List ℕ
unfolding range
selected scan = elim scan.projection [
  | some indices ↦ indices
  | none ↦ range 0 (length scan.layout.fields)
]

-- "How many rows are still allowed before we hit the limit."
abbrev pub remaining : Option ℕ → ℕ → ℕ
remaining (some l) rows_emitted = saturating_sub l rows_emitted
remaining none rows_emitted = usize_max

module _ {F32 F64 : Type 0} (parse_f32 : String → Option F32) (parse_f64 : String → Option F64)
    {RecordBatch : Type 0}
    (try_new : List Field
      → List (List (Option (Cell parse_f32 parse_f64)))
      → Result String RecordBatch) where
  -- The loop over the selected fields; the column's index is that of the schema's field.
  unfoldable pub build_columns :
      List String
      → Scan
      → ℕ
      → (column : ℕ) → List ℕ
      → Result FixedWidthError (List (List (Option (Cell parse_f32 parse_f64))))
  build_columns lines scan row column [] = ok []
  build_columns lines scan row column (layout_idx ∷ rest) =
      or_index_panic (get_elem? scan.layout.fields layout_idx) >>= λ f.
      or_index_panic (get_elem? scan.projected_schema column) >>= λ arrow_field.
      build_column parse_f32 parse_f64 lines f arrow_field.data_type row >>= λ array.
      build_columns lines scan row (column + 1) rest >>= λ columns. ok (array ∷ columns)

  abbrev or_batch_failed : Result String RecordBatch → Result FixedWidthError RecordBatch
  or_batch_failed (ok b) = ok b
  or_batch_failed (err e) = err (batch_failed e)

  unfoldable pub build_batch : Scan → ℕ → List String → Result FixedWidthError RecordBatch
  unfolding build_columns selected
  build_batch scan row lines = build_columns lines scan row 0 (selected scan) >>= λ columns.
      or_batch_failed (try_new scan.projected_schema columns)

  abbrev pub Served : Type 0
  Served = Option (Result FixedWidthError RecordBatch) × StreamState

  -- From `let batch = build_batch(…)` on.
  abbrev pub emit : StreamState → ℕ → Result FixedWidthError RecordBatch → Served
  emit s count (ok b) = (some (ok b), record s { rows_emitted = s.rows_emitted + count })
  emit s count (err e) = (some (err e), record s { done = true })

  -- What follows the loop, once the lines are read.
  abbrev pub after_lines : Scan → StreamState → Result FixedWidthError Lines → Served
  after_lines scan s (err e) = (some (err e), record s { done = true })
  after_lines scan s (ok ([], (eof, reader))) = (none, record s { reader = reader; done = eof })
  after_lines scan s (ok (line ∷ lines, (eof, reader))) =
      emit (record s { reader = reader; done = eof }) (length (line ∷ lines))
        (build_batch scan s.rows_emitted (line ∷ lines))

  unfoldable pub next_batch : Scan → StreamState → Served
  next_batch scan s =
      let target = min (remaining scan.limit s.rows_emitted) batch_size in
      let served = after_lines scan s (read_lines target s.reader) in
      if s.done
      then (none, s)
      else if remaining scan.limit s.rows_emitted == 0
      then (none, record s { done = true })
      else served

  -- `stream::unfold`: the items up to the first `None`, within some number of calls.
  unfoldable pub batches : Scan → ℕ → StreamState → List (Result FixedWidthError RecordBatch)
  batches scan zero s = []
  batches scan (suc fuel) s =
      let (item, s') = next_batch scan s in
      let rest = batches scan fuel s' in elim item [ none ↦ [] | some outcome ↦ outcome ∷ rest ]
