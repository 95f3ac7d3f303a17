-- ===== src/FixedWidth/Tests.antt =====
-- Layouts and scans at concrete values.
use quiver_sql.Base.{
  ℕ, ◌<◌, true, false, String, List, [], ◌∷◌, Option, none, some, Result, ok, IsOk, arith, ◌≡◌,
  refl, ◌↔◌, length,
}
use quiver_sql.SqlTypes.{Field, int32, utf8}
use quiver_sql.FixedWidth.{FixedWidthField, FixedWidthLayout, validate}
use quiver_sql.FixedWidth.Layouts.{Valid, validate_iff}
use quiver_sql.FixedWidth.Values.{trim_newlines}
use quiver_sql.FixedWidth.Columns.{Cell, supported, build_column}
use quiver_sql.FixedWidth.Rows.{value, each}
use quiver_sql.FixedWidth.Entries.{cell, value-build_column}
use quiver_sql.FixedWidth.Stream.{Scan, StreamState, Reader, batches}
use quiver_sql.FixedWidth.Reads.{data_lines, pending}
use quiver_sql.FixedWidth.Scans.{Streams, batches-Streams}

abbrev id_field : FixedWidthField
id_field = record {
  name = "id";
  start = 0;
  length = 4;
  sql_type = "INT";
  nullable = false;
  trim = true;
}

abbrev name_field : FixedWidthField
name_field = record {
  name = "name";
  start = 4;
  length = 3;
  sql_type = "TEXT";
  nullable = true;
  trim = true;
}

abbrev layout : FixedWidthLayout
layout = record { fields = id_field ∷ name_field ∷ [] }

-- What upper case is for texts that have no lower case letter.
abbrev upper : String → String
upper s = s

validate_iff_example : IsOk (validate upper layout) ↔ Valid upper layout.fields
validate_iff_example = validate_iff upper layout (omega arith, (omega arith, tt))

-- No floating-point number is parsed here.
abbrev no_float : String → Option ℕ
no_float s = none

value-build_column_example :
    value (build_column no_float no_float ("  42ann" ∷ " x  bob" ∷ []) id_field int32 7)
    ≡ each (cell no_float no_float id_field int32) ("  42ann" ∷ " x  bob" ∷ [])
unfolding supported
value-build_column_example =
    value-build_column no_float no_float ("  42ann" ∷ " x  bob" ∷ []) id_field int32 7 refl

abbrev Columns : Type 0
Columns = List (List (Option (Cell no_float no_float)))

abbrev try_new : List Field → Columns → Result String Columns
try_new schema cells = ok cells

abbrev scan : Scan
scan = record {
  layout = layout;
  projected_schema = record { name = "name"; data_type = utf8; nullable = true } ∷ [];
  projection = some (1 ∷ []);
  limit = some 2;
}

abbrev file : Reader
file = ok "  42ann\n" ∷ ok "\n" ∷ ok "  43bob\r\n" ∷ ok "  44cid\n" ∷ []

abbrev opened : StreamState
opened = record { reader = file; rows_emitted = 0; done = false }

owed : pending scan opened ≡ "  42ann" ∷ "  43bob" ∷ []
unfolding pending data_lines trim_newlines
owed = refl

batches-Streams_example :
    Streams no_float no_float try_new scan 0
      (pending scan opened)
      (batches no_float no_float try_new scan 3 opened)
batches-Streams_example =
    batches-Streams no_float no_float try_new scan 3 opened (tt, (tt, (tt, (tt, tt)))) two_lines
  where
    two_lines : length (pending scan opened) < 3
    two_lines = rw owed (omega arith)
