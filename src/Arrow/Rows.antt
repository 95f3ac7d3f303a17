-- ===== src/Arrow/Rows.antt =====
-- The JSON of a row, `record_batch_to_json_rows` with `array_value_to_json` of
-- qsql-core/src/engine.rs, over what Arrow gives for a row of a record batch: its columns with their
-- names, and in each the typed value and whether it is null.
mod Fields
mod Tests
use quiver_sql.Base.{
  ℕ, ◌+◌, ◌≤◌, ◌<◌, String, Bool, true, false, List, [], ◌∷◌, Result, ok, err, ◌>>=◌, if◌then◌else◌,
  ◌≡◌, refl, ap,
}
use quiver_sql.Errors.{QueryError, execution, ℤ}
use quiver_sql.Sessions.Maps.{insert}
use quiver_sql.Arrow.{Arrow, SliceLaws}

-- The arrays that `array_value_to_json` looks for, and the others with what `array_value_to_string`
-- makes of the value.
pub data TypedValue (Float : Type 0) : Type 0 where
  int8 int16 int32 int64 uint8 uint16 uint32 uint64 : ℤ → TypedValue Float
  float32 float64 : Float → TypedValue Float
  boolean : Bool → TypedValue Float
  utf8 large_utf8 : String → TypedValue Float
  other : Result String String → TypedValue Float

pub record ArrayCell (Float : Type 0) : Type 0 where
  pub is_null : Bool
  pub value : TypedValue Float

-- `serde_json::Value`, without arrays and objects.
pub data JsonValue (Float : Type 0) : Type 0 where
  null : JsonValue Float
  integer : ℤ → JsonValue Float
  number : Float → JsonValue Float
  truth : Bool → JsonValue Float
  chars : String → JsonValue Float

-- `RecordBatch` with the reading of a row, and what `serde_json` asks of a float.
pub record Batches : Type 1 where
  pub RecordBatch : Type 0
  pub SchemaRef : Type 0
  pub Float : Type 0
  pub is_finite : Float → Bool
  pub num_rows : RecordBatch → ℕ
  pub get_array_memory_size : RecordBatch → ℕ
  pub slice : RecordBatch → ℕ → ℕ → RecordBatch
  pub columns_at : RecordBatch → ℕ → List (String × ArrayCell Float)
  pub schema : RecordBatch → SchemaRef
  pub write_ipc : SchemaRef → List RecordBatch → Result String String

module _ {Float : Type 0} (is_finite : Float → Bool) where
  -- `json!` of a float: null unless it is finite.
  abbrev json_float : Float → JsonValue Float
  json_float x = if is_finite x then number x else null

  abbrev json_text : Result String String → Result String (JsonValue Float)
  json_text (ok s) = ok (chars s)
  json_text (err e) = err e

  unfoldable pub typed_value_to_json : TypedValue Float → Result String (JsonValue Float)
  typed_value_to_json (int8 n) = ok (integer n)
  typed_value_to_json (int16 n) = ok (integer n)
  typed_value_to_json (int32 n) = ok (integer n)
  typed_value_to_json (int64 n) = ok (integer n)
  typed_value_to_json (uint8 n) = ok (integer n)
  typed_value_to_json (uint16 n) = ok (integer n)
  typed_value_to_json (uint32 n) = ok (integer n)
  typed_value_to_json (uint64 n) = ok (integer n)
  typed_value_to_json (float32 x) = ok (json_float x)
  typed_value_to_json (float64 x) = ok (json_float x)
  typed_value_to_json (boolean b) = ok (truth b)
  typed_value_to_json (utf8 s) = ok (chars s)
  typed_value_to_json (large_utf8 s) = ok (chars s)
  typed_value_to_json (other text) = json_text text

  unfoldable pub array_value_to_json : ArrayCell Float → Result String (JsonValue Float)
  array_value_to_json cell =
      let value = typed_value_to_json cell.value in if cell.is_null then ok null else value

  abbrev pub query_execution_error :
      Result String (JsonValue Float) → Result QueryError (JsonValue Float)
  query_execution_error (ok v) = ok v
  query_execution_error (err e) = err (execution e)

  -- The loop over the columns of a row, with the object so far.
  unfoldable pub json_object :
      List (String × ArrayCell Float)
      → List (String × JsonValue Float)
      → Result QueryError (List (String × JsonValue Float))
  json_object [] obj = ok obj
  json_object ((name, cell) ∷ columns) obj =
      query_execution_error (array_value_to_json cell) >>= λ v.
      json_object columns (insert name v obj)

-- The record batches whose rows are encoded by the code.
abbrev pub json_batches : Batches → Arrow
json_batches a = record {
  RecordBatch = a.RecordBatch;
  SchemaRef = a.SchemaRef;
  Json = List (String × JsonValue a.Float);
  num_rows = a.num_rows;
  get_array_memory_size = a.get_array_memory_size;
  slice = a.slice;
  encode_row = λ b i. json_object a.is_finite (a.columns_at b i) [];
  schema = a.schema;
  write_ipc = a.write_ipc;
}

-- The laws of `RecordBatch::slice`, for the columns of a row.
pub record RowLaws (a : Batches) : Type 0 where
  pub num_rows-slice :
      (b : a.RecordBatch) (o n : ℕ) → o + n ≤ a.num_rows b → a.num_rows (a.slice b o n) ≡ n
  pub columns_at-slice :
      (b : a.RecordBatch) (o n i : ℕ)
      → o + n ≤ a.num_rows b
      → i < n
      → a.columns_at (a.slice b o n) i ≡ a.columns_at b (o + i)

pub json_batches-SliceLaws : (a : Batches) → RowLaws a → SliceLaws (json_batches a)
json_batches-SliceLaws a laws = record {
  num_rows-slice = laws.num_rows-slice;
  encode_row-slice =
      λ b o n i h g. ap (λ r. json_object a.is_finite r []) (laws.columns_at-slice b o n i h g);
}
