-- ===== src/FixedWidth/Columns.antt =====
-- `build_column` of `qsql-core/src/fixed_width.rs`: the bytes of a field cut out of each line, and
-- their values. `f32` and `f64` with their parsers are parameters.
use Prim.Native.String.{len}
use text.Mathlib.Text.{get?}
use quiver_sql.Base.{
  ℕ, suc, ◌-◌, ◌^◌, Bool, true, false, not, ◌||◌, String, List, [], ◌∷◌, Option, none, some, Result,
  ok, err, ◌>>=◌, ltb, ◌==◌, any, if◌then◌else◌, str_eq,
}
use quiver_sql.Errors.{ℤ}
use quiver_sql.SqlTypes.{
  DataType, boolean, int8, int16, int32, int64, uint8, uint16, uint32, uint64, float32, float64,
  date32, time64, timestamp, duration, binary, utf8,
}
use quiver_sql.SqlTypes.Text as Str
use quiver_sql.FixedWidth.Values.{parse_integer, lower_is}
use quiver_sql.FixedWidth.{FixedWidthField, end}

-- The messages, with the row and the field that they name; `slice_panic` is a slice whose start lies
-- behind its end, `index_panic` an index out of range.
pub data FixedWidthError : Type 0 where
  short_row : ℕ → String → FixedWidthError
  invalid_utf8 : ℕ → String → FixedWidthError
  empty_value : ℕ → String → FixedWidthError
  parse_failed : ℕ → String → String → FixedWidthError
  unsupported_type : String → FixedWidthError
  batch_failed : String → FixedWidthError
  read_failed : String → FixedWidthError
  slice_panic : FixedWidthError
  index_panic : FixedWidthError

abbrev pub is_utf8 : DataType → Bool
is_utf8 utf8 = true
is_utf8 _ = false

-- `str::from_utf8(&bytes[start..end])` of a text: an empty slice, or one between two characters.
unfoldable pub from_utf8 : String → (start end : ℕ) → Option String
from_utf8 line start end = if start == end then some "" else get? line start end

-- A value that is empty once trimmed.
unfoldable pub null_or_value : FixedWidthField → ℕ → String → Result FixedWidthError (Option String)
null_or_value f row s =
    if str_eq s ""
    then if f.nullable then ok none else err (empty_value row f.name)
    else ok (some s)

abbrev pub decoded :
    FixedWidthField → DataType → ℕ → Option String → Result FixedWidthError (Option String)
decoded f t row none = err (invalid_utf8 row f.name)
decoded f t row (some s) = null_or_value f row (if f.trim || not (is_utf8 t) then Str.trim s else s)

-- The body of the first loop, for one line.
unfoldable pub slice_line :
    FixedWidthField → DataType → ℕ → String → Result FixedWidthError (Option String)
slice_line f t row line =
    if ltb (len line) (end f)
    then err (short_row row f.name)
    else if ltb (end f) f.start
    then err slice_panic
    else decoded f t row (from_utf8 line f.start (end f))

-- A loop over the lines with the row index, whose body fails or yields a value.
unfoldable pub for_rows :
    {A B : Type 0}
    → (ℕ → A → Result FixedWidthError B)
    → ℕ
    → List A
    → Result FixedWidthError (List B)
for_rows body row [] = ok []
for_rows body row (x ∷ xs) = body row x >>= λ y. for_rows body (suc row) xs >>= λ ys. ok (y ∷ ys)

unfoldable pub parse_boolean : String → Option Bool
parse_boolean v =
    if any (lower_is v) ("true" ∷ "t" ∷ "1" ∷ "y" ∷ "yes" ∷ [])
    then some true
    else if any (lower_is v) ("false" ∷ "f" ∷ "0" ∷ "n" ∷ "no" ∷ [])
    then some false
    else none

-- The arms of the `match` on the Arrow type; the last one refuses the other types.
unfoldable pub supported : DataType → Bool
supported date32 = false
supported time64 = false
supported (timestamp tz) = false
supported duration = false
supported binary = false
supported _ = true

unfoldable pub type_label : DataType → String
type_label boolean = "BOOLEAN"
type_label int8 = "INT8"
type_label int16 = "INT16"
type_label int32 = "INT32"
type_label int64 = "INT64"
type_label uint8 = "UINT8"
type_label uint16 = "UINT16"
type_label uint32 = "UINT32"
type_label uint64 = "UINT64"
type_label float32 = "FLOAT32"
type_label float64 = "FLOAT64"
type_label _ = ""

module _ {F32 F64 : Type 0} (parse_f32 : String → Option F32)
    (parse_f64 : String → Option F64) where
  -- A value of an Arrow array of the supported types.
  pub data Cell : Type 0 where
    chars : String → Cell
    truth : Bool → Cell
    integer : ℤ → Cell
    single : F32 → Cell
    real : F64 → Cell

  abbrev pub cell_of : {A : Type 0} → (A → Cell) → Option A → Option Cell
  cell_of c none = none
  cell_of c (some a) = some (c a)

  -- What the loop of a type makes of a value; `none` is a value that does not parse.
  unfoldable pub parse_as : DataType → String → Option Cell
  parse_as utf8 v = some (chars v)
  parse_as boolean v = cell_of truth (parse_boolean v)
  parse_as int8 v = cell_of integer (parse_integer 127 128 true v)
  parse_as int16 v = cell_of integer (parse_integer 32767 32768 true v)
  parse_as int32 v = cell_of integer (parse_integer 2147483647 2147483648 true v)
  parse_as int64 v = cell_of integer (parse_integer (2 ^ 63 - 1) (2 ^ 63) true v)
  parse_as uint8 v = cell_of integer (parse_integer 255 0 false v)
  parse_as uint16 v = cell_of integer (parse_integer 65535 0 false v)
  parse_as uint32 v = cell_of integer (parse_integer 4294967295 0 false v)
  parse_as uint64 v = cell_of integer (parse_integer (2 ^ 64 - 1) 0 false v)
  parse_as float32 v = cell_of single (parse_f32 v)
  parse_as float64 v = cell_of real (parse_f64 v)
  parse_as _ v = none

  abbrev pub parsed_or :
      FixedWidthField → DataType → ℕ → Option Cell → Result FixedWidthError (Option Cell)
  parsed_or f t row none = err (parse_failed row f.name (type_label t))
  parsed_or f t row (some c) = ok (some c)

  -- The body of the second loop, for one slice.
  unfoldable pub coerce :
      FixedWidthField → DataType → ℕ → Option String → Result FixedWidthError (Option Cell)
  coerce f t row none = ok none
  coerce f t row (some v) = parsed_or f t row (parse_as t v)

  unfoldable pub coerce_all :
      FixedWidthField
      → DataType
      → ℕ
      → List (Option String)
      → Result FixedWidthError (List (Option Cell))
  coerce_all f t row slices =
      let values = for_rows (coerce f t) row slices in
      if supported t then values else err (unsupported_type f.name)

  unfoldable pub build_column :
      List String → FixedWidthField → DataType → ℕ → Result FixedWidthError (List (Option Cell))
  build_column lines f t row =
      for_rows (slice_line f t) row lines >>= λ slices. coerce_all f t row slices
