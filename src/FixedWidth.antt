-- ===== src/FixedWidth.antt =====
-- The fixed-width layouts of `qsql-core/src/fixed_width.rs`: the fields of a record, and the checks on
-- a layout when it is loaded. The columns and the stream of batches are the child modules.
mod Spans
mod Values
mod Layouts
mod Columns
mod Rows
mod Entries
mod Stream
mod Reads
mod Scans
mod Tests
use quiver_sql.Base.{
  ℕ, ◌+◌, ◌%◌, ◌^◌, max, Bool, true, false, ◌&&◌, String, List, [], ◌∷◌, Option, Result, ok, err,
  ◌>>=◌, ◌>>◌, sequence, map, map_err, ltb, ◌==◌, if◌then◌else◌,
}
use quiver_sql.SqlTypes.{DataType, TypeError, Field, sql_type_to_arrow}

pub record FixedWidthField : Type 0 where
  pub name : String
  pub start : ℕ
  pub length : ℕ
  pub sql_type : String
  pub nullable : Bool
  pub trim : Bool

-- `start + length` on `usize`.
unfoldable pub end : FixedWidthField → ℕ
end f = (f.start + f.length) % 2 ^ 64

pub record FixedWidthLayout : Type 0 where
  pub fields : List FixedWidthField

-- `self.fields.iter().map(|f| f.end()).max().unwrap_or(0)`.
max_end : List FixedWidthField → ℕ
max_end [] = 0
max_end (f ∷ fs) = max (end f) (max_end fs)

unfoldable pub min_row_width : FixedWidthLayout → ℕ
unfolding max_end
min_row_width layout = max_end layout.fields

unfoldable pub spans_overlap : FixedWidthField → FixedWidthField → Bool
spans_overlap a b = ltb a.start (end b) && ltb b.start (end a)

-- The messages of `validate`, with the fields that they name.
pub data LayoutError : Type 0 where
  no_fields : LayoutError
  zero_length : FixedWidthField → LayoutError
  overlapping : FixedWidthField → FixedWidthField → LayoutError
  unrecognised_type : FixedWidthField → TypeError → LayoutError

-- "Each field's length must be positive."
unfoldable pub check_lengths : List FixedWidthField → Result LayoutError (Unit {0})
check_lengths [] = ok tt
check_lengths (f ∷ fs) =
    let rest = check_lengths fs in if f.length == 0 then err (zero_length f) else rest

-- The inner loop of "No two fields may overlap": one field against the later ones.
unfoldable pub check_against :
    FixedWidthField → List FixedWidthField → Result LayoutError (Unit {0})
check_against a [] = ok tt
check_against a (b ∷ fs) =
    let rest = check_against a fs in if spans_overlap a b then err (overlapping a b) else rest

unfoldable pub check_overlaps : List FixedWidthField → Result LayoutError (Unit {0})
check_overlaps [] = ok tt
check_overlaps (f ∷ fs) = check_against f fs >> check_overlaps fs

module _ (to_uppercase : String → String) where
  abbrev pub arrow_field : FixedWidthField → Result LayoutError Field
  arrow_field f = map_err (unrecognised_type f) (sql_type_to_arrow to_uppercase f.sql_type) >>= λ t.
      ok (record { name = f.name; data_type = t; nullable = f.nullable })

  unfoldable pub arrow_schema : FixedWidthLayout → Result LayoutError (List Field)
  arrow_schema layout = sequence (map arrow_field layout.fields)

  unfoldable pub validate_fields : List FixedWidthField → Result LayoutError (Unit {0})
  validate_fields [] = err no_fields
  validate_fields (f ∷ fs) =
      check_lengths (f ∷ fs)
      >> check_overlaps (f ∷ fs)
      >> arrow_schema (record { fields = f ∷ fs })
      >> ok tt

  unfoldable pub validate : FixedWidthLayout → Result LayoutError (Unit {0})
  validate layout = validate_fields layout.fields
