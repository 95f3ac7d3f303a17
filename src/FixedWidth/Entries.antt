-- ===== src/FixedWidth/Entries.antt =====
-- What a field of a fixed-width file means for one line, beside the column that `build_column` of
-- `qsql-core/src/fixed_width.rs` builds from all the lines.
use Prim.Native.String.{len, [], ◌∷◌}
use quiver_sql.Base.{
  ℕ, ◌-◌, ◌^◌, true, false, Bool, not, ◌||◌, ◌&&◌, String, List, [] as nil, ◌∷◌ as cons, Option,
  none, some, ltb, leb, any, if◌then◌else◌, Bool-cases, Option-cases, str_eq, eq_iff, inl, inr,
  arith, ◌≡◌, refl, ap, ◌∙◌,
}
use quiver_sql.SqlTypes.{
  DataType, boolean, int8, int16, int32, int64, uint8, uint16, uint32, uint64, float32, float64,
  date32, time64, timestamp, duration, binary, utf8,
}
use quiver_sql.SqlTypes.Text as Str
use quiver_sql.FixedWidth.{FixedWidthField, end}
use quiver_sql.FixedWidth.Values.{parse_integer, lower_is}
use quiver_sql.FixedWidth.Columns.{
  from_utf8, is_utf8, null_or_value, decoded, slice_line, supported, parse_boolean, Cell, chars,
  truth, integer, single, real, cell_of, parse_as, coerce, build_column,
}
use quiver_sql.FixedWidth.Rows.{value, and_then, each, slices_then_values}

-- The bytes of the field, for a line that reaches to its end, as a text.
unfoldable pub field_text : FixedWidthField → String → Option String
field_text f line =
    if leb (end f) (len line) && leb f.start (end f) then from_utf8 line f.start (end f) else none

-- Whether the blanks around a text belong to it.
abbrev pub keeps_blanks : FixedWidthField → DataType → Bool
keeps_blanks f utf8 = not f.trim
keeps_blanks f _ = false

-- One of the words, whatever the case of its letters.
unfoldable pub word : Bool → List String → String → Option Bool → Option Bool
word b nil v otherwise = otherwise
word b (cons w ws) v otherwise = if lower_is v w then some b else word b ws v otherwise

module _ {F32 F64 : Type 0} (parse_f32 : String → Option F32)
    (parse_f64 : String → Option F64) where
  abbrev pub signed : ℕ → String → Option (Cell parse_f32 parse_f64)
  signed bits v =
      cell_of parse_f32 parse_f64 integer
        (parse_integer (2 ^ (bits - 1) - 1) (2 ^ (bits - 1)) true v)

  abbrev pub unsigned : ℕ → String → Option (Cell parse_f32 parse_f64)
  unsigned bits v = cell_of parse_f32 parse_f64 integer (parse_integer (2 ^ bits - 1) 0 false v)

  -- The value of a text that is not empty.
  unfoldable pub value_of : DataType → String → Option (Cell parse_f32 parse_f64)
  value_of utf8 v = some (chars v)
  value_of boolean v = cell_of parse_f32 parse_f64 truth (
      word true (cons "true" (cons "t" (cons "1" (cons "y" (cons "yes" nil))))) v
        (word false (cons "false" (cons "f" (cons "0" (cons "n" (cons "no" nil))))) v none))
  value_of int8 v = signed 8 v
  value_of int16 v = signed 16 v
  value_of int32 v = signed 32 v
  value_of int64 v = signed 64 v
  value_of uint8 v = unsigned 8 v
  value_of uint16 v = unsigned 16 v
  value_of uint32 v = unsigned 32 v
  value_of uint64 v = unsigned 64 v
  value_of float32 v = cell_of parse_f32 parse_f64 single (parse_f32 v)
  value_of float64 v = cell_of parse_f32 parse_f64 real (parse_f64 v)
  value_of _ v = none

  -- An empty text is null where the field may be null, and no entry otherwise.
  unfoldable pub entry :
      FixedWidthField → DataType → String → Option (Option (Cell parse_f32 parse_f64))
  entry f t [] = if f.nullable then some none else none
  entry f t (c ∷ s) = and_then (value_of t (c ∷ s)) (λ v. some (some v))

  -- What the line holds in the field; none if it is not well formed there.
  unfoldable pub cell :
      FixedWidthField → DataType → String → Option (Option (Cell parse_f32 parse_f64))
  cell f t line =
      and_then (field_text f line) (λ s. entry f t (if keeps_blanks f t then s else Str.trim s))

  word-any :
      (b : Bool) (ws : List String) (v : String) (otherwise : Option Bool)
      → word b ws v otherwise ≡ (if any (lower_is v) ws then some b else otherwise)
  unfolding word
  word-any b nil v otherwise = refl
  word-any b (cons w ws) v otherwise = elim (Bool-cases (lower_is v w)) [
    | inl h ↦ rw h refl
    | inr h ↦ rw h (word-any b ws v otherwise)
  ]

  parse_as-value_of : (t : DataType) (v : String) → parse_as parse_f32 parse_f64 t v ≡ value_of t v
  unfolding parse_as value_of parse_boolean
  parse_as-value_of utf8 v = refl
  parse_as-value_of boolean v = rw (word-any true _ v _, word-any false _ v none) refl
  parse_as-value_of int8 v = refl
  parse_as-value_of int16 v = refl
  parse_as-value_of int32 v = refl
  parse_as-value_of int64 v = refl
  parse_as-value_of uint8 v = refl
  parse_as-value_of uint16 v = refl
  parse_as-value_of uint32 v = refl
  parse_as-value_of uint64 v = refl
  parse_as-value_of float32 v = refl
  parse_as-value_of float64 v = refl
  parse_as-value_of date32 v = refl
  parse_as-value_of time64 v = refl
  parse_as-value_of (timestamp tz) v = refl
  parse_as-value_of duration v = refl
  parse_as-value_of binary v = refl

  coerced :
      (f : FixedWidthField) (t : DataType) (v : String)
      → value (coerce parse_f32 parse_f64 f t 0 (some v))
        ≡ and_then (value_of t v) (λ c. some (some c))
  unfolding coerce
  coerced f t v =
      rw (parse_as-value_of t v)
        (elim (Option-cases (value_of t v)) [ inl e ↦ rw e refl | inr (c, e) ↦ rw e refl ])

  null_stays :
      (f : FixedWidthField) (t : DataType)
      → value (coerce parse_f32 parse_f64 f t 0 none) ≡ some none
  unfolding coerce
  null_stays f t = refl

  entry-met :
      (f : FixedWidthField) (t : DataType) (s : String)
      → and_then (value (null_or_value f 0 s)) (λ o. value (coerce parse_f32 parse_f64 f t 0 o))
        ≡ entry f t s
  unfolding null_or_value entry
  entry-met f t [] = elim (Bool-cases f.nullable) [
    | inl h ↦ rw h (null_stays _ t)
    | inr h ↦ rw h refl
  ]
  entry-met f t (c ∷ s) = elim (Bool-cases (str_eq (c ∷ s) "")) [
    | inl h ↦ let empty : (c ∷ s) ≡ "" = (eq_iff (c ∷ s) "").0 h in absurd cc
    | inr h ↦ rw h (coerced f t (c ∷ s))
  ]

  or_true : (b : Bool) → true ≡ (b || true)
  or_true true = refl
  or_true false = refl

  trimmed :
      (f : FixedWidthField) (t : DataType) → not (keeps_blanks f t) ≡ (f.trim || not (is_utf8 t))
  trimmed f utf8 = ground arith
  trimmed f boolean = or_true f.trim
  trimmed f int8 = or_true f.trim
  trimmed f int16 = or_true f.trim
  trimmed f int32 = or_true f.trim
  trimmed f int64 = or_true f.trim
  trimmed f uint8 = or_true f.trim
  trimmed f uint16 = or_true f.trim
  trimmed f uint32 = or_true f.trim
  trimmed f uint64 = or_true f.trim
  trimmed f float32 = or_true f.trim
  trimmed f float64 = or_true f.trim
  trimmed f date32 = or_true f.trim
  trimmed f time64 = or_true f.trim
  trimmed f (timestamp tz) = or_true f.trim
  trimmed f duration = or_true f.trim
  trimmed f binary = or_true f.trim

  decoded-met :
      (f : FixedWidthField) (t : DataType) (o : Option String)
      → and_then (value (decoded f t 0 o)) (λ s. value (coerce parse_f32 parse_f64 f t 0 s))
        ≡ and_then o (λ s. entry f t (if keeps_blanks f t then s else Str.trim s))
  decoded-met f t none = refl
  decoded-met f t (some s) =
      entry-met f t (if f.trim || not (is_utf8 t) then Str.trim s else s)
      ∙ ap (entry f t) (ground (arith, trimmed f t))

  cell-met :
      (f : FixedWidthField) (t : DataType) (line : String)
      → and_then (value (slice_line f t 0 line)) (λ s. value (coerce parse_f32 parse_f64 f t 0 s))
        ≡ cell f t line
  unfolding slice_line cell field_text
  cell-met f t line = elim (Bool-cases (ltb (len line) (end f))) [
    | inl short ↦
        let outside : leb (end f) (len line) ≡ false = ground arith in rw (short, outside) refl
    | inr long ↦
        let reaches : leb (end f) (len line) ≡ true = ground arith in
        rw (long, reaches)
          (elim (Bool-cases (ltb (end f) f.start)) [
            | inl wrapped ↦
                let backwards : leb f.start (end f) ≡ false = ground arith in
                rw (wrapped, backwards) refl
            | inr fits ↦
                let forwards : leb f.start (end f) ≡ true = ground arith in
                rw (fits, forwards) (decoded-met f t (from_utf8 line f.start (end f)))
          ])
  ]

  each-same :
      {A B : Type 0} (g h : A → Option B) (xs : List A)
      → ((x : A) → g x ≡ h x)
      → each g xs ≡ each h xs
  each-same g h nil same = refl
  each-same g h (cons x xs) same = rw (same x, each-same g h xs same) refl

  -- For a type that the parser supports, the column that is built from lines holds what each line
  -- holds in the field, in order, and there is no column just when some line is not well formed
  -- there; the index of the first row plays no part in it.
  pub value-build_column :
      (lines : List String) (f : FixedWidthField) (t : DataType) (row : ℕ)
      → supported t ≡ true
      → value (build_column parse_f32 parse_f64 lines f t row) ≡ each (cell f t) lines
  value-build_column lines f t row h =
      slices_then_values parse_f32 parse_f64 lines f t row h ∙ each-same _ _ lines (cell-met f t)
