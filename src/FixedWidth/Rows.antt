-- ===== src/FixedWidth/Rows.antt =====
-- A column of `build_column` (`qsql-core/src/fixed_width.rs`) line by line: the two passes over the
-- lines, first for the slices and then for the values, against one pass.
use quiver_sql.Base.{
  ℕ, suc, true, not, ◌||◌, String, List, [], ◌∷◌, Option, none, some, Result, ok, err, ◌>>=◌, ltb,
  if◌then◌else◌, Bool-cases, Option-cases, str_eq, inl, inr, ◌≡◌, refl, ◌∙◌,
}
use Prim.Native.String.{len}
use quiver_sql.SqlTypes.{DataType}
use quiver_sql.SqlTypes.Text as Str
use quiver_sql.FixedWidth.{FixedWidthField, end}
use quiver_sql.FixedWidth.Columns.{
  FixedWidthError, is_utf8, from_utf8, null_or_value, decoded, slice_line, for_rows, supported,
  coerce, coerce_all, parse_as, build_column,
}

-- Whether there is a value, and which: the error is forgotten.
abbrev pub value : {A : Type 0} → Result FixedWidthError A → Option A
value (ok a) = some a
value (err e) = none

abbrev pub and_then : {A B : Type 0} → Option A → (A → Option B) → Option B
and_then none f = none
and_then (some a) f = f a

-- All the values, if each is there.
abbrev pub each : {A B : Type 0} → (A → Option B) → List A → Option (List B)
each f [] = some []
each f (x ∷ xs) = and_then (f x) (λ y. and_then (each f xs) (λ ys. some (y ∷ ys)))

-- A body whose value does not depend on the row index.
abbrev Uniform : {A B : Type 0} → (ℕ → A → Result FixedWidthError B) → Type 0
Uniform {A} body = (row : ℕ) (x : A) → value (body row x) ≡ value (body 0 x)

value-bind :
    {A B : Type 0} (m : Result FixedWidthError A) (k : A → Result FixedWidthError B)
    → value (m >>= k) ≡ and_then (value m) (λ a. value (k a))
value-bind (ok a) k = refl
value-bind (err e) k = refl

value-step :
    {B : Type 0} (m : Result FixedWidthError B) (r : Result FixedWidthError (List B))
    → value (m >>= λ y. r >>= λ ys. ok (y ∷ ys))
      ≡ and_then (value m) (λ y. and_then (value r) (λ ys. some (y ∷ ys)))
value-step (ok y) (ok ys) = refl
value-step (ok y) (err e) = refl
value-step (err e) r = refl

module _ {A B : Type 0} where
  value-for_rows :
      (body : ℕ → A → Result FixedWidthError B) (row : ℕ) (xs : List A)
      → Uniform body
      → value (for_rows body row xs) ≡ each (λ x. value (body 0 x)) xs
  unfolding for_rows
  value-for_rows body row [] u = refl
  value-for_rows body row (x ∷ xs) u =
      rw
        (
          value-step (body row x) (for_rows body (suc row) xs),
          u row x,
          value-for_rows body (suc row) xs u,
        )
        refl

module _ {A B C : Type 0} (f : A → Option B) (g : B → Option C) where
  abbrev nowhere : C → Option (List C)
  nowhere y = none

  and_then-none : (o : Option C) → none ≡ and_then o nowhere
  and_then-none none = refl
  and_then-none (some y) = refl

  each-step :
      (o : Option B) (m : Option (List B))
      → and_then (and_then o (λ y. and_then m (λ ys. some (y ∷ ys)))) (each g)
        ≡ and_then (and_then o g) (λ y. and_then (and_then m (each g)) (λ ys. some (y ∷ ys)))
  each-step none m = refl
  each-step (some y) none = and_then-none (g y)
  each-step (some y) (some ys) = refl

  each-each : (xs : List A) → and_then (each f xs) (each g) ≡ each (λ x. and_then (f x) g) xs
  each-each [] = refl
  each-each (x ∷ xs) = rw (each-step (f x) (each f xs), each-each xs) refl

null_or_value-uniform :
    (f : FixedWidthField) (row : ℕ) (s : String)
    → value (null_or_value f row s) ≡ value (null_or_value f 0 s)
unfolding null_or_value
null_or_value-uniform f row s = elim (Bool-cases (str_eq s "")) [
  | inl empty ↦ rw empty (elim (Bool-cases f.nullable) [
    | inl nullable ↦ rw nullable refl
    | inr required ↦ rw required refl
  ])
  | inr full ↦ rw full refl
]

decoded-uniform :
    (f : FixedWidthField) (t : DataType) (row : ℕ) (o : Option String)
    → value (decoded f t row o) ≡ value (decoded f t 0 o)
decoded-uniform f t row none = refl
decoded-uniform f t row (some s) =
    null_or_value-uniform f row (if f.trim || not (is_utf8 t) then Str.trim s else s)

slice_line-Uniform : (f : FixedWidthField) (t : DataType) → Uniform (slice_line f t)
unfolding slice_line
slice_line-Uniform f t row line = elim (Bool-cases (ltb (len line) (end f))) [
  | inl short ↦ rw short refl
  | inr long ↦ rw long (elim (Bool-cases (ltb (end f) f.start)) [
    | inl wrapped ↦ rw wrapped refl
    | inr fits ↦ rw fits (decoded-uniform f t row (from_utf8 line f.start (end f)))
  ])
]

module _ {F32 F64 : Type 0} (parse_f32 : String → Option F32)
    (parse_f64 : String → Option F64) where
  coerce-Uniform : (f : FixedWidthField) (t : DataType) → Uniform (coerce parse_f32 parse_f64 f t)
  unfolding coerce
  coerce-Uniform f t row none = refl
  coerce-Uniform f t row (some v) = elim (Option-cases (parse_as parse_f32 parse_f64 t v)) [
    | inl e ↦ rw e refl
    | inr (c, e) ↦ rw e refl
  ]

  -- One pass: for each line its slice, and then the value of the slice.
  pub slices_then_values :
      (lines : List String) (f : FixedWidthField) (t : DataType) (row : ℕ)
      → supported t ≡ true
      → value (build_column parse_f32 parse_f64 lines f t row)
        ≡ each
            (λ line.
              and_then
                (value (slice_line f t 0 line))
                (λ s. value (coerce parse_f32 parse_f64 f t 0 s)))
            lines
  unfolding build_column coerce_all
  slices_then_values lines f t row h =
      rw
        (
          h,
          value-bind (for_rows (slice_line f t) row lines)
              (for_rows (coerce parse_f32 parse_f64 f t) row),
          value-for_rows (slice_line f t) row lines (slice_line-Uniform f t),
        )
        (funext-coerce (each (λ x. value (slice_line f t 0 x)) lines)
          ∙ each-each (λ x. value (slice_line f t 0 x))
              (λ s. value (coerce parse_f32 parse_f64 f t 0 s)) lines)
    where
      funext-coerce :
          (o : Option (List (Option String)))
          → and_then o (λ ss. value (for_rows (coerce parse_f32 parse_f64 f t) row ss))
            ≡ and_then o (each (λ s. value (coerce parse_f32 parse_f64 f t 0 s)))
      funext-coerce none = refl
      funext-coerce (some ss) =
          value-for_rows (coerce parse_f32 parse_f64 f t) row ss (coerce-Uniform f t)
