-- ===== src/FixedWidth/Layouts.antt =====
-- `validate` of `qsql-core/src/fixed_width.rs`: exactly which layouts load.
use quiver_sql.Base.{
  String, List, [], ◌∷◌, Result, ok, err, ◌>>=◌, ◌>>◌, IsOk, All, ◌==◌, ==_iff, Bool-cases, inl,
  inr, arith, ◌≢◌, ◌↔◌, refl, sequence, map, map_err,
}
use quiver_sql.SqlTypes.{DataType, TypeError, sql_type_to_arrow}
use quiver_sql.FixedWidth.{
  FixedWidthField, FixedWidthLayout, spans_overlap, check_lengths, check_against, check_overlaps,
  LayoutError, unrecognised_type, arrow_field, arrow_schema, validate_fields, validate,
}
use quiver_sql.FixedWidth.Spans.{
  Disjoint, Pairwise, Fits, Positive, spans_overlap-Disjoint, Disjoint-spans_overlap,
}

bind_iff : {E A B : Type 0} (m : Result E A) (k : Result E B) → IsOk (m >> k) ↔ (IsOk m × IsOk k)
bind_iff (ok a) k = ((λ h. (tt, h)), (λ h. h.1))
bind_iff (err e) k = ((λ h. absurd h), (λ h. absurd h.0))

check_lengths_iff : (fs : List FixedWidthField) → IsOk (check_lengths fs) ↔ All Positive fs
unfolding check_lengths
check_lengths_iff [] = ((λ h. h), (λ h. h))
check_lengths_iff (f ∷ fs) = elim (Bool-cases (f.length == 0)) [
  | inl e ↦
      let z = (==_iff f.length 0).0 e in
      rw e ((λ h. absurd h), (λ h. let p = h.0 in absurd (omega arith)))
  | inr e ↦
      let rest = check_lengths_iff fs in rw e ((λ h. (ground arith, rest.0 h)), (λ h. rest.1 h.1))
]

check_against_iff :
    (a : FixedWidthField) (fs : List FixedWidthField)
    → Fits a
    → Positive a
    → All Fits fs
    → All Positive fs
    → IsOk (check_against a fs) ↔ All (Disjoint a) fs
unfolding check_against
check_against_iff a [] ha pa hs ps = ((λ h. h), (λ h. h))
check_against_iff a (b ∷ fs) ha pa hs ps =
    let rest = check_against_iff a fs ha pa hs.1 ps.1 in
    elim (Bool-cases (spans_overlap a b)) [
      | inl e ↦
          rw e
            ((λ h. absurd h), (λ h. let f = Disjoint-spans_overlap a b ha hs.0 pa ps.0 h.0 in cc))
      | inr e ↦ rw e ((λ h. (spans_overlap-Disjoint a b ha hs.0 e, rest.0 h)), (λ h. rest.1 h.1))
    ]

check_overlaps_iff :
    (fs : List FixedWidthField)
    → All Fits fs
    → All Positive fs
    → IsOk (check_overlaps fs) ↔ Pairwise Disjoint fs
unfolding check_overlaps
check_overlaps_iff [] hs ps = ((λ h. h), (λ h. h))
check_overlaps_iff (f ∷ fs) hs ps =
    let first = check_against_iff f fs hs.0 ps.0 hs.1 ps.1 in
    let rest = check_overlaps_iff fs hs.1 ps.1 in
    let both = bind_iff (check_against f fs) (check_overlaps fs) in
    ((λ h. (first.0 (both.0 h).0, rest.0 (both.0 h).1)), (λ h. both.1 (first.1 h.0, rest.1 h.1)))

cons_iff : {E A : Type 0} (a : A) (r : Result E (List A)) → IsOk (r >>= λ l. ok (a ∷ l)) ↔ IsOk r
cons_iff a (ok l) = ((λ h. h), (λ h. h))
cons_iff a (err e) = ((λ h. h), (λ h. h))

sequence_iff : {E A : Type 0} (rs : List (Result E A)) → IsOk (sequence rs) ↔ All IsOk rs
sequence_iff [] = ((λ h. h), (λ h. h))
sequence_iff (err e ∷ rs) = ((λ h. absurd h), (λ h. absurd h.0))
sequence_iff (ok a ∷ rs) =
    let rest = sequence_iff rs in
    let tail = cons_iff a (sequence rs) in
    ((λ h. (tt, rest.0 (tail.0 h))), (λ h. tail.1 (rest.1 h.1)))

abbrev done : Unit {0} → Result LayoutError (Unit {0})
done u = ok u

module _ (to_uppercase : String → String) where
  -- The type of the field is known.
  abbrev pub Typed : FixedWidthField → Type 0
  Typed f = IsOk (sql_type_to_arrow to_uppercase f.sql_type)

  typed_iff :
      {A : Type 0} (f : FixedWidthField) (r : Result TypeError DataType) (k : DataType → A)
      → IsOk (map_err (unrecognised_type f) r >>= λ t. ok (k t)) ↔ IsOk r
  typed_iff f (ok t) k = ((λ h. h), (λ h. h))
  typed_iff f (err e) k = ((λ h. h), (λ h. h))

  fields_iff :
      (fs : List FixedWidthField) → All IsOk (map (arrow_field to_uppercase) fs) ↔ All Typed fs
  fields_iff [] = ((λ h. h), (λ h. h))
  fields_iff (f ∷ fs) =
      let rest = fields_iff fs in
      let first =
        typed_iff f (sql_type_to_arrow to_uppercase f.sql_type)
          (λ t. record { name = f.name; data_type = t; nullable = f.nullable }) in
      ((λ h. (first.0 h.0, rest.0 h.1)), (λ h. (first.1 h.0, rest.1 h.1)))

  -- What a layout has to be: it has a field, every field has a byte, no two fields share a byte, and
  -- every type name is known.
  abbrev pub Valid : List FixedWidthField → Type 0
  Valid fs = (fs ≢ []) × All Positive fs × Pairwise Disjoint fs × All Typed fs

  validate_fields_iff :
      (fs : List FixedWidthField) → All Fits fs → IsOk (validate_fields to_uppercase fs) ↔ Valid fs
  unfolding validate_fields arrow_schema
  validate_fields_iff [] hs = ((λ h. absurd h), (λ h. absurd (h.0 refl)))
  validate_fields_iff (f ∷ fs) hs =
      let all = f ∷ fs in
      let lengths = check_lengths_iff all in
      let entries = map (arrow_field to_uppercase) all in
      let typed = sequence_iff entries in
      let fields = fields_iff all in
      let two = bind_iff (check_lengths all) (check_overlaps all) in
      let three = bind_iff (check_lengths all >> check_overlaps all) (sequence entries) in
      let four = bind_iff (check_lengths all >> check_overlaps all >> sequence entries) (done tt) in
      (
        (λ h.
            let (checks, types) = three.0 (four.0 h).0 in
            let (sizes, spans) = two.0 checks in
            let positive = lengths.0 sizes in
            (
              (λ e. cc),
              positive,
              (check_overlaps_iff all hs positive).0 spans,
              fields.0 (typed.0 types),
            )),
        (λ h.
            let (some_field, positive, disjoint, types) = h in
            let spans = (check_overlaps_iff all hs positive).1 disjoint in
            four.1 (three.1 (two.1 (lengths.1 positive, spans), typed.1 (fields.1 types)), tt)),
      )

  -- A layout whose fields end below 2^64 loads if and only if it is valid.
  pub validate_iff :
      (layout : FixedWidthLayout)
      → All Fits layout.fields
      → IsOk (validate to_uppercase layout) ↔ Valid layout.fields
  unfolding validate
  validate_iff layout hs = validate_fields_iff layout.fields hs
