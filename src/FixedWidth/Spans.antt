-- ===== src/FixedWidth/Spans.antt =====
-- What `validate` of `qsql-core/src/fixed_width.rs` admits: fields that share no byte.
use quiver_sql.Base.{
  ℕ, ◌+◌, ◌^◌, ◌≤◌, ◌<◌, max, false, List, [], ◌∷◌, All, ltb, Bool-cases, inl, inr, arith, ◌≡◌,
  refl, ltb→lt, lt→ltb,
}
use quiver_sql.FixedWidth.{FixedWidthField, end, spans_overlap}

-- The byte at a position belongs to the field.
abbrev pub Covers : FixedWidthField → ℕ → Type 0
Covers f p = (f.start ≤ p) × (p < f.start + f.length)

abbrev pub Disjoint : FixedWidthField → FixedWidthField → Type 0
Disjoint a b = (p : ℕ) → Covers a p → Covers b p → ⊥

-- Every two fields, the earlier first.
abbrev pub Pairwise : (FixedWidthField → FixedWidthField → Type 0) → List FixedWidthField → Type 0
Pairwise R [] = Unit
Pairwise R (f ∷ fs) = All (R f) fs × Pairwise R fs

-- The field ends below 2^64.
abbrev pub Fits : FixedWidthField → Type 0
Fits f = f.start + f.length < 2 ^ 64

abbrev pub Positive : FixedWidthField → Type 0
Positive f = 0 < f.length

end-Fits : (f : FixedWidthField) → Fits f → end f ≡ f.start + f.length
unfolding end
end-Fits f h = omega arith

pub spans_overlap-Disjoint :
    (a b : FixedWidthField) → Fits a → Fits b → spans_overlap a b ≡ false → Disjoint a b
unfolding spans_overlap
spans_overlap-Disjoint a b ha hb =
    let ea = end-Fits a ha in
    let eb = end-Fits b hb in
    rw (ea, eb)
      (λ e p ca cb.
        let (al, ar) = ca in
        let (bl, br) = cb in
        let x = lt→ltb a.start (b.start + b.length) (omega arith) in
        let y = lt→ltb b.start (a.start + a.length) (omega arith) in cc)

pub Disjoint-spans_overlap :
    (a b : FixedWidthField)
    → Fits a
    → Fits b
    → Positive a
    → Positive b
    → Disjoint a b
    → spans_overlap a b ≡ false
unfolding spans_overlap
Disjoint-spans_overlap a b ha hb pa pb d =
    let ea = end-Fits a ha in
    let eb = end-Fits b hb in
    rw (ea, eb)
      (elim (Bool-cases (ltb a.start (b.start + b.length))) [
        | inr e ↦ rw e refl
        | inl e ↦ rw e (elim (Bool-cases (ltb b.start (a.start + a.length))) [
          | inr e2 ↦ e2
          | inl e2 ↦
              let x = ltb→lt a.start (b.start + b.length) e in
              let y = ltb→lt b.start (a.start + a.length) e2 in
              absurd (d (max a.start b.start) (omega arith, omega arith) (omega arith, omega arith))
        ])
      ])
