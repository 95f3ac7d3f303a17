-- ===== src/Explain/Substrings.antt =====
-- What the searches of texts of qsql-daemon/src/explain.rs find: parts of a text.
use Prim.Native.Char.{code}
use Prim.Native.String.{[], ◌∷◌, ◌++◌}
use Prim.Native.String.append as Append
use text.Mathlib.TextEquality.{Char-path}
use quiver_sql.Base.{String, true, arith, ◌==◌, ◌≡◌, refl, sym, ap, ◌∙◌, ◌↔◌, inl, inr, Bool-cases}
use quiver_sql.Explain.Texts.{starts_with, contains_text}

-- A text has another text in it, somewhere.
abbrev pub Contains : String → String → Type 0
Contains s part = (before : String) × (after : String) × (s ≡ before ++ (part ++ after))

starts_with-append : (part after : String) → starts_with part (part ++ after) ≡ true
unfolding starts_with
starts_with-append [] after = refl
starts_with-append (p ∷ ps) after =
    let same : (code p == code p) ≡ true = ground arith in
    rw (Append.cons p ps after, same) (starts_with-append ps after)

starts_with-rest :
    (part s : String) → starts_with part s ≡ true → (after : String) × (s ≡ part ++ after)
unfolding starts_with
starts_with-rest [] s h = (s, sym (Append.nil s))
starts_with-rest (p ∷ ps) [] h = absurd cc
starts_with-rest (p ∷ ps) (c ∷ s) h =
    let first : code p ≡ code c = ground arith in
    let others : starts_with ps s ≡ true = ground arith in
    let (after, rest) = starts_with-rest ps s others in
    (
      after,
      ap (λ x. x ∷ s) (sym (Char-path p c first))
          ∙ ap (λ t. p ∷ t) rest
          ∙ sym (Append.cons p ps after),
    )

contains_text-start : (s part : String) → starts_with part s ≡ true → contains_text s part ≡ true
unfolding contains_text
contains_text-start [] part h = h
contains_text-start (c ∷ s) part h = rw h refl

contains_text-within :
    (before part after : String) → contains_text (before ++ (part ++ after)) part ≡ true
unfolding contains_text
contains_text-within [] part after =
    rw (Append.nil (part ++ after))
      (contains_text-start (part ++ after) part (starts_with-append part after))
contains_text-within (c ∷ before) part after =
    let rest = contains_text-within before part after in
    rw (Append.cons c before (part ++ after)) (ground arith)

contains_text-Contains : (s part : String) → contains_text s part ≡ true → Contains s part
unfolding contains_text
contains_text-Contains [] part h =
    let (after, e) = starts_with-rest part [] h in ([], after, e ∙ sym (Append.nil (part ++ after)))
contains_text-Contains (c ∷ s) part h = elim (Bool-cases (starts_with part (c ∷ s))) [
  | inl now ↦
      let (after, e) = starts_with-rest part (c ∷ s) now in
      ([], after, e ∙ sym (Append.nil (part ++ after)))
  | inr not_now ↦
      let later : contains_text s part ≡ true = ground arith in
      let (before, after, e) = contains_text-Contains s part later in
      (c ∷ before, after, ap (λ t. c ∷ t) e ∙ sym (Append.cons c before (part ++ after)))
]

pub contains_text_iff : (s part : String) → (contains_text s part ≡ true) ↔ Contains s part
contains_text_iff s part = (
  contains_text-Contains s part,
  (λ (before, after, e). ap (λ t. contains_text t part) e ∙ contains_text-within before part after),
)
