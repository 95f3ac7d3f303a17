-- ===== src/Broadcast/Values.antt =====
-- The values that `collect_distinct_scalars` of qsql-core/src/broadcast.rs keeps.
use quiver_sql.Base.{
  ◌+◌, ◌≤◌, String, Bool, true, false, ◌||◌, List, [], ◌∷◌, ◌++◌, length, length-append, any, All,
  All-append, Result, ok, err, ◌>>=◌, str_eq, eq_iff, eq_refl, if◌then◌else◌, if_elim, inl, inr,
  ◌⊎◌, arith, ◌≡◌, refl, sym, ap, ◌∙◌,
}
use mathlib.Core.Path.{subst}
use quiver_sql.Broadcast.{DataFusion, KeyType}
use quiver_sql.Broadcast.Keys.{
  KeyBatch, Planner, same_type, Distinct, collect_scalar, collect_rows, collect_batches,
  collect_distinct_scalars,
}
use quiver_sql.Broadcast.Meaning.{Among, all_keys}

or_true : (a : Bool) {b : Bool} → a || b ≡ true → (a ≡ true) ⊎ (b ≡ true)
or_true true h = inl refl
or_true false h = inr h

or_right : (a : Bool) {b : Bool} → b ≡ true → a || b ≡ true
or_right true h = refl
or_right false h = h

bind_assoc :
    {A B C : Type 0} (m : Result String A) (f : A → Result String B) (g : B → Result String C)
    (h : A → Result String C)
    → ((a : A) → h a ≡ (f a >>= g))
    → (m >>= h) ≡ ((m >>= f) >>= g)
bind_assoc (err e) f g h k = refl
bind_assoc (ok a) f g h k = k a

bind_cong :
    {A B : Type 0} (m : Result String A) {f g : A → Result String B}
    → ((a : A) → f a ≡ g a)
    → (m >>= f) ≡ (m >>= g)
bind_cong (err e) k = refl
bind_cong (ok a) k = k a

module _ (d : DataFusion) (planner : Planner d) where
  open d use {Scalar}
  open planner use {data_type, is_null, debug}

  -- `Debug` shows all of a scalar.
  abbrev pub DebugInjective : Type 0
  DebugInjective = (s t : Scalar) → debug s ≡ debug t → s ≡ t

  abbrev pub Seen : Scalar → List String → Type 0
  Seen s seen = any (str_eq (debug s)) seen ≡ true

  -- Every scalar seen that is not null is kept, none that is null, and no more than were seen.
  abbrev pub Keeps : Distinct d planner → Type 0
  Keeps (out, seen) =
      ((s : Scalar) → Seen s seen → is_null s ≡ false → Among s out)
      × All (λ s. is_null s ≡ false) out

  -- What some scalars add.
  abbrev pub Adds : List Scalar → Distinct d planner → Result String (Distinct d planner) → Type 0
  Adds xs c (err e) = Unit
  Adds xs (out, seen) (ok (out', seen')) =
      Keeps (out', seen')
      × ((s : Scalar) → Among s xs → Seen s seen')
      × ((s : Scalar) → Seen s seen → Seen s seen')
      × (length out' ≤ length out + length xs)

  Among-append_left : (s : Scalar) (xs ys : List Scalar) → Among s xs → Among s (xs ++ ys)
  Among-append_left s [] ys h = absurd h
  Among-append_left s (x ∷ xs) ys (inl e) = inl e
  Among-append_left s (x ∷ xs) ys (inr h) = inr (Among-append_left s xs ys h)

  Among-last : (s : Scalar) (xs : List Scalar) → Among s (xs ++ s ∷ [])
  Among-last s [] = inl refl
  Among-last s (x ∷ xs) = inr (Among-last s xs)

  Seen-cons :
      (s t : Scalar) (seen : List String)
      → Seen s (debug t ∷ seen)
      → (debug s ≡ debug t) ⊎ Seen s seen
  Seen-cons s t seen h = elim (or_true (str_eq (debug s) (debug t)) h) [
    | inl e ↦ inl ((eq_iff (debug s) (debug t)).0 e)
    | inr e ↦ inr e
  ]

  Seen-later : (s t : Scalar) (seen : List String) → Seen s seen → Seen s (debug t ∷ seen)
  Seen-later s t seen h = or_right (str_eq (debug s) (debug t)) h

  Seen-first : (t : Scalar) (seen : List String) → Seen t (debug t ∷ seen)
  Seen-first t seen = rw (eq_refl (debug t)) refl

  module _ (inj : DebugInjective) (ty : KeyType) where
    -- A scalar that is kept, unless it is null.
    kept-Adds :
        (s : Scalar) (out : List Scalar) (seen : List String)
        → Keeps (out, seen)
        → (b : Bool) → is_null s ≡ b
        → Adds (s ∷ []) (out, seen) (ok (if b then out else out ++ s ∷ [], debug s ∷ seen))
    kept-Adds s out seen (covers, clean) true null = (
      (
        (λ t h visible. elim (Seen-cons t s seen h) [
          | inl e ↦ let same : is_null t ≡ is_null s = ap is_null (inj t s e) in cc
          | inr old ↦ covers t old visible
        ]),
        clean,
      ),
      (λ t among. elim among [
        | inl e ↦ subst (λ k. Seen k (debug s ∷ seen)) (sym e) (Seen-first s seen)
        | inr none_else ↦ absurd none_else
      ]),
      (λ t h. Seen-later t s seen h),
      omega arith,
    )
    kept-Adds s out seen (covers, clean) false visible = (
      (
        (λ t h shown. elim (Seen-cons t s seen h) [
          | inl e ↦ subst (λ k. Among k (out ++ s ∷ [])) (sym (inj t s e)) (Among-last s out)
          | inr old ↦ Among-append_left t out (s ∷ []) (covers t old shown)
        ]),
        All-append (λ k. is_null k ≡ false) out (s ∷ []) clean (visible, tt),
      ),
      (λ t among. elim among [
        | inl e ↦ subst (λ k. Seen k (debug s ∷ seen)) (sym e) (Seen-first s seen)
        | inr none_else ↦ absurd none_else
      ]),
      (λ t h. Seen-later t s seen h),
      omega (arith, length-append out (s ∷ [])),
    )

    collect_scalar-Adds :
        (s : Scalar) (c : Distinct d planner)
        → Keeps c
        → Adds (s ∷ []) c (collect_scalar d planner ty s c)
    unfolding collect_scalar
    collect_scalar-Adds s (out, seen) keeps =
        if_elim (Adds (s ∷ []) (out, seen)) (any (str_eq (debug s)) seen)
          (λ known. (
            keeps,
            (λ t among. elim among [
              | inl e ↦ subst (λ k. Seen k seen) (sym e) known
              | inr none_else ↦ absurd none_else
            ]),
            (λ t h. h),
            omega arith,
          ))
          (λ new.
            if_elim (Adds (s ∷ []) (out, seen)) (same_type (data_type s) ty)
              (λ typed. kept-Adds s out seen keeps (is_null s) refl) (λ mistyped. tt))

    then-Adds :
        (s : Scalar) (xs : List Scalar) (c c' : Distinct d planner)
        (r : Result String (Distinct d planner))
        → Adds (s ∷ []) c (ok c')
        → Adds xs c' r
        → Adds (s ∷ xs) c r
    then-Adds s xs c c' (err e) first rest = tt
    then-Adds s xs c c' (ok c'') (keeps, here, before, few) (keeps', later, after, some_more) = (
      keeps',
      (λ t among. elim among [ inl e ↦ after t (here t (inl e)) | inr h ↦ later t h ]),
      (λ t h. after t (before t h)),
      omega arith,
    )

    bind-Adds :
        (s : Scalar) (xs : List Scalar) (c : Distinct d planner)
        (m : Result String (Distinct d planner))
        (next : Distinct d planner → Result String (Distinct d planner))
        → Adds (s ∷ []) c m
        → ((c' : Distinct d planner) → Keeps c' → Adds xs c' (next c'))
        → Adds (s ∷ xs) c (m >>= next)
    bind-Adds s xs c (err e) next h k = tt
    bind-Adds s xs c (ok c') next h k = then-Adds s xs c c' (next c') h (k c' h.0)

    collect_rows-Adds :
        (xs : List Scalar) (c : Distinct d planner)
        → Keeps c
        → Adds xs c (collect_rows d planner ty xs c)
    unfolding collect_rows
    collect_rows-Adds [] c keeps = (keeps, (λ t among. absurd among), (λ t h. h), omega arith)
    collect_rows-Adds (s ∷ xs) c keeps =
        bind-Adds s xs c (collect_scalar d planner ty s c) (collect_rows d planner ty xs)
          (collect_scalar-Adds s c keeps) (λ c' keeps'. collect_rows-Adds xs c' keeps')

    collect_rows-append :
        (xs ys : List Scalar) (c : Distinct d planner)
        → collect_rows d planner ty (xs ++ ys) c
          ≡ (collect_rows d planner ty xs c >>= λ c'. collect_rows d planner ty ys c')
    unfolding collect_rows
    collect_rows-append [] ys c = refl
    collect_rows-append (s ∷ xs) ys c =
        bind_assoc (collect_scalar d planner ty s c) (collect_rows d planner ty xs)
          (collect_rows d planner ty ys) (collect_rows d planner ty (xs ++ ys))
          (λ c'. collect_rows-append xs ys c')

    collect_batches-rows :
        (bs : List (KeyBatch Scalar)) (c : Distinct d planner)
        → collect_batches d planner ty bs c ≡ collect_rows d planner ty (all_keys bs) c
    unfolding collect_batches collect_rows
    collect_batches-rows [] c = refl
    collect_batches-rows (b ∷ bs) c =
        bind_cong (collect_rows d planner ty b.keys c) (λ c'. collect_batches-rows bs c')
        ∙ sym (collect_rows-append b.keys (all_keys bs) c)

    -- The values kept of some batches.
    abbrev pub KeptOf : List Scalar → Result String (List Scalar) → Type 0
    KeptOf keys (err e) = Unit
    KeptOf keys (ok vs) =
        ((s : Scalar) → Among s keys → is_null s ≡ false → Among s vs)
        × All (λ s. is_null s ≡ false) vs
        × (length vs ≤ length keys)

    -- If the values are collected, every key that is not null is among them, none of them is null,
    -- and there are no more of them than keys, as long as scalars with the same text are the same.
    pub collect_distinct_scalars-KeptOf :
        (bs : List (KeyBatch Scalar))
        → KeptOf (all_keys bs) (collect_distinct_scalars d planner bs ty)
    unfolding collect_distinct_scalars
    collect_distinct_scalars-KeptOf bs = rw (collect_batches-rows bs ([], [])) (
        kept (collect_rows d planner ty (all_keys bs) ([], []))
          (collect_rows-Adds (all_keys bs) ([], []) ((λ s h. cc), tt)))
      where
        kept :
            (m : Result String (Distinct d planner))
            → Adds (all_keys bs) ([], []) m
            → KeptOf (all_keys bs) (m >>= λ c. ok c.0)
        kept (err e) h = tt
        kept (ok (out, seen)) ((covers, clean), all_seen, before, few) =
            ((λ s among visible. covers s (all_seen s among) visible), clean, omega arith)
