-- ===== src/Broadcast/Filters.antt =====
-- Rows that a join drops anyway can be filtered out of either side before it.
use quiver_sql.Base.{Bool, true, false, List, [], ◌∷◌, Bool-cases, inl, inr, ◌≡◌, refl}
use quiver_sql.Broadcast.{DataFusion}
use quiver_sql.Broadcast.Meaning.{Meanings, Among, filter_rows, matches, inner_rows}

module _ (d : DataFusion) (m : Meanings d) where
  open m use {Row, merge}

  module _ (test : Row → Row → Bool) where
    matches-filter_rows :
        (keep : Row → Bool) (l : Row) (rs : List Row)
        → ((r : Row) → test l r ≡ true → keep r ≡ true)
        → matches d m test l (filter_rows keep rs) ≡ matches d m test l rs
    matches-filter_rows keep l [] h = refl
    matches-filter_rows keep l (r ∷ rs) h =
        let rest = matches-filter_rows keep l rs h in
        elim (Bool-cases (keep r)) [
          | inl kept ↦ rw (kept, rest) refl
          | inr dropped ↦
              rw dropped
                (elim (Bool-cases (test l r)) [ inl e ↦ let k = h r e in cc | inr e ↦ rw e rest ])
        ]

    pub inner_rows-filter_right :
        (keep : Row → Bool) (ls rs : List Row)
        → ((l r : Row) → Among l ls → test l r ≡ true → keep r ≡ true)
        → inner_rows d m test ls (filter_rows keep rs) ≡ inner_rows d m test ls rs
    inner_rows-filter_right keep [] rs h = refl
    inner_rows-filter_right keep (l ∷ ls) rs h =
        let first = matches-filter_rows keep l rs (λ r e. h l r (inl refl) e) in
        let rest = inner_rows-filter_right keep ls rs (λ k r among e. h k r (inr among) e) in
        rw (first, rest) refl

    matches-none :
        (l : Row) (rs : List Row)
        → ((r : Row) → Among r rs → test l r ≡ false)
        → matches d m test l rs ≡ []
    matches-none l [] h = refl
    matches-none l (r ∷ rs) h = rw (h r (inl refl)) (matches-none l rs (λ k among. h k (inr among)))

    pub inner_rows-filter_left :
        (keep : Row → Bool) (ls rs : List Row)
        → ((l r : Row) → Among r rs → keep l ≡ false → test l r ≡ false)
        → inner_rows d m test (filter_rows keep ls) rs ≡ inner_rows d m test ls rs
    inner_rows-filter_left keep [] rs h = refl
    inner_rows-filter_left keep (l ∷ ls) rs h =
        let rest = inner_rows-filter_left keep ls rs h in
        elim (Bool-cases (keep l)) [
          | inl kept ↦ rw (kept, rest) refl
          | inr dropped ↦
              let none_here = matches-none l rs (λ r among. h l r among dropped) in
              rw (dropped, rest, none_here) refl
        ]

    pub inner_rows-none :
        (ls rs : List Row)
        → ((l r : Row) → Among l ls → Among r rs → test l r ≡ false)
        → inner_rows d m test ls rs ≡ []
    inner_rows-none [] rs h = refl
    inner_rows-none (l ∷ ls) rs h =
        rw
          (
            matches-none l rs (λ r among. h l r (inl refl) among),
            inner_rows-none ls rs (λ k r a b. h k r (inr a) b),
          )
          refl
