-- ===== src/Models/Pages.antt =====
-- Page sizes are normalised into their range, and a page is a window of the rows.
use quiver_sql.Base.{
  zero, suc, Bool-cases, ℕ, ◌+◌, ◌-◌, ◌*◌, ◌≤◌, ◌<◌, ◌≡◌, refl, sym, ◌↔◌, ◌⊎◌, inl, inr, Option,
  none, some, true, [], String, length, take, drop, take-min, take_all, drop_all, length-drop, min,
  ltb, leb, ok, err, arith, if_elim, usize_max, saturating_add, saturating_mul, leb→le, le→leb,
  ltb-false→le, leb-false→lt,
}
use quiver_sql.Errors.{page_size_zero}
use quiver_sql.Models.{
  QueryExecutionResult, Warning, page_size_clamped, normalize_page_size, build_query_page,
}

clamped :
    (k max_size : ℕ)
    → ltb max_size (suc k) ≡ true
    → (◌≡◌ {A = Option ℕ} (some (suc k)) none) ⊎ (some (suc k) ≡ some max_size)
    → ⊥
clamped k max_size big (inl e) = cc
clamped k max_size big (inr e) = ground arith

-- The size that a request asks for: the default one if it names none.
abbrev pub asked : (def_size : ℕ) → Option ℕ → ℕ
asked def_size none = def_size
asked def_size (some size) = size

-- For a default size between one and the maximum: a requested page size of zero is an error and no
-- other request is. The size that is used is the requested one, or the default one if none is
-- requested, cut at the maximum; it lies between one and the maximum, and there is a warning exactly
-- if the requested size was cut.
pub normalize_page_size_bounds :
    (max_size def_size : ℕ) (requested : Option ℕ)
    → 0 < def_size
    → def_size ≤ max_size
    → ((normalize_page_size max_size def_size requested ≡ err page_size_zero)
        × (requested ≡ some 0))
      ⊎ ((size : ℕ) × (warning : Option Warning) × (normalize_page_size max_size def_size requested
            ≡ ok (size, warning))
          × (size ≡ min (asked def_size requested) max_size)
          × (0 < size)
          × (size ≤ max_size)
          × ((warning ≡ none) ↔ ((requested ≡ none) ⊎ (requested ≡ some size))))
unfolding normalize_page_size
normalize_page_size_bounds max_size def_size none pos below =
    inr (def_size, none, refl, omega arith, pos, below, ((λ _. inl refl), (λ _. refl)))
normalize_page_size_bounds max_size def_size (some zero) pos below = inl (refl, refl)
normalize_page_size_bounds max_size def_size (some (suc k)) pos below =
    elim (Bool-cases (ltb max_size (suc k))) [
      | inl big ↦ inr (
        max_size,
        some (page_size_clamped (suc k) max_size),
        ground arith,
        ground arith,
        omega arith,
        omega arith,
        ((λ e. cc), (λ e. absurd (clamped k max_size big e))),
      )
      | inr fits ↦ inr (
        suc k,
        none,
        ground arith,
        ground arith,
        omega arith,
        ltb-false→le _ _ fits,
        ((λ _. inr refl), (λ _. refl)),
      )
    ]

module _ {Json : Type 0} (query_id : String) (result : QueryExecutionResult Json)
    (page_index page_size : ℕ) (warning : Option Warning)
    (room : length result.rows < usize_max) where
  -- The page holds the rows from `page_index * page_size` on, `page_size` of them, and is the last
  -- one exactly when no row comes after it. A vector is shorter than `usize::MAX`.
  pub build_query_page_window :
      ((build_query_page query_id result page_index page_size warning).page_data
        ≡ take page_size (drop (page_index * page_size) result.rows))
      × (((build_query_page query_id result page_index page_size warning).is_last ≡ true)
          ↔ (length result.rows ≤ page_index * page_size + page_size))
  unfolding build_query_page saturating_add saturating_mul
  build_query_page_window = (
    if_elim (λ x. x ≡ take page_size (drop (page_index * page_size) result.rows))
        (leb (length result.rows) start)
        (λ past.
          let e : drop (page_index * page_size) result.rows ≡ [] =
            drop_all (page_index * page_size) result.rows
              (omega (arith, leb→le (length result.rows) start past)) in
          rw e (sym (take_all page_size [] (omega arith))))
        (λ here.
          let inside = leb-false→lt (length result.rows) start here in
          let s : start ≡ page_index * page_size = omega arith in
          let n : end - start ≡ min page_size (length (drop (page_index * page_size) result.rows)) =
            omega (arith, s, length-drop (page_index * page_size) result.rows) in
          rw (n, s) (take-min page_size (drop (page_index * page_size) result.rows))),
    (
      (λ e. let le = leb→le (length result.rows) end e in omega arith),
      (λ h. le→leb (length result.rows) end (omega arith)),
    ),
  )
    where
      start : ℕ
      start = min (page_index * page_size) usize_max

      end : ℕ
      end = min (min (start + page_size) usize_max) (length result.rows)
