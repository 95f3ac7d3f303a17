-- ===== src/Windows/Saturated.antt =====
-- The page window in saturating arithmetic is the window of the natural numbers, as long as the
-- buffer is below `usize::MAX`.
use native.Mathlib.Decide.{dec_le, dec_lt}
use quiver_sql.Base.{
  ℕ, zero, suc, ◌+◌, ◌-◌, ◌*◌, ◌≤◌, ◌<◌, ◌≡◌, sym, ◌⊎◌, inl, inr, List, [], ◌++◌, min, arith,
  length, take, drop, take-append, drop-append, take-min, drop_all, take_all, length-drop,
  append-nil, usize_max, saturating_add, saturating_mul, saturating_mul_exact, ◌↔◌,
}

-- `end` and `start` of `page_with_format`, before they are cut to the buffer.
abbrev pub end_at : (index size : ℕ) → ℕ
end_at index size = saturating_mul (saturating_add index 1) size

abbrev pub start_at : (index size : ℕ) → ℕ
start_at index size = saturating_mul index size

le-mul_of_pos : (i size : ℕ) → 0 < size → i ≤ i * size
le-mul_of_pos i size h = grind arith

-- Where the limit of the buffer lies below `usize::MAX`, `end` is beyond it or exact.
pub end_at-cases :
    (i size : ℕ)
    → (end_at i size ≡ i * size + size)
      ⊎ (usize_max ≤ end_at i size) × (usize_max ≤ i * size + size)
unfolding saturating_add saturating_mul
end_at-cases i zero = inl (omega arith)
end_at-cases i (suc k) = elim (dec_le (i + 1) usize_max) [
  | yes h ↦
      let e : min (i + 1) usize_max ≡ i + 1 = omega arith in
      rw e (elim (dec_le ((i + 1) * suc k) usize_max) [
        | yes fits ↦ inl (omega arith)
        | no big ↦ inr (omega arith, omega arith)
      ])
  | no h ↦ let far = le-mul_of_pos i (suc k) (omega arith) in inr (omega arith, omega arith)
]

module _ (i size len : ℕ) (room : len < usize_max) where
  -- How many rows the page takes from a buffer of `len` rows.
  pub count_at-eq : min (end_at i size) len - start_at i size ≡ min size (len - i * size)
  unfolding saturating_mul
  count_at-eq = elim (end_at-cases i size) [
    | inl exact ↦ omega arith
    | inr (big, far) ↦ omega arith
  ]

  pub end_at-reaches : (len ≤ end_at i size) ↔ (len ≤ i * size + size)
  end_at-reaches = elim (end_at-cases i size) [
    | inl exact ↦ rw exact ((λ h. h), (λ h. h))
    | inr (big, far) ↦ ((λ _. omega arith), (λ _. omega arith))
  ]

  pub target-reaches : saturating_add (end_at i size) 1 ≤ len → i * size + size < len
  unfolding saturating_add
  target-reaches h = elim (end_at-cases i size) [
    | inl exact ↦ omega arith
    | inr (big, far) ↦ absurd (omega arith)
  ]

module _ {ℓ} {A : Type ℓ} (i size : ℕ) (xs ys : List A) (room : length xs < usize_max) where
  -- What the page takes from the buffer `xs`.
  abbrev pub taken : List A
  taken = take (min (end_at i size) (length xs) - start_at i size) (drop (start_at i size) xs)

  taken-eq : taken ≡ take size (drop (i * size) xs)
  taken-eq =
      let n = count_at-eq i size (length xs) room in
      elim (dec_lt (i * size) (length xs)) [
        | yes h ↦
            let s : start_at i size ≡ i * size = saturating_mul_exact i size (omega arith) in
            rw (n, s, ← length-drop (i * size) xs) (take-min size (drop (i * size) xs))
        | no h ↦
            let z : min size (length xs - i * size) ≡ 0 = omega arith in
            let e : drop (i * size) xs ≡ [] = drop_all (i * size) xs (omega arith) in
            rw (n, z, e) (sym (take_all size [] (omega arith)))
      ]

  -- The page's rows are the window of all rows, `xs` in the buffer and `ys` to come, if none are to
  -- come or the buffer goes past the window.
  pub taken-eq-window :
      (ys ≡ []) ⊎ (i * size + size < length xs) → taken ≡ take size (drop (i * size) (xs ++ ys))
  taken-eq-window (inl e) = rw (e, append-nil) taken-eq
  taken-eq-window (inr h) =
      let z : size - length (drop (i * size) xs) ≡ 0 = omega (arith, length-drop (i * size) xs) in
      rw
        (
          drop-append (i * size) xs ys,
          take-append size (drop (i * size) xs) (drop (i * size - length xs) ys),
          z,
          append-nil,
        )
        taken-eq
