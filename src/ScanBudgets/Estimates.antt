-- ===== src/ScanBudgets/Estimates.antt =====
-- What the scan budget of qsql-core/src/engine.rs admits.
use quiver_sql.Base.{
  usize_max, ◌⊎◌, Option-cases, ℕ, ◌+◌, ◌*◌, ◌/◌, ◌≤◌, ◌<◌, ◌||◌, Option, none, some, min, ltb, leb,
  ◌==◌, if_elim, Bool-cases, inl, inr, Result, ok, err, ◌>>◌, IsOk, saturating_mul, ◌≡◌, ◌↔◌, refl,
  arith, ltb→lt, ltb-false→le,
}
use quiver_sql.ScanBudgets.{
  Statistics, ScanBudget, ScanBudgetError, too_many_rows, too_many_bytes, scaled_bytes,
  estimate_effective_bytes, effective_rows, check_at_most, check_budget,
}

-- A value, if there is one, is at most this.
unfoldable pub AtMost : ℕ → Option ℕ → Type 0
AtMost most none = Unit
AtMost most (some n) = n ≤ most

check_at_most_iff :
    (error : ℕ → ℕ → ScanBudgetError) (most : ℕ) (o : Option ℕ)
    → IsOk (check_at_most error most o) ↔ AtMost most o
unfolding check_at_most AtMost
check_at_most_iff error most none = ((λ h. h), (λ h. h))
check_at_most_iff error most (some n) = elim (Bool-cases (ltb most n)) [
  | inl e ↦ let over = ltb→lt most n e in rw e ((λ h. absurd h), (λ h. absurd (omega arith)))
  | inr e ↦ let fits = ltb-false→le most n e in rw e ((λ h. fits), (λ h. tt))
]

both_iff : (m k : Result ScanBudgetError (Unit {0})) → IsOk (m >> k) ↔ (IsOk m × IsOk k)
both_iff (ok a) k = ((λ h. (tt, h)), (λ h. h.1))
both_iff (err e) k = ((λ h. absurd h), (λ h. absurd h.0))

-- The reported rows are within the budget, or the limit of the scan is.
abbrev pub RowsFit : ℕ → Option ℕ → Option ℕ → Type 0
RowsFit most none limit = Unit
RowsFit most (some rows) none = rows ≤ most
RowsFit most (some rows) (some limit) = (rows ≤ most) ⊎ (limit ≤ most)

-- The reported bytes are within the budget; for a scan of fewer rows than are reported, its share of
-- the bytes is, `bytes * limit / rows` of them, where the product is cut at `usize::MAX`.
abbrev pub BytesFit : ℕ → (bytes rows limit : Option ℕ) → Type 0
BytesFit most none rows limit = Unit
BytesFit most (some bytes) none limit = Unit
BytesFit most (some bytes) (some rows) none = bytes ≤ most
BytesFit most (some bytes) (some rows) (some limit) =
    (rows ≤ limit → bytes ≤ most)
    × (limit < rows → min (bytes * limit) usize_max < (most + 1) * rows)

rows_iff :
    (most : ℕ) (rows limit : Option ℕ)
    → AtMost most (effective_rows rows limit) ↔ RowsFit most rows limit
unfolding AtMost effective_rows
rows_iff most none limit = ((λ h. h), (λ h. h))
rows_iff most (some rows) none = ((λ h. h), (λ h. h))
rows_iff most (some rows) (some limit) = ground arith

share_iff : (x r m : ℕ) → 0 < r → (x / r ≤ m) ↔ (x < (m + 1) * r)
share_iff x r m pos = ((λ h. grind arith), (λ h. grind arith))

scaled_iff :
    (most bytes rows : ℕ) (limit : Option ℕ)
    → (scaled_bytes bytes rows limit ≤ most) ↔ BytesFit most (some bytes) (some rows) limit
unfolding scaled_bytes saturating_mul
scaled_iff most bytes rows none = ((λ h. h), (λ h. h))
scaled_iff most bytes rows (some limit) = elim (Bool-cases (rows == 0 || leb rows limit)) [
  | inl whole ↦
      let covered : rows ≤ limit = ground arith in
      rw whole ((λ h. ((λ _. h), (λ less. absurd (omega arith)))), (λ h. h.0 covered))
  | inr part ↦
      let less : limit < rows = ground arith in
      let share = share_iff (min (bytes * limit) usize_max) rows most (omega arith) in
      rw part ((λ h. ((λ more. absurd (omega arith)), (λ _. share.0 h))), (λ h. share.1 (h.1 less)))
]

bytes_iff :
    (most : ℕ) (stats : Statistics) (limit : Option ℕ)
    → AtMost most (estimate_effective_bytes stats limit)
      ↔ BytesFit most stats.total_byte_size stats.num_rows limit
unfolding estimate_effective_bytes AtMost
bytes_iff most stats limit = elim (Option-cases stats.total_byte_size) [
  | inl e ↦ rw e ((λ h. tt), (λ h. tt))
  | inr (bytes, e) ↦ elim (Option-cases stats.num_rows) [
    | inl z ↦ rw (e, z) ((λ h. tt), (λ h. tt))
    | inr (rows, r) ↦ rw (e, r) (scaled_iff most bytes rows limit)
  ]
]

-- A scan of a provider with statistics passes the budget if and only if the reported rows or the
-- limit of the scan are within the budget for rows, and the share of the reported bytes that falls on
-- the scan, whose product is cut at `usize::MAX`, is within the budget for bytes; what is not
-- reported does not stop a scan, and bytes count only where rows are reported too.
pub check_budget_iff :
    (budget : ScanBudget) (stats : Statistics) (limit : Option ℕ)
    → IsOk (check_budget budget (some stats) limit) ↔ (
        RowsFit budget.max_rows stats.num_rows limit
        × BytesFit budget.max_bytes stats.total_byte_size stats.num_rows limit)
unfolding check_budget
check_budget_iff budget stats limit =
    let rows = effective_rows stats.num_rows limit in
    let bytes = estimate_effective_bytes stats limit in
    let first = check_at_most_iff too_many_rows budget.max_rows rows in
    let second = check_at_most_iff too_many_bytes budget.max_bytes bytes in
    let both =
      both_iff (check_at_most too_many_rows budget.max_rows rows)
        (check_at_most too_many_bytes budget.max_bytes bytes) in
    let fits = rows_iff budget.max_rows stats.num_rows limit in
    let shares = bytes_iff budget.max_bytes stats limit in
    (
      (λ h. (fits.0 (first.0 (both.0 h).0), shares.0 (second.0 (both.0 h).1))),
      (λ h. both.1 (first.1 (fits.1 h.0), second.1 (shares.1 h.1))),
    )

div_le : (x b r : ℕ) → 0 < r → x ≤ b * r → x / r ≤ b
div_le x b r pos h = grind arith

scaled_bytes_le : (bytes rows : ℕ) (limit : Option ℕ) → scaled_bytes bytes rows limit ≤ bytes
unfolding scaled_bytes saturating_mul
scaled_bytes_le bytes rows none = omega arith
scaled_bytes_le bytes rows (some limit) =
    if_elim (λ x. x ≤ bytes) (rows == 0 || leb rows limit) (λ h. omega arith)
      (λ h.
        let more : limit < rows = ground arith in
        let grows = mul_le bytes limit rows (omega arith) in
        div_le (min (bytes * limit) usize_max) bytes rows (omega arith) (omega arith))
  where
    mul_le : (b m n : ℕ) → m ≤ n → b * m ≤ b * n
    mul_le b m n h = grind arith

-- The bytes estimated for a scan are never more than the bytes reported for the whole table, and
-- there is an estimate exactly when both rows and bytes are reported.
pub estimate_effective_bytes_bounds :
    (stats : Statistics) (limit : Option ℕ)
    → ((n : ℕ) × (bytes : ℕ) × (rows : ℕ) × (estimate_effective_bytes stats limit ≡ some n)
        × (stats.total_byte_size ≡ some bytes)
        × (stats.num_rows ≡ some rows)
        × (n ≤ bytes))
      ⊎ ((estimate_effective_bytes stats limit ≡ none)
          × ((stats.total_byte_size ≡ none) ⊎ (stats.num_rows ≡ none)))
unfolding estimate_effective_bytes
estimate_effective_bytes_bounds stats limit = elim (Option-cases stats.total_byte_size) [
  | inl e ↦ inr (rw e refl, inl e)
  | inr (bytes, e) ↦ elim (Option-cases stats.num_rows) [
    | inl z ↦ inr (rw (e, z) refl, inr z)
    | inr (rows, r) ↦ inl (
      scaled_bytes bytes rows limit,
      bytes,
      rows,
      rw (e, r) refl,
      e,
      r,
      scaled_bytes_le bytes rows limit,
    )
  ]
]
