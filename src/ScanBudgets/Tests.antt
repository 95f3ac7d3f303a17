-- ===== src/ScanBudgets/Tests.antt =====
-- Budgets of concrete scans.
use quiver_sql.Base.{ℕ, none, some, ◌↔◌, IsOk, ◌⊎◌, ◌≡◌, ◌≤◌, ok, err, refl, saturating_mul}
use quiver_sql.ScanBudgets.{
  Statistics, ScanBudget, too_many_bytes, estimate_effective_bytes, effective_rows, check_budget,
  check_at_most, scaled_bytes,
}
use quiver_sql.ScanBudgets.Estimates.{
  RowsFit, BytesFit, check_budget_iff, estimate_effective_bytes_bounds,
}

abbrev orders : Statistics
orders = record { num_rows = some 1000; total_byte_size = some 64000 }

abbrev small_budget : ScanBudget
small_budget = record { max_rows = 100; max_bytes = 3200 }

limited : check_budget small_budget (some orders) (some 50) ≡ ok tt
unfolding check_budget check_at_most effective_rows estimate_effective_bytes scaled_bytes
    saturating_mul
limited = refl

over_bytes : check_budget small_budget (some orders) (some 51) ≡ err (too_many_bytes 3264 3200)
unfolding check_budget check_at_most effective_rows estimate_effective_bytes scaled_bytes
    saturating_mul
over_bytes = refl

check_budget_iff_example :
    IsOk (check_budget small_budget (some orders) (some 50))
    ↔ (RowsFit 100 (some 1000) (some 50) × BytesFit 3200 (some 64000) (some 1000) (some 50))
check_budget_iff_example = check_budget_iff small_budget orders (some 50)

estimate_effective_bytes_bounds_example :
    ((n : ℕ) × (bytes : ℕ) × (rows : ℕ) × (estimate_effective_bytes orders (some 50) ≡ some n)
      × (orders.total_byte_size ≡ some bytes)
      × (orders.num_rows ≡ some rows)
      × (n ≤ bytes))
    ⊎ ((estimate_effective_bytes orders (some 50) ≡ none)
        × ((orders.total_byte_size ≡ none) ⊎ (orders.num_rows ≡ none)))
estimate_effective_bytes_bounds_example = estimate_effective_bytes_bounds orders (some 50)
