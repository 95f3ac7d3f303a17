-- ===== src/ScanBudgets.antt =====
-- The scan budget of a guarded provider, qsql-core/src/engine.rs: `check_budget` and
-- `estimate_effective_bytes`, on the statistics that the provider reports.
mod Estimates
mod Tests
use quiver_sql.Base.{
  ℕ, ◌*◌, ◌/◌, Bool, ◌||◌, Option, none, some, min, ltb, leb, ◌==◌, if◌then◌else◌, Result, ok, err,
  ◌>>◌, saturating_mul,
}

-- `Statistics` of DataFusion: the values that `get_value` yields for the two counts.
pub record Statistics : Type 0 where
  pub num_rows : Option ℕ
  pub total_byte_size : Option ℕ

pub record ScanBudget : Type 0 where
  pub max_rows : ℕ
  pub max_bytes : ℕ

-- `scan_budget_error`: what was exceeded, the estimate and the limit.
pub data ScanBudgetError : Type 0 where
  too_many_rows : (effective max_rows : ℕ) → ScanBudgetError
  too_many_bytes : (effective max_bytes : ℕ) → ScanBudgetError

unfoldable pub scaled_bytes : (bytes rows : ℕ) → Option ℕ → ℕ
scaled_bytes bytes rows none = bytes
scaled_bytes bytes rows (some limit) =
    if rows == 0 || leb rows limit then bytes else saturating_mul bytes limit / rows

unfoldable pub estimate_effective_bytes : Statistics → Option ℕ → Option ℕ
estimate_effective_bytes stats limit = elim stats.total_byte_size [
  | none ↦ none
  | some bytes ↦ elim stats.num_rows [
    | none ↦ none
    | some rows ↦ some (scaled_bytes bytes rows limit)
  ]
]

-- `limit.map_or(rows, |limit| rows.min(limit))`.
unfoldable pub effective_rows : Option ℕ → Option ℕ → Option ℕ
effective_rows none limit = none
effective_rows (some rows) none = some rows
effective_rows (some rows) (some limit) = some (min rows limit)

-- `estimate.is_some_and(|n| n > most)`, and the error if so.
unfoldable pub check_at_most :
    (ℕ → ℕ → ScanBudgetError) → ℕ → Option ℕ → Result ScanBudgetError (Unit {0})
check_at_most error most none = ok tt
check_at_most error most (some n) = if ltb most n then err (error n most) else ok tt

unfoldable pub check_budget :
    ScanBudget → Option Statistics → Option ℕ → Result ScanBudgetError (Unit {0})
check_budget budget none limit = ok tt
check_budget budget (some stats) limit =
    check_at_most too_many_rows budget.max_rows (effective_rows stats.num_rows limit)
    >> check_at_most too_many_bytes budget.max_bytes (estimate_effective_bytes stats limit)
