-- ===== src/Models/Tests.antt =====
-- Runs of the page functions.
use quiver_sql.Base.{
  ℕ, ◌+◌, ◌*◌, ◌≤◌, ◌<◌, ◌≡◌, refl, ◌↔◌, ◌⊎◌, Option, none, some, true, [], ◌∷◌, length, min, take,
  drop, ok, err, arith, saturating_add, saturating_mul,
}
use quiver_sql.Errors.{page_size_zero}
use quiver_sql.Models.{
  QueryExecutionResult, Warning, page_size_clamped, normalize_page_size, build_query_page,
}
use quiver_sql.Models.Pages.{asked, normalize_page_size_bounds, build_query_page_window}

-- A request beyond the maximum.
abbrev large : Option ℕ
large = some 20000

clamp_test :
    normalize_page_size 10000 1000 (some 20000) ≡ ok (10000, some (page_size_clamped 20000 10000))
unfolding normalize_page_size
clamp_test = refl

normalize_page_size_bounds_example :
    ((normalize_page_size 10000 1000 large ≡ err page_size_zero) × (large ≡ some 0))
    ⊎ ((size : ℕ) × (warning : Option Warning) × (normalize_page_size 10000 1000 large
          ≡ ok (size, warning))
        × (size ≡ min (asked 1000 large) 10000)
        × (0 < size)
        × (size ≤ 10000)
        × ((warning ≡ none) ↔ ((large ≡ none) ⊎ (large ≡ some size))))
normalize_page_size_bounds_example =
    normalize_page_size_bounds 10000 1000 large (omega arith) (omega arith)

abbrev five : QueryExecutionResult ℕ
five = record {
  schema = record { fields = [] };
  rows = 1 ∷ 2 ∷ 3 ∷ 4 ∷ 5 ∷ [];
  metrics = record {
    planning_time_ms = 0;
    execution_time_ms = 0;
    first_page_time_ms = 0;
    rows_produced = 5;
    rows_returned = 5;
  };
}

build_test : (build_query_page "q" five 2 2 none).page_data ≡ 5 ∷ []
unfolding build_query_page saturating_add saturating_mul
build_test = refl

build_query_page_window_example :
    ((build_query_page "q" five 2 2 none).page_data ≡ take 2 (drop (2 * 2) five.rows))
    × (((build_query_page "q" five 2 2 none).is_last ≡ true) ↔ (length five.rows ≤ 2 * 2 + 2))
build_query_page_window_example = build_query_page_window "q" five 2 2 none (omega arith)
