-- ===== src/Sqlite/Tests.antt =====
-- Conditions of qsql-connectors/src/sqlite.rs at concrete expressions.
use quiver_sql.Base.{some, [], ◌∷◌, ◌≡◌, refl, arith}
use quiver_sql.SqlText.{quote_identifier, quoted, quote_char, double}
use quiver_sql.Sqlite.{
  PhysicalExpr, column, literal, number, binary, eq, is_null, not_expr, dynamic_filter,
  physical_expr_to_sql, scalar_value_to_sql, operator_to_sql, conditions_of,
}
use quiver_sql.Sqlite.Reader.{tokens, text, read}
use quiver_sql.Sqlite.RoundTrip.{nesting, Writable}
use quiver_sql.Sqlite.Precedence.{physical_expr_to_sql-read, physical_expr_to_sql-misread}

abbrev id_is_one : PhysicalExpr
id_is_one = binary (column "id") eq (literal (number "1"))

equation : physical_expr_to_sql (not_expr id_is_one) ≡ some "NOT ((`id` = 1))"
unfolding physical_expr_to_sql quote_identifier quoted quote_char double scalar_value_to_sql
    operator_to_sql
equation = refl

negation_under_test :
    physical_expr_to_sql (is_null (not_expr id_is_one)) ≡ some "NOT ((`id` = 1)) IS NULL"
unfolding physical_expr_to_sql quote_identifier quoted quote_char double scalar_value_to_sql
    operator_to_sql
negation_under_test = refl

dynamic_filters_are_left :
    conditions_of (dynamic_filter ∷ literal (number "1") ∷ []) ≡ some ("1" ∷ [])
unfolding conditions_of physical_expr_to_sql scalar_value_to_sql
dynamic_filters_are_left = refl

physical_expr_to_sql-read_example :
    (physical_expr_to_sql (not_expr id_is_one) ≡ text (tokens (not_expr id_is_one)))
    × (read 5 (tokens (not_expr id_is_one)) ≡ some (not_expr id_is_one, []))
unfolding nesting Writable
physical_expr_to_sql-read_example =
    physical_expr_to_sql-read (not_expr id_is_one) 5 (tt, tt) (omega arith)

physical_expr_to_sql-misread_example :
    (physical_expr_to_sql (is_null (not_expr id_is_one))
      ≡ text (tokens (is_null (not_expr id_is_one))))
    × (read 5 (tokens (is_null (not_expr id_is_one))) ≡ some (not_expr (is_null id_is_one), []))
unfolding nesting Writable
physical_expr_to_sql-misread_example =
    physical_expr_to_sql-misread id_is_one 5 (tt, tt) (omega arith)
