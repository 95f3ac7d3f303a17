-- ===== src/Sqlite.antt =====
-- The filters that qsql-connectors/src/sqlite.rs adds to the SQL of a SQLite source. A physical
-- expression has the kinds that the code looks for; a number is the text that it prints.
mod Reader
mod RoundTrip
mod Written
mod Precedence
mod Tests
use Prim.Native.String.{◌++◌ as push_str}
use quiver_sql.Base.{
  ℕ, String, Bool, true, false, Option, none, some, List, [], ◌∷◌, if◌then◌else◌, Result, ok, err,
  ◌>>=◌,
}
use quiver_sql.SqlText.{quote_identifier, sql_literal, sqlite}

pub data ScalarValue : Type 0 where
  null : ScalarValue
  boolean : Bool → ScalarValue
  number : (text : String) → ScalarValue
  utf8 : String → ScalarValue
  unsupported_value : ScalarValue

pub data Operator : Type 0 where
  eq not_eq lt lt_eq gt gt_eq and or unsupported_operator : Operator

pub data PhysicalExpr : Type 0 where
  column : (name : String) → PhysicalExpr
  literal : ScalarValue → PhysicalExpr
  binary : PhysicalExpr → Operator → PhysicalExpr → PhysicalExpr
  is_null is_not_null not_expr : PhysicalExpr → PhysicalExpr
  dynamic_filter unsupported_expr : PhysicalExpr

unfoldable pub operator_to_sql : Operator → Option String
operator_to_sql eq = some "="
operator_to_sql not_eq = some "<>"
operator_to_sql lt = some "<"
operator_to_sql lt_eq = some "<="
operator_to_sql gt = some ">"
operator_to_sql gt_eq = some ">="
operator_to_sql and = some "AND"
operator_to_sql or = some "OR"
operator_to_sql unsupported_operator = none

unfoldable pub scalar_value_to_sql : ScalarValue → Option String
scalar_value_to_sql (boolean value) = some (if value then "TRUE" else "FALSE")
scalar_value_to_sql (number text) = some text
scalar_value_to_sql (utf8 value) = some (sql_literal value)
scalar_value_to_sql null = some "NULL"
scalar_value_to_sql unsupported_value = none

-- `?` on an `Option`.
abbrev pub map_some : (String → String) → Option String → Option String
map_some f none = none
map_some f (some s) = some (f s)

abbrev pub infix_text : Option String → Option String → Option String → Option String
infix_text (some left) (some right) (some op) =
    some (
      push_str "(" (push_str left (push_str " " (push_str op (push_str " " (push_str right ")"))))))
infix_text (some left) (some right) none = none
infix_text (some left) none op = none
infix_text none right op = none

unfoldable pub physical_expr_to_sql : PhysicalExpr → Option String
physical_expr_to_sql (column name) = some (quote_identifier name sqlite)
physical_expr_to_sql (literal value) = scalar_value_to_sql value
physical_expr_to_sql (binary left op right) =
    infix_text (physical_expr_to_sql left) (physical_expr_to_sql right) (operator_to_sql op)
physical_expr_to_sql (is_null arg) =
    map_some (λ inner. push_str inner " IS NULL") (physical_expr_to_sql arg)
physical_expr_to_sql (is_not_null arg) =
    map_some (λ inner. push_str inner " IS NOT NULL") (physical_expr_to_sql arg)
physical_expr_to_sql (not_expr arg) =
    map_some (λ inner. push_str "NOT (" (push_str inner ")")) (physical_expr_to_sql arg)
physical_expr_to_sql dynamic_filter = none
physical_expr_to_sql unsupported_expr = none

-- `join(" AND ")`.
unfoldable pub join_conditions : List String → String
join_conditions [] = ""
join_conditions (c ∷ []) = c
join_conditions (c ∷ d ∷ cs) = push_str c (push_str " AND " (join_conditions (d ∷ cs)))

abbrev pub push_condition : Option String → Option (List String) → Option (List String)
push_condition none rest = none
push_condition (some c) none = none
push_condition (some c) (some cs) = some (c ∷ cs)

-- The conditions of the filters, without those of dynamic filters; none if one cannot be written.
unfoldable pub conditions_of : List PhysicalExpr → Option (List String)
conditions_of [] = some []
conditions_of (dynamic_filter ∷ filters) = conditions_of filters
conditions_of (filter ∷ filters) =
    push_condition (physical_expr_to_sql filter) (conditions_of filters)
