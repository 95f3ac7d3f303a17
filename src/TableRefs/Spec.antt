-- ===== src/TableRefs/Spec.antt =====
-- What a query refers to where the code looks, without any state: the qualified tables in the order
-- of the text, each as often as it stands, less those whose qualifier is the name of a common table
-- expression in scope. The conditions of joins, the groups of a select, the order of a query and the
-- arguments of functions and casts, as all that is `other`, are passed over.
use quiver_sql.Base.{String, Option, some, List, [], ◌∷◌, ◌++◌, if◌then◌else◌}
use quiver_sql.TableRefs.{
  identifiers, contains, insert_ctes, Query, query, Ctes, no_ctes, cte, SetExpr, select,
  subquery_body, set_operation, table, other_body, Tables, no_tables, with_joins, Factors,
  no_factors, factor, TableFactor, named, derived, nested_join, other_factor, SelectItems, no_items,
  unnamed_expr, expr_with_alias, other_item, OptExpr, absent, present, Exprs, no_exprs, expr,
  Conditions, no_conditions, condition, Expr, in_subquery, exists, subquery, binary_op,
  is_distinct_from, is_not_distinct_from, unary_op, nested, is_false, is_not_false, is_true,
  is_not_true, is_null, is_not_null, is_unknown, is_not_unknown, in_list, between, like, ilike,
  similar_to, rlike, case_of, tuple, other_expr, Statement, query_statement, other_statement,
}

-- A qualified table, if its qualifier is not hidden.
abbrev pub visible : List String → String → String → List (String × String)
visible ctes schema_name table_name =
    if contains ctes schema_name then [] else (schema_name, table_name) ∷ []

abbrev pub visible_parts : List String → List String → List (String × String)
visible_parts (schema_name ∷ table_name ∷ []) ctes = visible ctes schema_name table_name
visible_parts _ ctes = []

abbrev pub visible_table : Option String → Option String → List String → List (String × String)
visible_table (some schema_name) (some table_name) ctes = visible ctes schema_name table_name
visible_table _ _ ctes = []

unfoldable mutual
  pub in_query : Query → List String → List (String × String)
  in_query (query with_list body order_by) ctes =
      let inner = insert_ctes with_list ctes in in_ctes with_list inner ++ in_body body inner

  pub in_ctes : Ctes → List String → List (String × String)
  in_ctes no_ctes ctes = []
  in_ctes (cte alias q rest) ctes = in_query q ctes ++ in_ctes rest ctes

  pub in_body : SetExpr → List String → List (String × String)
  in_body (select from projection selection group_by having) ctes =
      in_tables from ctes
      ++ (in_items projection ctes ++ (in_opt selection ctes ++ in_opt having ctes))
  in_body (subquery_body q) ctes = in_query q ctes
  in_body (set_operation left right) ctes = in_body left ctes ++ in_body right ctes
  in_body (table schema_name table_name) ctes = visible_table schema_name table_name ctes
  in_body (other_body es) ctes = []

  pub in_tables : Tables → List String → List (String × String)
  in_tables no_tables ctes = []
  in_tables (with_joins relation joins rest) ctes =
      in_factor relation ctes ++ (in_factors joins ctes ++ in_tables rest ctes)

  pub in_factors : Factors → List String → List (String × String)
  in_factors no_factors ctes = []
  in_factors (factor f on rest) ctes = in_factor f ctes ++ in_factors rest ctes

  pub in_factor : TableFactor → List String → List (String × String)
  in_factor (named name) ctes = visible_parts (identifiers name) ctes
  in_factor (derived q) ctes = in_query q ctes
  in_factor (nested_join relation joins) ctes = in_factor relation ctes ++ in_factors joins ctes
  in_factor (other_factor es) ctes = []

  pub in_items : SelectItems → List String → List (String × String)
  in_items no_items ctes = []
  in_items (unnamed_expr e rest) ctes = in_expr e ctes ++ in_items rest ctes
  in_items (expr_with_alias e rest) ctes = in_expr e ctes ++ in_items rest ctes
  in_items (other_item rest) ctes = in_items rest ctes

  pub in_opt : OptExpr → List String → List (String × String)
  in_opt absent ctes = []
  in_opt (present e) ctes = in_expr e ctes

  pub in_exprs : Exprs → List String → List (String × String)
  in_exprs no_exprs ctes = []
  in_exprs (expr e rest) ctes = in_expr e ctes ++ in_exprs rest ctes

  pub in_conditions : Conditions → List String → List (String × String)
  in_conditions no_conditions ctes = []
  in_conditions (condition test result rest) ctes =
      in_expr test ctes ++ (in_expr result ctes ++ in_conditions rest ctes)

  pub in_expr : Expr → List String → List (String × String)
  in_expr (in_subquery e q) ctes = in_expr e ctes ++ in_query q ctes
  in_expr (exists q) ctes = in_query q ctes
  in_expr (subquery q) ctes = in_query q ctes
  in_expr (binary_op l r) ctes = in_expr l ctes ++ in_expr r ctes
  in_expr (is_distinct_from l r) ctes = in_expr l ctes ++ in_expr r ctes
  in_expr (is_not_distinct_from l r) ctes = in_expr l ctes ++ in_expr r ctes
  in_expr (unary_op e) ctes = in_expr e ctes
  in_expr (nested e) ctes = in_expr e ctes
  in_expr (is_false e) ctes = in_expr e ctes
  in_expr (is_not_false e) ctes = in_expr e ctes
  in_expr (is_true e) ctes = in_expr e ctes
  in_expr (is_not_true e) ctes = in_expr e ctes
  in_expr (is_null e) ctes = in_expr e ctes
  in_expr (is_not_null e) ctes = in_expr e ctes
  in_expr (is_unknown e) ctes = in_expr e ctes
  in_expr (is_not_unknown e) ctes = in_expr e ctes
  in_expr (in_list e list) ctes = in_expr e ctes ++ in_exprs list ctes
  in_expr (between e low high) ctes = in_expr e ctes ++ (in_expr low ctes ++ in_expr high ctes)
  in_expr (like e pat) ctes = in_expr e ctes ++ in_expr pat ctes
  in_expr (ilike e pat) ctes = in_expr e ctes ++ in_expr pat ctes
  in_expr (similar_to e pat) ctes = in_expr e ctes ++ in_expr pat ctes
  in_expr (rlike e pat) ctes = in_expr e ctes ++ in_expr pat ctes
  in_expr (case_of operand conditions else_result) ctes =
      in_opt operand ctes ++ (in_conditions conditions ctes ++ in_opt else_result ctes)
  in_expr (tuple es) ctes = in_exprs es ctes
  in_expr (other_expr es) ctes = []

unfoldable pub in_statements : List Statement → List (String × String)
in_statements [] = []
in_statements (query_statement q ∷ rest) = in_query q [] ++ in_statements rest
in_statements (other_statement ∷ rest) = in_statements rest
