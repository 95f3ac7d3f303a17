-- ===== src/TableRefs.antt =====
-- qsql-core/src/table_refs.rs: which tables of registered databases a SQL text refers to. The
-- syntax tree is sqlparser's: the constructors are those that the code matches on, and `other` for
-- the rest. Besides the fields that the code reads, the tree has those expressions that can hold a
-- query and that the code does not read: the order of a query, the groups of a select, the
-- conditions of joins, and whatever stands in what is `other`. The parser is an argument.
pub mod Spec
pub mod Walk
pub mod Laws
pub mod Hiding
pub mod Tests
use quiver_sql.Base.{
  String, Option, none, some, Bool, true, false, not, ◌&&◌, ◌||◌, List, [], ◌∷◌, ◌++◌, any, length,
  ◌==◌, if◌then◌else◌, str_eq, Result, ok, err, ◌>>=◌,
}

pub record DatabaseTableReference : Type 0 where
  pub alias : String
  pub table_name : String

-- A part of a dotted name: an identifier, or a function call.
pub data ObjectNamePart : Type 0 where
  identifier : String → ObjectNamePart
  function : ObjectNamePart

mutual
  -- The `WITH` list (empty if there is none), the body, and `ORDER BY` with the limits.
  pub data Query : Type 0 where
    query : Ctes → SetExpr → Exprs → Query

  pub data Ctes : Type 0 where
    no_ctes : Ctes
    cte : String → Query → Ctes → Ctes

  pub data SetExpr : Type 0 where
    select : Tables → SelectItems → OptExpr → (group_by : Exprs) → OptExpr → SetExpr
    subquery_body : Query → SetExpr
    set_operation : SetExpr → SetExpr → SetExpr
    table : Option String → Option String → SetExpr
    other_body : Exprs → SetExpr

  -- `FROM`: each entry is a relation with its joined relations.
  pub data Tables : Type 0 where
    no_tables : Tables
    with_joins : TableFactor → Factors → Tables → Tables

  pub data Factors : Type 0 where
    no_factors : Factors
    factor : TableFactor → (on : OptExpr) → Factors → Factors

  pub data TableFactor : Type 0 where
    named : List ObjectNamePart → TableFactor
    derived : Query → TableFactor
    nested_join : TableFactor → Factors → TableFactor
    other_factor : Exprs → TableFactor

  pub data SelectItems : Type 0 where
    no_items : SelectItems
    unnamed_expr : Expr → SelectItems → SelectItems
    expr_with_alias : Expr → SelectItems → SelectItems
    other_item : SelectItems → SelectItems

  pub data OptExpr : Type 0 where
    absent : OptExpr
    present : Expr → OptExpr

  pub data Exprs : Type 0 where
    no_exprs : Exprs
    expr : Expr → Exprs → Exprs

  -- The `WHEN … THEN …` pairs.
  pub data Conditions : Type 0 where
    no_conditions : Conditions
    condition : Expr → Expr → Conditions → Conditions

  pub data Expr : Type 0 where
    in_subquery : Expr → Query → Expr
    exists : Query → Expr
    subquery : Query → Expr
    binary_op is_distinct_from is_not_distinct_from : Expr → Expr → Expr
    unary_op nested is_false is_not_false is_true is_not_true : Expr → Expr
    is_null is_not_null is_unknown is_not_unknown : Expr → Expr
    in_list : Expr → Exprs → Expr
    between : Expr → Expr → Expr → Expr
    like ilike similar_to rlike : Expr → Expr → Expr
    case_of : OptExpr → Conditions → OptExpr → Expr
    tuple : Exprs → Expr
    other_expr : Exprs → Expr

pub data Statement : Type 0 where
  query_statement : Query → Statement
  other_statement : Statement

-- The state that every `collect_` function threads: `refs` and `seen`.
pub record Collected : Type 0 where
  pub refs : List DatabaseTableReference
  pub seen : List (String × String)

abbrev pub contains : List String → String → Bool
contains names n = any (λ m. str_eq m n) names

abbrev pub key_eq : String × String → String × String → Bool
key_eq (a, t) (b, u) = str_eq a b && str_eq t u

-- `seen.insert(key)`: whether the key is new, and the set with it.
unfoldable pub add_schema_table : String → String → List String → Collected → Collected
add_schema_table schema_name table_name ctes c =
    if contains ctes schema_name
    then c
    else if any (λ k. key_eq k (schema_name, table_name)) c.seen
    then c
    else record {
      refs = c.refs ++ record { alias = schema_name; table_name = table_name } ∷ [];
      seen = (schema_name, table_name) ∷ c.seen;
    }

-- The identifiers of a dotted name.
unfoldable pub identifiers : List ObjectNamePart → List String
identifiers [] = []
identifiers (identifier value ∷ parts) = value ∷ identifiers parts
identifiers (function ∷ parts) = identifiers parts

abbrev pub add_parts : List String → List String → Collected → Collected
add_parts (schema_name ∷ table_name ∷ []) ctes c =
    if contains ctes schema_name then c else add_schema_table schema_name table_name ctes c
add_parts _ ctes c = c

unfoldable pub add_object_name : List ObjectNamePart → List String → Collected → Collected
add_object_name name ctes c = add_parts (identifiers name) ctes c

abbrev pub add_table : Option String → Option String → List String → Collected → Collected
add_table (some schema_name) (some table_name) ctes c =
    add_schema_table schema_name table_name ctes c
add_table _ _ ctes c = c

-- The aliases of a `WITH` list join those in scope.
unfoldable pub insert_ctes : Ctes → List String → List String
insert_ctes no_ctes ctes = ctes
insert_ctes (cte alias q rest) ctes = insert_ctes rest (alias ∷ ctes)

unfoldable mutual
  pub collect_query : Query → List String → Collected → Collected
  collect_query (query with_list body order_by) inherited_ctes c =
      let ctes = insert_ctes with_list inherited_ctes in
      collect_set_expr body ctes (collect_ctes with_list ctes c)

  -- The second loop over `with.cte_tables`: every alias of the list is in scope.
  pub collect_ctes : Ctes → List String → Collected → Collected
  collect_ctes no_ctes ctes c = c
  collect_ctes (cte alias q rest) ctes c = collect_ctes rest ctes (collect_query q ctes c)

  pub collect_set_expr : SetExpr → List String → Collected → Collected
  collect_set_expr (select from projection selection group_by having) ctes c =
      collect_opt_expr having ctes (
        collect_opt_expr selection ctes
          (collect_select_items projection ctes (collect_tables from ctes c)))
  collect_set_expr (subquery_body q) ctes c = collect_query q ctes c
  collect_set_expr (set_operation left right) ctes c =
      collect_set_expr right ctes (collect_set_expr left ctes c)
  collect_set_expr (table schema_name table_name) ctes c = add_table schema_name table_name ctes c
  collect_set_expr (other_body es) ctes c = c

  pub collect_tables : Tables → List String → Collected → Collected
  collect_tables no_tables ctes c = c
  collect_tables (with_joins relation joins rest) ctes c =
      collect_tables rest ctes (collect_factors joins ctes (collect_table_factor relation ctes c))

  pub collect_factors : Factors → List String → Collected → Collected
  collect_factors no_factors ctes c = c
  collect_factors (factor f on rest) ctes c =
      collect_factors rest ctes (collect_table_factor f ctes c)

  pub collect_table_factor : TableFactor → List String → Collected → Collected
  collect_table_factor (named name) ctes c = add_object_name name ctes c
  collect_table_factor (derived q) ctes c = collect_query q ctes c
  collect_table_factor (nested_join relation joins) ctes c =
      collect_factors joins ctes (collect_table_factor relation ctes c)
  collect_table_factor (other_factor es) ctes c = c

  pub collect_select_items : SelectItems → List String → Collected → Collected
  collect_select_items no_items ctes c = c
  collect_select_items (unnamed_expr e rest) ctes c =
      collect_select_items rest ctes (collect_expr e ctes c)
  collect_select_items (expr_with_alias e rest) ctes c =
      collect_select_items rest ctes (collect_expr e ctes c)
  collect_select_items (other_item rest) ctes c = collect_select_items rest ctes c

  pub collect_opt_expr : OptExpr → List String → Collected → Collected
  collect_opt_expr absent ctes c = c
  collect_opt_expr (present e) ctes c = collect_expr e ctes c

  pub collect_exprs : Exprs → List String → Collected → Collected
  collect_exprs no_exprs ctes c = c
  collect_exprs (expr e rest) ctes c = collect_exprs rest ctes (collect_expr e ctes c)

  pub collect_conditions : Conditions → List String → Collected → Collected
  collect_conditions no_conditions ctes c = c
  collect_conditions (condition test result rest) ctes c =
      collect_conditions rest ctes (collect_expr result ctes (collect_expr test ctes c))

  pub collect_expr : Expr → List String → Collected → Collected
  collect_expr (in_subquery e q) ctes c = collect_query q ctes (collect_expr e ctes c)
  collect_expr (exists q) ctes c = collect_query q ctes c
  collect_expr (subquery q) ctes c = collect_query q ctes c
  collect_expr (binary_op l r) ctes c = collect_expr r ctes (collect_expr l ctes c)
  collect_expr (is_distinct_from l r) ctes c = collect_expr r ctes (collect_expr l ctes c)
  collect_expr (is_not_distinct_from l r) ctes c = collect_expr r ctes (collect_expr l ctes c)
  collect_expr (unary_op e) ctes c = collect_expr e ctes c
  collect_expr (nested e) ctes c = collect_expr e ctes c
  collect_expr (is_false e) ctes c = collect_expr e ctes c
  collect_expr (is_not_false e) ctes c = collect_expr e ctes c
  collect_expr (is_true e) ctes c = collect_expr e ctes c
  collect_expr (is_not_true e) ctes c = collect_expr e ctes c
  collect_expr (is_null e) ctes c = collect_expr e ctes c
  collect_expr (is_not_null e) ctes c = collect_expr e ctes c
  collect_expr (is_unknown e) ctes c = collect_expr e ctes c
  collect_expr (is_not_unknown e) ctes c = collect_expr e ctes c
  collect_expr (in_list e list) ctes c = collect_exprs list ctes (collect_expr e ctes c)
  collect_expr (between e low high) ctes c =
      collect_expr high ctes (collect_expr low ctes (collect_expr e ctes c))
  collect_expr (like e pat) ctes c = collect_expr pat ctes (collect_expr e ctes c)
  collect_expr (ilike e pat) ctes c = collect_expr pat ctes (collect_expr e ctes c)
  collect_expr (similar_to e pat) ctes c = collect_expr pat ctes (collect_expr e ctes c)
  collect_expr (rlike e pat) ctes c = collect_expr pat ctes (collect_expr e ctes c)
  collect_expr (case_of operand conditions else_result) ctes c =
      collect_opt_expr else_result ctes
        (collect_conditions conditions ctes (collect_opt_expr operand ctes c))
  collect_expr (tuple es) ctes c = collect_exprs es ctes c
  collect_expr (other_expr es) ctes c = c

unfoldable pub collect_statement : Statement → Collected → Collected
collect_statement (query_statement q) c = collect_query q [] c
collect_statement other_statement c = c

unfoldable pub collect_statements : List Statement → Collected → Collected
collect_statements [] c = c
collect_statements (s ∷ rest) c = collect_statements rest (collect_statement s c)

unfoldable pub extract_database_table_refs :
    (parse_sql : String → Result String (List Statement))
    → String
    → Result String (List DatabaseTableReference)
extract_database_table_refs parse_sql sql = do
  statements ← parse_sql sql
  ok (collect_statements statements (record { refs = []; seen = [] })).refs
