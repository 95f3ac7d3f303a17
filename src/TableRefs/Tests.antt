-- ===== src/TableRefs/Tests.antt =====
-- Runs of the extraction.
use quiver_sql.Base.{String, true, false, ◌≡◌, refl, List, [], ◌∷◌, Result, ok}
use quiver_sql.TableRefs.{
  DatabaseTableReference, identifier, query, no_ctes, cte, SetExpr, select, no_tables, with_joins,
  no_factors, factor, no_exprs, subquery, TableFactor, named, no_items, absent, present, exists,
  Query, Statement, query_statement, collect_query, collect_statement, collect_statements,
  extract_database_table_refs, add_object_name, add_schema_table, identifiers, insert_ctes,
  contains,
}
use quiver_sql.TableRefs.Spec.{in_statements}
use quiver_sql.TableRefs.Laws.{refers, mentions, Distinct, extract_database_table_refs_lem}
use quiver_sql.TableRefs.Hiding.{extract-hides}

abbrev qualified : String → String → TableFactor
qualified s t = named (identifier s ∷ identifier t ∷ [])

abbrev bare : String → TableFactor
bare t = named (identifier t ∷ [])

abbrev from : TableFactor → SetExpr
from f = select (with_joins f no_factors no_tables) no_items absent no_exprs absent

-- SELECT * FROM pg_local.customers c JOIN mysql_local.orders o ON (SELECT … FROM pg_local.rates)
-- WHERE EXISTS (SELECT 1 FROM pg_local.regions r), and the first table once more. The table of the
-- condition of the join is not found.
abbrev joined : Query
joined =
    query no_ctes
      (select
        (with_joins (qualified "pg_local" "customers")
          (factor (qualified "mysql_local" "orders")
            (present (subquery (query no_ctes (from (qualified "pg_local" "rates")) no_exprs)))
            (factor (qualified "pg_local" "customers") absent no_factors))
          no_tables)
        no_items (present (exists (query no_ctes (from (qualified "pg_local" "regions")) no_exprs)))
        no_exprs absent)
      no_exprs

-- WITH recent AS (SELECT * FROM pg_local.orders)
-- SELECT * FROM recent JOIN mysql_local.customers c ON …
abbrev with_cte : Query
with_cte =
    query (cte "recent" (query no_ctes (from (qualified "pg_local" "orders")) no_exprs) no_ctes)
      (select
        (with_joins (bare "recent") (factor (qualified "mysql_local" "customers") absent no_factors)
          no_tables)
        no_items absent no_exprs absent)
      no_exprs

-- WITH pg AS (SELECT * FROM pg.orders) SELECT * FROM pg.customers
abbrev shadowed : SetExpr
shadowed = from (qualified "pg" "customers")

abbrev parser : Query → String → Result String (List Statement)
parser q sql = ok (query_statement q ∷ [])

abbrev refer : String → String → DatabaseTableReference
refer s t = record { alias = s; table_name = t }

runs : Unit {0}
unfolding extract_database_table_refs collect_statements collect_statement collect_query
    add_object_name add_schema_table identifiers insert_ctes
runs = tt

joined_test :
    extract_database_table_refs (parser joined) ""
    ≡ ok (
        refer "pg_local" "customers"
        ∷ refer "mysql_local" "orders"
        ∷ refer "pg_local" "regions"
        ∷ [])
unfolding runs
joined_test = refl

with_cte_test :
    extract_database_table_refs (parser with_cte) ""
    ≡ ok (refer "pg_local" "orders" ∷ refer "mysql_local" "customers" ∷ [])
unfolding runs
with_cte_test = refl

extract_database_table_refs_lem_example :
    (refs : List DatabaseTableReference) × (extract_database_table_refs (parser joined) ""
      ≡ ok refs)
    × ((k : String × String)
        → refers refs k ≡ mentions (in_statements (query_statement joined ∷ [])) k)
    × Distinct refs
extract_database_table_refs_lem_example =
    extract_database_table_refs_lem (parser joined) "" (query_statement joined ∷ []) refl

hidden_key : contains (insert_ctes (cte "pg" with_cte no_ctes) []) "pg" ≡ true
unfolding insert_ctes
hidden_key = refl

extract-hides_example :
    (refs : List DatabaseTableReference) × (extract_database_table_refs
        (parser (query (cte "pg" with_cte no_ctes) shadowed no_exprs))
        ""
      ≡ ok refs)
    × (refers refs ("pg", "customers") ≡ false)
extract-hides_example =
    extract-hides (parser (query (cte "pg" with_cte no_ctes) shadowed no_exprs)) ""
      (cte "pg" with_cte no_ctes) shadowed no_exprs ("pg", "customers") refl hidden_key
