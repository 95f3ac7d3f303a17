-- ===== src/Explain/Tests.antt =====
-- The plan graph of qsql-daemon/src/explain.rs at concrete plans.
use quiver_sql.Base.{
  ℕ, String, true, false, none, some, List, [], ◌∷◌, map, min, ltb, arith, ◌≡◌, refl, ◌==◌,
  if◌then◌else◌,
}
use quiver_sql.Sessions.Maps.{get}
use quiver_sql.Explain.{
  qualified_table_name, partial, TableScan, sort, join, table_scan, Node, LogicalPlan, node,
  no_plans, plan, RemoteSqlMap, PlanMetrics,
}
use quiver_sql.Explain.Texts.{comma_list_contains, split_commas}
use quiver_sql.SqlTypes.Text.{trim, trim_end, trim_start}
use quiver_sql.SqlText.{is_whitespace, is_blank}
use quiver_sql.Explain.Badges.{classify_pushdown_reason, reason_of, multi_source}
use quiver_sql.Explain.Graph.{
  graph_of, traverse_plan, insert_node, update_node, contains_key, plan_node, with_source,
  build_plan_graph_with_broadcast,
}
use quiver_sql.Explain.Layout.{size}
use quiver_sql.Explain.Metrics.{apply_runtime_metrics}
use quiver_sql.Explain.Walks.{measured}
use quiver_sql.Explain.Results.{shown, build_plan_graph-numbered, apply_runtime_metrics-measured}

-- Numbers below two are printed.
abbrev digits : ℕ → String
digits n = if n == 0 then "0" else if n == 1 then "1" else "many"

-- The statements of the tests are in upper case.
abbrev upper : String → String
upper s = s

abbrev scan : String → TableScan
scan table = record {
  table_name = partial "pg" table;
  projection = none;
  filters = [];
  fetch = none;
  budget = none;
}

abbrev leaf : String → LogicalPlan
leaf table =
    node (record { operator = table_scan (scan table); display = table; columns = "id" ∷ [] })
      no_plans

abbrev joined : LogicalPlan
joined =
    node
      (record {
        operator = join "Inner" (("a.id", "b.id") ∷ []) none;
        display = "Inner Join";
        columns = "id" ∷ [];
      })
      (plan (leaf "a") (plan (leaf "b") no_plans))

abbrev sort_node : Node
sort_node = record {
  operator = sort (record { text = "id ASC"; expr = "id" } ∷ []) none;
  display = "Sort";
  columns = "id" ∷ [];
}

abbrev sorted : LogicalPlan
sorted = node sort_node (plan joined no_plans)

abbrev captured : RemoteSqlMap
captured =
    ("pg.a", record { sql = "SELECT ID FROM A ORDER BY ID"; executor_name = "postgres" })
    ∷ ("pg.b", record { sql = "SELECT ID FROM B"; executor_name = "postgres" })
    ∷ []

abbrev one_row : PlanMetrics
one_row = record { actual_rows = some 1; elapsed_compute_ms = some 0; mem_used_bytes = none }

all_nodes : (build_plan_graph_with_broadcast 500 digits upper sorted none none none).node_count ≡ 4
unfolding build_plan_graph_with_broadcast graph_of traverse_plan insert_node update_node
    contains_key plan_node with_source
all_nodes = refl

up_to_cap :
    map {B = String × List ℕ}
      (λ e. (e.1.label, e.1.children))
      (build_plan_graph_with_broadcast 3 digits upper sorted none none none).nodes
    ≡ ("Sort", 1 ∷ []) ∷ ("Inner Join", 2 ∷ []) ∷ ("a", []) ∷ []
unfolding build_plan_graph_with_broadcast graph_of traverse_plan insert_node update_node
    contains_key plan_node with_source
up_to_cap = refl

says_truncated :
    (build_plan_graph_with_broadcast 3 digits upper sorted none none none).truncated ≡ true
unfolding build_plan_graph_with_broadcast graph_of traverse_plan insert_node update_node
    contains_key plan_node with_source
says_truncated = refl

spaces_are_trimmed : comma_list_contains "pg.a, pg.b" "pg.b" ≡ true
unfolding comma_list_contains split_commas trim trim_end trim_start is_whitespace is_blank
spaces_are_trimmed = refl

two_sources :
    classify_pushdown_reason (scan "b") (some captured) false true ≡ some "multi_source_join"
unfolding classify_pushdown_reason reason_of get qualified_table_name multi_source
two_sources = refl

build_plan_graph-numbered_example :
    build_plan_graph_with_broadcast 3 digits upper sorted none (some captured) none ≡ (record {
      root_ids = 0 ∷ [];
      nodes = shown 3 digits upper none (some captured) none sorted;
      node_count = min (size sorted) 3;
      truncated = ltb 3 (size sorted);
    })
build_plan_graph-numbered_example =
    build_plan_graph-numbered 3 digits upper none (some captured) none sorted (omega arith)

apply_runtime_metrics-measured_example :
    apply_runtime_metrics 4
      (build_plan_graph_with_broadcast 500 digits upper sorted none none none)
      (one_row ∷ [])
    ≡ some (record (build_plan_graph_with_broadcast 500 digits upper sorted none none none) {
      nodes =
          measured
            (build_plan_graph_with_broadcast 500 digits upper sorted none none none).nodes
            (one_row ∷ []);
    })
unfolding size
apply_runtime_metrics-measured_example =
    apply_runtime_metrics-measured 500 digits upper none none none sorted (one_row ∷ []) 4
      (omega arith) (omega arith) (omega arith)
