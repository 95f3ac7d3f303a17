-- ===== src/Explain/Attributes.antt =====
-- The attributes of a node of the plan graph: `plan_attributes` and the stamps of `traverse_plan` in
-- qsql-daemon/src/explain.rs. The decimal digits of a number are a parameter.
use Prim.Native.String.{◌++◌ as push_str}
use quiver_sql.Base.{
  ℕ, zero, String, Bool, true, false, not, Option, none, some, List, [], ◌∷◌, map, str_eq,
  if◌then◌else◌, is_some,
}
use quiver_sql.Broadcast.{BroadcastApplication}
use quiver_sql.ScanBudgets.{ScanBudget}
use quiver_sql.Sessions.Maps.{insert}
use quiver_sql.Explain.{
  qualified_table_name, Expr, column, in_list, expression, TableScan, Operator, projection, filter,
  table_scan, aggregate, sort, join, repartition, union, subquery, subquery_alias, limit, extension,
  window, other, Node, LogicalPlans, no_plans, plan, RemoteSqlInfo, RemoteSqlMap, Registrations,
  Attributes,
}
use quiver_sql.Explain.Texts.{sql_has_where_or_limit}
use quiver_sql.Explain.Badges.{
  find, application_targeting_remote_table, application_targeting_local_table,
  join_matches_application, matched_broadcast_target, get_from, classify_pushdown_reason,
  sort_was_pushed_to_every_scan, subtree_is_fully_federated, ordered_remotely,
}

-- What a traversal carries along: `TraverseContext`.
pub record TraverseContext : Type 0 where
  pub broadcast_targets : List String
  pub broadcast_applications : List BroadcastApplication
  pub remote_sqls : Option RemoteSqlMap
  pub registrations : Option Registrations

-- `join(", ")`.
unfoldable pub join_texts : List String → String
join_texts [] = ""
join_texts (x ∷ []) = x
join_texts (x ∷ y ∷ xs) = push_str x (push_str ", " (join_texts (y ∷ xs)))

abbrev pub text_of : Expr → String
text_of (column flat_name) = flat_name
text_of (in_list e items text) = text
text_of (expression text) = text

-- An attribute that is there only with a value.
abbrev pub insert_some : String → Option String → Attributes → Attributes
insert_some key none attributes = attributes
insert_some key (some value) attributes = insert key value attributes

abbrev pub insert_if : Bool → String → String → Attributes → Attributes
insert_if test key value attributes = if test then insert key value attributes else attributes

abbrev is_empty : List String → Bool
is_empty [] = true
is_empty (x ∷ xs) = false

abbrev no_pairs : List (String × String) → Bool
no_pairs [] = true
no_pairs (x ∷ xs) = false

abbrev map_option : {A B : Type 0} → (A → B) → Option A → Option B
map_option f none = none
map_option f (some a) = some (f a)

unfoldable pub bool_text : Bool → String
bool_text true = "true"
bool_text false = "false"

abbrev pub node_type : Operator → String
node_type (projection exprs) = "Projection"
node_type (filter predicate) = "Filter"
node_type (table_scan s) = "TableScan"
node_type aggregate = "Aggregate"
node_type (sort exprs fetch) = "Sort"
node_type (join join_type on extra) = "Join"
node_type repartition = "Repartition"
node_type union = "Union"
node_type subquery = "Subquery"
node_type (subquery_alias alias) = "SubqueryAlias"
node_type limit = "Limit"
node_type extension = "Extension"
node_type window = "Window"
node_type other = "Other"

module _ (to_string : ℕ → String) where
  unfoldable pub budget_attributes : Option ScanBudget → Attributes → Attributes
  budget_attributes none attributes = attributes
  budget_attributes (some budget) attributes =
      insert "scan_budget_bytes" (to_string budget.max_bytes) (
        insert "scan_budget_rows" (to_string budget.max_rows)
          (insert "guarded_scan" "true" attributes))

  unfoldable pub scan_attributes : TableScan → Attributes → Attributes
  scan_attributes s attributes = budget_attributes s.budget (
      insert_some "limit" (map_option to_string s.fetch) (
        insert_if (not (is_empty s.filters)) "filters" (join_texts s.filters) (
          insert_some "projection" s.projection
            (insert "table" (qualified_table_name s.table_name) attributes))))

  unfoldable pub operator_attributes : Operator → Attributes → Attributes
  operator_attributes (projection exprs) attributes =
      insert "expressions" (join_texts exprs) attributes
  operator_attributes (filter predicate) attributes =
      insert "predicate" (text_of predicate) attributes
  operator_attributes (table_scan s) attributes = scan_attributes s attributes
  operator_attributes (sort exprs fetch) attributes =
      insert_some "limit" (map_option to_string fetch) (
        insert "sort_columns" (join_texts (map (λ e. e.expr) exprs))
          (insert "sort" (join_texts (map (λ e. e.text) exprs)) attributes))
  operator_attributes (join join_type on extra) attributes = insert_some "filter" extra (
      insert_if (not (no_pairs on)) "join_condition"
        (join_texts (map (λ (l, r). push_str l (push_str " = " r)) on))
        (insert "join_type" join_type attributes))
  operator_attributes (subquery_alias alias) attributes =
      insert "alias" (qualified_table_name alias) attributes
  operator_attributes _ attributes = attributes

  unfoldable pub plan_attributes : Node → Attributes
  plan_attributes n = operator_attributes n.operator (
      insert_if (not (str_eq (join_texts n.columns) "")) "output_columns" (join_texts n.columns) [])

  -- `broadcast_elapsed_ms`, a clock reading, is left out.
  unfoldable pub stamp_broadcast_attrs :
      BroadcastApplication → (role : String) → Attributes → Attributes
  stamp_broadcast_attrs app role attributes = insert "broadcast_remote_table" app.remote_table (
      insert "broadcast_local_table" app.local_table (
        insert "broadcast_predicate_value_count" (to_string app.predicate_value_count) (
          insert "broadcast_predicate_column" app.join_key_remote
            (insert "broadcast_role" role (insert "broadcast_rewrite" "true" attributes)))))

  abbrev pub stamp_some : Option BroadcastApplication → String → Attributes → Attributes
  stamp_some none role attributes = attributes
  stamp_some (some app) role attributes = stamp_broadcast_attrs app role attributes

  abbrev pub stamp_scan :
      (remote_app local_app : Option BroadcastApplication) → Attributes → Attributes
  stamp_scan (some app) local_app attributes = stamp_broadcast_attrs app "remote_scan" attributes
  stamp_scan none local_app attributes = stamp_some local_app "local_scan" attributes

  unfoldable pub item_count : Expr → Attributes → Attributes
  item_count (in_list e items text) attributes =
      insert "broadcast_predicate_value_count" (to_string items) attributes
  item_count _ attributes = attributes

  unfoldable pub stamp_filter :
      Expr → (target : String) → Option BroadcastApplication → Attributes → Attributes
  stamp_filter predicate target (some app) attributes =
      stamp_broadcast_attrs app "filter" attributes
  stamp_filter predicate target none attributes = item_count predicate (
      insert "broadcast_predicate_column" target
        (insert "broadcast_role" "filter" (insert "broadcast_rewrite" "true" attributes)))

  unfoldable pub stamp_target :
      List BroadcastApplication → Expr → Option String → Attributes → Attributes
  stamp_target applications predicate none attributes = attributes
  stamp_target applications predicate (some target) attributes =
      stamp_filter predicate target (find (λ app. str_eq app.join_key_remote target) applications)
        attributes

  unfoldable pub stamp_broadcast :
      TraverseContext → Operator → LogicalPlans → Attributes → Attributes
  stamp_broadcast ctx (table_scan s) inputs attributes =
      stamp_scan
        (application_targeting_remote_table ctx.broadcast_applications
          (qualified_table_name s.table_name))
        (application_targeting_local_table ctx.broadcast_applications
          (qualified_table_name s.table_name))
        attributes
  stamp_broadcast ctx (join join_type on extra) inputs attributes =
      stamp_some (find (join_matches_application inputs) ctx.broadcast_applications) "join"
        attributes
  stamp_broadcast ctx (filter predicate) inputs attributes =
      stamp_target ctx.broadcast_applications predicate
        (matched_broadcast_target predicate ctx.broadcast_targets) attributes
  stamp_broadcast ctx _ inputs attributes = attributes

  module _ (to_uppercase : String → String) where
    -- A sort has one input, `sort.input`.
    unfoldable pub sort_pushed : Option RemoteSqlMap → LogicalPlans → Bool
    sort_pushed (some remote_sqls) (plan input no_plans) =
        sort_was_pushed_to_every_scan to_uppercase input remote_sqls
    sort_pushed none (plan input no_plans) = subtree_is_fully_federated input zero
    sort_pushed _ _ = false

    unfoldable pub is_full_scan : TableScan → Option RemoteSqlInfo → Bool
    is_full_scan s (some info) = not (sql_has_where_or_limit to_uppercase info.sql)
    is_full_scan s none = if is_empty s.filters then not (is_some s.fetch) else false

    unfoldable pub stamp_pushdown :
        Option RemoteSqlMap → TableScan → Option RemoteSqlInfo → Attributes → Attributes
    stamp_pushdown remote_sqls s captured attributes =
        insert_some "pushdown_reason"
          (classify_pushdown_reason s remote_sqls (is_some s.budget) (is_full_scan s captured))
          (insert_if (is_full_scan s captured) "is_full_scan" "true" (
            insert_if (ordered_remotely to_uppercase captured) "sort_pushed_down" "true"
              attributes))

    unfoldable pub stamp_sort : TraverseContext → Operator → LogicalPlans → Attributes → Attributes
    stamp_sort ctx (sort exprs fetch) inputs attributes =
        insert "sort_pushed_down" (bool_text (sort_pushed ctx.remote_sqls inputs)) attributes
    stamp_sort ctx (table_scan s) inputs attributes =
        stamp_pushdown ctx.remote_sqls s
          (get_from ctx.remote_sqls (qualified_table_name s.table_name)) attributes
    stamp_sort ctx _ inputs attributes = attributes

    unfoldable pub node_attributes : TraverseContext → Node → LogicalPlans → Attributes
    node_attributes ctx n inputs =
        stamp_sort ctx n.operator inputs (stamp_broadcast ctx n.operator inputs (plan_attributes n))
