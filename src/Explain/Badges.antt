-- ===== src/Explain/Badges.antt =====
-- Which broadcast applications, remote statements and sources the nodes of the plan graph of
-- qsql-daemon/src/explain.rs show.
use quiver_sql.Base.{
  ℕ, suc, String, Bool, true, false, ◌&&◌, ◌||◌, not, Option, none, some, List, [], ◌∷◌, ◌++◌, map,
  ltb, length, if◌then◌else◌, is_some,
}
use quiver_sql.Models.{
  SourceKind, csv, parquet, json, ndjson, sqlite, fixed_width, postgres, mysql, mariadb,
}
use quiver_sql.Broadcast.{BroadcastApplication, BroadcastRewriteInfo}
use quiver_sql.TableRefs.{contains}
use quiver_sql.SqlTypes.Text.{trim}
use quiver_sql.Sessions.Maps.{get}
use quiver_sql.Explain.{
  TableReference, qualified_table_name, table_alias_and_name, Expr, column, in_list, expression,
  TableScan, table_scan, extension, Node, LogicalPlan, node, LogicalPlans, no_plans, plan,
  RemoteSqlInfo, RemoteSqlMap, Registrations,
}
use quiver_sql.Explain.Texts.{comma_list_contains, split_commas, sql_contains_order_by}

-- `iter().find(test)`.
abbrev pub find {ℓ} : {A : Type ℓ} → (A → Bool) → List A → Option A
find test [] = none
find test (x ∷ xs) = if test x then some x else find test xs

abbrev pub for_all {ℓ} : {A : Type ℓ} → (A → Bool) → List A → Bool
for_all test [] = true
for_all test (x ∷ xs) = test x && for_all test xs

unfoldable pub application_targeting_remote_table :
    List BroadcastApplication → String → Option BroadcastApplication
application_targeting_remote_table applications qualified =
    find (λ app. comma_list_contains app.remote_table qualified) applications

unfoldable pub application_targeting_local_table :
    List BroadcastApplication → String → Option BroadcastApplication
application_targeting_local_table applications qualified =
    find (λ app. comma_list_contains app.local_table qualified) applications

-- The scan of a node, in a list.
unfoldable pub scan_of : Node → List TableScan
scan_of n = elim n.operator [ table_scan s ↦ s ∷ [] | _ ↦ [] ]

-- `collect_scans`, the scans in the order in which `walk_logical_plan` visits them.
unfoldable mutual
  pub collect_scans : LogicalPlan → List TableScan
  collect_scans (node n inputs) = scan_of n ++ collect_scans_of inputs

  pub collect_scans_of : LogicalPlans → List TableScan
  collect_scans_of no_plans = []
  collect_scans_of (plan p ps) = collect_scans p ++ collect_scans_of ps

-- A set of names, as a list that only `contains` reads.
unfoldable pub collect_scan_names_set : LogicalPlan → List String
collect_scan_names_set p = map (λ s. qualified_table_name s.table_name) (collect_scans p)

abbrev pub is_subset : List String → List String → Bool
is_subset xs ys = for_all (contains ys) xs

unfoldable pub sides_match : (left_scans right_scans local_set remote_set : List String) → Bool
sides_match left_scans right_scans local_set remote_set =
    (is_subset local_set left_scans && is_subset remote_set right_scans)
    || (is_subset local_set right_scans && is_subset remote_set left_scans)

-- A join has two inputs.
unfoldable pub join_matches_application : LogicalPlans → BroadcastApplication → Bool
join_matches_application (plan left (plan right no_plans)) app =
    sides_match (collect_scan_names_set left) (collect_scan_names_set right)
      (map trim (split_commas app.local_table)) (map trim (split_commas app.remote_table))
join_matches_application _ app = false

unfoldable pub broadcast_filter_targets : Option BroadcastRewriteInfo → List String
broadcast_filter_targets none = []
broadcast_filter_targets (some info) = map (λ app. app.join_key_remote) info.applied

unfoldable pub matched_broadcast_target : Expr → List String → Option String
matched_broadcast_target (in_list (column key) items text) targets =
    if contains targets key then some key else none
matched_broadcast_target (in_list (in_list e n t) items text) targets = none
matched_broadcast_target (in_list (expression t) items text) targets = none
matched_broadcast_target (column key) targets = none
matched_broadcast_target (expression text) targets = none

unfoldable pub source_kind_to_provider_kind : SourceKind → String
source_kind_to_provider_kind postgres = "postgres"
source_kind_to_provider_kind mysql = "mysql"
source_kind_to_provider_kind mariadb = "mariadb"
source_kind_to_provider_kind sqlite = "sqlite"
source_kind_to_provider_kind csv = "csv"
source_kind_to_provider_kind ndjson = "ndjson"
source_kind_to_provider_kind json = "json"
source_kind_to_provider_kind parquet = "parquet"
source_kind_to_provider_kind fixed_width = "fixed_width"

-- `option.and_then(|m| m.get(key))`.
abbrev pub get_from : {V : Type 0} → Option (List (String × V)) → String → Option V
get_from none key = none
get_from (some m) key = get key m

-- The registration of the alias of a table, if it has one.
unfoldable pub registered_kind : Option Registrations → Option (String × String) → Option SourceKind
registered_kind registrations none = none
registered_kind registrations (some (alias, table)) = get_from registrations alias

abbrev pub kind_or_executor : Option SourceKind → Option RemoteSqlInfo → Option String
kind_or_executor (some kind) info = some (source_kind_to_provider_kind kind)
kind_or_executor none none = none
kind_or_executor none (some info) = some info.executor_name

unfoldable pub classify_provider_kind :
    TableReference → Option Registrations → Option RemoteSqlInfo → Option String
classify_provider_kind table_ref registrations remote_info =
    kind_or_executor (registered_kind registrations (table_alias_and_name table_ref)) remote_info

-- `remote_sqls.map(|m| m.len() > 1).unwrap_or(false)`.
unfoldable pub multi_source : Option RemoteSqlMap → Bool
multi_source none = false
multi_source (some m) = ltb 1 (length m)

unfoldable pub reason_of :
    (captured : Option RemoteSqlInfo) → Option RemoteSqlMap → (guarded : Bool) → Option String
reason_of none remote_sqls guarded = if guarded then some "local_file_scan" else none
reason_of (some info) remote_sqls guarded =
    if multi_source remote_sqls then some "multi_source_join" else some "unsupported_expression"

unfoldable pub classify_pushdown_reason :
    TableScan → Option RemoteSqlMap → (is_guarded_provider is_full_scan : Bool) → Option String
classify_pushdown_reason scan remote_sqls guarded full_scan =
    if full_scan
    then reason_of (get_from remote_sqls (qualified_table_name scan.table_name)) remote_sqls guarded
    else none

abbrev max_depth : ℕ
max_depth = 8

-- The `match` of `subtree_is_fully_federated`.
unfoldable pub fully_federated_node : Node → (inputs_federated is_leaf : Bool) → Bool
fully_federated_node n inputs_federated is_leaf = elim n.operator [
  | table_scan s ↦ is_some s.budget
  | extension ↦ true
  | _ ↦ not is_leaf && inputs_federated
]

abbrev pub no_inputs : LogicalPlans → Bool
no_inputs no_plans = true
no_inputs (plan p ps) = false

unfoldable mutual
  pub subtree_is_fully_federated : LogicalPlan → (depth : ℕ) → Bool
  subtree_is_fully_federated (node n inputs) depth =
      let below = all_fully_federated inputs (suc depth) in
      if ltb max_depth depth then false else fully_federated_node n below (no_inputs inputs)

  pub all_fully_federated : LogicalPlans → (depth : ℕ) → Bool
  all_fully_federated no_plans depth = true
  all_fully_federated (plan p ps) depth =
      subtree_is_fully_federated p depth && all_fully_federated ps depth

module _ (to_uppercase : String → String) where
  -- The `ORDER BY` of the statement for a table, if one was captured.
  unfoldable pub ordered_remotely : Option RemoteSqlInfo → Bool
  ordered_remotely none = false
  ordered_remotely (some info) = sql_contains_order_by to_uppercase info.sql

  -- The visit of a scan: `any_scan` and `all_pushed`.
  unfoldable pub visit_scan : RemoteSqlMap → TableScan → Bool × Bool → Bool × Bool
  visit_scan remote_sqls s (any_scan, all_pushed) = (
    true,
    (if ordered_remotely (get (qualified_table_name s.table_name) remote_sqls)
        then all_pushed
        else false),
  )

  unfoldable pub visit_scans : RemoteSqlMap → List TableScan → Bool × Bool → Bool × Bool
  visit_scans remote_sqls [] seen = seen
  visit_scans remote_sqls (s ∷ ss) seen = visit_scans remote_sqls ss (visit_scan remote_sqls s seen)

  unfoldable pub sort_was_pushed_to_every_scan : LogicalPlan → RemoteSqlMap → Bool
  sort_was_pushed_to_every_scan p remote_sqls =
      let seen = visit_scans remote_sqls (collect_scans p) (false, true) in seen.0 && seen.1
