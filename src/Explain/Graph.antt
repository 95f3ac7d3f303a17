-- ===== src/Explain/Graph.antt =====
-- `build_plan_graph_with_broadcast` and `traverse_plan` of qsql-daemon/src/explain.rs. The cap on
-- the nodes is what the environment gives; the map of the nodes lists its entries in the order in
-- which they were inserted.
use quiver_sql.Base.{
  ℕ, ◌+◌, ◌%◌, ◌^◌, String, Bool, true, false, Option, none, some, List, [], ◌∷◌, length, leb, ◌==◌,
  if◌then◌else◌,
}
use quiver_sql.Broadcast.{BroadcastApplication, BroadcastRewriteInfo}
use quiver_sql.Explain.{
  qualified_table_name, Operator, table_scan, Node, LogicalPlan, node, LogicalPlans, no_plans, plan,
  RemoteSqlInfo, RemoteSqlMap, Registrations, PlanMetrics, PlanNode, PlanGraph,
}
use quiver_sql.Explain.Badges.{broadcast_filter_targets, classify_provider_kind, get_from}
use quiver_sql.Explain.Attributes.{TraverseContext, node_type, node_attributes}

abbrev pub Nodes : Type 0
Nodes = List (ℕ × PlanNode)

-- `insert`, which replaces.
unfoldable pub insert_node : ℕ → PlanNode → Nodes → Nodes
insert_node id n [] = (id, n) ∷ []
insert_node id n ((id', n') ∷ nodes) =
    let rest = insert_node id n nodes in if id == id' then (id, n) ∷ nodes else (id', n') ∷ rest

unfoldable pub contains_key : ℕ → Nodes → Bool
contains_key id [] = false
contains_key id ((id', n') ∷ nodes) =
    let rest = contains_key id nodes in if id == id' then true else rest

unfoldable pub get_node : ℕ → Nodes → Option PlanNode
get_node id [] = none
get_node id ((id', n') ∷ nodes) =
    let rest = get_node id nodes in if id == id' then some n' else rest

-- `if let Some(node) = nodes.get_mut(id)`.
unfoldable pub update_node : ℕ → (PlanNode → PlanNode) → Nodes → Nodes
update_node id f [] = []
update_node id f ((id', n') ∷ nodes) =
    let rest = update_node id f nodes in if id == id' then (id', f n') ∷ nodes else (id', n') ∷ rest

-- `nodes`, `id_counter` and `truncated`.
pub record Traversal : Type 0 where
  pub nodes : Nodes
  pub id_counter : ℕ
  pub truncated : Bool

abbrev pub no_metrics : PlanMetrics
no_metrics = record { actual_rows = none; elapsed_compute_ms = none; mem_used_bytes = none }

abbrev pub with_children : List ℕ → PlanNode → PlanNode
with_children ids n = record n { children = ids }

abbrev pub sql_of : Option RemoteSqlInfo → Option String
sql_of none = none
sql_of (some info) = some info.sql

abbrev pub applications_of : Option BroadcastRewriteInfo → List BroadcastApplication
applications_of none = []
applications_of (some info) = info.applied

unfoldable pub traverse_context :
    Option BroadcastRewriteInfo → Option RemoteSqlMap → Option Registrations → TraverseContext
traverse_context broadcast remote_sqls registrations = record {
  broadcast_targets = broadcast_filter_targets broadcast;
  broadcast_applications = applications_of broadcast;
  remote_sqls = remote_sqls;
  registrations = registrations;
}

-- `nodes.get_mut(&current_id)`, and the identifier.
abbrev pub close_node : ℕ → List ℕ × Traversal → ℕ × Traversal
close_node id (children, t) =
    (id, record t { nodes = update_node id (with_children children) t.nodes })

-- `children.push` of a child that is in the map.
abbrev pub push_child : ℕ → Nodes → List ℕ × Traversal → List ℕ × Traversal
push_child id nodes (children, t) = (if contains_key id nodes then id ∷ children else children, t)

module _ (max_nodes : ℕ) (to_string : ℕ → String) (to_uppercase : String → String)
    (ctx : TraverseContext) where
  -- The source of a scan: its table, its provider and its captured SQL.
  unfoldable pub with_source : Operator → PlanNode → PlanNode
  with_source (table_scan s) n =
      let name = qualified_table_name s.table_name in
      let captured = get_from ctx.remote_sqls name in
      record n {
        source_ref = some name;
        native_plan_ref = some name;
        provider_kind = classify_provider_kind s.table_name ctx.registrations captured;
        remote_sql = sql_of captured;
      }
  with_source _ n = n

  -- The node that is inserted, without its children.
  unfoldable pub plan_node : Node → LogicalPlans → (id : ℕ) → PlanNode
  plan_node n inputs id = with_source n.operator (record {
    id = id;
    node_type = node_type n.operator;
    label = n.display;
    children = [];
    attributes = node_attributes to_string to_uppercase ctx n inputs;
    metrics = no_metrics;
    source_ref = none;
    native_plan_ref = none;
    provider_kind = none;
    remote_sql = none;
  })

  unfoldable mutual
    -- `*id_counter += 1` on a `usize`.
    pub traverse_plan : LogicalPlan → Traversal → ℕ × Traversal
    traverse_plan (node n inputs) t =
        let id = t.id_counter in
        let next = (id + 1) % 2 ^ 64 in
        let inserted = record t {
          nodes = insert_node id (plan_node n inputs id) t.nodes;
          id_counter = next;
        } in
        let below = traverse_inputs inputs inserted in
        if leb max_nodes (length t.nodes)
        then (id, record t { id_counter = next; truncated = true })
        else close_node id below

    pub traverse_inputs : LogicalPlans → Traversal → List ℕ × Traversal
    traverse_inputs no_plans t = ([], t)
    traverse_inputs (plan p ps) t =
        let child = traverse_plan p t in
        let siblings = traverse_inputs ps child.1 in
        if leb max_nodes (length t.nodes)
        then ([], record t { truncated = true })
        else push_child child.0 child.1.nodes siblings

abbrev pub state : Nodes → ℕ → Bool → Traversal
state nodes id_counter truncated = record {
  nodes = nodes;
  id_counter = id_counter;
  truncated = truncated;
}

unfoldable pub graph_of : ℕ × Traversal → PlanGraph
graph_of (root_id, t) = record {
  root_ids = root_id ∷ [];
  nodes = t.nodes;
  node_count = length t.nodes;
  truncated = t.truncated;
}

unfoldable pub build_plan_graph_with_broadcast :
    (max_nodes : ℕ) (to_string : ℕ → String) (to_uppercase : String → String)
    → LogicalPlan
    → Option BroadcastRewriteInfo
    → Option RemoteSqlMap
    → Option Registrations
    → PlanGraph
build_plan_graph_with_broadcast max_nodes to_string to_uppercase p broadcast remote_sqls
      registrations =
    let ctx = traverse_context broadcast remote_sqls registrations in
    graph_of (traverse_plan max_nodes to_string to_uppercase ctx p (state [] 0 false))
