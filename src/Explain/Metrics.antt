-- ===== src/Explain/Metrics.antt =====
-- `apply_runtime_metrics` of qsql-daemon/src/explain.rs: the walk over the graph and the stamps. The
-- walk has fuel; `none` means that it ran out.
use quiver_sql.Base.{ℕ, zero, suc, Option, none, some, List, [], ◌∷◌, ◌++◌}
use quiver_sql.Explain.{PlanMetrics, PlanNode, PlanGraph}
use quiver_sql.Explain.Graph.{Nodes, get_node, update_node}

abbrev pub cons_some : ℕ → Option (List ℕ) → Option (List ℕ)
cons_some id none = none
cons_some id (some ids) = some (id ∷ ids)

abbrev pub append_some : Option (List ℕ) → Option (List ℕ) → Option (List ℕ)
append_some none rest = none
append_some (some ids) none = none
append_some (some ids) (some rest) = some (ids ++ rest)

unfoldable pub walk_all : (ℕ → Option (List ℕ)) → List ℕ → Option (List ℕ)
walk_all walk [] = some []
walk_all walk (id ∷ ids) = append_some (walk id) (walk_all walk ids)

unfoldable pub walk_found :
    (List ℕ → Option (List ℕ)) → (id : ℕ) → Option PlanNode → Option (List ℕ)
walk_found walk_children id none = some (id ∷ [])
walk_found walk_children id (some n) = cons_some id (walk_children n.children)

unfoldable pub pre_order_walk : (fuel : ℕ) → Nodes → ℕ → Option (List ℕ)
pre_order_walk zero nodes id = none
pre_order_walk (suc fuel) nodes id =
    walk_found (walk_all (pre_order_walk fuel nodes)) id (get_node id nodes)

abbrev pub with_metrics : PlanMetrics → PlanNode → PlanNode
with_metrics physical n = record n { metrics = physical }

-- `metrics.get(idx)` for the index of an identifier in the walk.
unfoldable pub stamp_metrics : List ℕ → List PlanMetrics → Nodes → Nodes
stamp_metrics [] metrics nodes = nodes
stamp_metrics (id ∷ ids) [] nodes = nodes
stamp_metrics (id ∷ ids) (physical ∷ metrics) nodes =
    stamp_metrics ids metrics (update_node id (with_metrics physical) nodes)

abbrev pub stamp_walked : Option (List ℕ) → List PlanMetrics → PlanGraph → Option PlanGraph
stamp_walked none metrics graph = none
stamp_walked (some ids) metrics graph =
    some (record graph { nodes = stamp_metrics ids metrics graph.nodes })

unfoldable pub apply_runtime_metrics : (fuel : ℕ) → PlanGraph → List PlanMetrics → Option PlanGraph
apply_runtime_metrics fuel graph metrics =
    stamp_walked (walk_all (pre_order_walk fuel graph.nodes) graph.root_ids) metrics graph
