-- ===== src/Explain/Results.antt =====
-- The graph that `build_plan_graph_with_broadcast` of qsql-daemon/src/explain.rs makes of a plan, and
-- the graph with the measurements of a run.
use quiver_sql.Base.{
  ℕ, suc, ◌+◌, ◌-◌, ◌≤◌, ◌<◌, String, Option, some, List, [], ◌∷◌, append-nil, length, length-take,
  take, ltb, leb, arith, ◌≡◌, refl, ap, ◌∙◌, min, usize_max, leb→le, lt→ltb, leb-false→lt,
  Bool-cases, inl, inr, false, true,
}
use quiver_sql.Broadcast.{BroadcastRewriteInfo}
use quiver_sql.Explain.{LogicalPlan, node, RemoteSqlMap, Registrations, PlanMetrics}
use quiver_sql.Explain.Attributes.{TraverseContext}
use quiver_sql.Explain.Graph.{
  Nodes, traverse_context, traverse_plan, state, graph_of, build_plan_graph_with_broadcast,
}
use quiver_sql.Explain.Numbers.{Keyed, Keyed-take}
use quiver_sql.Explain.Layout.{size, sizes, numbered, length-numbered, numbered-Keyed}
use quiver_sql.Explain.Same.{traverse-numbered, added}
use quiver_sql.Explain.Metrics.{walk_all, apply_runtime_metrics}
use quiver_sql.Explain.Walks.{
  Keyed-Has, pre_order_walk-numbered, range, measured, stamp_metrics-measured,
}

module _ (max_nodes : ℕ) (to_string : ℕ → String) (to_uppercase : String → String)
    (broadcast : Option BroadcastRewriteInfo) (remote_sqls : Option RemoteSqlMap)
    (registrations : Option Registrations) where
  -- The first nodes of the plan in pre-order, as many as the cap lets in.
  abbrev pub shown : LogicalPlan → Nodes
  shown p = take max_nodes (
      numbered max_nodes to_string to_uppercase
        (traverse_context broadcast remote_sqls registrations) p 0)

  abbrev ctx : TraverseContext
  ctx = traverse_context broadcast remote_sqls registrations

  at_start :
      (p : LogicalPlan)
      → max_nodes ≤ usize_max
      → graph_of (traverse_plan max_nodes to_string to_uppercase ctx p (state [] 0 false))
        ≡ graph_of (
          0,
          added max_nodes [] 0 false (numbered max_nodes to_string to_uppercase ctx p 0) (size p),
        )
  unfolding traverse_plan size graph_of
  at_start (node n inputs) fits = elim (Bool-cases (leb max_nodes 0)) [
    | inl none_fits ↦
        let cap : max_nodes ≡ 0 = omega (arith, leb→le _ _ none_fits) in
        let nothing : max_nodes - 0 ≡ 0 = omega arith in
        let beyond : ltb max_nodes (0 + suc (sizes inputs)) ≡ true = lt→ltb _ _ (omega arith) in
        rw (none_fits, nothing, beyond) refl
    | inr some_fit ↦ ap graph_of (
        traverse-numbered max_nodes to_string to_uppercase ctx fits (node n inputs) [] 0 false tt
          refl (leb-false→lt _ _ some_fit))
  ]

  graph_of-added :
      (nodes : Nodes) (s : ℕ)
      → length nodes ≡ s
      → graph_of (0, added max_nodes [] 0 false nodes s) ≡ (record {
        root_ids = 0 ∷ [];
        nodes = take max_nodes nodes;
        node_count = min s max_nodes;
        truncated = ltb max_nodes s;
      })
  unfolding graph_of
  graph_of-added nodes s e =
      let whole : max_nodes - 0 ≡ max_nodes = omega arith in
      let from_zero : 0 + s ≡ s = omega arith in
      let count : length (take max_nodes nodes) ≡ min s max_nodes =
        omega (arith, length-take max_nodes nodes) in
      rw (whole, from_zero, count) refl

  -- Whatever the plan, its graph has the root `df_0` and the nodes of the plan in pre-order, the
  -- `i`-th under `df_{i}` with the identifiers of those of its inputs that are below the cap; it
  -- stops at the cap, it counts its nodes, and it says that it is truncated exactly if the plan has
  -- more nodes than the cap.
  pub build_plan_graph-numbered :
      (p : LogicalPlan)
      → max_nodes ≤ usize_max
      → build_plan_graph_with_broadcast max_nodes to_string to_uppercase p broadcast remote_sqls
          registrations
        ≡ (record {
          root_ids = 0 ∷ [];
          nodes = shown p;
          node_count = min (size p) max_nodes;
          truncated = ltb max_nodes (size p);
        })
  unfolding build_plan_graph_with_broadcast
  build_plan_graph-numbered p fits =
      at_start p fits
      ∙ graph_of-added (numbered max_nodes to_string to_uppercase ctx p 0) (size p)
          (length-numbered max_nodes to_string to_uppercase ctx p 0)

  -- The walk over that graph ends and visits its nodes in the order of their identifiers, so that
  -- with fuel for the plan each node gets the measurements at its own index, as far as there are any.
  pub apply_runtime_metrics-measured :
      (p : LogicalPlan) (metrics : List PlanMetrics) (fuel : ℕ)
      → 0 < max_nodes
      → max_nodes ≤ usize_max
      → size p ≤ fuel
      → let graph =
          build_plan_graph_with_broadcast max_nodes to_string to_uppercase p broadcast remote_sqls
            registrations in
        apply_runtime_metrics fuel graph metrics
        ≡ some (record graph { nodes = measured graph.nodes metrics })
  unfolding apply_runtime_metrics walk_all
  apply_runtime_metrics-measured p metrics fuel pos fits room =
      let nodes = shown p in
      let keyed : Keyed 0 nodes =
        Keyed-take 0 max_nodes _ (numbered-Keyed max_nodes to_string to_uppercase ctx p 0) in
      let whole : max_nodes - 0 ≡ max_nodes = omega arith in
      let walked =
        pre_order_walk-numbered max_nodes to_string to_uppercase ctx nodes p 0 fuel pos room
          (rw whole (Keyed-Has [] nodes 0 tt refl keyed)) in
      let count : min (size p) (max_nodes - 0) ≡ length nodes = omega (
        arith,
        length-take max_nodes (numbered max_nodes to_string to_uppercase ctx p 0),
        length-numbered max_nodes to_string to_uppercase ctx p 0,
      ) in
      rw
        (
          build_plan_graph-numbered p fits,
          walked,
          append-nil (range 0 (min (size p) (max_nodes - 0))),
          count,
          stamp_metrics-measured nodes metrics keyed,
        )
        refl
