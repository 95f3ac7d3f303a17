-- ===== src/Broadcast/Rewrite.antt =====
-- `rewrite_node`, `recurse_into_children` and `apply_broadcast_rewrites` of
-- qsql-core/src/broadcast.rs: the walk over a plan, bottom-up, with the report threaded through.
use quiver_sql.Base.{String, Option, none, some, [], Result, ok, ◌>>=◌, if◌then◌else◌}
use quiver_sql.Broadcast.{
  BroadcastRewriteConfig, BroadcastRewriteInfo, DataFusion, LogicalPlan, LogicalPlans, table_scan,
  empty_relation, join, filter_in, extension, operator, no_plans, plan,
}
use quiver_sql.Broadcast.Keys.{Planner}
use quiver_sql.Broadcast.Joins.{checked, try_rewrite_join}

-- `BroadcastRewriteInfo::default()`.
unfoldable pub empty_info : BroadcastRewriteInfo
empty_info = record { considered = 0; applied = []; skipped = [] }

module _ (d : DataFusion) (planner : Planner d) (config : BroadcastRewriteConfig) where
  abbrev pub Rewritten : Type 0
  Rewritten = Result String (LogicalPlan d × BroadcastRewriteInfo)

  -- `maybe.unwrap_or(plan)`.
  abbrev pub unwrap_or :
      LogicalPlan d
      → Option (LogicalPlan d) × BroadcastRewriteInfo
      → LogicalPlan d × BroadcastRewriteInfo
  unwrap_or p (none, info) = (p, info)
  unwrap_or p (some q, info) = (q, info)

  -- `plan.with_new_exprs(plan.expressions(), new_inputs)`, for a plan whose inputs are rewritten.
  abbrev pub with_new_inputs : LogicalPlan d → BroadcastRewriteInfo → Rewritten
  with_new_inputs p info = checked d planner p >>= λ q. ok (q, info)

  -- "if inputs.is_empty() { return Ok(plan) }".
  abbrev pub rebuilt :
      (LogicalPlans d → LogicalPlan d) → LogicalPlans d → BroadcastRewriteInfo → Rewritten
  rebuilt node no_plans info = ok (node no_plans, info)
  rebuilt node (plan p ps) info = with_new_inputs (node (plan p ps)) info

  unfoldable mutual
    pub rewrite_node : LogicalPlan d → BroadcastRewriteInfo → Rewritten
    rewrite_node (table_scan n guarded) info = ok (table_scan n guarded, info)
    rewrite_node (empty_relation s) info = ok (empty_relation s, info)
    rewrite_node (join j left right) info = rewrite_node left info >>= λ l.
        rewrite_node right l.1 >>= λ r. with_new_inputs (join j l.0 r.0) r.1 >>= λ p.
        try_rewrite_join d planner config j l.0 r.0 p.1 >>= λ maybe. ok (unwrap_or p.0 maybe)
    rewrite_node (filter_in c vs input) info =
        rewrite_node input info >>= λ i. with_new_inputs (filter_in c vs i.0) i.1
    rewrite_node (extension o inputs) info =
        rewrite_inputs inputs info >>= λ is. rebuilt (extension o) is.0 is.1
    rewrite_node (operator o inputs) info =
        rewrite_inputs inputs info >>= λ is. rebuilt (operator o) is.0 is.1

    -- The loop of `recurse_into_children`.
    pub rewrite_inputs :
        LogicalPlans d
        → BroadcastRewriteInfo
        → Result String (LogicalPlans d × BroadcastRewriteInfo)
    rewrite_inputs no_plans info = ok (no_plans, info)
    rewrite_inputs (plan p ps) info =
        rewrite_node p info >>= λ q. rewrite_inputs ps q.1 >>= λ qs. ok (plan q.0 qs.0, qs.1)

  unfoldable pub apply_broadcast_rewrites : LogicalPlan d → Rewritten
  unfolding empty_info
  apply_broadcast_rewrites p =
      let rewritten = rewrite_node p empty_info in
      if config.enabled then rewritten else ok (p, empty_info)
