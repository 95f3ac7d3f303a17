-- ===== src/Broadcast/Reports.antt =====
-- The entries that the rewrite of qsql-core/src/broadcast.rs reports stay within its caps.
use mathlib.Core.Path.{subst}
use quiver_sql.Base.{
  ◌≤◌, ◌<◌, String, none, some, [], ◌∷◌, All, All-append, usize_max, Result, ok, err, ◌>>=◌,
  if_elim, inl, inr, arith,
}
use quiver_sql.Broadcast.{
  BroadcastRewriteConfig, BroadcastApplication, BroadcastRewriteInfo, DataFusion, JoinOn,
  LogicalPlan, LogicalPlans, table_scan, empty_relation, join, filter_in, extension, operator,
  no_plans, plan,
}
use quiver_sql.Broadcast.Keys.{Planner, fetch_limit, materialize_distinct_keys}
use quiver_sql.Broadcast.Joins.{considered_one, Outcome, checked}
use quiver_sql.Broadcast.Rewrite.{
  unwrap_or, rebuilt, rewrite_node, rewrite_inputs, empty_info, apply_broadcast_rewrites,
}
use quiver_sql.Broadcast.Views.{Ends, Applies, try_rewrite_join-Ends}
use quiver_sql.Broadcast.Meaning.{all_keys}
use quiver_sql.Broadcast.Values.{DebugInjective, KeptOf, collect_distinct_scalars-KeptOf}
use quiver_sql.Broadcast.Caps.{materialize-Capped, capped_count}

-- An entry within the caps, with no more values in its predicate than rows.
abbrev pub IsCapped : BroadcastRewriteConfig → BroadcastApplication → Type 0
IsCapped config app =
    (app.local_rows_materialized ≤ config.max_local_rows)
    × (app.local_bytes_materialized ≤ config.max_local_bytes)
    × (app.predicate_value_count ≤ app.local_rows_materialized)

abbrev pub Reports :
    {P : Type 0} → BroadcastRewriteConfig → Result String (P × BroadcastRewriteInfo) → Type 0
Reports config (err e) = Unit
Reports config (ok (p, info)) = All (IsCapped config) info.applied

bind-Reports :
    {P Q : Type 0} (config : BroadcastRewriteConfig)
    (first : Result String (P × BroadcastRewriteInfo))
    (next : P × BroadcastRewriteInfo → Result String (Q × BroadcastRewriteInfo))
    → Reports config first
    → ((p : P) (info : BroadcastRewriteInfo)
        → All (IsCapped config) info.applied
        → Reports config (next (p, info)))
    → Reports config (first >>= next)
bind-Reports config (err e) next h k = tt
bind-Reports config (ok (p, info)) next h k = k p info h

module _ (d : DataFusion) (planner : Planner d) (config : BroadcastRewriteConfig)
    (inj : DebugInjective d planner) (room : config.max_local_rows < usize_max) where
  Applies-IsCapped :
      (j : JoinOn d) (l r : LogicalPlan d) (app : BroadcastApplication) (p : LogicalPlan d)
      → Applies d planner config j l r app p
      → IsCapped config app
  unfolding materialize_distinct_keys
  Applies-IsCapped j l r app p (s, bs, rows, bytes, split, made, inl (zero_rows, same, reported)) =
      rw reported (omega arith, omega arith, omega arith)
  Applies-IsCapped j l r app p
        (s, bs, rows, bytes, split, made, inr (ty, vs, distinct, same, reported)) =
      let (ran, count, few, small) =
        materialize-Capped config (planner.key_query s.local_input s.local_col (fetch_limit config))
          bs rows bytes made in
      let (exact, below) = capped_count config bs rows room count few in
      let (covers, clean, no_more) =
        subst (KeptOf d planner inj ty (all_keys bs)) distinct
          (collect_distinct_scalars-KeptOf d planner inj ty bs) in
      rw reported (few, small, omega arith)

  entry-Reports :
      (j : JoinOn d) (l r p : LogicalPlan d) (info : BroadcastRewriteInfo)
      (outcome : Outcome d planner)
      → Ends d planner (Applies d planner config j l r) (considered_one info) outcome
      → All (IsCapped config) info.applied
      → Reports config (outcome >>= λ maybe. ok (unwrap_or d planner config p maybe))
  entry-Reports j l r p info (err e) h so_far = tt
  entry-Reports j l r p info (ok (none, info')) (reason, same) so_far = rw same so_far
  entry-Reports j l r p info (ok (some q, info')) (app, same, applies) so_far = rw same (
      All-append (IsCapped config) info.applied (app ∷ []) so_far
        (Applies-IsCapped j l r app q applies, tt))

  kept-Reports :
      {P Q : Type 0} (m : Result String P) (f : P → Q) (info : BroadcastRewriteInfo)
      → All (IsCapped config) info.applied
      → Reports config (m >>= λ q. ok (f q, info))
  kept-Reports (err e) f info so_far = tt
  kept-Reports (ok q) f info so_far = so_far

  rebuilt-Reports :
      (node : LogicalPlans d → LogicalPlan d) (ps : LogicalPlans d) (info : BroadcastRewriteInfo)
      → All (IsCapped config) info.applied
      → Reports config (rebuilt d planner config node ps info)
  rebuilt-Reports node no_plans info so_far = so_far
  rebuilt-Reports node (plan p ps) info so_far =
      kept-Reports (checked d planner (node (plan p ps))) (λ q. q) info so_far

  mutual
    unfolding rewrite_node

    rewrite_node-Reports :
        (p : LogicalPlan d) (info : BroadcastRewriteInfo)
        → All (IsCapped config) info.applied
        → Reports config (rewrite_node d planner config p info)
    rewrite_node-Reports (table_scan n guarded) info so_far = so_far
    rewrite_node-Reports (empty_relation s) info so_far = so_far
    rewrite_node-Reports (join j l r) info so_far =
        bind-Reports config _ _ (rewrite_node-Reports l info so_far) (λ l' info_l h_l.
          bind-Reports config _ _ (rewrite_node-Reports r info_l h_l) (λ r' info_r h_r.
            bind-Reports config _ _
              (kept-Reports (checked d planner (join j l' r')) (λ q. q) info_r h_r)
              (λ p info_p h_p.
                entry-Reports j l' r' p info_p _
                  (try_rewrite_join-Ends d planner config j l' r' info_p) h_p)))
    rewrite_node-Reports (filter_in c vs p) info so_far =
        bind-Reports config _ _ (rewrite_node-Reports p info so_far)
          (λ q info' h. kept-Reports (checked d planner (filter_in c vs q)) (λ x. x) info' h)
    rewrite_node-Reports (extension o ps) info so_far =
        bind-Reports config _ _ (rewrite_inputs-Reports ps info so_far)
          (λ qs info' h. rebuilt-Reports (extension o) qs info' h)
    rewrite_node-Reports (operator o ps) info so_far =
        bind-Reports config _ _ (rewrite_inputs-Reports ps info so_far)
          (λ qs info' h. rebuilt-Reports (operator o) qs info' h)

    rewrite_inputs-Reports :
        (ps : LogicalPlans d) (info : BroadcastRewriteInfo)
        → All (IsCapped config) info.applied
        → Reports config (rewrite_inputs d planner config ps info)
    rewrite_inputs-Reports no_plans info so_far = so_far
    rewrite_inputs-Reports (plan p ps) info so_far =
        bind-Reports config _ _ (rewrite_node-Reports p info so_far) (λ q info' h.
          bind-Reports config _ (λ qs. ok (plan q qs.0, qs.1)) (rewrite_inputs-Reports ps info' h)
            (λ qs info'' g. g))

  -- Every application that the rewrite reports materialized no more rows and bytes than the caps
  -- allow, and put no more values into its predicate than it materialized rows, as long as the row cap
  -- is below usize::MAX and scalars with the same text are the same.
  pub apply_broadcast_rewrites-Reports :
      (p : LogicalPlan d) → Reports config (apply_broadcast_rewrites d planner config p)
  unfolding apply_broadcast_rewrites empty_info
  apply_broadcast_rewrites-Reports p =
      if_elim (Reports config) config.enabled (λ on. rewrite_node-Reports p empty_info tt)
        (λ off. tt)
