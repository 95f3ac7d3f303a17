-- ===== src/Broadcast/Sound.antt =====
-- The rewrite of qsql-core/src/broadcast.rs keeps the rows of a plan, and reports what it did
-- within its caps.
use mathlib.Core.Path.{subst}
use quiver_sql.Base.{
  ℕ, ◌<◌, String, false, none, some, List, [], ◌∷◌, length, usize_max, Result, ok, err, ◌>>=◌,
  if_elim, inl, inr, ◌≡◌, refl, ap, ◌∙◌, arith,
}
use quiver_sql.Broadcast.{
  BroadcastRewriteConfig, BroadcastApplication, BroadcastRewriteInfo, DataFusion, JoinOn,
  LogicalPlan, LogicalPlans, table_scan, empty_relation, join, filter_in, extension, operator,
  no_plans, plan,
}
use quiver_sql.Broadcast.Keys.{KeyBatch, Planner, fetch_limit, values, materialize_distinct_keys}
use quiver_sql.Broadcast.Joins.{considered_one, Outcome, Sides, try_rewrite_join}
use quiver_sql.Broadcast.Rewrite.{
  unwrap_or, with_new_inputs, rebuilt, rewrite_node, rewrite_inputs, empty_info,
  apply_broadcast_rewrites,
}
use quiver_sql.Broadcast.Views.{Ends, Applies, Refused, try_rewrite_join-Ends}
use quiver_sql.Broadcast.Meaning.{
  Meanings, Among, eval, eval_all, all_keys, join_rows, filter_rows, is_in,
}
use quiver_sql.Broadcast.Values.{KeptOf, collect_distinct_scalars-KeptOf}
use quiver_sql.Broadcast.Caps.{materialize-Capped, capped_count}
use quiver_sql.Broadcast.Sides.{Faithful, PlainJoin, CoversKeys, eval-replaced}

module _ (d : DataFusion) where
  -- Every join of the plan is plain.
  unfoldable mutual
    pub PlainPlan : LogicalPlan d → (Planner d) → Meanings d → Type 0
    PlainPlan (table_scan n guarded) b m = Unit
    PlainPlan (empty_relation s) b m = Unit
    PlainPlan (join j l r) b m = PlainJoin d b m j × PlainPlan l b m × PlainPlan r b m
    PlainPlan (filter_in c vs p) b m = PlainPlan p b m
    PlainPlan (extension o ps) b m = PlainPlans ps b m
    PlainPlan (operator o ps) b m = PlainPlans ps b m

    pub PlainPlans : LogicalPlans d → (Planner d) → Meanings d → Type 0
    PlainPlans no_plans b m = Unit
    PlainPlans (plan p ps) b m = PlainPlan p b m × PlainPlans ps b m

module _ (d : DataFusion) (planner : Planner d) (m : Meanings d) where
  -- The plan that comes out has the rows of a list of rows.
  abbrev pub HasRows : List m.Row → Result String (LogicalPlan d × BroadcastRewriteInfo) → Type 0
  HasRows rows (err e) = Refused d planner e
  HasRows rows (ok (q, info)) = eval d m q ≡ rows

  abbrev pub HasAllRows :
      List (List m.Row) → Result String (LogicalPlans d × BroadcastRewriteInfo) → Type 0
  HasAllRows rows (err e) = Refused d planner e
  HasAllRows rows (ok (qs, info)) = eval_all d m qs ≡ rows

module _ (d : DataFusion) (planner : Planner d) (m : Meanings d) (config : BroadcastRewriteConfig)
    (faithful : Faithful d planner m) (room : config.max_local_rows < usize_max) where
  open d use {Scalar}
  open planner use {is_null, accepts}

  covers-Capped :
      (s : Sides d planner) (bs : List (KeyBatch Scalar)) (rows bytes : ℕ)
      → materialize_distinct_keys d planner s.local_input s.local_col config ≡ values bs rows bytes
      → (vs : List Scalar) → ((v : Scalar) → Among v (all_keys bs) → is_null v ≡ false → Among v vs)
      → CoversKeys d planner m s vs
  unfolding materialize_distinct_keys
  covers-Capped s bs rows bytes made vs kept row among visible =
      let (ran, count, few, small) =
        materialize-Capped config (planner.key_query s.local_input s.local_col (fetch_limit config))
          bs rows bytes made in
      let (exact, below) = capped_count config bs rows room count few in
      kept (m.value s.local_col row)
        (faithful.keys_complete s.local_input s.local_col (fetch_limit config) bs ran below row
          among)
        visible

  Applies-eval :
      (j : JoinOn d) (l r : LogicalPlan d) (app : BroadcastApplication) (p : LogicalPlan d)
      → PlainJoin d planner m j
      → Applies d planner config j l r app p
      → eval d m p ≡ eval d m (join j l r)
  unfolding materialize_distinct_keys
  Applies-eval j l r app p plain
        (s, bs, rows, bytes, split, made, inl (zero_rows, same, reported)) =
      let (ran, count, few, small) =
        materialize-Capped config (planner.key_query s.local_input s.local_col (fetch_limit config))
          bs rows bytes made in
      let (exact, below) = capped_count config bs rows room count few in
      let covers =
        covers-Capped s bs rows bytes made []
          (λ v among visible. no_key bs (omega arith) v among) in
      ap (eval d m) same ∙ eval-replaced d planner m faithful j l r s [] plain split covers
    where
      none_among : (ks : List Scalar) → length ks ≡ 0 → (v : Scalar) → Among v ks → Among v []
      none_among [] e v among = among
      none_among (k ∷ ks) e v among = absurd (omega arith)

      no_key :
          (bs : List (KeyBatch Scalar))
          → length (all_keys bs) ≡ 0
          → (v : Scalar) → Among v (all_keys bs)
          → Among v []
      no_key bs e v among = none_among (all_keys bs) e v among
  Applies-eval j l r app p plain
        (s, bs, rows, bytes, split, made, inr (ty, vs, distinct, same, reported)) =
      let kept =
        subst (KeptOf d planner faithful.debug_injective ty (all_keys bs)) distinct
          (collect_distinct_scalars-KeptOf d planner faithful.debug_injective ty bs) in
      let covers = covers-Capped s bs rows bytes made vs kept.0 in
      ap (eval d m) same ∙ eval-replaced d planner m faithful j l r s vs plain split covers

  bind-HasRows :
      (first : Result String (LogicalPlan d × BroadcastRewriteInfo))
      (next : LogicalPlan d × BroadcastRewriteInfo
        → Result String (LogicalPlan d × BroadcastRewriteInfo))
      (before after : List m.Row)
      → HasRows d planner m before first
      → ((q : LogicalPlan d) (info : BroadcastRewriteInfo)
          → eval d m q ≡ before
          → HasRows d planner m after (next (q, info)))
      → HasRows d planner m after (first >>= next)
  bind-HasRows (err e) next before after h k = h
  bind-HasRows (ok (q, info)) next before after h k = k q info h

  bind-HasAllRows :
      (first : Result String (LogicalPlans d × BroadcastRewriteInfo))
      (next : LogicalPlans d × BroadcastRewriteInfo
        → Result String (LogicalPlan d × BroadcastRewriteInfo))
      (before : List (List m.Row)) (after : List m.Row)
      → HasAllRows d planner m before first
      → ((qs : LogicalPlans d) (info : BroadcastRewriteInfo)
          → eval_all d m qs ≡ before
          → HasRows d planner m after (next (qs, info)))
      → HasRows d planner m after (first >>= next)
  bind-HasAllRows (err e) next before after h k = h
  bind-HasAllRows (ok (qs, info)) next before after h k = k qs info h

  checked-HasRows :
      (p : LogicalPlan d) (info : BroadcastRewriteInfo) (rows : List m.Row)
      → eval d m p ≡ rows
      → HasRows d planner m rows (with_new_inputs d planner config p info)
  checked-HasRows p info rows e = accepted (accepts p) refl
    where
      accepted :
          (r : Result String (Unit {0}))
          → accepts p ≡ r
          → HasRows d planner m rows ((r >>= λ u. ok p) >>= λ q. ok (q, info))
      accepted (err x) refused = (p, refused)
      accepted (ok u) done = e

  rebuilt-HasRows :
      (node : LogicalPlans d → LogicalPlan d) (ps : LogicalPlans d) (info : BroadcastRewriteInfo)
      (rows : List m.Row)
      → eval d m (node ps) ≡ rows
      → HasRows d planner m rows (rebuilt d planner config node ps info)
  rebuilt-HasRows node no_plans info rows e = e
  rebuilt-HasRows node (plan p ps) info rows e = checked-HasRows (node (plan p ps)) info rows e

  replaced-HasRows :
      (j : JoinOn d) (l r p : LogicalPlan d) (info : BroadcastRewriteInfo)
      (outcome : Outcome d planner)
      → PlainJoin d planner m j
      → Ends d planner (Applies d planner config j l r) info outcome
      → eval d m p ≡ eval d m (join j l r)
      → HasRows d planner m
          (eval d m (join j l r))
          (outcome >>= λ maybe. ok (unwrap_or d planner config p maybe))
  replaced-HasRows j l r p info (err e) plain h same = h
  replaced-HasRows j l r p info (ok (none, info')) plain h same = same
  replaced-HasRows j l r p info (ok (some q, info')) plain (app, reported, applies) same =
      Applies-eval j l r app q plain applies

  cons-HasAllRows :
      (first : Result String (LogicalPlan d × BroadcastRewriteInfo))
      (next : BroadcastRewriteInfo → Result String (LogicalPlans d × BroadcastRewriteInfo))
      (rows : List m.Row) (rest : List (List m.Row))
      → HasRows d planner m rows first
      → ((info : BroadcastRewriteInfo) → HasAllRows d planner m rest (next info))
      → HasAllRows d planner m
          (rows ∷ rest)
          (first >>= λ q. next q.1 >>= λ qs. ok (plan q.0 qs.0, qs.1))
  unfolding eval
  cons-HasAllRows (err e) next rows rest h k = h
  cons-HasAllRows (ok (q, info)) next rows rest h k = onto (next info) (k info)
    where
      onto :
          (r : Result String (LogicalPlans d × BroadcastRewriteInfo))
          → HasAllRows d planner m rest r
          → HasAllRows d planner m (rows ∷ rest) (r >>= λ qs. ok (plan q qs.0, qs.1))
      onto (err e) g = g
      onto (ok (qs, info')) g = ap (λ x. x ∷ eval_all d m qs) h ∙ ap (λ xs. rows ∷ xs) g

  mutual
    unfolding rewrite_node eval PlainPlan

    rewrite_node-HasRows :
        (p : LogicalPlan d) (info : BroadcastRewriteInfo)
        → PlainPlan d p planner m
        → HasRows d planner m (eval d m p) (rewrite_node d planner config p info)
    rewrite_node-HasRows (table_scan n guarded) info plain = refl
    rewrite_node-HasRows (empty_relation s) info plain = refl
    rewrite_node-HasRows (join j l r) info (plain, plain_l, plain_r) =
        bind-HasRows _ _ (eval d m l) _ (rewrite_node-HasRows l info plain_l) (λ l' info_l e_l.
          bind-HasRows _ _ (eval d m r) _ (rewrite_node-HasRows r info_l plain_r) (λ r' info_r e_r.
            let same : eval d m (join j l' r') ≡ eval d m (join j l r) =
              ap (λ rows. join_rows d m j.join_type j.null_equality j rows (eval d m r')) e_l
              ∙ ap (λ rows. join_rows d m j.join_type j.null_equality j (eval d m l) rows) e_r in
            bind-HasRows _ _ (eval d m (join j l' r')) _
              (checked-HasRows (join j l' r') info_r _ refl)
              (λ p info_p e_p.
                subst
                  (λ rows. HasRows d planner m rows (
                    try_rewrite_join d planner config j l' r' info_p >>= λ maybe.
                    ok (unwrap_or d planner config p maybe)))
                  same
                  (replaced-HasRows j l' r' p (considered_one info_p) _ plain
                    (try_rewrite_join-Ends d planner config j l' r' info_p) e_p))))
    rewrite_node-HasRows (filter_in c vs p) info plain =
        bind-HasRows _ _ (eval d m p) _ (rewrite_node-HasRows p info plain) (λ q info' e.
          checked-HasRows (filter_in c vs q) info' _ (ap (filter_rows (is_in d m c vs)) e))
    rewrite_node-HasRows (extension o ps) info plain =
        bind-HasAllRows _ _ (eval_all d m ps) _ (rewrite_inputs-HasAllRows ps info plain)
          (λ qs info' e. rebuilt-HasRows (extension o) qs info' _ (ap (m.apply o) e))
    rewrite_node-HasRows (operator o ps) info plain =
        bind-HasAllRows _ _ (eval_all d m ps) _ (rewrite_inputs-HasAllRows ps info plain)
          (λ qs info' e. rebuilt-HasRows (operator o) qs info' _ (ap (m.apply o) e))

    rewrite_inputs-HasAllRows :
        (ps : LogicalPlans d) (info : BroadcastRewriteInfo)
        → PlainPlans d ps planner m
        → HasAllRows d planner m (eval_all d m ps) (rewrite_inputs d planner config ps info)
    rewrite_inputs-HasAllRows no_plans info plain = refl
    rewrite_inputs-HasAllRows (plan p ps) info (plain_p, plain_ps) =
        cons-HasAllRows (rewrite_node d planner config p info) (rewrite_inputs d planner config ps)
          (eval d m p) (eval_all d m ps) (rewrite_node-HasRows p info plain_p)
          (λ info'. rewrite_inputs-HasAllRows ps info' plain_ps)

-- The plan that the rewrite returns yields the same rows in the same order as the plan that it was
-- given, or the rewrite fails because DataFusion refuses a plan that it builds. This holds for plans
-- whose inner joins use SQL's equality and whose join keys have no casts, as long as the row cap is
-- below usize::MAX and DataFusion answers the queries for keys as `Faithful` says.
pub apply_broadcast_rewrites-HasRows :
    (d : DataFusion) (planner : Planner d) (m : Meanings d) (config : BroadcastRewriteConfig)
    → Faithful d planner m
    → config.max_local_rows < usize_max
    → (p : LogicalPlan d) → PlainPlan d p planner m
    → HasRows d planner m (eval d m p) (apply_broadcast_rewrites d planner config p)
unfolding apply_broadcast_rewrites
apply_broadcast_rewrites-HasRows d planner m config faithful room p plain =
    if_elim (HasRows d planner m (eval d m p)) config.enabled
      (λ on. rewrite_node-HasRows d planner m config faithful room p empty_info plain) (λ off. refl)
