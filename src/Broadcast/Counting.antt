-- ===== src/Broadcast/Counting.antt =====
-- Every join of a plan is accounted for in the report of qsql-core/src/broadcast.rs.
use mathlib.Core.Path.{subst}
use quiver_sql.Base.{
  ℕ, ◌+◌, Bool, true, false, String, none, some, [], ◌∷◌, length, length-append, Result, ok, err,
  ◌>>=◌, if◌then◌else◌, arith, ◌≡◌, refl, ap, sym, ◌⊎◌, inl, inr,
}
use quiver_sql.Broadcast.{
  BroadcastRewriteConfig, BroadcastApplication, BroadcastRewriteInfo, DataFusion, LogicalPlan,
  LogicalPlans, table_scan, empty_relation, join, filter_in, extension, operator, no_plans, plan,
}
use quiver_sql.Broadcast.Keys.{Planner}
use quiver_sql.Broadcast.Joins.{considered_one, Outcome, checked}
use quiver_sql.Broadcast.Rewrite.{
  unwrap_or, with_new_inputs, rebuilt, rewrite_node, rewrite_inputs, empty_info,
  apply_broadcast_rewrites,
}
use quiver_sql.Broadcast.Views.{Ends, try_rewrite_join-Ends}

module _ (d : DataFusion) where
  unfoldable mutual
    pub joins : LogicalPlan d → ℕ
    joins (table_scan n guarded) = 0
    joins (empty_relation s) = 0
    joins (join j l r) = joins l + joins r + 1
    joins (filter_in c vs p) = joins p
    joins (extension o ps) = joins_of ps
    joins (operator o ps) = joins_of ps

    pub joins_of : LogicalPlans d → ℕ
    joins_of no_plans = 0
    joins_of (plan p ps) = joins p + joins_of ps

abbrev pub entries : BroadcastRewriteInfo → ℕ
entries info = length info.applied + length info.skipped

-- So many joins were considered, and got an entry each.
abbrev pub More : ℕ → BroadcastRewriteInfo → BroadcastRewriteInfo → Type 0
More n info info' = (info'.considered ≡ info.considered + n) × (entries info' ≡ entries info + n)

abbrev pub MoreIfOk :
    {P : Type 0} → ℕ → BroadcastRewriteInfo → Result String (P × BroadcastRewriteInfo) → Type 0
MoreIfOk n info (err e) = Unit
MoreIfOk n info (ok (p, info')) = More n info info'

add-MoreIfOk :
    {Q : Type 0} (m n : ℕ) (info info' : BroadcastRewriteInfo)
    (r : Result String (Q × BroadcastRewriteInfo))
    → More m info info'
    → MoreIfOk n info' r
    → MoreIfOk (m + n) info r
add-MoreIfOk m n info info' (err e) h g = tt
add-MoreIfOk m n info info' (ok (q, info'')) h g = (omega arith, omega arith)

bind-MoreIfOk :
    {P Q : Type 0} (m n : ℕ) (info : BroadcastRewriteInfo)
    (first : Result String (P × BroadcastRewriteInfo))
    (next : P × BroadcastRewriteInfo → Result String (Q × BroadcastRewriteInfo))
    → MoreIfOk m info first
    → ((p : P) (info' : BroadcastRewriteInfo) → MoreIfOk n info' (next (p, info')))
    → MoreIfOk (m + n) info (first >>= next)
bind-MoreIfOk m n info (err e) next h k = tt
bind-MoreIfOk m n info (ok (p, info')) next h k =
    add-MoreIfOk m n info info' (next (p, info')) h (k p info')

if-cases :
    {A : Type 0} {x y z : A} (b : Bool)
    → (if b then x else y) ≡ z
    → ((b ≡ true) × (x ≡ z)) ⊎ ((b ≡ false) × (y ≡ z))
if-cases true e = inl (refl, e)
if-cases false e = inr (refl, e)

ok-inj : {A : Type 0} {x y : A} → ◌≡◌ {A = Result String A} (ok x) (ok y) → x ≡ y
ok-inj e = cc

module _ (d : DataFusion) (planner : Planner d) (config : BroadcastRewriteConfig) where
  checked-MoreIfOk :
      (p : LogicalPlan d) (info : BroadcastRewriteInfo)
      → MoreIfOk 0 info (with_new_inputs d planner config p info)
  checked-MoreIfOk p info = accepted (checked d planner p)
    where
      accepted : (m : Result String (LogicalPlan d)) → MoreIfOk 0 info (m >>= λ q. ok (q, info))
      accepted (err e) = tt
      accepted (ok q) = (omega arith, omega arith)

  entry-MoreIfOk :
      (Good : BroadcastApplication → LogicalPlan d → Type 0) (p : LogicalPlan d)
      (info : BroadcastRewriteInfo) (outcome : Outcome d planner)
      → Ends d planner Good (considered_one info) outcome
      → MoreIfOk 1 info (outcome >>= λ maybe. ok (unwrap_or d planner config p maybe))
  entry-MoreIfOk Good p info (err e) h = tt
  entry-MoreIfOk Good p info (ok (none, info')) (reason, same) =
      rw same (refl, omega (arith, length-append info.skipped (reason ∷ [])))
  entry-MoreIfOk Good p info (ok (some q, info')) (app, same, good) =
      rw same (refl, omega (arith, length-append info.applied (app ∷ [])))

  rebuilt-MoreIfOk :
      (node : LogicalPlans d → LogicalPlan d) (ps : LogicalPlans d) (info : BroadcastRewriteInfo)
      → MoreIfOk 0 info (rebuilt d planner config node ps info)
  rebuilt-MoreIfOk node no_plans info = (omega arith, omega arith)
  rebuilt-MoreIfOk node (plan p ps) info = checked-MoreIfOk (node (plan p ps)) info

  last-MoreIfOk :
      {P : Type 0} (info : BroadcastRewriteInfo) (m : Result String (P × BroadcastRewriteInfo))
      {Q : Type 0} (f : P → Q) (n : ℕ)
      → MoreIfOk n info m
      → MoreIfOk n info (m >>= λ x. ok (f x.0, x.1))
  last-MoreIfOk info (err e) f n h = tt
  last-MoreIfOk info (ok x) f n h = h

  mutual
    unfolding rewrite_node joins

    rewrite_node-MoreIfOk :
        (p : LogicalPlan d) (info : BroadcastRewriteInfo)
        → MoreIfOk (joins d p) info (rewrite_node d planner config p info)
    rewrite_node-MoreIfOk (table_scan n guarded) info = (omega arith, omega arith)
    rewrite_node-MoreIfOk (empty_relation s) info = (omega arith, omega arith)
    rewrite_node-MoreIfOk (join j l r) info =
        subst (λ k. MoreIfOk k info (rewrite_node d planner config (join j l r) info)) (omega arith)
          (bind-MoreIfOk (joins d l) (joins d r + (0 + 1)) info _ _ (rewrite_node-MoreIfOk l info)
            (λ l' info_l.
              bind-MoreIfOk (joins d r) (0 + 1) info_l _ _ (rewrite_node-MoreIfOk r info_l)
                (λ r' info_r.
                  bind-MoreIfOk 0 1 info_r _ _ (checked-MoreIfOk (join j l' r') info_r) (λ p info_p.
                    entry-MoreIfOk _ p info_p _
                      (try_rewrite_join-Ends d planner config j l' r' info_p)))))
    rewrite_node-MoreIfOk (filter_in c vs p) info =
        subst (λ k. MoreIfOk k info (rewrite_node d planner config (filter_in c vs p) info))
          (omega arith)
          (bind-MoreIfOk (joins d p) 0 info _ _ (rewrite_node-MoreIfOk p info)
            (λ q info'. checked-MoreIfOk (filter_in c vs q) info'))
    rewrite_node-MoreIfOk (extension o ps) info =
        subst (λ k. MoreIfOk k info (rewrite_node d planner config (extension o ps) info))
          (omega arith)
          (bind-MoreIfOk (joins_of d ps) 0 info _ _ (rewrite_inputs-MoreIfOk ps info)
            (λ qs info'. rebuilt-MoreIfOk (extension o) qs info'))
    rewrite_node-MoreIfOk (operator o ps) info =
        subst (λ k. MoreIfOk k info (rewrite_node d planner config (operator o ps) info))
          (omega arith)
          (bind-MoreIfOk (joins_of d ps) 0 info _ _ (rewrite_inputs-MoreIfOk ps info)
            (λ qs info'. rebuilt-MoreIfOk (operator o) qs info'))

    rewrite_inputs-MoreIfOk :
        (ps : LogicalPlans d) (info : BroadcastRewriteInfo)
        → MoreIfOk (joins_of d ps) info (rewrite_inputs d planner config ps info)
    rewrite_inputs-MoreIfOk no_plans info = (omega arith, omega arith)
    rewrite_inputs-MoreIfOk (plan p ps) info =
        bind-MoreIfOk (joins d p) (joins_of d ps) info _ _ (rewrite_node-MoreIfOk p info)
          (λ q info'.
            last-MoreIfOk info' (rewrite_inputs d planner config ps info') (plan q) (joins_of d ps)
              (rewrite_inputs-MoreIfOk ps info'))

  -- Where the rewrite returns a plan, its report has considered each join of the plan it was given, and
  -- has exactly one entry for each of them, applied or skipped; when it is disabled, the plan is the
  -- one it was given and the report is empty.
  pub apply_broadcast_rewrites-entries :
      (p q : LogicalPlan d) (info : BroadcastRewriteInfo)
      → apply_broadcast_rewrites d planner config p ≡ ok (q, info)
      → ((config.enabled ≡ true) × (info.considered ≡ joins d p) × (entries info ≡ joins d p))
        ⊎ ((config.enabled ≡ false) × (q ≡ p) × (info.considered ≡ 0) × (entries info ≡ 0))
  unfolding apply_broadcast_rewrites empty_info
  apply_broadcast_rewrites-entries p q info e = elim (if-cases config.enabled e) [
    | inl (h, run) ↦
        let counts =
          subst (MoreIfOk (joins d p) empty_info) run (rewrite_node-MoreIfOk p empty_info) in
        inl (h, omega arith, omega arith)
    | inr (h, kept) ↦
        let same : (p, empty_info) ≡ (q, info) = ok-inj kept in
        let report : empty_info ≡ info = ap (λ x. x.1) same in
        inr (h, sym (ap (λ x. x.0) same), rw (← report) refl, rw (← report) refl)
  ]
