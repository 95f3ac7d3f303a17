-- ===== src/Explain/Walks.antt =====
-- The walk of qsql-daemon/src/explain.rs over a graph that the traversal made.
use mathlib.Core.Path.{subst}
use quiver_sql.Base.{
  ℕ, zero, suc, ◌+◌, ◌-◌, ◌≤◌, ◌<◌, String, some, List, [], ◌∷◌, ◌++◌, append_assoc, length, take,
  take-append, append-nil, length-append, All, leb, arith, ◌≡◌, refl, sym, ap, ◌∙◌, inl, inr,
  Bool-cases, lt→ltb, leb→le, leb-false→lt, min,
}
use quiver_sql.Explain.{LogicalPlan, node, LogicalPlans, no_plans, plan, PlanNode, PlanMetrics}
use quiver_sql.Explain.Attributes.{TraverseContext}
use quiver_sql.Explain.Graph.{Nodes, get_node}
use quiver_sql.Explain.Numbers.{Keyed, Keyed-append, other_number, same_number, update_node_at}
use quiver_sql.Explain.Layout.{
  size, sizes, child_ids, below, numbered, numbered_inputs, length-numbered,
}
use quiver_sql.Explain.Same.{below_none, ltb-false}
use quiver_sql.Explain.Metrics.{
  cons_some, walk_all, walk_found, pre_order_walk, with_metrics, stamp_metrics,
}

-- `i`, `i + 1`, and so on.
unfoldable pub range : (i n : ℕ) → List ℕ
range i zero = []
range i (suc n) = i ∷ range (suc i) n

range-append : (i m n : ℕ) → range i m ++ range (i + m) n ≡ range i (m + n)
unfolding range
range-append i zero n =
    let e : i + 0 ≡ i = omega arith in let f : 0 + n ≡ n = omega arith in rw (e, f) refl
range-append i (suc m) n =
    let e : i + suc m ≡ suc i + m = omega arith in
    let f : suc m + n ≡ suc (m + n) = omega arith in
    rw (e, f) (ap (λ l. i ∷ l) (range-append (suc i) m n))

-- Every entry is found under its key.
abbrev pub Has : Nodes → Nodes → Type 0
Has nodes = All (λ (e : ℕ × PlanNode). get_node e.0 nodes ≡ some e.1)

Has-split : (nodes xs ys : Nodes) → Has nodes (xs ++ ys) → Has nodes xs × Has nodes ys
Has-split nodes [] ys h = (tt, h)
Has-split nodes (x ∷ xs) ys h = let (hx, hy) = Has-split nodes xs ys h.1 in ((h.0, hx), hy)

get_node_at :
    (n : PlanNode) (i k : ℕ) (xs ys : Nodes)
    → Keyed i xs
    → i + length xs ≡ k
    → get_node k (xs ++ (k, n) ∷ ys) ≡ some n
unfolding get_node
get_node_at n i k [] ys kx e = rw (same_number k) refl
get_node_at n i k ((id, m) ∷ xs) ys kx e =
    rw (other_number id k (omega arith)) (get_node_at n (suc i) k xs ys kx.1 (omega arith))

pub Keyed-Has :
    (xs ys : Nodes) (i : ℕ) → Keyed 0 xs → length xs ≡ i → Keyed i ys → Has (xs ++ ys) ys
Keyed-Has xs [] i kx e ky = tt
Keyed-Has xs ((id, n) ∷ ys) i kx e ky =
    let next =
      Keyed-Has (xs ++ (id, n) ∷ []) ys (suc i)
        (Keyed-append 0 xs ((id, n) ∷ []) kx (omega arith, tt))
        (omega (arith, length-append xs ((id, n) ∷ []))) ky.1 in
    (
      get_node_at n 0 id xs ys kx (omega arith),
      subst (λ l. Has l ys) (append_assoc xs ((id, n) ∷ []) ys) next,
    )

module _ (max_nodes : ℕ) (to_string : ℕ → String) (to_uppercase : String → String)
    (ctx : TraverseContext) (nodes : Nodes) where
  abbrev nodes_of : LogicalPlan → ℕ → Nodes
  nodes_of = numbered max_nodes to_string to_uppercase ctx

  abbrev nodes_below : LogicalPlans → ℕ → Nodes
  nodes_below = numbered_inputs max_nodes to_string to_uppercase ctx

  split_take :
      (p : LogicalPlan) (ps : LogicalPlans) (k : ℕ)
      → take (max_nodes - k) (nodes_below (plan p ps) k)
        ≡ take (max_nodes - k) (nodes_of p k)
          ++ take (max_nodes - (k + size p)) (nodes_below ps (k + size p))
  unfolding numbered
  split_take p ps k =
      let left : max_nodes - (k + size p) ≡ max_nodes - k - size p = omega arith in
      rw
        (
          take-append (max_nodes - k) (nodes_of p k) (nodes_below ps (k + size p)),
          length-numbered max_nodes to_string to_uppercase ctx p k,
          left,
        )
        refl

  ranges :
      (k s t : ℕ)
      → k < max_nodes
      → range k (min s (max_nodes - k)) ++ range (k + s) (min t (max_nodes - (k + s)))
        ≡ range k (min (s + t) (max_nodes - k))
  unfolding range
  ranges k s t h = elim (Bool-cases (leb (k + s) max_nodes)) [
    | inl le ↦
        let whole : min s (max_nodes - k) ≡ s = omega (arith, leb→le _ _ le) in
        let sum : s + min t (max_nodes - (k + s)) ≡ min (s + t) (max_nodes - k) =
          omega (arith, leb→le _ _ le) in
        rw (whole, ← sum) (range-append k s (min t (max_nodes - (k + s))))
    | inr gt ↦
        let whole : min s (max_nodes - k) ≡ max_nodes - k = omega (arith, leb-false→lt _ _ gt) in
        let none_left : min t (max_nodes - (k + s)) ≡ 0 = omega (arith, leb-false→lt _ _ gt) in
        let sum : min (s + t) (max_nodes - k) ≡ max_nodes - k =
          omega (arith, leb-false→lt _ _ gt) in
        rw (whole, none_left, sum) (append-nil (range k (max_nodes - k)))
  ]

  mutual
    unfolding numbered size child_ids below pre_order_walk walk_found walk_all range

    pub pre_order_walk-numbered :
        (p : LogicalPlan) (k fuel : ℕ)
        → k < max_nodes
        → size p ≤ fuel
        → Has nodes (take (max_nodes - k) (nodes_of p k))
        → pre_order_walk fuel nodes k ≡ some (range k (min (size p) (max_nodes - k)))
    pre_order_walk-numbered (node n inputs) k zero h room has = absurd (omega arith)
    pre_order_walk-numbered (node n inputs) k (suc fuel) h room has =
        let rest : max_nodes - k ≡ suc (max_nodes - suc k) = omega arith in
        let found = subst (λ m. Has nodes (take m (nodes_of (node n inputs) k))) rest has in
        let count : min (suc (sizes inputs)) (max_nodes - k)
            ≡ suc (min (sizes inputs) (max_nodes - suc k)) =
          omega arith in
        rw (found.0, count)
          (ap (cons_some k) (walk_all-numbered inputs (suc k) fuel (omega arith) found.1))

    pub walk_all-numbered :
        (ps : LogicalPlans) (k fuel : ℕ)
        → sizes ps ≤ fuel
        → Has nodes (take (max_nodes - k) (nodes_below ps k))
        → walk_all (pre_order_walk fuel nodes) (below max_nodes (child_ids ps k))
          ≡ some (range k (min (sizes ps) (max_nodes - k)))
    walk_all-numbered no_plans k fuel room has =
        let count : min 0 (max_nodes - k) ≡ 0 = omega arith in rw count refl
    walk_all-numbered (plan p ps) k fuel room has = elim (Bool-cases (leb max_nodes k)) [
      | inl met ↦
          let count : min (size p + sizes ps) (max_nodes - k) ≡ 0 = omega (arith, leb→le _ _ met) in
          rw
            (
              ltb-false k max_nodes (leb→le _ _ met),
              below_none max_nodes ps (k + size p) (omega (arith, leb→le _ _ met)),
              count,
            )
            refl
      | inr free ↦
          let h : k < max_nodes = leb-false→lt _ _ free in
          let both =
            Has-split nodes (take (max_nodes - k) (nodes_of p k)) _
              (subst (Has nodes) (split_take p ps k) has) in
          rw
            (
              lt→ltb k max_nodes h,
              pre_order_walk-numbered p k fuel h (omega arith) both.0,
              walk_all-numbered ps (k + size p) fuel (omega arith) both.1,
            )
            (ap some (ranges k (size p) (sizes ps) (omega arith)))
    ]

-- Each node with the measurements at its place, as far as there are any.
unfoldable pub measured : Nodes → List PlanMetrics → Nodes
measured [] metrics = []
measured (e ∷ nodes) [] = e ∷ nodes
measured ((id, n) ∷ nodes) (m ∷ metrics) = (id, with_metrics m n) ∷ measured nodes metrics

stamp_metrics-range :
    (xs ys : Nodes) (i : ℕ) (metrics : List PlanMetrics)
    → Keyed 0 xs
    → length xs ≡ i
    → Keyed i ys
    → stamp_metrics (range i (length ys)) metrics (xs ++ ys) ≡ xs ++ measured ys metrics
unfolding stamp_metrics measured range
stamp_metrics-range xs [] i metrics kx e ky = refl
stamp_metrics-range xs ((id, n) ∷ ys) i [] kx e ky = refl
stamp_metrics-range xs ((id, n) ∷ ys) i (m ∷ metrics) kx e ky =
    let stamped = xs ++ (id, with_metrics m n) ∷ [] in
    let next =
      stamp_metrics-range stamped ys (suc id) metrics
        (Keyed-append 0 xs ((id, with_metrics m n) ∷ []) kx (omega arith, tt))
        (omega (arith, length-append xs ((id, with_metrics m n) ∷ [])))
        (subst (λ j. Keyed (suc j) ys) (sym ky.0) ky.1) in
    rw (← ky.0, update_node_at n (with_metrics m) 0 id xs ys kx (omega arith))
      (ap (stamp_metrics (range (suc id) (length ys)) metrics)
          (sym (append_assoc xs ((id, with_metrics m n) ∷ []) ys))
        ∙ next
        ∙ append_assoc xs ((id, with_metrics m n) ∷ []) (measured ys metrics))

pub stamp_metrics-measured :
    (nodes : Nodes) (metrics : List PlanMetrics)
    → Keyed 0 nodes
    → stamp_metrics (range 0 (length nodes)) metrics nodes ≡ measured nodes metrics
stamp_metrics-measured nodes metrics k = stamp_metrics-range [] nodes 0 metrics tt refl k
