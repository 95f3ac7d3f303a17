-- ===== src/Explain/Layout.antt =====
-- What the plan graph of qsql-daemon/src/explain.rs shows of a plan, described without a traversal:
-- the nodes numbered in pre-order, each with the numbers of its inputs, up to the cap.
use quiver_sql.Base.{
  ℕ, suc, ◌+◌, String, List, [], ◌∷◌, ◌++◌, length, length-append, ltb, if◌then◌else◌, arith, ◌≡◌,
  refl, ap,
}
use quiver_sql.Explain.{LogicalPlan, node, LogicalPlans, no_plans, plan}
use quiver_sql.Explain.Attributes.{TraverseContext}
use quiver_sql.Explain.Graph.{Nodes, with_children, plan_node}
use quiver_sql.Explain.Numbers.{Keyed, Keyed-append}

unfoldable mutual
  pub size : LogicalPlan → ℕ
  size (node n inputs) = suc (sizes inputs)

  pub sizes : LogicalPlans → ℕ
  sizes no_plans = 0
  sizes (plan p ps) = size p + sizes ps

-- The numbers of the inputs, where the first has number `k`.
unfoldable pub child_ids : LogicalPlans → (k : ℕ) → List ℕ
child_ids no_plans k = []
child_ids (plan p ps) k = k ∷ child_ids ps (k + size p)

unfoldable pub below : (cap : ℕ) → List ℕ → List ℕ
below cap [] = []
below cap (id ∷ ids) = let rest = below cap ids in if ltb id cap then id ∷ rest else rest

module _ (max_nodes : ℕ) (to_string : ℕ → String) (to_uppercase : String → String)
    (ctx : TraverseContext) where
  unfoldable mutual
    pub numbered : LogicalPlan → (k : ℕ) → Nodes
    numbered (node n inputs) k =
        (
          k,
          with_children (below max_nodes (child_ids inputs (suc k)))
              (plan_node max_nodes to_string to_uppercase ctx n inputs k),
        )
        ∷ numbered_inputs inputs (suc k)

    pub numbered_inputs : LogicalPlans → (k : ℕ) → Nodes
    numbered_inputs no_plans k = []
    numbered_inputs (plan p ps) k = numbered p k ++ numbered_inputs ps (k + size p)

  mutual
    unfolding numbered size

    pub length-numbered : (p : LogicalPlan) (k : ℕ) → length (numbered p k) ≡ size p
    length-numbered (node n inputs) k = ap suc (length-numbered_inputs inputs (suc k))

    pub length-numbered_inputs :
        (ps : LogicalPlans) (k : ℕ) → length (numbered_inputs ps k) ≡ sizes ps
    length-numbered_inputs no_plans k = refl
    length-numbered_inputs (plan p ps) k = omega (
      arith,
      length-append (numbered p k) (numbered_inputs ps (k + size p)),
      length-numbered p k,
      length-numbered_inputs ps (k + size p),
    )

  mutual
    unfolding numbered size

    pub numbered-Keyed : (p : LogicalPlan) (k : ℕ) → Keyed k (numbered p k)
    numbered-Keyed (node n inputs) k = (refl, numbered_inputs-Keyed inputs (suc k))

    pub numbered_inputs-Keyed : (ps : LogicalPlans) (k : ℕ) → Keyed k (numbered_inputs ps k)
    numbered_inputs-Keyed no_plans k = tt
    numbered_inputs-Keyed (plan p ps) k =
        Keyed-append k (numbered p k) (numbered_inputs ps (k + size p)) (numbered-Keyed p k)
          (rw (length-numbered p k) (numbered_inputs-Keyed ps (k + size p)))
