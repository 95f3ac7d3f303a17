-- ===== src/Explain/Same.antt =====
-- The traversal of qsql-daemon/src/explain.rs makes the numbered nodes.
use mathlib.Core.Path.{subst}
use quiver_sql.Base.{
  ℕ, zero, suc, ◌+◌, ◌-◌, ◌%◌, ◌^◌, ◌≤◌, ◌<◌, String, Bool, true, false, ◌||◌, List, [], ◌∷◌, ◌++◌,
  append-nil, append_assoc, length, length-append, length-take, take, take-append, ltb, leb, arith,
  ◌≡◌, refl, sym, ap, ◌∙◌, ◌⊎◌, inl, inr, Bool-cases, lt→ltb, le→leb, leb→le, leb-false→lt,
  usize_max, min,
}
use quiver_sql.Explain.{Node, LogicalPlan, node, LogicalPlans, no_plans, plan}
use quiver_sql.Explain.Attributes.{TraverseContext}
use quiver_sql.Explain.Graph.{
  Nodes, Traversal, with_children, plan_node, state, traverse_plan, traverse_inputs, update_node,
  contains_key, close_node, push_child,
}
use quiver_sql.Explain.Numbers.{
  Keyed, Keyed-append, Keyed-take, insert_node_last, update_node_at, contains_key_at,
}
use quiver_sql.Explain.Layout.{
  size, sizes, child_ids, below, numbered, numbered_inputs, length-numbered, numbered-Keyed,
}

pub size_pos : (p : LogicalPlan) → 1 ≤ size p
unfolding size
size_pos (node n inputs) = omega arith

pub leb-false : (m n : ℕ) → n < m → leb m n ≡ false
leb-false m n h = ground arith

pub ltb-false : (m n : ℕ) → n ≤ m → ltb m n ≡ false
ltb-false m n h = ground arith

or_true : (b : Bool) → (b || true) ≡ true
or_true true = refl
or_true false = refl

or_false : (b : Bool) → (b || false) ≡ b
or_false true = refl
or_false false = refl

nothing : (xs : Nodes) (m : ℕ) → xs ++ take m [] ≡ xs
nothing xs zero = append-nil xs
nothing xs (suc m) = append-nil xs

or_assoc : (a b c : Bool) → ((a || b) || c) ≡ (a || (b || c))
or_assoc true b c = refl
or_assoc false b c = refl

or_later : (m a b : ℕ) → a ≤ b → (ltb m a || ltb m b) ≡ ltb m b
or_later m a b h = ground arith

pub below_none : (cap : ℕ) (ps : LogicalPlans) (k : ℕ) → cap ≤ k → below cap (child_ids ps k) ≡ []
unfolding below child_ids
below_none cap no_plans k h = refl
below_none cap (plan p ps) k h =
    rw (ltb-false k cap h) (below_none cap ps (k + size p) (omega arith))

-- The state after nodes were added to `xs`, where `k` is the number of those and `s` would be added.
abbrev pub added : (cap : ℕ) → Nodes → (k : ℕ) → Bool → Nodes → (s : ℕ) → Traversal
added cap xs k b new s = state (xs ++ take (cap - k) new) (min (k + s) cap) (b || ltb cap (k + s))

state-eq :
    {xs ys : Nodes} {j k : ℕ} {b c : Bool} → xs ≡ ys → j ≡ k → b ≡ c → state xs j b ≡ state ys k c
state-eq e f g = rw (e, f, g) refl

module _ (max_nodes : ℕ) (to_string : ℕ → String) (to_uppercase : String → String)
    (ctx : TraverseContext) (fits : max_nodes ≤ usize_max) where
  abbrev pub traverse : LogicalPlan → Traversal → ℕ × Traversal
  traverse = traverse_plan max_nodes to_string to_uppercase ctx

  abbrev inputs_of : LogicalPlans → Traversal → List ℕ × Traversal
  inputs_of = traverse_inputs max_nodes to_string to_uppercase ctx

  abbrev pub nodes_of : LogicalPlan → ℕ → Nodes
  nodes_of = numbered max_nodes to_string to_uppercase ctx

  abbrev nodes_below : LogicalPlans → ℕ → Nodes
  nodes_below = numbered_inputs max_nodes to_string to_uppercase ctx

  -- Nothing is added once the cap is met.
  full :
      (p : LogicalPlan) (ps : LogicalPlans) (xs : Nodes) (k : ℕ) (b : Bool)
      → length xs ≡ k
      → max_nodes ≡ k
      → inputs_of (plan p ps) (state xs k b) ≡ (
        below max_nodes (child_ids (plan p ps) k),
        added max_nodes xs k b (nodes_below (plan p ps) k) (sizes (plan p ps)),
      )
  unfolding traverse_inputs sizes
  full p ps xs k b e f =
      let closed : leb max_nodes (length xs) ≡ true = le→leb _ _ (omega arith) in
      let none_left : max_nodes - k ≡ 0 = omega arith in
      let counter : k ≡ min (k + (size p + sizes ps)) max_nodes = omega arith in
      let pos = size_pos p in
      let beyond : ltb max_nodes (k + (size p + sizes ps)) ≡ true = lt→ltb _ _ (omega arith) in
      rw (closed, below_none max_nodes (plan p ps) k (omega arith))
        (ap (λ (t : Traversal). ([], t))
          (state-eq (rw none_left (sym (append-nil xs))) counter (rw beyond (sym (or_true b)))))

  -- The closing of a node, once its inputs are there.
  close :
      (n : Node) (inputs : LogicalPlans) (xs : Nodes) (k : ℕ) (b : Bool)
      → Keyed 0 xs
      → length xs ≡ k
      → k < max_nodes
      → close_node k (
        below max_nodes (child_ids inputs (suc k)),
        added max_nodes
            (xs ++ (k, plan_node max_nodes to_string to_uppercase ctx n inputs k) ∷ [])
            (suc k)
            b
            (nodes_below inputs (suc k))
            (sizes inputs),
      )
        ≡ (k, added max_nodes xs k b (nodes_of (node n inputs) k) (size (node n inputs)))
  unfolding numbered size
  close n inputs xs k b kx e h =
      let pn = plan_node max_nodes to_string to_uppercase ctx n inputs k in
      let ids = below max_nodes (child_ids inputs (suc k)) in
      let rest = take (max_nodes - suc k) (nodes_below inputs (suc k)) in
      let room : max_nodes - k ≡ suc (max_nodes - suc k) = omega arith in
      let moved : suc k + sizes inputs ≡ k + suc (sizes inputs) = omega arith in
      ap (λ (t : Traversal). (k, t))
        (state-eq
          (rw room (
            ap (update_node k (with_children ids)) (append_assoc xs ((k, pn) ∷ []) rest)
            ∙ update_node_at pn (with_children ids) 0 k xs rest kx (omega arith)))
          (ap (λ (m : ℕ). min m max_nodes) moved) (ap (λ (m : ℕ). b || ltb max_nodes m) moved))

  first_stored :
      (p : LogicalPlan) (xs : Nodes) (k : ℕ)
      → Keyed 0 xs
      → length xs ≡ k
      → k < max_nodes
      → contains_key k (xs ++ take (max_nodes - k) (nodes_of p k)) ≡ true
  unfolding numbered
  first_stored (node n inputs) xs k kx e h =
      let room : max_nodes - k ≡ suc (max_nodes - suc k) = omega arith in
      rw room (contains_key_at _ 0 k xs _ kx (omega arith))

  module _ (p : LogicalPlan) (ps : LogicalPlans) (k : ℕ) {j : ℕ}
      (stop : min (k + size p) max_nodes ≡ j) where
    -- The first input stays within the cap, or nothing of the others is kept.
    within : (k + size p ≡ j) ⊎ ((j ≡ max_nodes) × (max_nodes ≤ k + size p))
    within = elim (Bool-cases (leb (k + size p) max_nodes)) [
      | inl h ↦ inl (omega (arith, leb→le _ _ h))
      | inr h ↦ inr (omega (arith, leb-false→lt _ _ h), omega (arith, leb-false→lt _ _ h))
    ]

    other_ids : below max_nodes (child_ids ps j) ≡ below max_nodes (child_ids ps (k + size p))
    other_ids = elim within [
      | inl e ↦ rw e refl
      | inr (e, h) ↦
          below_none max_nodes ps j (omega arith) ∙ sym (below_none max_nodes ps (k + size p) h)
    ]

    other_nodes :
        take (max_nodes - j) (nodes_below ps j)
        ≡ take (max_nodes - k - size p) (nodes_below ps (k + size p))
    other_nodes =
        let left : max_nodes - j ≡ max_nodes - k - size p = omega arith in
        elim within [
          | inl e ↦ rw (← left, e) refl
          | inr (e, h) ↦
              let none_left : max_nodes - k - size p ≡ 0 = omega arith in rw (left, none_left) refl
        ]

    both_flags :
        (ltb max_nodes (k + size p) || ltb max_nodes (j + sizes ps))
        ≡ ltb max_nodes (k + (size p + sizes ps))
    both_flags = ground (arith, stop)

    both_nodes :
        (xs : Nodes)
        → (xs ++ take (max_nodes - k) (nodes_of p k)) ++ take (max_nodes - j) (nodes_below ps j)
          ≡ xs ++ take (max_nodes - k) (nodes_of p k ++ nodes_below ps (k + size p))
    both_nodes xs =
        append_assoc xs (take (max_nodes - k) (nodes_of p k))
          (take (max_nodes - j) (nodes_below ps j))
        ∙ ap (λ l. xs ++ l)
            (rw
              (
                take-append (max_nodes - k) (nodes_of p k) (nodes_below ps (k + size p)),
                length-numbered max_nodes to_string to_uppercase ctx p k,
                other_nodes,
              )
              refl)

  -- What the first input and the others add.
  both :
      (p : LogicalPlan) (ps : LogicalPlans) (xs : Nodes) (k : ℕ) (b : Bool)
      → Keyed 0 xs
      → length xs ≡ k
      → k < max_nodes
      → let j : ℕ = min (k + size p) max_nodes in
        push_child k (xs ++ take (max_nodes - k) (nodes_of p k)) (
          below max_nodes (child_ids ps j),
          added max_nodes
              (xs ++ take (max_nodes - k) (nodes_of p k))
              j
              (b || ltb max_nodes (k + size p))
              (nodes_below ps j)
              (sizes ps),
        )
        ≡ (
          below max_nodes (child_ids (plan p ps) k),
          added max_nodes xs k b (nodes_below (plan p ps) k) (sizes (plan p ps)),
        )
  unfolding below child_ids numbered sizes
  both p ps xs k b kx e h =
      let j : ℕ = min (k + size p) max_nodes in
      rw (first_stored p xs k kx e h, lt→ltb k max_nodes h, other_ids p ps k {j = j} refl)
        (ap (λ (t : Traversal). (k ∷ below max_nodes (child_ids ps (k + size p)), t))
          (state-eq (both_nodes p ps k {j = j} refl xs) (omega arith)
            (or_assoc b _ _ ∙ ap (λ c. b || c) (both_flags p ps k {j = j} refl))))

  length_after :
      (p : LogicalPlan) (xs : Nodes) (k : ℕ)
      → length xs ≡ k
      → k < max_nodes
      → length (xs ++ take (max_nodes - k) (nodes_of p k)) ≡ min (k + size p) max_nodes
  length_after p xs k e h = omega (
    arith,
    length-append xs (take (max_nodes - k) (nodes_of p k)),
    length-take (max_nodes - k) (nodes_of p k),
    length-numbered max_nodes to_string to_uppercase ctx p k,
  )

  mutual
    unfolding traverse_plan numbered sizes child_ids below

    pub traverse-numbered :
        (p : LogicalPlan) (xs : Nodes) (k : ℕ) (b : Bool)
        → Keyed 0 xs
        → length xs ≡ k
        → k < max_nodes
        → traverse p (state xs k b) ≡ (k, added max_nodes xs k b (nodes_of p k) (size p))
    traverse-numbered (node n inputs) xs k b kx e h =
        let pn = plan_node max_nodes to_string to_uppercase ctx n inputs k in
        let free : leb max_nodes (length xs) ≡ false = leb-false _ _ (omega arith) in
        let next : (k + 1) % 2 ^ 64 ≡ suc k = omega arith in
        rw (free, next, insert_node_last pn 0 k xs kx (omega arith))
          (ap (close_node k) (
              inputs-numbered inputs (xs ++ (k, pn) ∷ []) (suc k) b
                (Keyed-append 0 xs ((k, pn) ∷ []) kx (omega arith, tt))
                (omega (arith, length-append xs ((k, pn) ∷ []))) (omega arith))
            ∙ close n inputs xs k b kx e h)

    inputs-numbered :
        (ps : LogicalPlans) (xs : Nodes) (k : ℕ) (b : Bool)
        → Keyed 0 xs
        → length xs ≡ k
        → k ≤ max_nodes
        → inputs_of ps (state xs k b)
          ≡ (below max_nodes (child_ids ps k), added max_nodes xs k b (nodes_below ps k) (sizes ps))
    inputs-numbered no_plans xs k b kx e h =
        let room : ltb max_nodes (k + 0) ≡ false = ltb-false _ _ (omega arith) in
        ap (λ (t : Traversal). ([], t))
          (state-eq (sym (nothing xs (max_nodes - k))) (omega arith) (rw room (sym (or_false b))))
    inputs-numbered (plan p ps) xs k b kx e h = elim (Bool-cases (leb max_nodes k)) [
      | inl met ↦ full p ps xs k b e (omega (arith, leb→le _ _ met))
      | inr open_ ↦
          let room : k < max_nodes = leb-false→lt _ _ open_ in
          let free : leb max_nodes (length xs) ≡ false = leb-false _ _ (omega arith) in
          let start : k ≡ 0 + length xs = omega arith in
          let ys = xs ++ take (max_nodes - k) (nodes_of p k) in
          rw (free, traverse-numbered p xs k b kx e room)
            (ap (push_child k ys) (
                inputs-numbered ps ys (min (k + size p) max_nodes) (b || ltb max_nodes (k + size p))
                  (Keyed-append 0 xs _ kx (
                    Keyed-take _ (max_nodes - k) _ (
                      subst (λ i. Keyed i (nodes_of p k)) start
                        (numbered-Keyed max_nodes to_string to_uppercase ctx p k))))
                  (length_after p xs k e room) (omega arith))
              ∙ both p ps xs k b kx e room)
    ]
