-- ===== src/Explain/Numbers.antt =====
-- Maps of nodes whose keys count up: an insertion at the end, and the entry of a key.
use mathlib.Core.Path.{subst}
use quiver_sql.Base.{
  ℕ, zero, suc, ◌+◌, ◌<◌, true, false, [], ◌∷◌, ◌++◌, length, take, ◌==◌, ==_iff, arith, ◌≡◌, refl,
  ap,
}
use quiver_sql.Explain.{PlanNode}
use quiver_sql.Explain.Graph.{Nodes, insert_node, contains_key, update_node}

-- The keys are `i`, `i + 1`, and so on.
abbrev pub Keyed : ℕ → Nodes → Type 0
Keyed i [] = Unit
Keyed i ((id, n) ∷ nodes) = (id ≡ i) × Keyed (suc i) nodes

pub Keyed-append :
    (i : ℕ) (xs ys : Nodes) → Keyed i xs → Keyed (i + length xs) ys → Keyed i (xs ++ ys)
Keyed-append i [] ys kx ky = let e : i + 0 ≡ i = omega arith in subst (λ j. Keyed j ys) e ky
Keyed-append i ((id, n) ∷ xs) ys kx ky =
    let e : i + suc (length xs) ≡ suc i + length xs = omega arith in
    (kx.0, Keyed-append (suc i) xs ys kx.1 (subst (λ j. Keyed j ys) e ky))

pub Keyed-take : (i k : ℕ) (xs : Nodes) → Keyed i xs → Keyed i (take k xs)
Keyed-take i zero xs kx = tt
Keyed-take i (suc k) [] kx = tt
Keyed-take i (suc k) ((id, n) ∷ xs) kx = (kx.0, Keyed-take (suc i) k xs kx.1)

pub other_number : (a b : ℕ) → a < b → (b == a) ≡ false
other_number a b h = ground arith

pub same_number : (a : ℕ) → (a == a) ≡ true
same_number a = (==_iff a a).1 refl

module _ (n : PlanNode) where
  pub insert_node_last :
      (i k : ℕ) (xs : Nodes)
      → Keyed i xs
      → i + length xs ≡ k
      → insert_node k n xs ≡ xs ++ (k, n) ∷ []
  unfolding insert_node
  insert_node_last i k [] kx e = refl
  insert_node_last i k ((id, m) ∷ xs) kx e =
      rw (other_number id k (omega arith))
        (ap (λ l. (id, m) ∷ l) (insert_node_last (suc i) k xs kx.1 (omega arith)))

  pub update_node_at :
      (f : PlanNode → PlanNode) (i k : ℕ) (xs ys : Nodes)
      → Keyed i xs
      → i + length xs ≡ k
      → update_node k f (xs ++ (k, n) ∷ ys) ≡ xs ++ (k, f n) ∷ ys
  unfolding update_node
  update_node_at f i k [] ys kx e = rw (same_number k) refl
  update_node_at f i k ((id, m) ∷ xs) ys kx e =
      rw (other_number id k (omega arith))
        (ap (λ l. (id, m) ∷ l) (update_node_at f (suc i) k xs ys kx.1 (omega arith)))

  pub contains_key_at :
      (i k : ℕ) (xs ys : Nodes)
      → Keyed i xs
      → i + length xs ≡ k
      → contains_key k (xs ++ (k, n) ∷ ys) ≡ true
  unfolding contains_key
  contains_key_at i k [] ys kx e = rw (same_number k) refl
  contains_key_at i k ((id, m) ∷ xs) ys kx e =
      rw (other_number id k (omega arith)) (contains_key_at (suc i) k xs ys kx.1 (omega arith))
