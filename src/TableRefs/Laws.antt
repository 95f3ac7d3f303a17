-- ===== src/TableRefs/Laws.antt =====
-- The collected references are those of the query, each once, and none is hidden by a common table
-- expression.
use quiver_sql.Base.{
  String, Bool, true, false, ◌||◌, ◌≡◌, refl, sym, ◌∙◌, inl, inr, Bool-cases, List, [], ◌∷◌, ◌++◌,
  any, eq_iff, arith, Result, ok,
}
use quiver_sql.TableRefs.{
  DatabaseTableReference, Collected, key_eq, Statement, extract_database_table_refs,
}
use quiver_sql.TableRefs.Spec.{in_statements}
use quiver_sql.TableRefs.Walk.{add_key, add_all, collect_statements-eq}

key_eq-sym : (j k : String × String) → key_eq j k ≡ key_eq k j
key_eq-sym (a, t) (b, u) = ground (arith, eq_iff a b, eq_iff b a, eq_iff t u, eq_iff u t)

-- Equal keys are found alike.
key_eq_trans : (i j k : String × String) → key_eq i j ≡ true → key_eq i k ≡ key_eq j k
key_eq_trans (a, t) (b, u) (d, v) h =
    ground (arith, eq_iff a b, eq_iff a d, eq_iff b d, eq_iff t u, eq_iff t v, eq_iff u v)

-- Whether a reference is in a list.
abbrev pub refers : List DatabaseTableReference → String × String → Bool
refers refs k = any (λ r. key_eq (r.alias, r.table_name) k) refs

abbrev pub mentions : List (String × String) → String × String → Bool
mentions ks k = any (λ j. key_eq j k) ks

-- No reference stands in the list twice.
abbrev pub Distinct : List DatabaseTableReference → Type 0
Distinct [] = Unit
Distinct (r ∷ refs) = (refers refs (r.alias, r.table_name) ≡ false) × Distinct refs

abbrev as_ref : String × String → DatabaseTableReference
as_ref (s, t) = record { alias = s; table_name = t }

refers-snoc :
    (refs : List DatabaseTableReference) (j k : String × String)
    → refers (refs ++ as_ref j ∷ []) k ≡ (refers refs k || key_eq j k)
refers-snoc [] (s, t) k = ground arith
refers-snoc (r ∷ refs) (s, t) k = ground (arith, refers-snoc refs (s, t) k)

Distinct-snoc :
    (refs : List DatabaseTableReference) (k : String × String)
    → Distinct refs
    → refers refs k ≡ false
    → Distinct (refs ++ as_ref k ∷ [])
Distinct-snoc [] k d h = (refl, tt)
Distinct-snoc (r ∷ refs) k d h = (
  ground (arith, refers-snoc refs k (r.alias, r.table_name), key_eq-sym k (r.alias, r.table_name)),
  Distinct-snoc refs k d.1 (ground arith),
)

-- `seen` and `refs` hold the same keys, and `refs` holds each once.
record InStep (c : Collected) : Type 0 where
  same : (k : String × String) → mentions c.seen k ≡ refers c.refs k
  distinct : Distinct c.refs

mentions_of_key_eq :
    (ks : List (String × String)) (j k : String × String)
    → key_eq j k ≡ true
    → mentions ks j ≡ mentions ks k
mentions_of_key_eq [] j k h = refl
mentions_of_key_eq (i ∷ ks) j k h =
    ground
      (arith, mentions_of_key_eq ks j k h, key_eq_trans j k i h, key_eq-sym j i, key_eq-sym k i)

add_key-InStep : (j : String × String) (c : Collected) → InStep c → InStep (add_key j c)
unfolding add_key
add_key-InStep (s, t) c step = elim (Bool-cases (mentions c.seen (s, t))) [
  | inl old ↦ rw old step
  | inr new ↦ rw new (record {
    same = λ k. rw (refers-snoc c.refs (s, t) k) (ground (arith, step.same k));
    distinct = Distinct-snoc c.refs (s, t) step.distinct (sym (step.same (s, t)) ∙ new);
  })
]

add_key-refers :
    (j k : String × String) (c : Collected)
    → InStep c
    → refers (add_key j c).refs k ≡ (refers c.refs k || key_eq j k)
unfolding add_key
add_key-refers (s, t) k c step = elim (Bool-cases (mentions c.seen (s, t))) [
  | inl old ↦
      rw old (ground (arith, step.same k, step.same (s, t), mentions_of_key_eq c.seen (s, t) k))
  | inr new ↦ rw new (refers-snoc c.refs (s, t) k)
]

add_all-InStep : (ks : List (String × String)) (c : Collected) → InStep c → InStep (add_all ks c)
unfolding add_all
add_all-InStep [] c step = step
add_all-InStep (k ∷ ks) c step = add_all-InStep ks (add_key k c) (add_key-InStep k c step)

add_all-refers :
    (ks : List (String × String)) (c : Collected) (k : String × String)
    → InStep c
    → refers (add_all ks c).refs k ≡ (refers c.refs k || mentions ks k)
unfolding add_all
add_all-refers [] c k step = ground arith
add_all-refers (j ∷ ks) c k step =
    ground (
      arith,
      add_all-refers ks (add_key j c) k (add_key-InStep j c step),
      add_key-refers j k c step,
    )

abbrev nothing : Collected
nothing = record { refs = []; seen = [] }

nothing-InStep : InStep nothing
nothing-InStep = record { same = λ k. refl; distinct = tt }

-- From a text that the parser accepts, the extraction returns exactly the visible qualified tables
-- that its statements name in the clauses that the code reads, each once. These are WITH, FROM with
-- the joined tables, the select list, WHERE and HAVING, with the queries in their expressions; tables
-- named only in ON, GROUP BY, ORDER BY or the arguments of functions and casts are not among them.
pub extract_database_table_refs_lem :
    (parse_sql : String → Result String (List Statement)) (sql : String) (sts : List Statement)
    → parse_sql sql ≡ ok sts
    → (refs : List DatabaseTableReference) × (extract_database_table_refs parse_sql sql ≡ ok refs)
      × ((k : String × String) → refers refs k ≡ mentions (in_statements sts) k)
      × Distinct refs
unfolding extract_database_table_refs
extract_database_table_refs_lem parse_sql sql sts parsed = (
  (add_all (in_statements sts) nothing).refs,
  rw (parsed, collect_statements-eq sts nothing) refl,
  (λ k. add_all-refers (in_statements sts) nothing k nothing-InStep),
  (add_all-InStep (in_statements sts) nothing nothing-InStep).distinct,
)
