-- ===== src/Broadcast/Meaning.antt =====
-- What a plan means, written independently of the rewrite of qsql-core/src/broadcast.rs: the rows
-- that it yields, in order.
use quiver_sql.Base.{
  String, Bool, true, ◌&&◌, Option, none, some, List, [], ◌∷◌, ◌++◌, any, if◌then◌else◌, ◌≡◌, ◌⊎◌,
}
use quiver_sql.Broadcast.{
  DataFusion, Expr, column, cast, alias, other, JoinOn, JoinType, inner, NullEquality,
  null_equals_nothing, LogicalPlan, LogicalPlans, table_scan, empty_relation, join, filter_in,
  extension, operator, no_plans, plan, Column,
}
use quiver_sql.Broadcast.Keys.{KeyBatch}

-- The rows of the tables and of the operators that the rewrite only carries along, the values in a
-- row, and equality as SQL has it.
pub record Meanings (d : DataFusion) : Type 1 where
  pub Row : Type 0
  pub scan_rows : String → List Row
  pub value : Column → Row → d.Scalar
  pub computed : d.Other → Row → d.Scalar
  pub cast_value : d.Target → d.Scalar → d.Scalar
  pub sql_eq : d.Scalar → d.Scalar → Bool
  pub merge : Row → Row → Row
  pub passes : d.Predicate → Row → Bool
  pub other_join : JoinOn d → List Row → List Row → List Row
  pub apply : d.Operator → List (List Row) → List Row

abbrev pub Among : {A : Type 0} → A → List A → Type 0
Among a [] = ⊥
Among a (x ∷ xs) = (a ≡ x) ⊎ Among a xs

abbrev pub filter_rows : {A : Type 0} → (A → Bool) → List A → List A
filter_rows keep [] = []
filter_rows keep (x ∷ xs) = let rest = filter_rows keep xs in if keep x then x ∷ rest else rest

module _ (d : DataFusion) (m : Meanings d) where
  open m use {Row, scan_rows, value, computed, cast_value, sql_eq, merge, passes, other_join, apply}

  unfoldable pub key_value : Expr d → Row → d.Scalar
  key_value (column c) row = value c row
  key_value (cast e t) row = cast_value t (key_value e row)
  key_value (alias e n) row = key_value e row
  key_value (other o) row = computed o row

  -- Every pair of keys is equal.
  unfoldable pub keys_match : List (Expr d × Expr d) → Row → Row → Bool
  keys_match [] l r = true
  keys_match ((left_key, right_key) ∷ on) l r =
      sql_eq (key_value left_key l) (key_value right_key r) && keys_match on l r

  abbrev pub passes_filter : Option d.Predicate → Row → Bool
  passes_filter none row = true
  passes_filter (some p) row = passes p row

  unfoldable pub joins_with : JoinOn d → Row → Row → Bool
  joins_with j l r = keys_match j.on l r && passes_filter j.filter (merge l r)

  -- One row of the left side with those of the right side.
  abbrev pub matches : (Row → Row → Bool) → Row → List Row → List Row
  matches test l [] = []
  matches test l (r ∷ rs) =
      let rest = matches test l rs in if test l r then merge l r ∷ rest else rest

  abbrev pub inner_rows : (Row → Row → Bool) → List Row → List Row → List Row
  inner_rows test [] rs = []
  inner_rows test (l ∷ ls) rs = matches test l rs ++ inner_rows test ls rs

  abbrev pub join_rows : JoinType → NullEquality → JoinOn d → List Row → List Row → List Row
  join_rows inner null_equals_nothing j ls rs = inner_rows (joins_with j) ls rs
  join_rows _ _ j ls rs = other_join j ls rs

  abbrev pub is_in : Column → List d.Scalar → Row → Bool
  is_in c vs row = any (sql_eq (value c row)) vs

  unfoldable mutual
    pub eval : LogicalPlan d → List Row
    eval (table_scan n guarded) = scan_rows n
    eval (empty_relation s) = []
    eval (join j l r) = join_rows j.join_type j.null_equality j (eval l) (eval r)
    eval (filter_in c vs p) = filter_rows (is_in c vs) (eval p)
    eval (extension o ps) = apply o (eval_all ps)
    eval (operator o ps) = apply o (eval_all ps)

    pub eval_all : LogicalPlans d → List (List Row)
    eval_all no_plans = []
    eval_all (plan p ps) = eval p ∷ eval_all ps

-- All keys of some batches.
abbrev pub all_keys : {Scalar : Type 0} → List (KeyBatch Scalar) → List Scalar
all_keys [] = []
all_keys (b ∷ bs) = b.keys ++ all_keys bs
