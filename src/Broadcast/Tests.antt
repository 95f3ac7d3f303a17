-- ===== src/Broadcast/Tests.antt =====
-- The rewrite of concrete plans over rows of two texts, where the empty text is null.
use quiver_sql.Base.{
  saturating_add, String, Bool, true, false, not, ◌&&◌, none, List, [], ◌∷◌, map, append-nil, ok,
  str_eq, eq_iff, if◌then◌else◌, Bool-cases, inl, inr, ◌⊎◌, ◌≡◌, refl, sym, ap, ◌∙◌, arith,
}
use mathlib.Core.Path.{subst}
use quiver_sql.Broadcast.{
  BroadcastRewriteConfig, BroadcastRewriteInfo, DataFusion, Column, utf8, JoinOn, inner,
  null_equals_nothing, LogicalPlan, table_scan, join, filter_in, column, column_of, cast,
  subtree_touches_guarded_provider, describe_subtree, collect_table_names, flat_name,
  is_supported_key_type,
}
use quiver_sql.Broadcast.Keys.{
  KeyBatch, collected, Planner, same_type, total_rows, total_bytes, within_caps, materialize,
  materialize_distinct_keys, collect_scalar, collect_rows, collect_batches,
  collect_distinct_scalars,
}
use quiver_sql.Broadcast.Joins.{
  with_values, with_key_type, with_materialization, with_kinds, with_columns, with_keys,
  try_rewrite_join,
}
use quiver_sql.Broadcast.Rewrite.{rewrite_node, empty_info, apply_broadcast_rewrites}
use quiver_sql.Broadcast.Meaning.{
  Meanings, Among, eval, all_keys, key_value, keys_match, joins_with,
}
use quiver_sql.Broadcast.Sides.{Faithful}
use quiver_sql.Broadcast.Counting.{entries, joins, apply_broadcast_rewrites-entries}
use quiver_sql.Broadcast.Reports.{Reports, apply_broadcast_rewrites-Reports}
use quiver_sql.Broadcast.Sound.{PlainPlan, HasRows, apply_broadcast_rewrites-HasRows}

abbrev texts : DataFusion
texts = record {
  Scalar = String;
  Predicate = Unit {0};
  Schema = Unit {0};
  Operator = Unit {0};
  Target = Unit {0};
  Other = Unit {0};
}

abbrev Row : Type 0
Row = String × String

abbrev rows_of : String → List Row
rows_of name =
    if str_eq name "users"
    then ("1", "ann") ∷ ("", "bob") ∷ ("3", "cid") ∷ []
    else ("1", "10") ∷ ("2", "20") ∷ ("3", "30") ∷ ("", "40") ∷ []

-- The column "id" is the first one.
abbrev value_of : Column → Row → String
value_of c (a, b) = if str_eq c.name "id" then a else b

abbrev equal : String → String → Bool
equal s t = not (str_eq s "") && str_eq s t

abbrev meanings : Meanings texts
meanings = record {
  Row = Row;
  scan_rows = rows_of;
  value = value_of;
  computed = λ o r. "";
  cast_value = λ t s. "";
  sql_eq = equal;
  merge = λ l r. (l.1, r.1);
  passes = λ p r. true;
  other_join = λ j ls rs. [];
  apply = λ o rs. [];
}

-- Every query for keys yields one batch with the key of every row.
abbrev key_batch : LogicalPlan texts → Column → KeyBatch String
key_batch p c = record { keys = map (value_of c) (eval texts meanings p); memory_size = 64 }

abbrev planner : Planner texts
planner = record {
  key_query = λ p c fetch. collected (key_batch p c ∷ []);
  key_type = λ p c. ok utf8;
  accepts = λ p. ok tt;
  display = λ p. "plan";
  data_type = λ s. utf8;
  is_null = λ s. str_eq s "";
  debug = λ s. s;
}

Among-map :
    (f : Row → String) (row : Row) (rows : List Row) → Among row rows → Among (f row) (map f rows)
Among-map f row [] h = absurd h
Among-map f row (r ∷ rows) (inl e) = inl (ap f e)
Among-map f row (r ∷ rows) (inr h) = inr (Among-map f row rows h)

equal_comm : (s t : String) → equal s t ≡ equal t s
equal_comm s t = elim (Bool-cases (str_eq s t)) [
  | inl e ↦ let same = (eq_iff s t).0 e in ap (λ k. equal k t) same ∙ sym (ap (λ k. equal t k) same)
  | inr e ↦ elim (Bool-cases (str_eq t s)) [
    | inl f ↦ let g = (eq_iff s t).1 (sym ((eq_iff t s).0 f)) in cc
    | inr f ↦ rw (e, f) (never (not (str_eq s "")) ∙ sym (never (not (str_eq t ""))))
  ]
]
  where
    never : (b : Bool) → b && false ≡ false
    never true = refl
    never false = refl

faithful : Faithful texts planner meanings
faithful = record {
  keys_complete = λ p c fetch bs ran below row among.
      subst (λ k. Among (value_of c row) (all_keys k)) (collected-inj ran)
        (subst (Among (value_of c row))
          (sym (append-nil (map (value_of c) (eval texts meanings p))))
          (Among-map (value_of c) row (eval texts meanings p) among));
  debug_injective = λ s t e. e;
  null_equals_nothing_lem = λ s t e. rw e refl;
  sql_eq_comm = equal_comm;
}
  where
    collected-inj : {xs ys : List (KeyBatch String)} → collected xs ≡ collected ys → xs ≡ ys
    collected-inj e = cc

abbrev config : BroadcastRewriteConfig
config = record { enabled = true; max_local_rows = 10; max_local_bytes = 1000 }

abbrev id : Column
id = record { relation = none; name = "id" }

abbrev on_id : JoinOn texts
on_id = record {
  on = (column id, column id) ∷ [];
  filter = none;
  join_type = inner;
  null_equality = null_equals_nothing;
  schema = tt;
}

abbrev users_orders : LogicalPlan texts
users_orders = join on_id (table_scan "users" false) (table_scan "orders" true)

apply_broadcast_rewrites-HasRows_example :
    HasRows texts planner meanings
      (eval texts meanings users_orders)
      (apply_broadcast_rewrites texts planner config users_orders)
unfolding PlainPlan
apply_broadcast_rewrites-HasRows_example =
    apply_broadcast_rewrites-HasRows texts planner meanings config faithful (omega arith)
      users_orders (((λ e. refl), ((tt, tt), tt)), tt, tt)

apply_broadcast_rewrites-Reports_example :
    Reports config (apply_broadcast_rewrites texts planner config users_orders)
apply_broadcast_rewrites-Reports_example =
    apply_broadcast_rewrites-Reports texts planner config (λ s t e. e) (omega arith) users_orders

-- The orders are filtered to the two users that have an id.
abbrev filtered : LogicalPlan texts
filtered =
    join on_id (table_scan "users" false) (filter_in id ("1" ∷ "3" ∷ []) (table_scan "orders" true))

abbrev report : BroadcastRewriteInfo
report = record {
  considered = 1;
  applied =
      record {
        local_table = "users";
        remote_table = "orders";
        join_key_local = "id";
        join_key_remote = "id";
        local_rows_materialized = 3;
        local_bytes_materialized = 64;
        predicate_value_count = 2;
      }
      ∷ [];
  skipped = [];
}

runs : apply_broadcast_rewrites texts planner config users_orders ≡ ok (filtered, report)
unfolding apply_broadcast_rewrites rewrite_node empty_info try_rewrite_join with_keys with_columns
    with_kinds with_materialization with_key_type with_values materialize_distinct_keys materialize
    within_caps total_rows total_bytes collect_distinct_scalars collect_batches collect_rows
    collect_scalar same_type is_supported_key_type column_of subtree_touches_guarded_provider
    describe_subtree collect_table_names flat_name eval saturating_add
runs = refl

apply_broadcast_rewrites-entries_example :
    ((config.enabled ≡ true)
      × (report.considered ≡ joins texts users_orders)
      × (entries report ≡ joins texts users_orders))
    ⊎ ((config.enabled ≡ false)
        × (filtered ≡ users_orders)
        × (report.considered ≡ 0)
        × (entries report ≡ 0))
apply_broadcast_rewrites-entries_example =
    apply_broadcast_rewrites-entries texts planner config users_orders filtered report runs

-- A cast that takes every text to "1", on the remote key of the same join.
abbrev cast_meanings : Meanings texts
cast_meanings = record meanings { cast_value = λ t s. "1" }

abbrev on_cast : JoinOn texts
on_cast = record on_id { on = (column id, cast (column id) tt) ∷ [] }

abbrev cast_filtered : LogicalPlan texts
cast_filtered =
    join on_cast (table_scan "users" false)
      (filter_in id ("1" ∷ "3" ∷ []) (table_scan "orders" true))

-- The keys of the local side are put above the bare remote column, whose cast values are joined.
cast_runs :
    apply_broadcast_rewrites texts planner config
      (join on_cast (table_scan "users" false) (table_scan "orders" true))
    ≡ ok (cast_filtered, report)
unfolding apply_broadcast_rewrites rewrite_node empty_info try_rewrite_join with_keys with_columns
    with_kinds with_materialization with_key_type with_values materialize_distinct_keys materialize
    within_caps total_rows total_bytes collect_distinct_scalars collect_batches collect_rows
    collect_scalar same_type is_supported_key_type column_of subtree_touches_guarded_provider
    describe_subtree collect_table_names flat_name eval saturating_add
cast_runs = refl

cast_rows :
    eval texts cast_meanings (join on_cast (table_scan "users" false) (table_scan "orders" true))
    ≡ ("ann", "10") ∷ ("ann", "20") ∷ ("ann", "30") ∷ ("ann", "40") ∷ []
unfolding eval key_value keys_match joins_with
cast_rows = refl

-- Two of the rows are lost.
cast_filtered_rows : eval texts cast_meanings cast_filtered ≡ ("ann", "10") ∷ ("ann", "30") ∷ []
unfolding eval key_value keys_match joins_with
cast_filtered_rows = refl
