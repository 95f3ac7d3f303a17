-- ===== src/Broadcast/Joins.antt =====
-- `try_rewrite_join` of qsql-core/src/broadcast.rs, stage by stage.
use quiver_sql.Base.{
  ℕ, ◌+◌, Bool, true, false, String, Option, none, some, List, [], ◌∷◌, ◌++◌, length, Result, ok,
  err, ◌>>=◌, ◌==◌, if◌then◌else◌,
}
use quiver_sql.Broadcast.{
  BroadcastRewriteConfig, BroadcastApplication, BroadcastRewriteInfo, SkipReason,
  not_inner_equi_join, no_federated_side, both_sides_federated, non_column_join_key,
  unsupported_key_type, local_side_materialization_exceeded_cap, local_side_materialization_error,
  cancellation_requested, is_supported_key_type, JoinType, inner, Column, flat_name, DataFusion,
  Expr, JoinOn, LogicalPlan, empty_relation, join, filter_in, column_of,
  subtree_touches_guarded_provider, describe_subtree, KeyType,
}
use quiver_sql.Broadcast.Keys.{
  KeyBatch, Materialization, values, was_cancelled, exceeded_rows, exceeded_bytes, error, Planner,
  materialize_distinct_keys, collect_distinct_scalars,
}

abbrev pub is_inner : JoinType → Bool
is_inner inner = true
is_inner _ = false

abbrev pub considered_one : BroadcastRewriteInfo → BroadcastRewriteInfo
considered_one info = record info { considered = info.considered + 1 }

module _ (d : DataFusion) (planner : Planner d) where
  open d use {Scalar}
  open planner use {key_type, accepts, display}

  -- The plan that replaces the join, if there is one, and the report.
  abbrev pub Outcome : Type 0
  Outcome = Result String (Option (LogicalPlan d) × BroadcastRewriteInfo)

  abbrev pub skip : BroadcastRewriteInfo → SkipReason → Outcome
  skip info reason = ok (none, record info { skipped = info.skipped ++ reason ∷ [] })

  abbrev pub applied_with : BroadcastRewriteInfo → BroadcastApplication → LogicalPlan d → Outcome
  applied_with info app p = ok (some p, record info { applied = info.applied ++ app ∷ [] })

  -- `(local_input, remote_input, local_col, remote_col, local_is_left)`.
  pub record Sides : Type 0 where
    pub local_input : LogicalPlan d
    pub remote_input : LogicalPlan d
    pub local_col : Column
    pub remote_col : Column
    pub local_is_left : Bool

  -- `DataFusion` validates a node that it builds.
  abbrev pub checked : LogicalPlan d → Result String (LogicalPlan d)
  checked p = accepts p >>= λ u. ok p

  abbrev pub application : Sides → (rows bytes count : ℕ) → BroadcastApplication
  application s rows bytes count = record {
    local_table = describe_subtree d display s.local_input;
    remote_table = describe_subtree d display s.remote_input;
    join_key_local = flat_name s.local_col;
    join_key_remote = flat_name s.remote_col;
    local_rows_materialized = rows;
    local_bytes_materialized = bytes;
    predicate_value_count = count;
  }

  -- "Rebuild the join with the filtered remote side in the original position."
  abbrev pub new_join :
      JoinOn d → (left right : LogicalPlan d) → Sides → LogicalPlan d → LogicalPlan d
  new_join j left right s filtered_remote =
      if s.local_is_left then join j left filtered_remote else join j filtered_remote right

  -- The values are known: none of them, or an `IN` list above the remote side.
  unfoldable pub with_values :
      BroadcastRewriteInfo
      → JoinOn d
      → (left right : LogicalPlan d) → Sides
      → (rows bytes : ℕ) → List Scalar
      → Outcome
  with_values info j left right s rows bytes [] =
      applied_with info (application s rows bytes 0) (empty_relation j.schema)
  with_values info j left right s rows bytes (v ∷ vs) =
      checked (filter_in s.remote_col (v ∷ vs) s.remote_input) >>= λ filtered_remote.
      applied_with info (application s rows bytes (length (v ∷ vs)))
        (new_join j left right s filtered_remote)

  abbrev pub collected_values :
      BroadcastRewriteInfo
      → JoinOn d
      → (left right : LogicalPlan d) → Sides
      → (rows bytes : ℕ) → Result String (List Scalar)
      → Outcome
  collected_values info j left right s rows bytes (err e) =
      skip info local_side_materialization_error
  collected_values info j left right s rows bytes (ok vs) =
      with_values info j left right s rows bytes vs

  -- From `key_data_type` on.
  unfoldable pub with_key_type :
      BroadcastRewriteInfo
      → JoinOn d
      → (left right : LogicalPlan d) → Sides
      → List (KeyBatch Scalar)
      → (rows bytes : ℕ) → Result String KeyType
      → Outcome
  with_key_type info j left right s batches rows bytes (err e) =
      skip info local_side_materialization_error
  with_key_type info j left right s batches rows bytes (ok ty) =
      if is_supported_key_type ty
      then collected_values info j left right s rows bytes
          (collect_distinct_scalars d planner batches ty)
      else skip info unsupported_key_type

  -- An empty local side ends the rewrite before the type of its key is looked at.
  unfoldable pub with_materialization :
      BroadcastRewriteInfo
      → JoinOn d
      → (left right : LogicalPlan d) → Sides
      → Materialization Scalar
      → Outcome
  with_materialization info j left right s was_cancelled = skip info cancellation_requested
  with_materialization info j left right s (exceeded_rows rows most) =
      skip info local_side_materialization_exceeded_cap
  with_materialization info j left right s (exceeded_bytes bytes most) =
      skip info local_side_materialization_exceeded_cap
  with_materialization info j left right s (error why) = skip info local_side_materialization_error
  with_materialization info j left right s (values batches rows bytes) =
      if rows == 0
      then applied_with info (application s 0 0 0) (empty_relation j.schema)
      else with_key_type info j left right s batches rows bytes (key_type s.local_input s.local_col)

  abbrev pub with_sides :
      BroadcastRewriteConfig
      → BroadcastRewriteInfo
      → JoinOn d
      → (left right : LogicalPlan d) → Sides
      → Outcome
  with_sides config info j left right s =
      with_materialization info j left right s
        (materialize_distinct_keys d planner s.local_input s.local_col config)

  -- `match (left_kind, right_kind)`, where true is `Federated`.
  unfoldable pub with_kinds :
      BroadcastRewriteConfig
      → BroadcastRewriteInfo
      → JoinOn d
      → (left right : LogicalPlan d) → (left_col right_col : Column) → (left_kind right_kind : Bool)
      → Outcome
  with_kinds config info j left right left_col right_col false true =
      with_sides config info j left right (record {
        local_input = left;
        remote_input = right;
        local_col = left_col;
        remote_col = right_col;
        local_is_left = true;
      })
  with_kinds config info j left right left_col right_col true false =
      with_sides config info j left right (record {
        local_input = right;
        remote_input = left;
        local_col = right_col;
        remote_col = left_col;
        local_is_left = false;
      })
  with_kinds config info j left right left_col right_col false false = skip info no_federated_side
  with_kinds config info j left right left_col right_col true true = skip info both_sides_federated

  unfoldable pub with_columns :
      BroadcastRewriteConfig
      → BroadcastRewriteInfo
      → JoinOn d
      → (left right : LogicalPlan d) → Option Column
      → Option Column
      → Outcome
  with_columns config info j left right none right_col = skip info non_column_join_key
  with_columns config info j left right (some left_col) none = skip info non_column_join_key
  with_columns config info j left right (some left_col) (some right_col) =
      with_kinds config info j left right left_col right_col
        (subtree_touches_guarded_provider d left) (subtree_touches_guarded_provider d right)

  -- `join.on.len() != 1`, and the only key.
  unfoldable pub with_keys :
      BroadcastRewriteConfig
      → BroadcastRewriteInfo
      → JoinOn d
      → (left right : LogicalPlan d) → List (Expr d × Expr d)
      → Outcome
  with_keys config info j left right ((left_key, right_key) ∷ []) =
      with_columns config info j left right (column_of d left_key) (column_of d right_key)
  with_keys config info j left right _ = skip info not_inner_equi_join

  unfoldable pub try_rewrite_join :
      BroadcastRewriteConfig
      → JoinOn d
      → (left right : LogicalPlan d) → BroadcastRewriteInfo
      → Outcome
  try_rewrite_join config j left right info =
      if is_inner j.join_type
      then with_keys config (considered_one info) j left right j.on
      else skip (considered_one info) not_inner_equi_join
