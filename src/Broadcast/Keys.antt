-- ===== src/Broadcast/Keys.antt =====
-- The distinct join keys of the local side: `materialize_distinct_keys` and
-- `collect_distinct_scalars` of qsql-core/src/broadcast.rs. DataFusion plans and runs the query for
-- the keys; its outcome is a parameter.
use quiver_sql.Base.{
  ℕ, ◌+◌, ◌%◌, ◌^◌, String, Bool, List, [], ◌∷◌, ◌++◌, length, any, Result, ok, err, ◌>>=◌,
  saturating_add, ltb, ◌==◌, str_eq, if◌then◌else◌,
}
use quiver_sql.Broadcast.{
  BroadcastRewriteConfig, DataFusion, LogicalPlan, Column, KeyType, boolean, int8, int16, int32,
  int64, uint8, uint16, uint32, uint64, float32, float64, utf8, large_utf8, date32, date64,
  unsupported,
}

-- A batch of the key query: its only column, and its size in memory.
pub record KeyBatch (Scalar : Type 0) : Type 0 where
  pub keys : List Scalar
  pub memory_size : ℕ

-- How the query for the keys ends: it is not built, planned or collected, it is cancelled, or it
-- yields batches.
pub data KeyQuery (Scalar : Type 0) : Type 0 where
  not_run : String → KeyQuery Scalar
  cancelled : KeyQuery Scalar
  collected : List (KeyBatch Scalar) → KeyQuery Scalar

pub data Materialization (Scalar : Type 0) : Type 0 where
  values : List (KeyBatch Scalar) → (rows bytes : ℕ) → Materialization Scalar
  was_cancelled : Materialization Scalar
  exceeded_rows : (rows max_local_rows : ℕ) → Materialization Scalar
  exceeded_bytes : (bytes max_local_bytes : ℕ) → Materialization Scalar
  error : String → Materialization Scalar

-- `DataType` is compared by its constructor.
abbrev type_code : KeyType → ℕ
type_code boolean = 0
type_code int8 = 1
type_code int16 = 2
type_code int32 = 3
type_code int64 = 4
type_code uint8 = 5
type_code uint16 = 6
type_code uint32 = 7
type_code uint64 = 8
type_code float32 = 9
type_code float64 = 10
type_code utf8 = 11
type_code large_utf8 = 12
type_code date32 = 13
type_code date64 = 14
type_code (unsupported n) = 15 + n

unfoldable pub same_type : KeyType → KeyType → Bool
same_type s t = type_code s == type_code t

-- What the rewrite asks of DataFusion and of `ScalarValue`.
pub record Planner (d : DataFusion) : Type 0 where
  pub key_query : LogicalPlan d → Column → (fetch : ℕ) → KeyQuery d.Scalar
  pub key_type : LogicalPlan d → Column → Result String KeyType
  pub accepts : LogicalPlan d → Result String (Unit {0})
  pub display : LogicalPlan d → String
  pub data_type : d.Scalar → KeyType
  pub is_null : d.Scalar → Bool
  pub debug : d.Scalar → String

-- `config.max_local_rows + 1`.
unfoldable pub fetch_limit : BroadcastRewriteConfig → ℕ
fetch_limit config = (config.max_local_rows + 1) % 2 ^ 64

module _ {Scalar : Type 0} where
  unfoldable pub total_rows : ℕ → List (KeyBatch Scalar) → ℕ
  total_rows rows [] = rows
  total_rows rows (b ∷ bs) = total_rows (saturating_add rows (length b.keys)) bs

  unfoldable pub total_bytes : ℕ → List (KeyBatch Scalar) → ℕ
  total_bytes bytes [] = bytes
  total_bytes bytes (b ∷ bs) = total_bytes (saturating_add bytes b.memory_size) bs

  -- The two caps.
  unfoldable pub within_caps :
      BroadcastRewriteConfig → List (KeyBatch Scalar) → (rows bytes : ℕ) → Materialization Scalar
  within_caps config batches rows bytes =
      if ltb config.max_local_rows rows
      then exceeded_rows rows config.max_local_rows
      else if ltb config.max_local_bytes bytes
      then exceeded_bytes bytes config.max_local_bytes
      else values batches rows bytes

  unfoldable pub materialize : BroadcastRewriteConfig → KeyQuery Scalar → Materialization Scalar
  materialize config (not_run why) = error why
  materialize config cancelled = was_cancelled
  materialize config (collected batches) =
      within_caps config batches (total_rows 0 batches) (total_bytes 0 batches)

module _ (d : DataFusion) (planner : Planner d) where
  open d use {Scalar}
  open planner use {key_query, data_type, is_null, debug}

  unfoldable pub materialize_distinct_keys :
      LogicalPlan d → Column → BroadcastRewriteConfig → Materialization Scalar
  materialize_distinct_keys local_subplan local_col config =
      materialize config (key_query local_subplan local_col (fetch_limit config))

  -- `out` and `seen`.
  abbrev pub Distinct : Type 0
  Distinct = List Scalar × List String

  -- One row: the set is asked, the type checked, and a value that is not null kept.
  unfoldable pub collect_scalar : KeyType → Scalar → Distinct → Result String Distinct
  collect_scalar expected_ty scalar (out, seen) =
      if any (str_eq (debug scalar)) seen
      then ok (out, seen)
      else if same_type (data_type scalar) expected_ty
      then ok (if is_null scalar then out else out ++ scalar ∷ [], debug scalar ∷ seen)
      else err "materialized key type did not match"

  unfoldable pub collect_rows : KeyType → List Scalar → Distinct → Result String Distinct
  collect_rows expected_ty [] c = ok c
  collect_rows expected_ty (scalar ∷ rest) c =
      collect_scalar expected_ty scalar c >>= λ c'. collect_rows expected_ty rest c'

  unfoldable pub collect_batches :
      KeyType → List (KeyBatch Scalar) → Distinct → Result String Distinct
  collect_batches expected_ty [] c = ok c
  collect_batches expected_ty (b ∷ bs) c =
      collect_rows expected_ty b.keys c >>= λ c'. collect_batches expected_ty bs c'

  unfoldable pub collect_distinct_scalars :
      List (KeyBatch Scalar) → KeyType → Result String (List Scalar)
  collect_distinct_scalars batches expected_ty =
      collect_batches expected_ty batches ([], []) >>= λ c. ok c.0
