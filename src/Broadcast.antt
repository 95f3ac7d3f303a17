-- ===== src/Broadcast.antt =====
-- The broadcast join rewrite of qsql-core/src/broadcast.rs: its configuration and report, the plans
-- that it reads, and what it asks of a plan. The child modules are the keys of the local side, the
-- rewrite of a join and of a plan, and the theorems.
mod Keys
mod Joins
mod Rewrite
mod Views
mod Meaning
mod Filters
mod Values
mod Counting
mod Caps
mod Sides
mod Sound
mod Reports
mod Tests
use Prim.Native.String.{◌++◌ as push_str}
use quiver_sql.Base.{
  ℕ, String, Bool, true, false, ◌||◌, Option, none, some, List, [], ◌∷◌, ◌++◌, if◌then◌else◌,
}

pub record BroadcastRewriteConfig : Type 0 where
  pub enabled : Bool
  pub max_local_rows : ℕ
  pub max_local_bytes : ℕ

-- `elapsed_ms`, a clock reading, is left out.
pub record BroadcastApplication : Type 0 where
  pub local_table : String
  pub remote_table : String
  pub join_key_local : String
  pub join_key_remote : String
  pub local_rows_materialized : ℕ
  pub local_bytes_materialized : ℕ
  pub predicate_value_count : ℕ

-- `BroadcastSkip`: the reason, without its text.
pub data SkipReason : Type 0 where
  not_inner_equi_join : SkipReason
  no_federated_side : SkipReason
  both_sides_federated : SkipReason
  non_column_join_key : SkipReason
  unsupported_key_type : SkipReason
  local_side_materialization_exceeded_cap : SkipReason
  local_side_materialization_error : SkipReason
  cancellation_requested : SkipReason

pub record BroadcastRewriteInfo : Type 0 where
  pub considered : ℕ
  pub applied : List BroadcastApplication
  pub skipped : List SkipReason

-- The types of Arrow that `is_supported_key_type` names, and the others.
pub data KeyType : Type 0 where
  boolean int8 int16 int32 int64 uint8 uint16 uint32 uint64 : KeyType
  float32 float64 utf8 large_utf8 date32 date64 : KeyType
  unsupported : ℕ → KeyType

unfoldable pub is_supported_key_type : KeyType → Bool
is_supported_key_type (unsupported n) = false
is_supported_key_type _ = true

pub data JoinType : Type 0 where
  inner left right full left_semi right_semi left_anti right_anti left_mark right_mark : JoinType

pub data NullEquality : Type 0 where
  null_equals_nothing null_equals_null : NullEquality

pub record Column : Type 0 where
  pub relation : Option String
  pub name : String

unfoldable pub flat_name : Column → String
flat_name c = elim c.relation [ none ↦ c.name | some r ↦ push_str r (push_str "." c.name) ]

-- What DataFusion has and the rewrite only carries along: scalars, the extra predicate of a join,
-- schemas, the other operators with their expressions, the targets of casts, other expressions.
pub record DataFusion : Type 1 where
  pub Scalar : Type 0
  pub Predicate : Type 0
  pub Schema : Type 0
  pub Operator : Type 0
  pub Target : Type 0
  pub Other : Type 0

module _ (d : DataFusion) where
  open d use {Scalar, Predicate, Schema, Operator, Target, Other}

  -- `Expr` of DataFusion, as far as `column_of` looks.
  pub data Expr : Type 0 where
    column : Column → Expr
    cast : Expr → Target → Expr
    alias : Expr → String → Expr
    other : Other → Expr

  -- The fields of `Join` but its two inputs.
  pub record JoinOn : Type 0 where
    pub on : List (Expr × Expr)
    pub filter : Option Predicate
    pub join_type : JoinType
    pub null_equality : NullEquality
    pub schema : Schema

  -- `LogicalPlan` of DataFusion, as far as the rewrite looks: `guarded` says that the source of a scan
  -- is a `GuardedTableProvider`, `filter_in` is the filter that the rewrite builds.
  mutual
    pub data LogicalPlan : Type 0 where
      table_scan : (table_name : String) (guarded : Bool) → LogicalPlan
      empty_relation : Schema → LogicalPlan
      join : JoinOn → LogicalPlan → LogicalPlan → LogicalPlan
      filter_in : Column → List Scalar → LogicalPlan → LogicalPlan
      extension : Operator → LogicalPlans → LogicalPlan
      operator : Operator → LogicalPlans → LogicalPlan

    pub data LogicalPlans : Type 0 where
      no_plans : LogicalPlans
      plan : LogicalPlan → LogicalPlans → LogicalPlans

  unfoldable pub column_of : Expr → Option Column
  column_of (column c) = some c
  column_of (cast e t) = column_of e
  column_of (alias e n) = column_of e
  column_of (other o) = none

  -- The inputs of an extension are looked at twice, as those of its node and as those of the plan.
  unfoldable mutual
    pub subtree_touches_guarded_provider : LogicalPlan → Bool
    subtree_touches_guarded_provider (table_scan n guarded) = guarded
    subtree_touches_guarded_provider (empty_relation s) = false
    subtree_touches_guarded_provider (join j l r) =
        subtree_touches_guarded_provider l || subtree_touches_guarded_provider r
    subtree_touches_guarded_provider (filter_in c vs p) = subtree_touches_guarded_provider p
    subtree_touches_guarded_provider (extension o ps) =
        any_touches_guarded_provider ps || any_touches_guarded_provider ps
    subtree_touches_guarded_provider (operator o ps) = any_touches_guarded_provider ps

    pub any_touches_guarded_provider : LogicalPlans → Bool
    any_touches_guarded_provider no_plans = false
    any_touches_guarded_provider (plan p ps) =
        subtree_touches_guarded_provider p || any_touches_guarded_provider ps

  -- The names are pushed in the order of the walk, so the list is threaded.
  unfoldable mutual
    pub collect_table_names : LogicalPlan → List String → List String
    collect_table_names (table_scan n guarded) out = out ++ n ∷ []
    collect_table_names (empty_relation s) out = out
    collect_table_names (join j l r) out = collect_table_names r (collect_table_names l out)
    collect_table_names (filter_in c vs p) out = collect_table_names p out
    collect_table_names (extension o ps) out = collect_all_table_names ps out
    collect_table_names (operator o ps) out = collect_all_table_names ps out

    pub collect_all_table_names : LogicalPlans → List String → List String
    collect_all_table_names no_plans out = out
    collect_all_table_names (plan p ps) out = collect_all_table_names ps (collect_table_names p out)

  -- `tables.join(",")`, or the display of the plan if there are no tables.
  abbrev pub join_names : String → List String → String
  join_names shown [] = shown
  join_names shown (n ∷ []) = n
  join_names shown (n ∷ m ∷ ns) =
      let rest = join_names shown (m ∷ ns) in push_str n (push_str "," rest)

  unfoldable pub describe_subtree : (display : LogicalPlan → String) → LogicalPlan → String
  describe_subtree display p = join_names (display p) (collect_table_names p [])
