-- ===== src/Explain.antt =====
-- The plan graph of qsql-daemon/src/explain.rs: the logical plan as far as the graph reads it, with
-- the texts that DataFusion prints, and what the graph is made of. The child modules are the tests
-- on SQL texts, the attributes of a node, the traversal, the measurements, and the theorems.
mod Texts
mod Badges
mod Attributes
mod Graph
mod Layout
mod Numbers
mod Same
mod Metrics
mod Walks
mod Results
mod Substrings
mod Reasons
mod Names
mod Tests
use Prim.Native.String.{◌++◌ as push_str}
use quiver_sql.Base.{ℕ, String, Bool, Option, none, some, List}
use quiver_sql.Models.{SourceKind}
use quiver_sql.ScanBudgets.{ScanBudget}

pub data TableReference : Type 0 where
  bare : (table : String) → TableReference
  partial : (schema table : String) → TableReference
  full : (catalog schema table : String) → TableReference

unfoldable pub qualified_table_name : TableReference → String
qualified_table_name (bare table) = table
qualified_table_name (partial schema table) = push_str schema (push_str "." table)
qualified_table_name (full catalog schema table) = push_str schema (push_str "." table)

unfoldable pub table_alias_and_name : TableReference → Option (String × String)
table_alias_and_name (bare table) = none
table_alias_and_name (partial schema table) = some (schema, table)
table_alias_and_name (full catalog schema table) = some (schema, table)

-- `Expr` with the text that it prints: a column with its flat name, an `IN` list with the number of
-- its items, and all others.
pub data Expr : Type 0 where
  column : (flat_name : String) → Expr
  in_list : Expr → (items : ℕ) → (text : String) → Expr
  expression : (text : String) → Expr

-- `projection` and `filters` are the texts that they print; `budget` is there if the source of the
-- scan is a `GuardedTableProvider`.
pub record TableScan : Type 0 where
  pub table_name : TableReference
  pub projection : Option String
  pub filters : List String
  pub fetch : Option ℕ
  pub budget : Option ScanBudget

-- A sort expression: as it prints, and without its direction.
pub record SortExpr : Type 0 where
  pub text : String
  pub expr : String

pub data Operator : Type 0 where
  projection : (exprs : List String) → Operator
  filter : (predicate : Expr) → Operator
  table_scan : TableScan → Operator
  aggregate : Operator
  sort : (exprs : List SortExpr) → (fetch : Option ℕ) → Operator
  join : (join_type : String) → (on : List (String × String)) → (extra : Option String) → Operator
  repartition union subquery : Operator
  subquery_alias : TableReference → Operator
  limit extension window other : Operator

-- A node: its operator, the line that it prints, and the names of its columns.
pub record Node : Type 0 where
  pub operator : Operator
  pub display : String
  pub columns : List String

mutual
  pub data LogicalPlan : Type 0 where
    node : Node → LogicalPlans → LogicalPlan

  -- `plan.inputs()`.
  pub data LogicalPlans : Type 0 where
    no_plans : LogicalPlans
    plan : LogicalPlan → LogicalPlans → LogicalPlans

pub record RemoteSqlInfo : Type 0 where
  pub sql : String
  pub executor_name : String

-- The maps of the daemon, as lists of entries.
abbrev pub RemoteSqlMap : Type 0
RemoteSqlMap = List (String × RemoteSqlInfo)

-- A `DatabaseRegistration`: its kind is all that the graph reads.
abbrev pub Registrations : Type 0
Registrations = List (String × SourceKind)

abbrev pub Attributes : Type 0
Attributes = List (String × String)

-- The measured part of `PlanMetrics`; the estimates are never set.
pub record PlanMetrics : Type 0 where
  pub actual_rows : Option ℕ
  pub elapsed_compute_ms : Option ℕ
  pub mem_used_bytes : Option ℕ

-- The identifier `df_{n}` is the number `n`; `origin` is always "DataFusion".
pub record PlanNode : Type 0 where
  pub id : ℕ
  pub node_type : String
  pub label : String
  pub children : List ℕ
  pub attributes : Attributes
  pub metrics : PlanMetrics
  pub source_ref : Option String
  pub native_plan_ref : Option String
  pub provider_kind : Option String
  pub remote_sql : Option String

pub record PlanGraph : Type 0 where
  pub root_ids : List ℕ
  pub nodes : List (ℕ × PlanNode)
  pub node_count : ℕ
  pub truncated : Bool
