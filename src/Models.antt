-- ===== src/Models.antt =====
-- The data of qsql-core/src/models.rs that the engine and the daemon exchange, and its two
-- functions on pages.
pub mod Pages
pub mod Tests
use quiver_sql.Base.{
  ℕ, ◌+◌, ◌≤◌, String, Option, none, some, Bool, List, [], min, length, take, drop, ltb, leb, ◌==◌,
  if◌then◌else◌, Result, ok, err, saturating_add, saturating_mul, saturating_sub,
}
use quiver_sql.Errors.{QueryError, page_size_zero}

pub data SourceKind : Type 0 where
  csv parquet json ndjson sqlite fixed_width postgres mysql mariadb : SourceKind

pub record SchemaField : Type 0 where
  pub name : String
  pub data_type : String
  pub nullable : Bool

pub record Schema : Type 0 where
  pub fields : List SchemaField

pub record PerformanceMetrics : Type 0 where
  pub planning_time_ms : ℕ
  pub execution_time_ms : ℕ
  pub first_page_time_ms : ℕ
  pub rows_produced : ℕ
  pub rows_returned : ℕ

-- What a page may warn of: the requested page size and the maximum that replaced it.
pub data Warning : Type 0 where
  page_size_clamped : (size max_size : ℕ) → Warning

-- `page_data` is the field `data` of the source.
pub record QueryPage (Json : Type 0) : Type 0 where
  pub query_id : String
  pub schema : Schema
  pub page_index : ℕ
  pub page_size : ℕ
  pub is_last : Bool
  pub page_data : List Json
  pub data_ipc : Option String
  pub result_format : Option String
  pub metrics : PerformanceMetrics
  pub warning : Option Warning

pub record QueryExecutionResult (Json : Type 0) : Type 0 where
  pub schema : Schema
  pub rows : List Json
  pub metrics : PerformanceMetrics

-- `max_size` and `def_size` are what `max_page_size` and `default_page_size` read.
unfoldable pub normalize_page_size :
    (max_size def_size : ℕ) → Option ℕ → Result QueryError (ℕ × Option Warning)
normalize_page_size max_size def_size none = ok (def_size, none)
normalize_page_size max_size def_size (some size) =
    if size == 0
    then err page_size_zero
    else if ltb max_size size
    then ok (max_size, some (page_size_clamped size max_size))
    else ok (size, none)

unfoldable pub build_query_page :
    {Json : Type 0} → String → QueryExecutionResult Json → ℕ → ℕ → Option Warning → QueryPage Json
build_query_page query_id result page_index page_size warning =
    let start : ℕ = saturating_mul page_index page_size in
    let end : ℕ = min (saturating_add start page_size) (length result.rows) in
    let rows =
      if leb (length result.rows) start
      then []
      else take (saturating_sub end start) (drop start result.rows) in
    record {
      query_id = query_id;
      schema = result.schema;
      page_index = page_index;
      page_size = page_size;
      is_last = leb (length result.rows) end;
      page_data = rows;
      data_ipc = none;
      result_format = none;
      metrics = record result.metrics { rows_returned = length rows };
      warning = warning;
    }
