-- ===== src/ResultHandle/Pages.antt =====
-- `page_with_format`, `collect_all` and `collect_batches` of `QueryResultHandle`.
use quiver_sql.Base.{
  ℕ, ◌+◌, String, Option, none, some, Bool, ◌&&◌, List, [], length, min, leb, ◌==◌, if◌then◌else◌,
  Result, ok, err, ◌>>=◌, map_err, saturating_add, saturating_mul, saturating_sub,
}
use quiver_sql.Errors.{QueryError, invalid_result_format, no_schema_buffered, ipc_encoding}
use quiver_sql.Models.{QueryPage, QueryExecutionResult, Warning}
use quiver_sql.Arrow.{Arrow}
use quiver_sql.Windows.{
  ResultFormat, json, arrow_ipc, canonicalise_result_format, record_batches_to_json_rows,
  serialize_batches_to_ipc_base64,
}
use quiver_sql.ResultHandle.{QueryResultHandle, BufferLimits, read_until, read_to_end}

-- The arguments of a page request. `elapsed` is what `elapsed_ms(execution_start)` reads.
pub record PageRequest : Type 0 where
  pub query_id : String
  pub page_index : ℕ
  pub page_size : ℕ
  pub warning : Option Warning
  pub is_cancelled : Bool
  pub timeout_ms : Option ℕ
  pub result_format : Option String
  pub elapsed : ℕ

-- The rows that a page covers: `end` and `start` before the buffer's length is known.
abbrev pub end_of : PageRequest → ℕ
end_of r = saturating_mul (saturating_add r.page_index 1) r.page_size

abbrev pub start_of : PageRequest → ℕ
start_of r = saturating_mul r.page_index r.page_size

-- The part of a page that depends on the format: `data`, `data_ipc` and `result_format`.
abbrev pub Payload : Type 0 → Type 0
Payload Json = List Json × Option String × Option String

abbrev pub or_else : Option ℕ → ℕ → ℕ
or_else none d = d
or_else (some n) d = n

module _ (a : Arrow) where
  open a use {RecordBatch, SchemaRef, Json, schema}

  abbrev front_schema : List RecordBatch → Result QueryError SchemaRef
  front_schema [] = err no_schema_buffered
  front_schema (List.◌∷◌ b bs) = ok (schema b)

  unfoldable pub payload :
      ResultFormat → QueryResultHandle a → (start slice_len : ℕ) → Result QueryError (Payload Json)
  payload arrow_ipc h start slice_len = do
    arrow_schema ← front_schema h.batches
    text ←
        map_err ipc_encoding
          (serialize_batches_to_ipc_base64 a h.batches start slice_len arrow_schema)
    ok ([], some text, some "arrow_ipc")
  payload json h start slice_len = do
    rows ←
        (if leb h.buffered_rows start
          then ok []
          else record_batches_to_json_rows a h.batches start slice_len)
    ok (rows, none, none)

  -- The handle after `first_page_time_ms` is set.
  unfoldable pub stamp_first_page : PageRequest → QueryResultHandle a → QueryResultHandle a
  stamp_first_page r h = record h {
    first_page_time_ms =
        if r.page_index == 0
        then some (or_else h.first_page_time_ms (r.elapsed + h.planning_time_ms))
        else h.first_page_time_ms;
  }

  -- The page built from the handle after reading; `stop` is `end.min(self.buffered_rows)`.
  unfoldable pub assemble :
      PageRequest → QueryResultHandle a → (slice_len stop : ℕ) → Payload Json → QueryPage Json
  assemble r h slice_len stop (rows, data_ipc, echo_format) = record {
    query_id = r.query_id;
    schema = h.schema;
    page_index = r.page_index;
    page_size = r.page_size;
    is_last = h.terminal && leb h.buffered_rows stop;
    page_data = rows;
    data_ipc = data_ipc;
    result_format = echo_format;
    metrics = record {
      planning_time_ms = h.planning_time_ms;
      execution_time_ms = r.elapsed;
      first_page_time_ms = or_else h.first_page_time_ms (r.elapsed + h.planning_time_ms);
      rows_produced = h.buffered_rows;
      rows_returned = slice_len;
    };
    warning = r.warning;
  }

  abbrev pub finish_page :
      PageRequest
      → QueryResultHandle a
      → (stop slice_len : ℕ) → Result QueryError (Payload Json)
      → Result QueryError (QueryPage Json) × QueryResultHandle a
  unfolding stamp_first_page assemble
  finish_page r h stop slice_len (err e) = (err e, h)
  finish_page r h stop slice_len (ok p) =
      let h' = stamp_first_page r h in (ok (assemble r h' slice_len stop p), h')

  -- What follows the reading.
  unfoldable pub encode_page :
      ResultFormat
      → PageRequest
      → QueryResultHandle a
      → Result QueryError (QueryPage Json) × QueryResultHandle a
  unfolding stamp_first_page assemble
  encode_page format r h =
      let start : ℕ = start_of r in
      let stop : ℕ = min (end_of r) h.buffered_rows in
      let slice_len : ℕ = saturating_sub stop start in
      finish_page r h stop slice_len (payload format h start slice_len)

module _ (a : Arrow) (limits : BufferLimits) where
  open a use {RecordBatch, Json}

  abbrev pub then_encode :
      ResultFormat
      → PageRequest
      → Result QueryError (Unit {0}) × QueryResultHandle a
      → Result QueryError (QueryPage Json) × QueryResultHandle a
  then_encode format r (err e, h) = (err e, h)
  then_encode format r (ok _, h) = encode_page a format r h

  abbrev pub page_as :
      Result String ResultFormat
      → QueryResultHandle a
      → PageRequest
      → Result QueryError (QueryPage Json) × QueryResultHandle a
  page_as (err bad) h r = (err (invalid_result_format bad), h)
  page_as (ok format) h r =
      then_encode format r
        (read_until a limits h (saturating_add (end_of r) 1) r.is_cancelled r.timeout_ms)

  unfoldable pub page_with_format :
      QueryResultHandle a → PageRequest → Result QueryError (QueryPage Json) × QueryResultHandle a
  page_with_format h r = page_as (canonicalise_result_format r.result_format) h r

  -- `page`: the JSON default.
  unfoldable pub page :
      QueryResultHandle a → PageRequest → Result QueryError (QueryPage Json) × QueryResultHandle a
  page h r = page_with_format h (record r { result_format = none })

  abbrev pub collected :
      ℕ
      → Result QueryError (Unit {0}) × QueryResultHandle a
      → Result QueryError (QueryExecutionResult Json)
  collected elapsed (err e, h) = err e
  collected elapsed (ok _, h) = do
    rows ← record_batches_to_json_rows a h.batches 0 h.buffered_rows
    ok (record {
      schema = h.schema;
      rows = rows;
      metrics = record {
        planning_time_ms = h.planning_time_ms;
        execution_time_ms = elapsed;
        first_page_time_ms = or_else h.first_page_time_ms (elapsed + h.planning_time_ms);
        rows_produced = length rows;
        rows_returned = length rows;
      };
    })

  unfoldable pub collect_all :
      QueryResultHandle a → Bool → Option ℕ → ℕ → Result QueryError (QueryExecutionResult Json)
  collect_all h is_cancelled timeout_ms elapsed =
      collected elapsed (read_to_end a limits h is_cancelled timeout_ms)

  abbrev collected_batches :
      Result QueryError (Unit {0}) × QueryResultHandle a → Result QueryError (List RecordBatch)
  collected_batches (err e, h) = err e
  collected_batches (ok _, h) = ok h.batches

  unfoldable pub collect_batches :
      QueryResultHandle a → Bool → Option ℕ → Result QueryError (List RecordBatch)
  collect_batches h is_cancelled timeout_ms =
      collected_batches (read_to_end a limits h is_cancelled timeout_ms)
