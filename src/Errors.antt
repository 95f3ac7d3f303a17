-- ===== src/Errors.antt =====
-- `QueryError` of qsql-core/src/models.rs, with the constructors of qsql-core/src/engine.rs and
-- qsql-daemon/src/lib.rs that build one. A message is the constructor with the values that the
-- source formats into it; `code` is the JSON-RPC code.
use quiver_sql.Base.{ℕ, zero, suc, String}

pub data ℤ : Type 0 where
  pos : ℕ → ℤ
  negsuc : ℕ → ℤ

abbrev pub neg : ℕ → ℤ
neg zero = pos 0
neg (suc n) = negsuc n

pub data QueryError : Type 0 where
  page_size_zero : QueryError
  invalid_result_format : String → QueryError
  no_schema_buffered : QueryError
  ipc_encoding : String → QueryError
  execution : String → QueryError
  scan_guard : String → QueryError
  cancelled : QueryError
  timed_out : ℕ → QueryError
  buffer_rows : ℕ → QueryError
  buffer_bytes : ℕ → QueryError
  too_many_tasks : ℕ → QueryError
  query_not_found : String → QueryError

abbrev pub scan_guard_error_code : ℤ
scan_guard_error_code = neg 32100

unfoldable pub code : QueryError → ℤ
code page_size_zero = neg 32602
code (invalid_result_format raw) = neg 32602
code no_schema_buffered = neg 32603
code (ipc_encoding e) = neg 32603
code (execution msg) = neg 32001
code (scan_guard msg) = scan_guard_error_code
code cancelled = neg 32002
code (timed_out ms) = neg 32003
code (buffer_rows most) = neg 32020
code (buffer_bytes most) = neg 32020
code (too_many_tasks most) = neg 32021
code (query_not_found id) = neg 32004
