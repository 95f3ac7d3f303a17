-- ===== src/Windows.antt =====
-- A window of rows over the queue of record batches: as JSON rows
-- (`record_batches_to_json_rows` of qsql-core/src/engine.rs) and as an Arrow IPC payload
-- (qsql-core/src/result_ipc.rs).
pub mod Exact
pub mod Saturated
mod Objects
use quiver_sql.Base.{
  ℕ, ◌+◌, ◌-◌, String, Option, none, some, List, [], ◌∷◌, min, ltb, leb, ◌==◌, if◌then◌else◌,
  str_eq, Result, ok, err, append_ok, sequence,
}
use quiver_sql.Errors.{QueryError}
use quiver_sql.Arrow.{Arrow, cells}

-- The two wire formats, and `canonicalise_result_format`.
pub data ResultFormat : Type 0 where
  json arrow_ipc : ResultFormat

unfoldable pub canonicalise_result_format : Option String → Result String ResultFormat
canonicalise_result_format none = ok json
canonicalise_result_format (some raw) =
    if str_eq raw "json" then ok json else if str_eq raw "arrow_ipc" then ok arrow_ipc else err raw

module _ (a : Arrow) where
  open a use {RecordBatch, SchemaRef, Json, num_rows, slice, write_ipc}

  -- `record_batch_to_json_rows`: the objects of a batch, or the first error.
  unfoldable pub record_batch_to_json_rows : RecordBatch → Result QueryError (List Json)
  record_batch_to_json_rows b = sequence (cells a b)

  -- The loop of `record_batches_to_json_rows` over the queue, with what is left to skip and to take.
  unfoldable pub json_rows : List RecordBatch → ℕ → ℕ → Result QueryError (List Json)
  json_rows [] remaining_skip remaining_take = ok []
  json_rows (b ∷ bs) remaining_skip remaining_take =
      let offset : ℕ = remaining_skip in
      let count : ℕ = min remaining_take (num_rows b - offset) in
      let skipped = json_rows bs (remaining_skip - num_rows b) remaining_take in
      let rest = json_rows bs 0 (remaining_take - count) in
      if remaining_take == 0
      then ok []
      else if leb (num_rows b) remaining_skip
      then skipped
      else append_ok (record_batch_to_json_rows (slice b offset count)) rest

  unfoldable pub record_batches_to_json_rows :
      List RecordBatch → ℕ → ℕ → Result QueryError (List Json)
  record_batches_to_json_rows batches start_row row_count =
      let rows = json_rows batches start_row row_count in if row_count == 0 then ok [] else rows

  -- The slices that `serialize_batches_to_ipc_base64` hands to the stream writer.
  unfoldable pub ipc_slices : List RecordBatch → ℕ → ℕ → ℕ → List RecordBatch
  ipc_slices [] row_cursor remaining start = []
  ipc_slices (b ∷ bs) row_cursor remaining start =
      let batch_end : ℕ = row_cursor + num_rows b in
      let slice_offset : ℕ = start - row_cursor in
      let slice_max : ℕ = num_rows b - slice_offset in
      let slice_len : ℕ = min remaining slice_max in
      let skipped = ipc_slices bs batch_end remaining start in
      let rest = ipc_slices bs batch_end (remaining - slice_len) start in
      if remaining == 0
      then []
      else if leb batch_end start
      then skipped
      else if ltb 0 slice_len
      then slice b slice_offset slice_len ∷ rest
      else ipc_slices bs batch_end remaining start

  unfoldable pub serialize_batches_to_ipc_base64 :
      List RecordBatch → (start len : ℕ) → SchemaRef → Result String String
  serialize_batches_to_ipc_base64 batches start len schema =
      let slices = ipc_slices batches 0 len start in
      write_ipc schema (if ltb 0 len then slices else [])
