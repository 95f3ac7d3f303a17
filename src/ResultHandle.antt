-- ===== src/ResultHandle.antt =====
-- `QueryResultHandle` of qsql-core/src/engine.rs: the buffer of record batches behind the pages of
-- one query. The batch stream, the cancellation token and the timer are the environment: what they
-- do is the list of events that a handle still has before it.
pub mod Pages
pub mod Reading
pub mod Paging
pub mod Overflow
pub mod Agreement
pub mod Tests
use quiver_sql.Base.{
  ℕ, Option, none, some, Bool, true, false, not, ◌&&◌, List, [], ◌∷◌, ◌++◌, ltb, ◌==◌,
  if◌then◌else◌, Result, ok, err, usize_max, saturating_add,
}
use quiver_sql.Errors.{QueryError, cancelled, timed_out, buffer_rows, buffer_bytes}
use quiver_sql.Models.{Schema}
use quiver_sql.Arrow.{Arrow}

-- The environment's moves while a handle reads: a batch, an error of the stream, the cancellation
-- of the token, the end of the time limit. The empty list is the end of the stream.
pub data StreamEvent (RecordBatch : Type 0) : Type 0 where
  batch : RecordBatch → StreamEvent RecordBatch
  failure : QueryError → StreamEvent RecordBatch
  cancel : StreamEvent RecordBatch
  expire : StreamEvent RecordBatch

-- `get_max_buffered_result_rows` and `get_max_buffered_result_bytes`, read from the environment.
pub record BufferLimits : Type 0 where
  pub max_rows : ℕ
  pub max_bytes : ℕ

module _ (a : Arrow) where
  open a use {RecordBatch}

  -- `broadcast_info` is left out: planning sets it, and no operation here reads it.
  pub record QueryResultHandle : Type 0 where
    pub schema : Schema
    pub stream : List (StreamEvent RecordBatch)
    pub batches : List RecordBatch
    pub buffered_rows : ℕ
    pub buffered_bytes : ℕ
    pub terminal : Bool
    pub planning_time_ms : ℕ
    pub first_page_time_ms : Option ℕ

abbrev pub is_zero_limit : Option ℕ → Bool
is_zero_limit none = false
is_zero_limit (some ms) = ms == 0

module _ (a : Arrow) (limits : BufferLimits) where
  open a use {RecordBatch, num_rows, get_array_memory_size}
  open limits use {max_rows, max_bytes}

  abbrev pub Handle : Type 0
  Handle = QueryResultHandle a

  -- The counters are raised before the limits are tested, and the batch is queued after.
  pub push_batch : Handle → RecordBatch → Result QueryError (Unit {0}) × Handle
  push_batch h b =
      if num_rows b == 0
      then (ok tt, h)
      else (let h' : Handle = record h {
        buffered_rows = saturating_add h.buffered_rows (num_rows b);
        buffered_bytes = saturating_add h.buffered_bytes (get_array_memory_size b);
      } in
          if ltb max_rows h'.buffered_rows
          then (err (buffer_rows max_rows), h')
          else if ltb max_bytes h'.buffered_bytes
          then (err (buffer_bytes max_bytes), h')
          else (ok tt, record h' { batches = h'.batches ++ b ∷ [] }))

  -- The condition of the read loop.
  abbrev pub wants_more : ℕ → Handle → Bool
  wants_more target_rows h = not h.terminal && ltb h.buffered_rows target_rows

  abbrev pub with_stream : List (StreamEvent RecordBatch) → Handle → Handle
  with_stream events h = record h { stream = events }

  -- `self.push_batch(&batch)?`, then the loop goes on.
  abbrev pub after_push :
      List (StreamEvent RecordBatch)
      → Result QueryError (Unit {0}) × Handle
      → (Handle → Result QueryError (Unit {0}) × Handle)
      → Result QueryError (Unit {0}) × Handle
  after_push events (ok _, h) continue = continue h
  after_push events (err e, h) continue = (err e, with_stream events h)

  -- The read loop over the events that come; a query without a time limit has no timer.
  pub read_loop :
      ℕ → Option ℕ → List (StreamEvent RecordBatch) → Handle → Result QueryError (Unit {0}) × Handle
  unfolding push_batch
  read_loop target limit [] h =
      if wants_more target h
      then (ok tt, record h { terminal = true; stream = [] })
      else (ok tt, with_stream [] h)
  read_loop target limit (batch b ∷ events) h =
      if wants_more target h
      then after_push events (push_batch h b) (read_loop target limit events)
      else (ok tt, with_stream (batch b ∷ events) h)
  read_loop target limit (failure e ∷ events) h =
      if wants_more target h
      then (err e, with_stream events h)
      else (ok tt, with_stream (failure e ∷ events) h)
  read_loop target limit (cancel ∷ events) h =
      if wants_more target h
      then (err cancelled, with_stream events h)
      else (ok tt, with_stream (cancel ∷ events) h)
  read_loop target (some ms) (expire ∷ events) h =
      if wants_more target h
      then (err (timed_out ms), with_stream events h)
      else (ok tt, with_stream (expire ∷ events) h)
  read_loop target none (expire ∷ events) h = read_loop target none events h

  -- `is_cancelled` is the state of the token when the call begins.
  pub read_until : Handle → ℕ → Bool → Option ℕ → Result QueryError (Unit {0}) × Handle
  unfolding read_loop
  read_until h target_rows is_cancelled timeout_ms =
      if is_cancelled
      then (err cancelled, h)
      else if is_zero_limit timeout_ms
      then (err (timed_out 0), h)
      else read_loop target_rows timeout_ms h.stream h

  pub read_to_end : Handle → Bool → Option ℕ → Result QueryError (Unit {0}) × Handle
  unfolding read_until
  read_to_end h is_cancelled timeout_ms = read_until h usize_max is_cancelled timeout_ms
