-- ===== src/ResultHandle/Overflow.antt =====
-- A batch that overfills the buffer is counted and not queued: after that error the counter is no
-- longer the number of rows in the queue, and the next page of the same handle misses rows.
use quiver_sql.Base.{
  ◌-◌, List, ◌∷◌, drop, drop_all, leb, ap, sequence, ◌>>=◌, take_all, saturating_mul_exact, ℕ, ◌+◌,
  ◌≤◌, ◌<◌, ◌≡◌, refl, inl, inr, ok, arith, usize_max, saturating_add, none, min, false, [], ◌*◌,
}
use quiver_sql.Arrow.{Arrow, SliceLaws, total_rows, cells_of}
use quiver_sql.ResultHandle.{
  QueryResultHandle, BufferLimits, StreamEvent, batch, failure, cancel, expire, read_loop,
  read_until, wants_more, with_stream,
}
use quiver_sql.Models.{QueryPage}
use quiver_sql.Windows.{json, canonicalise_result_format}
use quiver_sql.Windows.Exact.{record_batches_to_json_rows_lem}
use quiver_sql.Windows.Saturated.{end_at-cases}
use quiver_sql.ResultHandle.Pages.{
  PageRequest, page_with_format, encode_page, payload, start_of, end_of, assemble, stamp_first_page,
}
use quiver_sql.ResultHandle.Reading.{length-cells_of}

module _ (a : Arrow) (limits : BufferLimits) where
  open a use {RecordBatch, Json, num_rows}

  idle_at :
      (target : ℕ) (h : QueryResultHandle a)
      → target ≤ h.buffered_rows
      → wants_more a limits target h ≡ false
  idle_at target h reached = ground arith

  -- A handle whose counter has reached the target reads no batch.
  read_loop_idle :
      (target : ℕ) (events : List (StreamEvent RecordBatch)) (h : QueryResultHandle a)
      → wants_more a limits target h ≡ false
      → (rest : List (StreamEvent RecordBatch)) × (read_loop a limits target none events h
          ≡ (ok tt, with_stream a limits rest h))
  unfolding read_loop
  read_loop_idle target [] h idle = ([], rw idle refl)
  read_loop_idle target (batch b ∷ events) h idle = (batch b ∷ events, rw idle refl)
  read_loop_idle target (failure e ∷ events) h idle = (failure e ∷ events, rw idle refl)
  read_loop_idle target (cancel ∷ events) h idle = (cancel ∷ events, rw idle refl)
  read_loop_idle target (expire ∷ events) h idle = read_loop_idle target events h idle

  -- The payload of a window beyond the queue, where the counter says that it is inside.
  payload-beyond :
      (h : QueryResultHandle a) (start count : ℕ)
      → SliceLaws a
      → total_rows a h.batches ≤ start
      → start < h.buffered_rows
      → payload a json h start count ≡ ok ([], none, none)
  unfolding payload
  payload-beyond h start count laws beyond inside =
      let past : drop start (cells_of a h.batches) ≡ [] =
        drop_all start (cells_of a h.batches) (omega (arith, length-cells_of a h.batches)) in
      let here : leb h.buffered_rows start ≡ false = ground arith in
      rw (here, record_batches_to_json_rows_lem a laws h.batches start count, past)
        (ap (λ l. sequence l >>= λ rows. ok (rows, none, none)) (take_all count [] (omega arith)))

  -- After such an error the daemon keeps the session. If the counter of a handle passes a window
  -- that lies beyond its queue, the page of that window is returned without an error, with no row
  -- at all, `page_size` rows declared as returned, and `is_last` false.
  pub page-over_limit :
      (h : QueryResultHandle a) (r : PageRequest)
      → SliceLaws a
      → h.buffered_rows < usize_max
      → total_rows a h.batches ≤ r.page_index * r.page_size
      → r.page_index * r.page_size + r.page_size < h.buffered_rows
      → r.is_cancelled ≡ false
      → r.timeout_ms ≡ none
      → canonicalise_result_format r.result_format ≡ ok json
      → (p : QueryPage Json) × (h' : QueryResultHandle a) × (page_with_format a limits h r
          ≡ (ok p, h'))
        × (p.page_data ≡ [])
        × (p.metrics.rows_returned ≡ r.page_size)
        × (p.is_last ≡ false)
  unfolding page_with_format encode_page read_until stamp_first_page assemble saturating_add
  page-over_limit h r laws room beyond inside live untimed format =
      let start : start_of r ≡ r.page_index * r.page_size =
        saturating_mul_exact r.page_index r.page_size (omega arith) in
      let stop : end_of r ≡ r.page_index * r.page_size + r.page_size =
        elim (end_at-cases r.page_index r.page_size) [
          | inl e ↦ e
          | inr (big, far) ↦ absurd (omega arith)
        ] in
      let target : saturating_add (end_of r) 1 ≤ h.buffered_rows = rw stop (omega arith) in
      let idle : wants_more a limits (saturating_add (end_of r) 1) h ≡ false = idle_at _ h target in
      let (rest, read) = read_loop_idle (saturating_add (end_of r) 1) h.stream h idle in
      let h1 = with_stream a limits rest h in
      let cut : min (end_of r) h.buffered_rows ≡ r.page_index * r.page_size + r.page_size =
        omega (arith, stop) in
      let count = min (end_of r) h.buffered_rows - start_of r in
      let empty : payload a json h1 (start_of r) count ≡ ok ([], none, none) =
        payload-beyond h1 (start_of r) count laws (rw start beyond) (rw start (omega arith)) in
      let h2 = stamp_first_page a r h1 in
      (
        assemble a r h2 count (min (end_of r) h.buffered_rows) ([], none, none),
        h2,
        rw (format, live, untimed, read, empty) refl,
        refl,
        omega (arith, start, cut),
        ground (arith, cut),
      )
