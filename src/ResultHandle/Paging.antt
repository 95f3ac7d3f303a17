-- ===== src/ResultHandle/Paging.antt =====
-- Pages and complete results show exactly the rows of the query.
use quiver_sql.Base.{
  ℕ, ◌+◌, ◌-◌, ◌*◌, ◌≤◌, ◌<◌, ◌≡◌, refl, sym, ap, ◌∙◌, ◌⊎◌, ◌↔◌, inl, inr, Option, none, Bool, true,
  false, ◌&&◌, List, [], leb, Result, ok, err, ◌>>=◌, arith, append-nil, usize_max, if_elim, length,
  length-append, take, drop, take_all, min, sequence, saturating_add, leb→le, le→leb, Bool-cases,
}
use mathlib.Core.Path.{subst}
use quiver_sql.Errors.{QueryError}
use quiver_sql.Models.{QueryPage, QueryExecutionResult}
use quiver_sql.Arrow.{Arrow, SliceLaws, cells_of}
use quiver_sql.Windows.{json, canonicalise_result_format, record_batches_to_json_rows}
use quiver_sql.Windows.Exact.{record_batches_to_json_rows_lem}
use quiver_sql.Windows.Saturated.{end_at-reaches, target-reaches, taken-eq-window}
use quiver_sql.ResultHandle.{QueryResultHandle, BufferLimits, read_until, read_to_end}
use quiver_sql.ResultHandle.Reading.{
  ahead, all_cells, length-cells_of, IsConsistent, Leaves, read_until-Leaves,
}
use quiver_sql.ResultHandle.Pages.{
  PageRequest, end_of, start_of, payload, encode_page, then_encode, page_as, page_with_format,
  collected, collect_all, finish_page, stamp_first_page, assemble,
}

module _ (a : Arrow) (limits : BufferLimits) where
  open a use {RecordBatch, Json}

  -- The rows of page `page_index` of all `rows`.
  abbrev pub page_rows : PageRequest → List (Result QueryError Json) → List (Result QueryError Json)
  page_rows r rows = take r.page_size (drop (r.page_index * r.page_size) rows)

  -- What a page shows of the rows of its query.
  pub record Shows (r : PageRequest) (rows : List (Result QueryError Json)) (p : QueryPage Json)
      (h : QueryResultHandle a) : Type 0 where
    pub window : sequence (page_rows r rows) ≡ ok p.page_data
    pub last : (p.is_last ≡ true) ↔ (length rows ≤ r.page_index * r.page_size + r.page_size)
    pub consistent : IsConsistent a limits h
    pub same_rows : all_cells a h ≡ rows

  abbrev Answer : Type 0
  Answer = Result QueryError (QueryPage Json) × QueryResultHandle a

  abbrev ShowsIfOk : PageRequest → List (Result QueryError Json) → Answer → Type 0
  ShowsIfOk r rows (ok p, h) = Shows r rows p h
  ShowsIfOk r rows (err e, h) = Unit

  module _ (laws : SliceLaws a) (room : limits.max_rows < usize_max) where
    -- The JSON payload is the window of the buffer.
    payload-json :
        (h : QueryResultHandle a) (r : PageRequest)
        → IsConsistent a limits h
        → (ahead a h.stream ≡ []) ⊎ (r.page_index * r.page_size + r.page_size < h.buffered_rows)
        → payload a json h (start_of r) (min (end_of r) h.buffered_rows - start_of r)
          ≡ (sequence (page_rows r (all_cells a h)) >>= λ rows. ok (rows, none, none))
    unfolding payload
    payload-json h r c reached =
        ap (λ x. x >>= λ rows. ok (rows, none, none))
          (if_elim (λ x. x ≡ sequence (page_rows r (all_cells a h)))
            (leb h.buffered_rows (start_of r))
            (λ past. ap sequence (sym (empty_window past) ∙ window))
            (λ here.
              record_batches_to_json_rows_lem a laws h.batches (start_of r) count
              ∙ ap sequence window))
      where
        count : ℕ
        count = min (end_of r) h.buffered_rows - start_of r

        len : length (cells_of a h.batches) ≡ h.buffered_rows
        len = length-cells_of a h.batches ∙ sym c.counted

        window : take count (drop (start_of r) (cells_of a h.batches)) ≡ page_rows r (all_cells a h)
        window = rw (← len) (
            taken-eq-window r.page_index r.page_size (cells_of a h.batches) (ahead a h.stream)
              (rw len (let w = c.within in omega arith)) (rw len reached))

        empty_window :
            leb h.buffered_rows (start_of r) ≡ true
            → take count (drop (start_of r) (cells_of a h.batches)) ≡ []
        empty_window past =
            let z : count ≡ 0 = omega (arith, leb→le h.buffered_rows (start_of r) past) in rw z refl

    -- `is_last` is true exactly when no row comes after the window.
    last_iff :
        (h : QueryResultHandle a) (r : PageRequest)
        → IsConsistent a limits h
        → (h.terminal ≡ true) ⊎ (saturating_add (end_of r) 1 ≤ h.buffered_rows)
        → ((h.terminal && leb h.buffered_rows (min (end_of r) h.buffered_rows)) ≡ true)
          ↔ (length (all_cells a h) ≤ r.page_index * r.page_size + r.page_size)
    last_iff h r c reached =
        rw
          (
            length-append (cells_of a h.batches) (ahead a h.stream),
            length-cells_of a h.batches ∙ sym c.counted,
          )
          (elim (Bool-cases h.terminal) [
            | inl ended ↦
                rw (ended, ap length (c.ended ended))
                  (
                    (λ e. omega (arith, reaches.0 (omega (arith, leb→le _ _ e)))),
                    (λ e. le→leb _ _ (omega (arith, reaches.1 (omega arith)))),
                  )
            | inr open_ended ↦
                rw open_ended ((λ e. cc), (λ e. absurd (beyond open_ended reached e)))
          ])
      where
        room' : h.buffered_rows < usize_max
        room' = let w = c.within in omega arith

        reaches :
            (h.buffered_rows ≤ end_of r)
            ↔ (h.buffered_rows ≤ r.page_index * r.page_size + r.page_size)
        reaches = end_at-reaches r.page_index r.page_size h.buffered_rows room'

        beyond :
            h.terminal ≡ false
            → (h.terminal ≡ true) ⊎ (saturating_add (end_of r) 1 ≤ h.buffered_rows)
            → h.buffered_rows + length (ahead a h.stream) ≤ r.page_index * r.page_size + r.page_size
            → ⊥
        beyond open_ended (inl ended) e = cc
        beyond open_ended (inr far) e =
            omega (arith, target-reaches r.page_index r.page_size h.buffered_rows room' far)

    finish_page-Shows :
        (h : QueryResultHandle a) (r : PageRequest) (x : Result QueryError (List Json)) (n : ℕ)
        → IsConsistent a limits h
        → (h.terminal ≡ true) ⊎ (saturating_add (end_of r) 1 ≤ h.buffered_rows)
        → sequence (page_rows r (all_cells a h)) ≡ x
        → ShowsIfOk r (all_cells a h) (
            finish_page a r h
              (min (end_of r) h.buffered_rows)
              n
              (x >>= λ rows. ok (rows, none, none)))
    unfolding stamp_first_page assemble
    finish_page-Shows h r (err e) n c reached same = tt
    finish_page-Shows h r (ok rows) n c reached same = record {
      window = same;
      last = last_iff h r c reached;
      consistent = record { counted = c.counted; within = c.within; ended = c.ended };
      same_rows = refl;
    }

    in_buffer :
        (h : QueryResultHandle a) (r : PageRequest)
        → IsConsistent a limits h
        → (h.terminal ≡ true) ⊎ (saturating_add (end_of r) 1 ≤ h.buffered_rows)
        → (ahead a h.stream ≡ []) ⊎ (r.page_index * r.page_size + r.page_size < h.buffered_rows)
    in_buffer h r c (inl ended) = inl (c.ended ended)
    in_buffer h r c (inr far) = inr (
        target-reaches r.page_index r.page_size h.buffered_rows (let w = c.within in omega arith)
          far)

    encode_page-Shows :
        (h : QueryResultHandle a) (r : PageRequest)
        → IsConsistent a limits h
        → (h.terminal ≡ true) ⊎ (saturating_add (end_of r) 1 ≤ h.buffered_rows)
        → ShowsIfOk r (all_cells a h) (encode_page a json r h)
    unfolding encode_page
    encode_page-Shows h r c reached =
        rw (payload-json h r c (in_buffer h r c reached)) (finish_page-Shows h r _ _ c reached refl)

    then_encode-Shows :
        (r : PageRequest) (rows : List (Result QueryError Json))
        (read : Result QueryError (Unit {0}) × QueryResultHandle a)
        → Leaves a limits (saturating_add (end_of r) 1) rows read
        → ShowsIfOk r rows (then_encode a limits json r read)
    then_encode-Shows r rows (err e, h) l = tt
    then_encode-Shows r rows (ok u, h) (c, same, reached) =
        rw (← same) (encode_page-Shows h r c reached)

    -- A JSON page of a consistent handle that is returned without an error shows exactly the rows
    -- `page_index * page_size` and following of the query, `page_size` of them, where the rows of
    -- the query are those buffered and those the stream still brings; `is_last` is true exactly
    -- when no row comes after the page; and the handle stays consistent and loses no row. The
    -- row limit of the buffer is below `usize::MAX`.
    pub page_with_format-Shows :
        (h h' : QueryResultHandle a) (r : PageRequest) (p : QueryPage Json)
        → IsConsistent a limits h
        → canonicalise_result_format r.result_format ≡ ok json
        → page_with_format a limits h r ≡ (ok p, h')
        → Shows r (all_cells a h) p h'
    unfolding page_with_format
    page_with_format-Shows h h' r p c format e =
        let read =
          read_until a limits h (saturating_add (end_of r) 1) r.is_cancelled r.timeout_ms in
        let shown : ShowsIfOk r (all_cells a h) (page_as a limits (ok json) h r) =
          then_encode-Shows r (all_cells a h) read (
            read_until-Leaves a limits h (saturating_add (end_of r) 1) r.is_cancelled r.timeout_ms
              room c) in
        subst (ShowsIfOk r (all_cells a h)) (ap (λ f. page_as a limits f h r) (sym format) ∙ e)
          shown

    rows_kept :
        (x : Result QueryError (List Json)) (make : List Json → QueryExecutionResult Json)
        → ((l : List Json) → (make l).rows ≡ l)
        → (result : QueryExecutionResult Json) → (x >>= λ l. ok (make l)) ≡ ok result
        → x ≡ ok result.rows
    rows_kept (ok l) make keeps result e =
        ap ok (sym (keeps l)) ∙ ap (λ y. y >>= λ (q : QueryExecutionResult Json). ok q.rows) e
    rows_kept (err x) make keeps result e = cc

    collected-all :
        (elapsed : ℕ) (rows : List (Result QueryError Json))
        (read : Result QueryError (Unit {0}) × QueryResultHandle a)
        → Leaves a limits usize_max rows read
        → (result : QueryExecutionResult Json) → collected a limits elapsed read ≡ ok result
        → sequence rows ≡ ok result.rows
    collected-all elapsed rows (err e, h) l result r = cc
    collected-all elapsed rows (ok u, h) (c, same, reached) result r =
        let ended : h.terminal ≡ true = elim reached [
          | inl t ↦ t
          | inr far ↦ absurd (let w = c.within in omega arith)
        ] in
        let len : length (cells_of a h.batches) ≡ h.buffered_rows =
          length-cells_of a h.batches ∙ sym c.counted in
        let all : take h.buffered_rows (cells_of a h.batches) ≡ rows =
          take_all h.buffered_rows (cells_of a h.batches) (omega (arith, len))
          ∙ sym (append-nil (cells_of a h.batches))
          ∙ rw (← c.ended ended) same in
        let encoded : record_batches_to_json_rows a h.batches 0 h.buffered_rows ≡ sequence rows =
          record_batches_to_json_rows_lem a laws h.batches 0 h.buffered_rows ∙ ap sequence all in
        sym encoded
        ∙ rows_kept (record_batches_to_json_rows a h.batches 0 h.buffered_rows) _ (λ l. refl) result
            r

    -- A complete result that is returned without an error holds every row of the query, in order.
    pub collect_all_complete :
        (h : QueryResultHandle a) (is_cancelled : Bool) (timeout_ms : Option ℕ) (elapsed : ℕ)
        (result : QueryExecutionResult Json)
        → IsConsistent a limits h
        → collect_all a limits h is_cancelled timeout_ms elapsed ≡ ok result
        → sequence (all_cells a h) ≡ ok result.rows
    unfolding collect_all read_to_end
    collect_all_complete h is_cancelled timeout_ms elapsed result c e =
        collected-all elapsed (all_cells a h)
          (read_until a limits h usize_max is_cancelled timeout_ms)
          (read_until-Leaves a limits h usize_max is_cancelled timeout_ms room c) result e
