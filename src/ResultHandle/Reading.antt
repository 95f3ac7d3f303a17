-- ===== src/ResultHandle/Reading.antt =====
-- What the read loop keeps: the buffer's counter, and the rows of the query.
use quiver_sql.Base.{
  ℕ, ◌+◌, ◌≤◌, ◌<◌, ◌≡◌, ◌≢◌, refl, ◌∙◌, ◌⊎◌, inl, Option, none, some, Bool, true, false, List, [],
  ◌∷◌, ◌++◌, ltb, Result, ok, err, arith, append_assoc, append-nil, usize_max, saturating_add,
  if_elim, ==_iff, ltb-false→le, length, length-append, ◌==◌,
}
use quiver_sql.Errors.{QueryError, buffer_rows, buffer_bytes}
use quiver_sql.Arrow.{Arrow, cells, cells_of, total_rows, total_rows-append, length-cells_from}
use quiver_sql.ResultHandle.{
  QueryResultHandle, StreamEvent, batch, failure, cancel, expire, BufferLimits, wants_more,
  push_batch, read_loop, read_until, with_stream, after_push, is_zero_limit,
}

module _ (a : Arrow) where
  open a use {RecordBatch, Json, num_rows}

  -- The rows that the environment's moves still bring.
  abbrev pub ahead : List (StreamEvent RecordBatch) → List (Result QueryError Json)
  ahead [] = []
  ahead (batch b ∷ events) = cells a b ++ ahead events
  ahead (failure e ∷ events) = ahead events
  ahead (cancel ∷ events) = ahead events
  ahead (expire ∷ events) = ahead events

  -- The rows of the query: those in the buffer, then those that the stream still brings.
  abbrev pub all_cells : QueryResultHandle a → List (Result QueryError Json)
  all_cells h = cells_of a h.batches ++ ahead h.stream

  cells_of-append :
      (bs cs : List RecordBatch) → cells_of a (bs ++ cs) ≡ cells_of a bs ++ cells_of a cs
  cells_of-append [] cs = refl
  cells_of-append (b ∷ bs) cs = rw (cells_of-append bs cs, append_assoc) refl

  pub length-cells_of : (bs : List RecordBatch) → length (cells_of a bs) ≡ total_rows a bs
  length-cells_of [] = refl
  length-cells_of (b ∷ bs) =
      rw (length-append (cells a b) (cells_of a bs))
        (omega (arith, length-cells_of bs, length-cells_from a b 0 (num_rows b)))

  -- A batch without rows brings none.
  cells-empty : (b : RecordBatch) → num_rows b ≡ 0 → cells a b ≡ []
  cells-empty b e = rw e refl

  module _ (limits : BufferLimits) where
    -- The invariant of a handle: the counter is the number of rows in the queue and within the
    -- limit, and nothing comes after the end of the stream.
    pub record IsConsistent (h : QueryResultHandle a) : Type 0 where
      pub counted : h.buffered_rows ≡ total_rows a h.batches
      pub within : h.buffered_rows ≤ limits.max_rows
      pub ended : h.terminal ≡ true → ahead h.stream ≡ []

    -- What reading leaves: on success the invariant, the same rows, and either the end of the
    -- stream or enough rows; on an error, other than that of a full buffer, the first two.
    abbrev pub Leaves :
        ℕ
        → List (Result QueryError Json)
        → Result QueryError (Unit {0}) × QueryResultHandle a
        → Type 0
    Leaves target rows (ok _, h) =
        IsConsistent h × (all_cells h ≡ rows) × ((h.terminal ≡ true) ⊎ (target ≤ h.buffered_rows))
    Leaves target rows (err (buffer_rows n), h) = Unit
    Leaves target rows (err (buffer_bytes n), h) = Unit
    Leaves target rows (err _, h) = IsConsistent h × (all_cells h ≡ rows)

    Leaves-err :
        (target : ℕ) {rows : List (Result QueryError Json)} (e : QueryError)
        (h : QueryResultHandle a)
        → IsConsistent h
        → all_cells h ≡ rows
        → Leaves target rows (err e, h)
    Leaves-err target (buffer_rows n) h c r = tt
    Leaves-err target (buffer_bytes n) h c r = tt
    Leaves-err target _ h c r = (c, r)

    -- A saturating sum below the limit did not saturate.
    saturating_add_exact' :
        (m n most : ℕ)
        → ltb most (saturating_add m n) ≡ false
        → most < usize_max
        → saturating_add m n ≡ m + n
    unfolding saturating_add
    saturating_add_exact' m n most h room = ground arith

    -- What `push_batch` leaves: a pushed batch is counted and queued, and no error is possible but
    -- that of a full buffer.
    abbrev Pushed :
        List (Result QueryError Json)
        → Bool
        → Result QueryError (Unit {0}) × QueryResultHandle a
        → Type 0
    Pushed rows ended (ok _, h) =
        (h.buffered_rows ≡ total_rows a h.batches)
        × (h.buffered_rows ≤ limits.max_rows)
        × (cells_of a h.batches ≡ rows)
        × (h.terminal ≡ ended)
    Pushed rows ended (err (buffer_rows n), h) = Unit
    Pushed rows ended (err (buffer_bytes n), h) = Unit
    Pushed rows ended (err _, h) = ⊥

    push_batch-Pushed :
        (h : QueryResultHandle a) (b : RecordBatch)
        → limits.max_rows < usize_max
        → h.buffered_rows ≡ total_rows a h.batches
        → h.buffered_rows ≤ limits.max_rows
        → Pushed (cells_of a h.batches ++ cells a b) h.terminal (push_batch a limits h b)
    unfolding push_batch
    push_batch-Pushed h b room counted within =
        let rows : ℕ = saturating_add h.buffered_rows (num_rows b) in
        let bytes : ℕ = saturating_add h.buffered_bytes (a.get_array_memory_size b) in
        let cs = cells_of a h.batches ++ cells a b in
        let P = Pushed cs h.terminal in
        if_elim P (num_rows b == 0)
          (λ empty.
            (counted, within, rw (cells-empty b ((==_iff _ _).0 empty), append-nil) refl, refl))
          λ full.
            if_elim P (ltb limits.max_rows rows) (λ many. tt)
              λ few.
                if_elim P (ltb limits.max_bytes bytes) (λ large. tt)
                  λ small.
                    let exact =
                      saturating_add_exact' h.buffered_rows (num_rows b) limits.max_rows few room in
                    let queued : QueryResultHandle a = record h {
                      buffered_rows = rows;
                      buffered_bytes = bytes;
                      batches = h.batches ++ b ∷ [];
                    } in
                    let p : Pushed cs h.terminal (ok tt, queued) = (
                      exact ∙ rw (total_rows-append a h.batches (b ∷ [])) (omega (arith, counted)),
                      ltb-false→le _ _ few,
                      rw (cells_of-append h.batches (b ∷ []), append-nil) refl,
                      refl,
                    ) in
                    p

    after_push-Leaves :
        (target : ℕ) (rows cs : List (Result QueryError Json)) (ended : Bool)
        (events : List (StreamEvent RecordBatch))
        (continue : QueryResultHandle a → Result QueryError (Unit {0}) × QueryResultHandle a)
        (r : Result QueryError (Unit {0}) × QueryResultHandle a)
        → Pushed cs ended r
        → ((h : QueryResultHandle a) → Pushed cs ended (ok tt, h) → Leaves target rows (continue h))
        → Leaves target rows (after_push a limits events r continue)
    after_push-Leaves target rows cs ended events continue (ok u, h) p k = k h p
    after_push-Leaves target rows cs ended events continue (err (buffer_rows n), h) p k = tt
    after_push-Leaves target rows cs ended events continue (err (buffer_bytes n), h) p k = tt
    after_push-Leaves target rows cs ended events continue (err _, h) p k = absurd p

    -- The loop stops without a read.
    stop :
        (target : ℕ) (events : List (StreamEvent RecordBatch)) (h : QueryResultHandle a)
        → h.buffered_rows ≡ total_rows a h.batches
        → h.buffered_rows ≤ limits.max_rows
        → (h.terminal ≡ true → ahead events ≡ [])
        → wants_more a limits target h ≡ false
        → Leaves target
            (cells_of a h.batches ++ ahead events)
            (ok tt, with_stream a limits events h)
    stop target events h counted within ended enough =
        (record { counted = counted; within = within; ended = ended }, refl, ground arith)

    -- The loop reads only before the end of the stream.
    not_ended :
        (target : ℕ) (h h' : QueryResultHandle a)
        → h'.terminal ≡ h.terminal
        → wants_more a limits target h ≡ true
        → h'.terminal ≢ true
    not_ended target h h' still more t = ground arith

    -- The loop keeps the invariant and the rows, whatever the environment does.
    read_loop-Leaves :
        (target : ℕ) (limit : Option ℕ) (events : List (StreamEvent RecordBatch))
        (h : QueryResultHandle a)
        → limits.max_rows < usize_max
        → h.buffered_rows ≡ total_rows a h.batches
        → h.buffered_rows ≤ limits.max_rows
        → (h.terminal ≡ true → ahead events ≡ [])
        → Leaves target
            (cells_of a h.batches ++ ahead events)
            (read_loop a limits target limit events h)
    unfolding read_loop
    read_loop-Leaves target limit [] h room counted within ended =
        if_elim (Leaves target (cells_of a h.batches ++ [])) (wants_more a limits target h)
          (λ more.
            (record { counted = counted; within = within; ended = λ _. refl }, refl, inl refl))
          (λ enough. stop target [] h counted within ended enough)
    read_loop-Leaves target limit (batch b ∷ events) h room counted within ended =
        if_elim (Leaves target (cells_of a h.batches ++ (cells a b ++ ahead events)))
          (wants_more a limits target h)
          (λ more.
            after_push-Leaves target _ _ _ events _ (push_batch a limits h b)
              (push_batch-Pushed h b room counted within)
              λ h' (counted', within', same, still).
                rw (← append_assoc, ← same)
                  (read_loop-Leaves target limit events h' room counted' within'
                    λ t. absurd (not_ended target h h' (still) more t)))
          (λ enough. stop target (batch b ∷ events) h counted within ended enough)
    read_loop-Leaves target limit (failure e ∷ events) h room counted within ended =
        if_elim (Leaves target (cells_of a h.batches ++ ahead events))
          (wants_more a limits target h)
          (λ more.
            Leaves-err target e (with_stream a limits events h)
              (record { counted = counted; within = within; ended = ended }) refl)
          (λ enough. stop target (failure e ∷ events) h counted within ended enough)
    read_loop-Leaves target limit (cancel ∷ events) h room counted within ended =
        if_elim (Leaves target (cells_of a h.batches ++ ahead events))
          (wants_more a limits target h)
          (λ more. (record { counted = counted; within = within; ended = ended }, refl))
          (λ enough. stop target (cancel ∷ events) h counted within ended enough)
    read_loop-Leaves target (some ms) (expire ∷ events) h room counted within ended =
        if_elim (Leaves target (cells_of a h.batches ++ ahead events))
          (wants_more a limits target h)
          (λ more. (record { counted = counted; within = within; ended = ended }, refl))
          (λ enough. stop target (expire ∷ events) h counted within ended enough)
    read_loop-Leaves target none (expire ∷ events) h room counted within ended =
        read_loop-Leaves target none events h room counted within ended

    -- Reading keeps the invariant and the rows of the query; on success it has reached the target
    -- or the end of the stream.
    pub read_until-Leaves :
        (h : QueryResultHandle a) (target : ℕ) (is_cancelled : Bool) (timeout_ms : Option ℕ)
        → limits.max_rows < usize_max
        → IsConsistent h
        → Leaves target (all_cells h) (read_until a limits h target is_cancelled timeout_ms)
    unfolding read_until
    read_until-Leaves h target is_cancelled timeout_ms room c =
        let P = Leaves target (all_cells h) in
        if_elim P is_cancelled (λ _. (c, refl))
          λ _.
            if_elim P (is_zero_limit timeout_ms) (λ _. (c, refl))
              λ _. read_loop-Leaves target timeout_ms h.stream h room c.counted c.within c.ended
