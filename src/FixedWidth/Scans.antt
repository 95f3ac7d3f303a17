-- ===== src/FixedWidth/Scans.antt =====
-- A scan of a fixed-width file (`qsql-core/src/fixed_width.rs`) as a whole: which lines its batches
-- are built from.
use quiver_sql.Base.{
  ℕ, zero, suc, ◌+◌, ◌≤◌, ◌<◌, min, Bool, true, false, String, List, [], ◌∷◌, ◌++◌, Option, none,
  some, Result, ok, err, IsOk, All, length, take, length-take, length-append, ◌==◌, ==_iff, if_elim,
  arith, ◌≡◌, refl, ap, ◌∙◌,
}
use quiver_sql.SqlTypes.{Field}
use quiver_sql.FixedWidth.Columns.{FixedWidthError, Cell}
use quiver_sql.FixedWidth.Stream.{
  Reader, Lines, read_lines, Scan, StreamState, batch_size, remaining, build_batch, Served, emit,
  after_lines, next_batch, batches,
}
use quiver_sql.FixedWidth.Reads.{
  Reads, read_lines-Reads, within, within-nil, within-exhausted, within-chunk, take-nil, data_lines,
  pending,
}

module _ {F32 F64 : Type 0} (parse_f32 : String → Option F32) (parse_f64 : String → Option F64)
    {RecordBatch : Type 0}
    (try_new : List Field
      → List (List (Option (Cell parse_f32 parse_f64)))
      → Result String RecordBatch) where
  abbrev build : Scan → ℕ → List String → Result FixedWidthError RecordBatch
  build = build_batch parse_f32 parse_f64 try_new

  -- What a call of `next_batch` answers, by what was owed before and is owed after.
  abbrev Serves : Scan → StreamState → Served parse_f32 parse_f64 try_new → Type 0
  Serves scan s (none, s') = pending scan s ≡ []
  Serves scan s (some (ok b), s') =
      (chunk : List String) × (0 < length chunk)
      × (length chunk ≤ batch_size)
      × (pending scan s ≡ chunk ++ pending scan s')
      × (build scan s.rows_emitted chunk ≡ ok b)
      × (s'.rows_emitted ≡ s.rows_emitted + length chunk)
      × All IsOk s'.reader
  Serves scan s (some (err e), s') =
      (chunk : List String) × (rest : List String) × (pending scan s ≡ chunk ++ rest)
      × (build scan s.rows_emitted chunk ≡ err e)
      × (s'.done ≡ true)

  -- Lines that a call has read, and those that are owed once it is done with them.
  emit-Serves :
      (scan : Scan) (s : StreamState) (chunk : List String) (eof : Bool) (reader : Reader)
      (outcome : Result FixedWidthError RecordBatch)
      → build scan s.rows_emitted chunk ≡ outcome
      → 0 < length chunk
      → length chunk ≤ batch_size
      → pending scan s
        ≡ chunk
          ++ pending scan
              (record { reader = reader; done = eof; rows_emitted = s.rows_emitted + length chunk })
      → All IsOk reader
      → Serves scan s (
          emit parse_f32 parse_f64 try_new
            (record s { reader = reader; done = eof })
            (length chunk)
            outcome)
  emit-Serves scan s chunk eof reader (ok b) built some_line few owed clean =
      (chunk, some_line, few, owed, built, refl, clean)
  emit-Serves scan s chunk eof reader (err e) built some_line few owed clean = (
    chunk,
    pending scan
        (record { reader = reader; done = eof; rows_emitted = s.rows_emitted + length chunk }),
    owed,
    built,
    refl,
  )

  owed-eq :
      (scan : Scan) (reader : Reader) (rows : ℕ) (eof : Bool)
      → (eof ≡ true → data_lines reader ≡ [])
      → within scan.limit rows (data_lines reader)
        ≡ pending scan (record { reader = reader; done = eof; rows_emitted = rows })
  unfolding pending
  owed-eq scan reader rows true ended = rw (ended refl) (within-nil scan.limit rows)
  owed-eq scan reader rows false ended = refl

  pending-running :
      (scan : Scan) (s : StreamState)
      → s.done ≡ false
      → pending scan s ≡ within scan.limit s.rows_emitted (data_lines s.reader)
  unfolding pending
  pending-running scan s e = rw e refl

  finished : (scan : Scan) (s : StreamState) → s.done ≡ true → pending scan s ≡ []
  unfolding pending
  finished scan s e = rw e refl

  exhausted :
      (scan : Scan) (s : StreamState)
      → s.done ≡ false
      → remaining scan.limit s.rows_emitted ≡ 0
      → pending scan s ≡ []
  exhausted scan s e z =
      pending-running scan s e ∙ within-exhausted scan.limit s.rows_emitted (data_lines s.reader) z

  after_lines-Serves :
      (scan : Scan) (s : StreamState) (n : ℕ) (m : Result FixedWidthError Lines)
      → s.done ≡ false
      → 0 < n
      → n ≤ batch_size
      → n ≤ remaining scan.limit s.rows_emitted
      → Reads n (data_lines s.reader) m
      → Serves scan s (after_lines parse_f32 parse_f64 try_new scan s m)
  after_lines-Serves scan s n (err e) running pos few room h = absurd h
  after_lines-Serves scan s n (ok ([], (eof, reader))) running pos few room
        (same, rest, clean, ended) =
      pending-running scan s running
      ∙ ap (within scan.limit s.rows_emitted) (take-nil n (data_lines s.reader) pos same)
      ∙ within-nil scan.limit s.rows_emitted
  after_lines-Serves scan s n (ok (line ∷ lines, (eof, reader))) running pos few room
        (same, rest, clean, ended) =
      let chunk = line ∷ lines in
      let all = data_lines s.reader in
      let count : length chunk ≡ length (take n all) = ap length same in
      let taken = length-take n all in
      let some_line : 0 < length chunk = omega arith in
      let bounded : length chunk ≤ batch_size = omega arith in
      let owed =
        within-chunk scan.limit s.rows_emitted n all chunk (data_lines reader) room same rest in
      emit-Serves scan s chunk eof reader (build scan s.rows_emitted chunk) refl some_line bounded
        (pending-running scan s running
          ∙ owed
          ∙ ap (λ l. chunk ++ l) (owed-eq scan reader (s.rows_emitted + length chunk) eof ended))
        clean

  next_batch-Serves :
      (scan : Scan) (s : StreamState)
      → All IsOk s.reader
      → Serves scan s (next_batch parse_f32 parse_f64 try_new scan s)
  unfolding next_batch
  next_batch-Serves scan s clean =
      let left = remaining scan.limit s.rows_emitted in
      if_elim (Serves scan s) s.done (λ e. finished scan s e)
        (λ e.
          if_elim (Serves scan s) (left == 0) (λ z. exhausted scan s e ((==_iff left 0).0 z))
            (λ more.
              let n = min left batch_size in
              let pos : 0 < n = ground arith in
              after_lines-Serves scan s n (read_lines n s.reader) e pos (omega arith) (omega arith)
                (read_lines-Reads n s.reader clean)))

  -- The items of a scan: batches built from successive chunks of the lines owed until none are left,
  -- or until a chunk that cannot be built.
  unfoldable pub Streams :
      Scan → ℕ → List String → List (Result FixedWidthError RecordBatch) → Type 0
  Streams scan row owed [] = owed ≡ []
  Streams scan row owed (ok b ∷ items) =
      (chunk : List String) × (rest : List String) × (0 < length chunk)
      × (length chunk ≤ batch_size)
      × (owed ≡ chunk ++ rest)
      × (build scan row chunk ≡ ok b)
      × Streams scan (row + length chunk) rest items
  Streams scan row owed (err e ∷ items) =
      (chunk : List String) × (rest : List String) × (owed ≡ chunk ++ rest)
      × (build scan row chunk ≡ err e)
      × (items ≡ [])

  batches-done :
      (scan : Scan) (fuel : ℕ) (s : StreamState)
      → s.done ≡ true
      → batches parse_f32 parse_f64 try_new scan fuel s ≡ []
  unfolding batches next_batch
  batches-done scan zero s e = refl
  batches-done scan (suc fuel) s e = rw e refl

  served-Streams :
      (scan : Scan) (fuel : ℕ) (s : StreamState) (served : Served parse_f32 parse_f64 try_new)
      → Serves scan s served
      → length (pending scan s) < suc fuel
      → ((s' : StreamState)
          → All IsOk s'.reader
          → length (pending scan s') < fuel
          → Streams scan s'.rows_emitted
              (pending scan s')
              (batches parse_f32 parse_f64 try_new scan fuel s'))
      → Streams scan s.rows_emitted (pending scan s) (elim served.0 [
        | none ↦ []
        | some outcome ↦ outcome ∷ batches parse_f32 parse_f64 try_new scan fuel served.1
      ])
  unfolding Streams
  served-Streams scan fuel s (none, s') nothing enough later = nothing
  served-Streams scan fuel s (some (ok b), s') (chunk, some_line, few, owed, built, rows, clean)
        enough later =
      let count : length (pending scan s) ≡ length (chunk ++ pending scan s') = ap length owed in
      let sum = length-append chunk (pending scan s') in
      let rest = later s' clean (omega arith) in
      (chunk, pending scan s', some_line, few, owed, built, rw (← rows) rest)
  served-Streams scan fuel s (some (err e), s') (chunk, rest, owed, built, ended) enough later =
      (chunk, rest, owed, built, batches-done scan fuel s' ended)

  -- The stream of a scan over a file that can be read, once as many calls are allowed as there are
  -- lines owed and one more, is complete: its batches hold at least one row and at most 8192, are
  -- built from successive chunks of the lines that the limit leaves of the file's non-empty lines,
  -- with the row index at which each chunk begins, until no line is left; if a chunk cannot be built,
  -- its error is the last item.
  pub batches-Streams :
      (scan : Scan) (fuel : ℕ) (s : StreamState)
      → All IsOk s.reader
      → length (pending scan s) < fuel
      → Streams scan s.rows_emitted
          (pending scan s)
          (batches parse_f32 parse_f64 try_new scan fuel s)
  unfolding batches
  batches-Streams scan zero s clean enough = absurd (omega arith)
  batches-Streams scan (suc fuel) s clean enough =
      served-Streams scan fuel s (next_batch parse_f32 parse_f64 try_new scan s)
        (next_batch-Serves scan s clean) enough
        (λ s' ready less. batches-Streams scan fuel s' ready less)
