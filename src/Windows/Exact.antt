-- ===== src/Windows/Exact.antt =====
-- Both window loops return exactly the rows of the window.
use quiver_sql.Base.{
  ℕ, zero, suc, ◌+◌, ◌-◌, ◌≤◌, ◌<◌, ◌≡◌, refl, sym, ap, ◌∙◌, List, [], ◌∷◌, ◌++◌, min, inl, inr,
  Bool-cases, leb, ltb, ltb→lt, ◌==◌, false, arith, sequence, sequence-append, length, take, drop,
  take-append, drop-append, take-min, take_all, drop_all, length-drop,
}
use quiver_sql.Arrow.{Arrow, SliceLaws, cells, cells_of, cells-slice, length-cells_from}
use quiver_sql.Windows.{
  record_batch_to_json_rows, json_rows, record_batches_to_json_rows, ipc_slices,
}

suc_eq_zero : (n : ℕ) → (suc n == 0) ≡ false
suc_eq_zero n = ground arith

module _ (a : Arrow) (laws : SliceLaws a) where
  open a use {RecordBatch, num_rows, slice}

  -- The window of the first batch and what is left for the others.
  window-cons :
      (b : RecordBatch) (bs : List RecordBatch) (s n : ℕ)
      → take n (drop s (cells_of a (b ∷ bs)))
        ≡ take (min n (num_rows b - s)) (drop s (cells a b))
          ++ take (n - (num_rows b - s)) (drop (s - num_rows b) (cells_of a bs))
  window-cons b bs s n =
      let len : length (cells a b) ≡ num_rows b = length-cells_from a b 0 (num_rows b) in
      let left : length (drop s (cells a b)) ≡ num_rows b - s =
        length-drop s (cells a b) ∙ ap (λ (k : ℕ). k - s) len in
      rw (drop-append s (cells a b) (cells_of a bs), len)
        (take-append n (drop s (cells a b)) (drop (s - num_rows b) (cells_of a bs))
          ∙ rw left (
              ap (λ l. l ++ take (n - (num_rows b - s)) (drop (s - num_rows b) (cells_of a bs)))
                (sym (take-min n (drop s (cells a b))) ∙ rw left refl)))

  json_rows-eq-window :
      (bs : List RecordBatch) (s n : ℕ)
      → json_rows a bs s n ≡ sequence (take n (drop s (cells_of a bs)))
  unfolding json_rows record_batch_to_json_rows
  json_rows-eq-window [] s n =
      let none_left : drop s (cells_of a []) ≡ [] = drop_all s (cells_of a []) (omega arith) in
      rw none_left (ap sequence (sym (take_all n (cells_of a []) (omega arith))))
  json_rows-eq-window (b ∷ bs) s zero = refl
  json_rows-eq-window (b ∷ bs) s (suc n) = elim (Bool-cases (leb (num_rows b) s)) [
    | inl past ↦
        let m0 : min (suc n) (num_rows b - s) ≡ 0 = ground arith in
        let m1 : suc n - (num_rows b - s) ≡ suc n = ground arith in
        rw
          (
            suc_eq_zero n,
            past,
            json_rows-eq-window bs (s - num_rows b) (suc n),
            window-cons b bs s (suc n),
            m0,
            m1,
          )
          refl
    | inr here ↦
        let count = min (suc n) (num_rows b - s) in
        let fits : s + count ≤ num_rows b = ground arith in
        let m0 : s - num_rows b ≡ 0 = ground arith in
        let m1 : suc n - count ≡ suc n - (num_rows b - s) = omega arith in
        rw
          (
            suc_eq_zero n,
            here,
            cells-slice a laws b s count fits,
            json_rows-eq-window bs 0 (suc n - count),
            window-cons b bs s (suc n),
            m0,
            m1,
          )
          (sym (
            sequence-append (take count (drop s (cells a b)))
              (take (suc n - (num_rows b - s)) (cells_of a bs))))
  ]

  -- The JSON rows of a window are the rows of the queue from `start_row` on, `row_count` of them,
  -- or the first of their errors.
  pub record_batches_to_json_rows_lem :
      (batches : List RecordBatch) (start_row row_count : ℕ)
      → record_batches_to_json_rows a batches start_row row_count
        ≡ sequence (take row_count (drop start_row (cells_of a batches)))
  unfolding record_batches_to_json_rows
  record_batches_to_json_rows_lem batches start_row zero = refl
  record_batches_to_json_rows_lem batches start_row (suc n) =
      rw (suc_eq_zero n) (json_rows-eq-window batches start_row (suc n))

  -- The IPC loop: the cursor is the number of rows passed, and once a slice is taken the window
  -- goes on at the next batch.
  ipc_slices-eq-window :
      (bs : List RecordBatch) (c n s : ℕ)
      → cells_of a (ipc_slices a bs c n s) ≡ take n (drop (s - c) (cells_of a bs))
  unfolding ipc_slices
  ipc_slices-eq-window [] c n s =
      let none_left : drop (s - c) (cells_of a []) ≡ [] =
        drop_all (s - c) (cells_of a []) (omega arith) in
      rw none_left (sym (take_all n (cells_of a []) (omega arith)))
  ipc_slices-eq-window (b ∷ bs) c zero s = refl
  ipc_slices-eq-window (b ∷ bs) c (suc n) s = elim (Bool-cases (leb (c + num_rows b) s)) [
    | inl past ↦
        let m0 : min (suc n) (num_rows b - (s - c)) ≡ 0 = ground arith in
        let m1 : suc n - (num_rows b - (s - c)) ≡ suc n = ground arith in
        let m2 : s - (c + num_rows b) ≡ s - c - num_rows b = omega arith in
        rw
          (
            suc_eq_zero n,
            past,
            ipc_slices-eq-window bs (c + num_rows b) (suc n) s,
            window-cons b bs (s - c) (suc n),
            m0,
            m1,
            m2,
          )
          refl
    | inr here ↦
        let count = min (suc n) (num_rows b - (s - c)) in
        let beyond : s < c + num_rows b = ground arith in
        let m2 : s - (c + num_rows b) ≡ s - c - num_rows b = omega arith in
        elim (Bool-cases (ltb 0 count)) [
          | inl some_rows ↦
              let there : 0 < count = ltb→lt 0 count some_rows in
              let fits : (s - c) + count ≤ num_rows b = omega arith in
              let m1 : suc n - count ≡ suc n - (num_rows b - (s - c)) = omega arith in
              rw
                (
                  suc_eq_zero n,
                  here,
                  some_rows,
                  cells-slice a laws b (s - c) count fits,
                  ipc_slices-eq-window bs (c + num_rows b) (suc n - count) s,
                  window-cons b bs (s - c) (suc n),
                  m1,
                  m2,
                )
                refl
          | inr no_rows ↦
              let m0 : count ≡ 0 = ground arith in
              let m1 : suc n - (num_rows b - (s - c)) ≡ suc n = omega arith in
              rw
                (
                  suc_eq_zero n,
                  here,
                  no_rows,
                  ipc_slices-eq-window bs (c + num_rows b) (suc n) s,
                  window-cons b bs (s - c) (suc n),
                  m0,
                  m1,
                  m2,
                )
                refl
        ]
  ]

  -- The batches of an IPC page hold exactly the rows that the JSON page of the same window shows.
  pub sequence-ipc_slices :
      (batches : List RecordBatch) (start len : ℕ)
      → sequence (cells_of a (ipc_slices a batches 0 len start))
        ≡ record_batches_to_json_rows a batches start len
  sequence-ipc_slices batches start len =
      let m : start - 0 ≡ start = omega arith in
      rw
        (
          ipc_slices-eq-window batches 0 len start,
          m,
          record_batches_to_json_rows_lem batches start len,
        )
        refl
