-- ===== src/Arrow.antt =====
-- Record batches as the windows of rows see them: Arrow's `RecordBatch`, which the engine buffers and
-- slices and does not implement, with the laws of `RecordBatch::slice` that the code relies on.
-- `encode_row b i` is the JSON object of row `i`, which may fail: Rows has the code's own, of
-- qsql-core/src/engine.rs. `write_ipc` stands for the IPC stream writer and the base64 encoder.
pub mod Rows
use quiver_sql.Base.{
  ℕ, zero, suc, ◌+◌, ◌-◌, ◌≤◌, ◌<◌, ◌≡◌, refl, List, [], ◌∷◌, ◌++◌, ap, ◌∙◌, arith, length, take,
  drop, Result, String,
}
use quiver_sql.Errors.{QueryError}

pub record Arrow : Type 1 where
  pub RecordBatch : Type 0
  pub SchemaRef : Type 0
  pub Json : Type 0
  pub num_rows : RecordBatch → ℕ
  pub get_array_memory_size : RecordBatch → ℕ
  pub slice : RecordBatch → ℕ → ℕ → RecordBatch
  pub encode_row : RecordBatch → ℕ → Result QueryError Json
  pub schema : RecordBatch → SchemaRef
  pub write_ipc : SchemaRef → List RecordBatch → Result String String

-- `slice(offset, length)` is a view of the rows from `offset` on, `length` of them.
pub record SliceLaws (a : Arrow) : Type 0 where
  pub num_rows-slice :
      (b : a.RecordBatch) (o n : ℕ) → o + n ≤ a.num_rows b → a.num_rows (a.slice b o n) ≡ n
  pub encode_row-slice :
      (b : a.RecordBatch) (o n i : ℕ)
      → o + n ≤ a.num_rows b
      → i < n
      → a.encode_row (a.slice b o n) i ≡ a.encode_row b (o + i)

module _ (a : Arrow) where
  open a use {RecordBatch, Json, num_rows, slice, encode_row}

  -- The rows `i`, `i + 1`, … of a batch, `n` of them, each with its own outcome.
  abbrev pub cells_from : RecordBatch → ℕ → ℕ → List (Result QueryError Json)
  cells_from b i zero = []
  cells_from b i (suc n) = encode_row b i ∷ cells_from b (suc i) n

  abbrev pub cells : RecordBatch → List (Result QueryError Json)
  cells b = cells_from b 0 (num_rows b)

  -- The rows of the queue, in order.
  abbrev pub cells_of : List RecordBatch → List (Result QueryError Json)
  cells_of [] = []
  cells_of (b ∷ bs) = cells b ++ cells_of bs

  abbrev pub total_rows : List RecordBatch → ℕ
  total_rows [] = 0
  total_rows (b ∷ bs) = num_rows b + total_rows bs

  pub length-cells_from : (b : RecordBatch) (i n : ℕ) → length (cells_from b i n) ≡ n
  length-cells_from b i zero = refl
  length-cells_from b i (suc n) = ap suc (length-cells_from b (suc i) n)

  pub total_rows-append :
      (bs cs : List RecordBatch) → total_rows (bs ++ cs) ≡ total_rows bs + total_rows cs
  total_rows-append [] cs = omega arith
  total_rows-append (b ∷ bs) cs = omega (arith, total_rows-append bs cs)

  take-cells_from :
      (b : RecordBatch) (i n k : ℕ) → k ≤ n → take k (cells_from b i n) ≡ cells_from b i k
  take-cells_from b i n zero h = refl
  take-cells_from b i zero (suc k) h = absurd (omega arith)
  take-cells_from b i (suc n) (suc k) h =
      ap (λ l. encode_row b i ∷ l) (take-cells_from b (suc i) n k (omega arith))

  drop-cells_from :
      (b : RecordBatch) (i n o k : ℕ)
      → o + k ≡ n
      → drop o (cells_from b i n) ≡ cells_from b (i + o) k
  drop-cells_from b i n zero k h =
      let e : n ≡ k = omega arith in let z : i + 0 ≡ i = omega arith in rw (e, z) refl
  drop-cells_from b i zero (suc o) k h = absurd (omega arith)
  drop-cells_from b i (suc n) (suc o) k h =
      drop-cells_from b (suc i) n o k (omega arith) ∙ ap (λ (j : ℕ). cells_from b j k) (omega arith)

  module _ (laws : SliceLaws a) where
    cells_from-slice :
        (b : RecordBatch) (o n i k : ℕ)
        → o + n ≤ num_rows b
        → i + k ≤ n
        → cells_from (slice b o n) i k ≡ cells_from b (o + i) k
    cells_from-slice b o n i zero h g = refl
    cells_from-slice b o n i (suc k) h g =
        let e : o + suc i ≡ suc (o + i) = omega arith in
        rw (laws.encode_row-slice b o n i h (omega arith)) (
          ap (λ l. encode_row b (o + i) ∷ l)
            (cells_from-slice b o n (suc i) k h (omega arith) ∙ ap (λ (j : ℕ). cells_from b j k) e))

    pub cells-slice :
        (b : RecordBatch) (o n : ℕ)
        → o + n ≤ num_rows b
        → cells (slice b o n) ≡ take n (drop o (cells b))
    cells-slice b o n h =
        let e : o + 0 ≡ o = omega arith in
        rw
          (
            laws.num_rows-slice b o n h,
            drop-cells_from b 0 (num_rows b) o (num_rows b - o) (omega arith),
            take-cells_from b (0 + o) (num_rows b - o) n (omega arith),
          )
          (cells_from-slice b o n 0 n h (omega arith)
            ∙ ap (λ (j : ℕ). cells_from b j n) (omega arith))
