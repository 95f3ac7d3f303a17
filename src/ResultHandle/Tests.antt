-- ===== src/ResultHandle/Tests.antt =====
-- Runs of the result handle, over batches that are lists of numbers.
use quiver_sql.Base.{
  true, ◌↔◌, ℕ, zero, suc, ◌+◌, ◌*◌, ◌<◌, ◌≡◌, refl, ap, ◌∙◌, Option, none, some, false, List, [],
  ◌∷◌, length, take, drop, get_elem?, length-take, length-drop, Result, ok, err, arith, sequence,
  saturating_add, saturating_mul,
}
use quiver_sql.Errors.{QueryError, execution}
use quiver_sql.Models.{build_query_page, Schema, QueryPage, QueryExecutionResult}
use quiver_sql.Arrow.{Arrow, SliceLaws, cells_of}
use quiver_sql.Windows.{
  json, canonicalise_result_format, record_batch_to_json_rows, json_rows,
  record_batches_to_json_rows, ipc_slices,
}
use quiver_sql.Windows.Exact.{record_batches_to_json_rows_lem, sequence-ipc_slices}
use quiver_sql.ResultHandle.{
  QueryResultHandle, BufferLimits, batch, cancel, push_batch, read_until, read_to_end,
}
use quiver_sql.ResultHandle.Pages.{PageRequest, page_with_format, collect_all, encode_page, payload}
use quiver_sql.ResultHandle.Reading.{IsConsistent, all_cells, Leaves, read_until-Leaves}
use quiver_sql.ResultHandle.Paging.{Shows, page_with_format-Shows, collect_all_complete}
use quiver_sql.ResultHandle.Agreement.{page_with_format-build_query_page}
use quiver_sql.ResultHandle.Overflow.{page-over_limit}

abbrev or_err : Option ℕ → Result QueryError ℕ
or_err none = err (execution "row out of range")
or_err (some n) = ok n

-- Batches of one column of numbers.
abbrev pub numbers : Arrow
numbers = record {
  RecordBatch = List ℕ;
  SchemaRef = Unit;
  Json = ℕ;
  num_rows = λ b. length b;
  get_array_memory_size = λ b. 8 * length b;
  slice = λ b o n. take n (drop o b);
  encode_row = λ b i. or_err (get_elem? b i);
  schema = λ b. tt;
  write_ipc = λ s bs. ok "ipc";
}

get_elem?-take : (n i : ℕ) (l : List ℕ) → i < n → get_elem? (take n l) i ≡ get_elem? l i
get_elem?-take zero i l h = elim h [ ]
get_elem?-take (suc n) i [] h = refl
get_elem?-take (suc n) zero (x ∷ l) h = refl
get_elem?-take (suc n) (suc i) (x ∷ l) h = get_elem?-take n i l (omega arith)

get_elem?-drop : (o i : ℕ) (l : List ℕ) → get_elem? (drop o l) i ≡ get_elem? l (o + i)
get_elem?-drop zero i l = ap (λ (k : ℕ). get_elem? l k) (omega arith)
get_elem?-drop (suc o) i [] = refl
get_elem?-drop (suc o) i (x ∷ l) =
    get_elem?-drop o i l
    ∙ ap (λ (k : ℕ). get_elem? (x ∷ l) k) (let e : suc (o + i) ≡ suc o + i = omega arith in e)

numbers-SliceLaws : SliceLaws numbers
numbers-SliceLaws = record {
  num_rows-slice = λ b o n h. length-take n (drop o b) ∙ omega (arith, length-drop o b);
  encode_row-slice =
      λ b o n i h g. ap or_err (get_elem?-take n i (drop o b) g ∙ get_elem?-drop o i b);
}

abbrev pub small : BufferLimits
small = record { max_rows = 6; max_bytes = 1000 }

abbrev no_fields : Schema
no_fields = record { fields = [] }

-- Three batches are to come.
abbrev pub fresh : QueryResultHandle numbers
fresh = record {
  schema = no_fields;
  stream = batch (1 ∷ 2 ∷ []) ∷ batch (3 ∷ 4 ∷ []) ∷ batch (5 ∷ []) ∷ [];
  batches = [];
  buffered_rows = 0;
  buffered_bytes = 0;
  terminal = false;
  planning_time_ms = 3;
  first_page_time_ms = none;
}

fresh-IsConsistent : IsConsistent numbers small fresh
fresh-IsConsistent = record { counted = refl; within = omega arith; ended = λ e. cc }

abbrev second : PageRequest
second = record {
  query_id = "q_1";
  page_index = 1;
  page_size = 2;
  warning = none;
  is_cancelled = false;
  timeout_ms = none;
  result_format = none;
  elapsed = 7;
}

tests : Unit {0}
unfolding page_with_format collect_all read_until read_to_end push_batch record_batches_to_json_rows
    json_rows record_batch_to_json_rows ipc_slices canonicalise_result_format saturating_add
    saturating_mul encode_page payload
tests = tt

-- The page that the second request shows, and the handle after it.
abbrev shown : QueryPage ℕ
shown = record {
  query_id = "q_1";
  schema = no_fields;
  page_index = 1;
  page_size = 2;
  is_last = false;
  page_data = 3 ∷ 4 ∷ [];
  data_ipc = none;
  result_format = none;
  metrics = record {
    planning_time_ms = 3;
    execution_time_ms = 7;
    first_page_time_ms = 10;
    rows_produced = 5;
    rows_returned = 2;
  };
  warning = none;
}

abbrev drained : QueryResultHandle numbers
drained = record fresh {
  stream = [];
  batches = (1 ∷ 2 ∷ []) ∷ (3 ∷ 4 ∷ []) ∷ (5 ∷ []) ∷ [];
  buffered_rows = 5;
  buffered_bytes = 40;
}

second_page : page_with_format numbers small fresh second ≡ (ok shown, drained)
unfolding tests
second_page = refl

json_format : canonicalise_result_format none ≡ ok json
unfolding canonicalise_result_format
json_format = refl

page_with_format-Shows_example : Shows numbers small second (all_cells numbers fresh) shown drained
page_with_format-Shows_example =
    page_with_format-Shows numbers small numbers-SliceLaws (omega arith) fresh drained second shown
      fresh-IsConsistent json_format second_page

abbrev complete : QueryExecutionResult ℕ
complete = record {
  schema = no_fields;
  rows = 1 ∷ 2 ∷ 3 ∷ 4 ∷ 5 ∷ [];
  metrics = record {
    planning_time_ms = 3;
    execution_time_ms = 7;
    first_page_time_ms = 10;
    rows_produced = 5;
    rows_returned = 5;
  };
}

collected : collect_all numbers small fresh false none 7 ≡ ok complete
unfolding tests
collected = refl

collect_all_complete_example : sequence (all_cells numbers fresh) ≡ ok complete.rows
collect_all_complete_example =
    collect_all_complete numbers small numbers-SliceLaws (omega arith) fresh false none 7 complete
      fresh-IsConsistent collected

-- A cancellation between two batches leaves the handle consistent.
abbrev interrupted : QueryResultHandle numbers
interrupted = record fresh { stream = batch (1 ∷ 2 ∷ []) ∷ cancel ∷ batch (3 ∷ []) ∷ [] }

interrupted-IsConsistent : IsConsistent numbers small interrupted
interrupted-IsConsistent = record { counted = refl; within = omega arith; ended = λ e. cc }

read_until-Leaves_example :
    Leaves numbers small 4
      (all_cells numbers interrupted)
      (read_until numbers small interrupted 4 false none)
read_until-Leaves_example =
    read_until-Leaves numbers small interrupted 4 false none (omega arith) interrupted-IsConsistent

record_batches_to_json_rows_lem_example :
    record_batches_to_json_rows numbers drained.batches 1 3
    ≡ sequence (take 3 (drop 1 (cells_of numbers drained.batches)))
record_batches_to_json_rows_lem_example =
    record_batches_to_json_rows_lem numbers numbers-SliceLaws drained.batches 1 3

sequence-ipc_slices_example :
    sequence (cells_of numbers (ipc_slices numbers drained.batches 0 3 1))
    ≡ record_batches_to_json_rows numbers drained.batches 1 3
sequence-ipc_slices_example = sequence-ipc_slices numbers numbers-SliceLaws drained.batches 1 3

window_test : record_batches_to_json_rows numbers drained.batches 1 3 ≡ ok (2 ∷ 3 ∷ 4 ∷ [])
unfolding tests
window_test = refl

-- The handle after two more rows, which pass the limit of six, with nine rows counted and five queued, and a page of rows 6 and 7.
abbrev overfull : QueryResultHandle numbers
overfull = record drained { buffered_rows = 9 }

abbrev fourth : PageRequest
fourth = record second { page_index = 3 }

page-over_limit_example :
    (p : QueryPage ℕ) × (h' : QueryResultHandle numbers) × (page_with_format numbers small overfull
        fourth
      ≡ (ok p, h'))
    × (p.page_data ≡ [])
    × (p.metrics.rows_returned ≡ 2)
    × (p.is_last ≡ false)
page-over_limit_example =
    page-over_limit numbers small overfull fourth numbers-SliceLaws (omega arith) (omega arith)
      (omega arith) refl refl json_format

page_with_format-build_query_page_example :
    (shown.page_data ≡ (build_query_page "q_1" complete 1 2 none).page_data)
    × ((shown.is_last ≡ true) ↔ ((build_query_page "q_1" complete 1 2 none).is_last ≡ true))
page_with_format-build_query_page_example =
    page_with_format-build_query_page numbers small numbers-SliceLaws (omega arith) fresh drained
      second shown complete false none 7 fresh-IsConsistent json_format second_page collected
      (omega arith)
