-- ===== src/Sessions/Tests.antt =====
-- Sessions of a query over batches that are lists of numbers.
use Prim.Native.String.{count}
use Prim.Native.String.count as Count
use quiver_sql.Base.{
  ℕ, zero, suc, String, none, some, [], ◌∷◌, ok, err, ◌≡◌, refl, sym, ap, ◌∙◌, arith,
}
use quiver_sql.Errors.{query_not_found}
use quiver_sql.ResultHandle.Tests.{numbers, small, fresh}
use quiver_sql.Sessions.{
  Daemon, DaemonState, QuerySession, QueryStartRequest, QueryPageRequest, QueryCancelRequest,
  query_error, get, query_start, query_page, query_cancel,
}
use quiver_sql.Sessions.Starts.{StartsIfOk, query_start-StartsIfOk}
use quiver_sql.Sessions.Runs.{
  start_request, page_request, cancel_request, run, IsWellFormed, Injective,
}
use quiver_sql.Sessions.Counter.{run-IsWellFormed}
use quiver_sql.Sessions.Pages.{Serves, query_page-Serves, query_page-query_cancel}

-- Numbers written as strokes.
abbrev tally : ℕ → String
tally zero = ""
tally (suc n) = String.◌∷◌ "1" (tally n)

count-tally : (n : ℕ) → count (tally n) ≡ n
count-tally zero = Count.nil
count-tally (suc n) = rw (Count.cons "1" (tally n), count-tally n) refl

-- Every text parses as no statement, and every query has the same result.
abbrev daemon : Daemon numbers
daemon = record {
  limits = small;
  max_page_size = 100;
  default_page_size = 2;
  display = tally;
  parse_sql = λ sql. ok [];
  ensure_one = λ r. ok tt;
  start_query_stream = λ sql timeout_ms. ok fresh;
}

abbrev session : QuerySession numbers daemon
session = record { handle = fresh; page_size = 2; warning = none; result_format = none }

abbrev empty : DaemonState numbers daemon
empty = record { sessions = []; next_query_id = 1; cancelled = [] }

abbrev running : DaemonState numbers daemon
running = record { sessions = ("1", session) ∷ []; next_query_id = 2; cancelled = [] }

abbrev select_all : QueryStartRequest
select_all = record {
  sql = "SELECT * FROM t";
  page_size = none;
  timeout_ms = none;
  result_format = none;
}

abbrev next_page : QueryPageRequest
next_page = record { query_id = "1"; page_index = some 1; page_size = none; result_format = none }

abbrev stop : QueryCancelRequest
stop = record { query_id = "1" }

query_start-StartsIfOk_example :
    StartsIfOk numbers daemon empty (query_start numbers daemon 0 5 empty (some (ok select_all)))
unfolding get
query_start-StartsIfOk_example =
    query_start-StartsIfOk numbers daemon 0 5 empty (some (ok select_all)) refl

query_page-Serves_example :
    Serves numbers daemon "1" running (query_page numbers daemon 0 5 running (some (ok next_page)))
query_page-Serves_example = query_page-Serves numbers daemon 0 5 running next_page

query_page-query_cancel_example :
    query_page numbers daemon 3 5
      (query_cancel numbers daemon running (some (ok stop))).1
      (some (ok next_page))
    ≡ (
      err (query_error (query_not_found "1")),
      (query_cancel numbers daemon running (some (ok stop))).1,
    )
query_page-query_cancel_example =
    query_page-query_cancel numbers daemon 3 5 running stop next_page refl (omega arith)

tally-Injective : Injective numbers daemon
tally-Injective m n e = sym (count-tally m) ∙ ap count e ∙ count-tally n

empty-IsWellFormed : IsWellFormed numbers daemon empty
unfolding get
empty-IsWellFormed = record { sessions_issued = λ j q e. cc; cancelled_issued = tt }

run-IsWellFormed_example : IsWellFormed numbers daemon (
    run numbers daemon
      (start_request 0 5 (some (ok select_all))
        ∷ page_request 0 5 (some (ok next_page))
        ∷ cancel_request (some (ok stop))
        ∷ start_request 0 5 (some (ok select_all))
        ∷ [])
      empty)
run-IsWellFormed_example =
    run-IsWellFormed numbers daemon tally-Injective
      (start_request 0 5 (some (ok select_all))
        ∷ page_request 0 5 (some (ok next_page))
        ∷ cancel_request (some (ok stop))
        ∷ start_request 0 5 (some (ok select_all))
        ∷ [])
      empty empty-IsWellFormed (omega arith)
