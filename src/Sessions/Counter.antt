-- ===== src/Sessions/Counter.antt =====
-- The counter of the query ids (qsql-daemon/src/lib.rs) along a sequence of requests, and with it the
-- invariant of the sessions.
use quiver_sql.Base.{
  ◌+◌, ◌^◌, ◌<◌, ◌≤◌, Option, none, some, List, [], ◌∷◌, length, ok, err, inl, inr, arith,
}
use quiver_sql.Models.{QueryPage}
use quiver_sql.Arrow.{Arrow}
use quiver_sql.Sessions.{
  Daemon, QuerySession, QueryCancelRequest, Answered, get, query_start, query_page, query_cancel,
  cancel_found,
}
use quiver_sql.Sessions.Starts.{State, StartsIfOk, query_start-StartsIfOk}
use quiver_sql.Sessions.Pages.{query_page-Serves}
use quiver_sql.Sessions.Runs.{
  Request, start_request, page_request, cancel_request, serve, run, IsWellFormed, Injective,
  fresh_id, fetch_add_one-eq, serve-IsWellFormed,
}

module _ (a : Arrow) (daemon : Daemon a) where
  open a use {Json}

  started_counter :
      (s : State a daemon) (answered : Answered a daemon (QueryPage Json))
      → s.next_query_id + 1 < 2 ^ 64
      → StartsIfOk a daemon s answered
      → answered.1.next_query_id ≤ s.next_query_id + 1
  started_counter s (err e, s') room (same, cancelled, counter) = elim counter [
    | inl e ↦ omega arith
    | inr e ↦ let one = fetch_add_one-eq a daemon s.next_query_id room in omega arith
  ]
  started_counter s (ok p, s') room (new, same, cancelled, counter) =
      let one = fetch_add_one-eq a daemon s.next_query_id room in omega arith

  cancel_counter :
      (s : State a daemon) (r : QueryCancelRequest) (o : Option (QuerySession a daemon))
      → (cancel_found a daemon r s o).1.next_query_id ≤ s.next_query_id + 1
  cancel_counter s r none = omega arith
  cancel_counter s r (some session) = omega arith

  serve_counter :
      Injective a daemon
      → (s : State a daemon) (r : Request) → IsWellFormed a daemon s
      → s.next_query_id + 1 < 2 ^ 64
      → (serve a daemon s r).next_query_id ≤ s.next_query_id + 1
  unfolding query_cancel query_page
  serve_counter inj s (start_request active elapsed params) w room =
      started_counter s (query_start a daemon active elapsed s params) room
        (query_start-StartsIfOk a daemon active elapsed s params (fresh_id a daemon inj s w))
  serve_counter inj s (page_request active elapsed none) w room = omega arith
  serve_counter inj s (page_request active elapsed (some (err e))) w room = omega arith
  serve_counter inj s (page_request active elapsed (some (ok r))) w room =
      let (others, own, cancelled, counter) = query_page-Serves a daemon active elapsed s r in
      omega arith
  serve_counter inj s (cancel_request none) w room = omega arith
  serve_counter inj s (cancel_request (some (err e))) w room = omega arith
  serve_counter inj s (cancel_request (some (ok r))) w room =
      cancel_counter s r (get r.query_id s.sessions)

  -- Whatever requests are served, in whatever order, by a daemon that writes different numbers
  -- differently and whose counter stays below 2^64: if every session's id was issued and not cancelled,
  -- and every cancelled id was issued, then so it is afterwards. So a new query never takes over the id
  -- of a running or a cancelled one.
  pub run-IsWellFormed :
      Injective a daemon
      → (rs : List Request) (s : State a daemon) → IsWellFormed a daemon s
      → s.next_query_id + length rs < 2 ^ 64
      → IsWellFormed a daemon (run a daemon rs s)
  run-IsWellFormed inj [] s w room = w
  run-IsWellFormed inj (r ∷ rs) s w room =
      let one = serve_counter inj s r w (omega arith) in
      run-IsWellFormed inj rs (serve a daemon s r)
        (serve-IsWellFormed a daemon inj s r w (omega arith)) (omega arith)
