-- ===== src/Sessions/Starts.antt =====
-- `query_start` of qsql-daemon/src/lib.rs: what it does to the sessions, on every branch.
use quiver_sql.Base.{
  ℕ, String, Option, none, some, str_eq, eq_iff, ltb, if_elim, Bool-cases, inl, inr, ◌⊎◌, Result,
  ok, err, ◌≡◌, ◌≢◌, refl, sym, ap, ◌∙◌,
}
use quiver_sql.Errors.{QueryError}
use quiver_sql.Models.{QueryPage, Warning, normalize_page_size}
use quiver_sql.Arrow.{Arrow}
use quiver_sql.ResultHandle.{QueryResultHandle}
use quiver_sql.Sessions.{
  Daemon, DaemonState, QuerySession, QueryStartRequest, Params, Answered, fetch_add_one, get,
  insert, remove, get-remove_same, get-remove_other, get-insert_same, get-insert_other,
  finish_start, first_page, started, start_registered, start_sized, query_start,
  ensure_database_tables_registered, max_concurrent_query_tasks,
}

module _ (a : Arrow) (daemon : Daemon a) where
  open a use {Json}
  open daemon use {
    limits, max_page_size, default_page_size, display, parse_sql, ensure_one, start_query_stream,
  }

  abbrev pub State : Type 0
  State = DaemonState a daemon

  -- The same sessions, the same cancelled queries, and the counter as before or one further.
  abbrev pub Unstarted : State → State → Type 0
  Unstarted s s' =
      ((j : String) → get j s'.sessions ≡ get j s.sessions)
      × (s'.cancelled ≡ s.cancelled)
      × ((s'.next_query_id ≡ s.next_query_id) ⊎ (s'.next_query_id ≡ fetch_add_one s.next_query_id))

  -- One session more, under the id that the counter gave.
  abbrev pub Started : State → State → Type 0
  Started s s' =
      ((session : QuerySession a daemon) × (get (display s.next_query_id) s'.sessions
          ≡ some session))
      × ((j : String) → j ≢ display s.next_query_id → get j s'.sessions ≡ get j s.sessions)
      × (s'.cancelled ≡ s.cancelled)
      × (s'.next_query_id ≡ fetch_add_one s.next_query_id)

  -- A session is added by a page and only by one.
  abbrev pub StartsIfOk : State → Answered a daemon (QueryPage Json) → Type 0
  StartsIfOk s (ok page, s') = Started s s'
  StartsIfOk s (err e, s') = Unstarted s s'

  abbrev counted : State → State
  counted s = record s { next_query_id = fetch_add_one s.next_query_id }

  unchanged : (s : State) → Unstarted s s
  unchanged s = ((λ j. refl), refl, inl refl)

  finish_start-StartsIfOk :
      (s : State) (session : QuerySession a daemon)
      → get (display s.next_query_id) s.sessions ≡ none
      → (served : Result QueryError (QueryPage Json) × QueryResultHandle a)
      → StartsIfOk s (
          finish_start a daemon
            (display s.next_query_id)
            session
            (record (counted s) { sessions = insert (display s.next_query_id) session s.sessions })
            served)
  unfolding finish_start
  finish_start-StartsIfOk s session fresh (ok page, h) =
      let id = display s.next_query_id in
      let updated : QuerySession a daemon = record session { handle = h } in
      let before = insert id session s.sessions in
      (
        (updated, get-insert_same id updated before),
        (λ j other.
            get-insert_other j id updated before other
            ∙ get-insert_other j id session s.sessions other),
        refl,
        refl,
      )
  finish_start-StartsIfOk s session fresh (err e, h) =
      let id = display s.next_query_id in
      let before = insert id session s.sessions in
      (
        (λ j. elim (Bool-cases (str_eq j id)) [
          | inl same ↦
              let e : j ≡ id = (eq_iff j id).0 same in
              ap (λ k. get k (remove id before)) e
              ∙ get-remove_same id before
              ∙ sym fresh
              ∙ ap (λ k. get k s.sessions) (sym e)
          | inr differs ↦
              let other : j ≢ id = λ e. let t = (eq_iff j id).1 e in cc in
              get-remove_other j id before other ∙ get-insert_other j id session s.sessions other
        ]),
        refl,
        inr refl,
      )

  first_page-StartsIfOk :
      (elapsed : ℕ) (s : State) (r : QueryStartRequest) (size : ℕ) (warning : Option Warning)
      (h : QueryResultHandle a)
      → get (display s.next_query_id) s.sessions ≡ none
      → StartsIfOk s
          (first_page a daemon r (display s.next_query_id) elapsed size warning (counted s) h)
  unfolding first_page
  first_page-StartsIfOk elapsed s r size warning h fresh = finish_start-StartsIfOk s _ fresh _

  -- A request to start a query that is answered with a page adds exactly one session, under the id
  -- that the counter gave; one that is answered with an error, whichever it is, leaves the sessions
  -- as they were. No session or cancelled query is touched, and the counter never goes back, as long
  -- as the id is not in use.
  pub query_start-StartsIfOk :
      (active elapsed : ℕ) (s : State) (params : Params QueryStartRequest)
      → get (display s.next_query_id) s.sessions ≡ none
      → StartsIfOk s (query_start a daemon active elapsed s params)
  unfolding query_start
  query_start-StartsIfOk active elapsed s none fresh = unchanged s
  query_start-StartsIfOk active elapsed s (some (err e)) fresh = unchanged s
  query_start-StartsIfOk active elapsed s (some (ok r)) fresh =
      sized (normalize_page_size max_page_size default_page_size r.page_size)
    where
      streamed :
          (size : ℕ) (warning : Option Warning) (m : Result QueryError (QueryResultHandle a))
          → StartsIfOk s
              (started a daemon r (display s.next_query_id) elapsed size warning (counted s) m)
      streamed size warning (err e) = ((λ j. refl), refl, inr refl)
      streamed size warning (ok h) = first_page-StartsIfOk elapsed s r size warning h fresh

      registered :
          (size : ℕ) (warning : Option Warning) (m : Result String (Unit {0}))
          → StartsIfOk s (start_registered a daemon active elapsed r s (size, warning) m)
      registered size warning (err e) = unchanged s
      registered size warning (ok u) =
          if_elim (StartsIfOk s) (ltb active max_concurrent_query_tasks)
            (λ free. streamed size warning (start_query_stream r.sql r.timeout_ms))
            (λ busy. unchanged s)

      sized :
          (m : Result QueryError (ℕ × Option Warning))
          → StartsIfOk s (start_sized a daemon active elapsed r s m)
      sized (err e) = unchanged s
      sized (ok (size, warning)) =
          registered size warning (ensure_database_tables_registered parse_sql ensure_one r.sql)
