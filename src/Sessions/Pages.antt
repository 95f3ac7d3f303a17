-- ===== src/Sessions/Pages.antt =====
-- `query_page` and `query_cancel` of qsql-daemon/src/lib.rs: which sessions they leave, and what a
-- cancelled query answers.
use quiver_sql.Base.{
  ℕ, String, Option, none, some, Option-cases, ltb, ◌<◌, lt→ltb, if_elim, inl, inr, Result, ok, err,
  ◌≡◌, ◌≢◌, refl, sym, ap, ◌∙◌,
}
use mathlib.Core.Path.{subst}
use quiver_sql.Errors.{QueryError, query_not_found, too_many_tasks}
use quiver_sql.Models.{QueryPage, Warning}
use quiver_sql.Arrow.{Arrow}
use quiver_sql.ResultHandle.{QueryResultHandle}
use quiver_sql.Sessions.{
  Daemon, QuerySession, QueryPageRequest, QueryCancelRequest, Answered, RpcError, query_error, get,
  get-remove_same, get-insert_same, get-insert_other, finish_page, page_found, page_sized,
  page_size_of, query_page, query_cancel, cancel_found, max_concurrent_query_tasks,
}
use quiver_sql.Sessions.Starts.{State}

module _ (a : Arrow) (daemon : Daemon a) where
  open a use {Json}

  -- A session under the same settings: only its handle may have moved on.
  abbrev pub SameSettings : Option (QuerySession a daemon) → Option (QuerySession a daemon) → Type 0
  SameSettings none none = Unit
  SameSettings none (some t) = ⊥
  SameSettings (some q) none = ⊥
  SameSettings (some q) (some t) =
      (t.page_size ≡ q.page_size) × (t.warning ≡ q.warning) × (t.result_format ≡ q.result_format)

  -- Every session but the one asked for is as it was, that one keeps its settings, and nothing else of
  -- the state moves.
  abbrev pub Serves : String → State a daemon → Answered a daemon (QueryPage Json) → Type 0
  Serves id s (answer, s') =
      ((j : String) → j ≢ id → get j s'.sessions ≡ get j s.sessions)
      × SameSettings (get id s.sessions) (get id s'.sessions)
      × (s'.cancelled ≡ s.cancelled)
      × (s'.next_query_id ≡ s.next_query_id)

  same-SameSettings : (o : Option (QuerySession a daemon)) → SameSettings o o
  same-SameSettings none = tt
  same-SameSettings (some q) = (refl, refl, refl)

  unmoved : (id : String) (s : State a daemon) (e : RpcError) → Serves id s (err e, s)
  unmoved id s e = ((λ j other. refl), same-SameSettings (get id s.sessions), refl, refl)

  finish_page-Serves :
      (id : String) (s : State a daemon) (session : QuerySession a daemon)
      → get id s.sessions ≡ some session
      → (served : Result QueryError (QueryPage Json) × QueryResultHandle a)
      → Serves id s (finish_page a daemon id session s served)
  unfolding finish_page
  finish_page-Serves id s session found (ok page, h) =
      let updated : QuerySession a daemon = record session { handle = h } in
      (
        (λ j other. get-insert_other j id updated s.sessions other),
        rw (found, get-insert_same id updated s.sessions) (refl, refl, refl),
        refl,
        refl,
      )
  finish_page-Serves id s session found (err e, h) =
      let updated : QuerySession a daemon = record session { handle = h } in
      (
        (λ j other. get-insert_other j id updated s.sessions other),
        rw (found, get-insert_same id updated s.sessions) (refl, refl, refl),
        refl,
        refl,
      )

  page_sized-Serves :
      (elapsed : ℕ) (s : State a daemon) (r : QueryPageRequest) (session : QuerySession a daemon)
      → get r.query_id s.sessions ≡ some session
      → (m : Result QueryError (ℕ × Option Warning))
      → Serves r.query_id s (page_sized a daemon elapsed r s session m)
  page_sized-Serves elapsed s r session found (err e) = unmoved r.query_id s (query_error e)
  page_sized-Serves elapsed s r session found (ok (size, warning)) =
      finish_page-Serves r.query_id s session found _

  -- A request for a page, whatever it answers, leaves the sessions of all other queries as they are,
  -- keeps the settings of the query's own session, which neither appears nor disappears, and touches
  -- neither the counter nor the cancelled queries.
  pub query_page-Serves :
      (active elapsed : ℕ) (s : State a daemon) (r : QueryPageRequest)
      → Serves r.query_id s (query_page a daemon active elapsed s (some (ok r)))
  unfolding query_page
  query_page-Serves active elapsed s r =
      if_elim (Serves r.query_id s) (ltb active max_concurrent_query_tasks)
        (λ free. elim (Option-cases (get r.query_id s.sessions)) [
          | inl e ↦
              subst (λ o. Serves r.query_id s (page_found a daemon elapsed r s o)) (sym e)
                (unmoved r.query_id s (query_error (query_not_found r.query_id)))
          | inr (session, e) ↦
              subst (λ o. Serves r.query_id s (page_found a daemon elapsed r s o)) (sym e)
                (page_sized-Serves elapsed s r session e (page_size_of a daemon r session))
        ])
        (λ busy. unmoved r.query_id s (query_error (too_many_tasks max_concurrent_query_tasks)))

  cancel_found-get :
      (s : State a daemon) (r : QueryCancelRequest) (o : Option (QuerySession a daemon))
      → get r.query_id s.sessions ≡ o
      → get r.query_id (cancel_found a daemon r s o).1.sessions ≡ none
  cancel_found-get s r none e = e
  cancel_found-get s r (some session) e = get-remove_same r.query_id s.sessions

  -- After a request to cancel a query, whether it was running or not, every request for one of its
  -- pages that finds a free task is answered with the error that the query is not found, and leaves
  -- the state as it is.
  pub query_page-query_cancel :
      (active elapsed : ℕ) (s : State a daemon) (c : QueryCancelRequest) (r : QueryPageRequest)
      → r.query_id ≡ c.query_id
      → active < max_concurrent_query_tasks
      → query_page a daemon active elapsed (query_cancel a daemon s (some (ok c))).1 (some (ok r))
        ≡ (
          err (query_error (query_not_found r.query_id)),
          (query_cancel a daemon s (some (ok c))).1,
        )
  unfolding query_page query_cancel
  query_page-query_cancel active elapsed s c r same free =
      let s' = (cancel_found a daemon c s (get c.query_id s.sessions)).1 in
      let gone : get r.query_id s'.sessions ≡ none =
        ap (λ k. get k s'.sessions) same ∙ cancel_found-get s c (get c.query_id s.sessions) refl in
      rw (lt→ltb active max_concurrent_query_tasks free, gone) refl
