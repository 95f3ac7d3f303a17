-- ===== src/Sessions.antt =====
-- The query sessions of the daemon, qsql-daemon/src/lib.rs: `DaemonState` as far as queries use it,
-- and the handlers `query_start`, `query_page` and `query_cancel` of `dispatch_request`, one request
-- after another. What serde makes of the parameters of a request is given with the request.
pub mod Maps
mod Starts
mod Pages
mod Runs
mod Counter
mod Tests
unfoldable pub use Maps.*
use quiver_sql.Base.{
  ℕ, ◌+◌, ◌%◌, ◌^◌, String, Bool, true, false, Option, none, some, List, [], ◌∷◌, any, str_eq, ltb,
  if◌then◌else◌, Result, ok, err, ◌>>=◌, ◌>>◌,
}
use quiver_sql.Errors.{QueryError, execution, too_many_tasks, query_not_found}
use quiver_sql.Models.{QueryPage, Warning, normalize_page_size}
use quiver_sql.Arrow.{Arrow}
use quiver_sql.ResultHandle.{QueryResultHandle, BufferLimits}
use quiver_sql.ResultHandle.Pages.{PageRequest, page_with_format}
use quiver_sql.TableRefs.{DatabaseTableReference, Statement, extract_database_table_refs}

abbrev pub max_concurrent_query_tasks : ℕ
max_concurrent_query_tasks = 16

pub record QueryStartRequest : Type 0 where
  pub sql : String
  pub page_size : Option ℕ
  pub timeout_ms : Option ℕ
  pub result_format : Option String

pub record QueryPageRequest : Type 0 where
  pub query_id : String
  pub page_index : Option ℕ
  pub page_size : Option ℕ
  pub result_format : Option String

pub record QueryCancelRequest : Type 0 where
  pub query_id : String

-- The message says which: "Query cancellation requested" or "Query not found".
pub record QueryCancelResult : Type 0 where
  pub query_id : String
  pub cancelled : Bool

-- What `make_error` and `make_query_error` answer.
pub data RpcError : Type 0 where
  missing_params : RpcError
  invalid_params : String → RpcError
  query_error : QueryError → RpcError

-- The parameters of a request: absent, refused by serde, or read.
abbrev pub Params : Type 0 → Type 0
Params R = Option (Result String R)

abbrev pub with_params : {R A : Type 0} → A → (RpcError → A) → (R → A) → Params R → A
with_params missing refuse run none = missing
with_params missing refuse run (some (err e)) = refuse (invalid_params e)
with_params missing refuse run (some (ok r)) = run r

-- `self.next_query_id.fetch_add(1)` on an `AtomicU64`.
unfoldable pub fetch_add_one : ℕ → ℕ
fetch_add_one n = (n + 1) % 2 ^ 64

abbrev pub or_default : {A : Type 0} → Option A → A → A
or_default none d = d
or_default (some a) d = a

-- `Option::or`.
abbrev pub or_option : {A : Type 0} → Option A → Option A → Option A
or_option none b = b
or_option (some a) b = some a

abbrev pub for_each : {A E : Type 0} → (A → Result E (Unit {0})) → List A → Result E (Unit {0})
for_each f [] = ok tt
for_each f (x ∷ xs) = f x >> for_each f xs

-- The loop of `ensure_database_tables_registered`; registering one table is a call to its source.
unfoldable pub ensure_database_tables_registered :
    (parse_sql : String → Result String (List Statement))
    (ensure_one : DatabaseTableReference → Result String (Unit {0}))
    → String
    → Result String (Unit {0})
ensure_database_tables_registered parse_sql ensure_one sql =
    extract_database_table_refs parse_sql sql >>= λ table_refs. for_each ensure_one table_refs

-- What the handlers read around them: the settings, the display of a number, the database sources,
-- and the engine's `start_query_stream`.
pub record Daemon (a : Arrow) : Type 0 where
  pub limits : BufferLimits
  pub max_page_size : ℕ
  pub default_page_size : ℕ
  pub display : ℕ → String
  pub parse_sql : String → Result String (List Statement)
  pub ensure_one : DatabaseTableReference → Result String (Unit {0})
  pub start_query_stream : String → Option ℕ → Result QueryError (QueryResultHandle a)

module _ (a : Arrow) (daemon : Daemon a) where
  open a use {Json}
  open daemon use {
    limits, max_page_size, default_page_size, display, parse_sql, ensure_one, start_query_stream,
  }

  -- `QuerySession::Streaming`; the token is kept as `cancelled` of the state.
  pub record QuerySession : Type 0 where
    pub handle : QueryResultHandle a
    pub page_size : ℕ
    pub warning : Option Warning
    pub result_format : Option String

  -- The sessions, the counter of the ids, and the ids of the queries whose token was cancelled.
  pub record DaemonState : Type 0 where
    pub sessions : List (String × QuerySession)
    pub next_query_id : ℕ
    pub cancelled : List String

  abbrev pub Answered : Type 0 → Type 0
  Answered A = Result RpcError A × DaemonState

  abbrev pub failed : {A : Type 0} → DaemonState → QueryError → Answered A
  failed s e = (err (query_error e), s)

  -- The session of a handle whose page was served, or was not.
  unfoldable pub finish_start :
      String
      → QuerySession
      → DaemonState
      → Result QueryError (QueryPage Json) × QueryResultHandle a
      → Answered (QueryPage Json)
  finish_start query_id session s (ok page, h) =
      (ok page, record s { sessions = insert query_id (record session { handle = h }) s.sessions })
  finish_start query_id session s (err e, h) =
      failed (record s { sessions = remove query_id s.sessions }) e

  -- From `sessions.insert` on.
  unfoldable pub first_page :
      QueryStartRequest
      → String
      → (elapsed : ℕ) → ℕ
      → Option Warning
      → DaemonState
      → QueryResultHandle a
      → Answered (QueryPage Json)
  first_page r query_id elapsed page_size warning s h =
      let session : QuerySession = record {
        handle = h;
        page_size = page_size;
        warning = warning;
        result_format = r.result_format;
      } in
      let s' : DaemonState = record s { sessions = insert query_id session s.sessions } in
      finish_start query_id session s' (
        page_with_format a limits h (record {
          query_id = query_id;
          page_index = 0;
          page_size = page_size;
          warning = warning;
          is_cancelled = false;
          timeout_ms = r.timeout_ms;
          result_format = r.result_format;
          elapsed = elapsed;
        }))

  abbrev pub started :
      QueryStartRequest
      → String
      → ℕ
      → ℕ
      → Option Warning
      → DaemonState
      → Result QueryError (QueryResultHandle a)
      → Answered (QueryPage Json)
  started r query_id elapsed page_size warning s (err e) = failed s e
  started r query_id elapsed page_size warning s (ok h) =
      first_page r query_id elapsed page_size warning s h

  -- Once the page size is known and the tables are registered.
  abbrev pub start_registered :
      (active elapsed : ℕ)
      → QueryStartRequest
      → DaemonState
      → ℕ × Option Warning
      → Result String (Unit {0})
      → Answered (QueryPage Json)
  start_registered active elapsed r s size (err e) = failed s (execution e)
  start_registered active elapsed r s (page_size, warning) (ok u) =
      if ltb active max_concurrent_query_tasks
      then started r (display s.next_query_id) elapsed page_size warning
          (record s { next_query_id = fetch_add_one s.next_query_id })
          (start_query_stream r.sql r.timeout_ms)
      else failed s (too_many_tasks max_concurrent_query_tasks)

  abbrev pub start_sized :
      (active elapsed : ℕ)
      → QueryStartRequest
      → DaemonState
      → Result QueryError (ℕ × Option Warning)
      → Answered (QueryPage Json)
  start_sized active elapsed r s (err e) = failed s e
  start_sized active elapsed r s (ok size) =
      start_registered active elapsed r s size
        (ensure_database_tables_registered parse_sql ensure_one r.sql)

  -- `active` is the number of permits of `query_semaphore` that are taken.
  unfoldable pub query_start :
      (active elapsed : ℕ) → DaemonState → Params QueryStartRequest → Answered (QueryPage Json)
  query_start active elapsed s params =
      with_params (err missing_params, s) (λ e. (err e, s))
        (λ r.
          start_sized active elapsed r s
            (normalize_page_size max_page_size default_page_size r.page_size))
        params

  -- The page is served from the handle that the session shares, with an error or without one.
  unfoldable pub finish_page :
      String
      → QuerySession
      → DaemonState
      → Result QueryError (QueryPage Json) × QueryResultHandle a
      → Answered (QueryPage Json)
  finish_page query_id session s (ok page, h) =
      (ok page, record s { sessions = insert query_id (record session { handle = h }) s.sessions })
  finish_page query_id session s (err e, h) = (
    err (query_error e),
    record s { sessions = insert query_id (record session { handle = h }) s.sessions },
  )

  abbrev pub page_size_of : QueryPageRequest → QuerySession → Result QueryError (ℕ × Option Warning)
  page_size_of r session = elim r.page_size [
    | some size ↦ normalize_page_size max_page_size default_page_size (some size)
    | none ↦ ok (session.page_size, none)
  ]

  abbrev pub page_sized :
      (elapsed : ℕ)
      → QueryPageRequest
      → DaemonState
      → QuerySession
      → Result QueryError (ℕ × Option Warning)
      → Answered (QueryPage Json)
  page_sized elapsed r s session (err e) = failed s e
  page_sized elapsed r s session (ok (page_size, request_warning)) =
      finish_page r.query_id session s (
        page_with_format a limits session.handle (record {
          query_id = r.query_id;
          page_index = or_default r.page_index 0;
          page_size = page_size;
          warning = or_option request_warning session.warning;
          is_cancelled = any (str_eq r.query_id) s.cancelled;
          timeout_ms = none;
          result_format = or_option r.result_format session.result_format;
          elapsed = elapsed;
        }))

  abbrev pub page_found :
      (elapsed : ℕ)
      → QueryPageRequest
      → DaemonState
      → Option QuerySession
      → Answered (QueryPage Json)
  page_found elapsed r s none = failed s (query_not_found r.query_id)
  page_found elapsed r s (some session) = page_sized elapsed r s session (page_size_of r session)

  unfoldable pub query_page :
      (active elapsed : ℕ) → DaemonState → Params QueryPageRequest → Answered (QueryPage Json)
  query_page active elapsed s params =
      with_params (err missing_params, s) (λ e. (err e, s))
        (λ r.
          if ltb active max_concurrent_query_tasks
          then page_found elapsed r s (get r.query_id s.sessions)
          else failed s (too_many_tasks max_concurrent_query_tasks))
        params

  abbrev pub cancel_found :
      QueryCancelRequest → DaemonState → Option QuerySession → Answered QueryCancelResult
  cancel_found r s none = (ok (record { query_id = r.query_id; cancelled = false }), s)
  cancel_found r s (some session) = (
    ok (record { query_id = r.query_id; cancelled = true }),
    record s { sessions = remove r.query_id s.sessions; cancelled = r.query_id ∷ s.cancelled },
  )

  unfoldable pub query_cancel : DaemonState → Params QueryCancelRequest → Answered QueryCancelResult
  query_cancel s params =
      with_params (err missing_params, s) (λ e. (err e, s))
        (λ r. cancel_found r s (get r.query_id s.sessions)) params
