-- ===== src/Lib.antt =====
-- QuiverSQL answers SQL over local files and remote databases. A Rust workspace (qsql-workspace)
-- holds the engine (qsql-core), the database connectors (qsql-connectors) and the JSON-RPC daemon
-- (qsql-daemon) that a VS Code extension (qsql-vscode) talks to. Planning and execution are
-- DataFusion's, record batches are Arrow's and SQL is parsed by sqlparser; this library is about
-- the code of the repository around them, written in Rust.
--
-- How the parts interact. A client sends query_start; the daemon collects the qualified tables of
-- the SQL text (TableRefs), registers them, and starts a stream of record batches; a scan of a
-- remote table is refused if it passes its budget (ScanBudgets), and a join of a small local table
-- with a remote one is rewritten so that the source filters by the local keys (Broadcast). The plan
-- of a query is shown as a graph of nodes (Explain). A result handle (ResultHandle) buffers the
-- batches; a page is a window of its rows, as JSON or as Arrow IPC (Windows), with the metrics and
-- flags of a query page (Models). The daemon keeps the handle in a session for query_page and
-- query_cancel (Sessions). A file of fixed-width records becomes a table by a layout (FixedWidth),
-- whose type names are those of SQL (SqlTypes). What the connectors send to a source is quoted by
-- SqlText.
--
-- The files, with the code that each models:
-- - Base, Base/*: names passed on from the libraries, Boolean tests, lists over the native numbers,
--   Result, machine words.
-- - Errors: QueryError of qsql-core/src/models.rs, with its codes. A message is a constructor with
--   the values formatted into it.
-- - Models, Models/Pages: the pages, schemas and metrics of qsql-core/src/models.rs,
--   normalize_page_size and build_query_page.
-- - Arrow: the interface of record batches that the code relies on, and the laws of slicing. It is
--   a record that every definition over batches takes, and stands for the crate arrow.
-- - Arrow/Rows, Arrow/Rows/Fields: the JSON of a row, record_batch_to_json_rows and
--   array_value_to_json of qsql-core/src/engine.rs, as an instance of that interface;
--   Windows/Objects applies the windows to it.
-- - Windows, Windows/*: record_batches_to_json_rows of qsql-core/src/engine.rs and
--   serialize_batches_to_ipc_base64 of qsql-core/src/result_ipc.rs. Windows/Exact compares both
--   with the list of all rows; Windows/Saturated relates the saturating arithmetic to the natural
--   numbers.
-- - ResultHandle, ResultHandle/Pages: QueryResultHandle of qsql-core/src/engine.rs with push_batch,
--   read_until, read_to_end, page_with_format, page, collect_all and collect_batches.
--   ResultHandle/Reading, Paging, Overflow and Agreement hold the theorems.
-- - TableRefs, TableRefs/*: qsql-core/src/table_refs.rs, over sqlparser's syntax tree, with the
--   expressions that the code passes over. TableRefs/Spec says which tables are visible in the
--   clauses that it reads, Walk and Laws relate the walk to it, Hiding is about common table
--   expressions.
-- - SqlText, SqlText/Reader: quoting in qsql-connectors/src/sql.rs, and a reader of quoted text to
--   compare it with.
-- - SqlTypes, SqlTypes/*: qsql-core/src/sql_types.rs, with the operations of str that it uses.
-- - FixedWidth, FixedWidth/*: qsql-core/src/fixed_width.rs. FixedWidth itself has the layout and
--   its checks, Values and Columns the parsing of a column, Stream the batches of a scan; Entries
--   says what a line holds in a field, and Spans, Layouts, Rows, Entries, Reads and Scans hold the
--   theorems.
-- - ScanBudgets, ScanBudgets/*: check_budget and estimate_effective_bytes of
--   qsql-core/src/engine.rs.
-- - Broadcast, Broadcast/*: qsql-core/src/broadcast.rs. Broadcast has the plans and the report,
--   Keys the query for the distinct keys, Joins try_rewrite_join stage by stage, Rewrite the walk
--   over a plan; Meaning says what a plan yields, and Views, Filters, Values, Caps, Counting,
--   Sides, Sound and Reports hold the theorems.
-- - Explain, Explain/*: the plan graph of qsql-daemon/src/explain.rs. Explain has the plans with
--   the texts that they print, Texts and Badges what is asked of SQL texts and captured statements,
--   Attributes and Graph the nodes and the traversal, Metrics the measurements of a run; Layout
--   describes the graph without a traversal, Substrings what a search in a text finds, and Numbers,
--   Same, Walks, Results, Reasons and Names hold the theorems.
-- - SchemaCache, SchemaCache/*: cached_schema, cache_schema, clear_schema_cache_for_source,
--   find_database_registration and list_tables_with_truncation of qsql-daemon/src/lib.rs; Lookups,
--   Views and Sources hold the theorems.
-- - TableLists, TableLists/*: list_source_tables and list_database_tables_page of
--   qsql-daemon/src/lib.rs, with list_tables_page of qsql-connectors/src/sqlite.rs, postgres.rs and
--   mysql.rs; Paging holds the theorems.
-- - Catalog, Catalog/*: catalog_source, get_source_metadata, remove_source and the registration of
--   tables in QsqlEngine of qsql-core/src/engine.rs; Registry, Removal and Guards hold the
--   theorems.
-- - Sqlite, Sqlite/*: the conditions of pushed-down filters in qsql-connectors/src/sqlite.rs
--   (physical_expr_to_sql and what it calls). Reader has them as tokens with a reader of SQLite's
--   precedence; RoundTrip, Written and Precedence hold the theorems.
-- - Sessions, Sessions/*: DaemonState and the handlers query_start, query_page and query_cancel of
--   qsql-daemon/src/lib.rs. Starts, Pages, Runs and Counter hold the theorems, Maps the laws of the
--   session map.
-- The paths are relative to qsql-workspace. Every Tests file has runs at concrete values.
--
-- State and environment. Asynchronous code is explicit state passing: an operation takes the handle
-- or the daemon's state and returns it with its result. The stream, the cancellation token and the
-- timer of a handle are a list of events, consumed in order: a batch, an error, a cancellation, the
-- end of the time limit; the empty list is the end of the stream. A file is the list of what
-- read_line returns. Requests to the daemon run one after another, and the permits that other
-- requests hold are a number.
--
-- Bounds and fuel. usize and u64 are natural numbers below 2^64; saturating operations are cut at
-- 2^64 - 1, and the counters that wrap are reduced modulo 2^64. The theorems about pages assume
-- that the limits of the buffer are below usize::MAX, which the defaults are by far. The loops are
-- structural recursion on batches, events, lines and syntax trees. The walk over a plan graph runs
-- on fuel, for which the size of the plan is enough. The reader of conditions has fuel for their
-- nesting. The stream of a fixed-width scan runs on fuel too, one unit for each call of next_batch;
-- as many units as there are lines owed and one more are enough, since every batch holds a line.
--
-- Not modelled: the typed arrays of Arrow and its IPC writer, what a database answers to a
-- statement, sqlparser, DataFusion's planning and execution, serde's decoding of parameters,
-- Unicode's upper case, and floating-point parsing are parameters. The capture of remote SQL from
-- physical plans, lineage, the registration of files, the federation guard over plans, the request
-- frames, and what the database connectors do with their drivers are not modelled.
pub mod Base
pub mod Errors
pub mod Explain
pub mod Models
pub mod Arrow
pub mod Windows
pub mod ResultHandle
pub mod TableRefs
pub mod SqlText
pub mod SqlTypes
pub mod FixedWidth
pub mod Sessions
pub mod ScanBudgets
pub mod Broadcast
pub mod SchemaCache
pub mod Catalog
pub mod TableLists
pub mod Sqlite
