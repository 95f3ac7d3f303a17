-- ===== src/TableLists.antt =====
-- The pages of the tables of a source: `list_source_tables` of qsql-daemon/src/lib.rs, and the
-- `list_tables_page` of the connectors (sqlite.rs, postgres.rs and mysql.rs of qsql-connectors/src).
-- The databases are an argument: what they answer to a statement.
mod Paging
mod Tests
use quiver_sql.Base.{
  ℕ, ◌+◌, String, Bool, Option, none, some, List, [], length, take, drop, min, max, ltb,
  if◌then◌else◌, Result, ok, err, ◌>>=◌, saturating_add,
}
use Prim.Native.String.{◌++◌ as push_str}
use quiver_sql.Models.{SourceKind, sqlite, postgres, mysql, mariadb}
use quiver_sql.SqlText.{is_blank, sql_literal}
use quiver_sql.SchemaCache.{find_database_registration, table_list_limit}

pub data TableListError : Type 0 where
  source_not_found : (name : String) → TableListError
  missing_db_path missing_connection_string timed_out : TableListError
  listing_failed : String → TableListError

pub record ListSourceTablesRequest : Type 0 where
  pub name : String
  pub offset : Option ℕ
  pub limit : Option ℕ

pub record ListSourceTablesResult : Type 0 where
  pub name : String
  pub tables : List String
  pub offset : ℕ
  pub limit : ℕ
  pub total_known : Option ℕ
  pub truncated : Bool

-- The fields of a `DatabaseRegistration` that count here.
pub record TableSource : Type 0 where
  pub kind : SourceKind
  pub db_path : Option String
  pub connection_string : Option String
  pub schema : Option String
  pub tables : List String
  pub tables_truncated : Bool

-- Which names a statement asks for: the tables of SQLite's `sqlite_master`, those of a schema of
-- Postgres, and those of MySQL that meet a condition.
pub data TableQuery : Type 0 where
  sqlite_master : TableQuery
  postgres_schema : String → TableQuery
  mysql_tables : (schema_predicate : String) → TableQuery

-- A statement `… ORDER BY … LIMIT … OFFSET …`.
pub record TableStatement : Type 0 where
  pub query : TableQuery
  pub limit : ℕ
  pub offset : ℕ

-- The answer of the database at a path or a connection string; none if it takes too long.
abbrev pub Databases : Type 0
Databases = String → TableStatement → Option (Result String (List String))

-- The registered databases, and `get_source_metadata` with its `tables`.
pub record Sources : Type 0 where
  pub databases : List (String × TableSource)
  pub metadata : String → Option (Option (List String))

abbrev pub unwrap_or : {A : Type 0} → Option A → A → A
unwrap_or none d = d
unwrap_or (some a) d = a

abbrev pub i64_max : ℕ
i64_max = 9223372036854775807

abbrev mysql_schema_predicate : Option String → String
mysql_schema_predicate none = "table_schema = DATABASE()"
mysql_schema_predicate (some schema) =
    if is_blank schema
    then "table_schema = DATABASE()"
    else push_str "table_schema = " (sql_literal schema)

-- `list_tables_page` of the three connectors; the numbers of Postgres have 64 bits and a sign.
abbrev pub sqlite_tables_page : (offset limit : ℕ) → TableStatement
sqlite_tables_page offset limit = record {
  query = sqlite_master;
  limit = max limit 1;
  offset = offset;
}

abbrev pub postgres_tables_page : String → (offset limit : ℕ) → TableStatement
postgres_tables_page schema offset limit = record {
  query = postgres_schema schema;
  limit = min (max limit 1) i64_max;
  offset = min offset i64_max;
}

abbrev pub mysql_tables_page : String → (offset limit : ℕ) → TableStatement
mysql_tables_page predicate offset limit = record {
  query = mysql_tables predicate;
  limit = max limit 1;
  offset = offset;
}

unfoldable pub list_tables_page : TableQuery → (offset limit : ℕ) → TableStatement
list_tables_page sqlite_master offset limit = sqlite_tables_page offset limit
list_tables_page (postgres_schema schema) offset limit = postgres_tables_page schema offset limit
list_tables_page (mysql_tables predicate) offset limit = mysql_tables_page predicate offset limit

-- Where the tables of a source are, and what is asked for; a kind that is no database has none.
abbrev connect :
    Option String
    → TableListError
    → TableQuery
    → Result TableListError (Option (String × TableQuery))
connect none e q = err e
connect (some target) e q = ok (some (target, q))

unfoldable pub connector_of :
    SourceKind → TableSource → Result TableListError (Option (String × TableQuery))
connector_of sqlite source = connect source.db_path missing_db_path sqlite_master
connector_of postgres source =
    connect source.connection_string missing_connection_string
      (postgres_schema (unwrap_or source.schema "public"))
connector_of mysql source =
    connect source.connection_string missing_connection_string
      (mysql_tables (mysql_schema_predicate source.schema))
connector_of mariadb source =
    connect source.connection_string missing_connection_string
      (mysql_tables (mysql_schema_predicate source.schema))
connector_of _ source = ok none

abbrev answered : Option (Result String (List String)) → Result TableListError (List String)
answered none = err timed_out
answered (some (err m)) = err (listing_failed m)
answered (some (ok tables)) = ok tables

unfoldable pub page_of :
    Databases
    → Option (String × TableQuery)
    → (offset limit : ℕ) → Result TableListError (List String)
page_of databases none offset limit = ok []
page_of databases (some (target, query)) offset limit =
    answered (databases target (list_tables_page query offset limit))

unfoldable pub list_database_tables_page :
    Databases → TableSource → (offset limit : ℕ) → Result TableListError (List String)
list_database_tables_page databases source offset limit =
    connector_of source.kind source >>= λ connector. page_of databases connector offset limit

-- `clamp(1, TABLE_LIST_LIMIT)`.
unfoldable pub page_limit : Option ℕ → ℕ
page_limit limit = min (max (unwrap_or limit 250) 1) table_list_limit

abbrev pub total_of : TableSource → Option ℕ
total_of source = if source.tables_truncated then none else some (length source.tables)

unfoldable pub list_from_database :
    Databases
    → String
    → TableSource
    → (offset limit : ℕ) → Result TableListError ListSourceTablesResult
list_from_database databases name source offset limit =
    list_database_tables_page databases source offset (limit + 1) >>= λ tables. ok (record {
      name = name;
      tables = take limit tables;
      offset = offset;
      limit = limit;
      total_known = total_of source;
      truncated = ltb limit (length tables);
    })

unfoldable pub list_from_metadata :
    String
    → Option (Option (List String))
    → (offset limit : ℕ) → Result TableListError ListSourceTablesResult
list_from_metadata name none offset limit = err (source_not_found name)
list_from_metadata name (some tables) offset limit =
    let all_tables = unwrap_or tables [] in
    ok (record {
      name = name;
      tables = take limit (drop offset all_tables);
      offset = offset;
      limit = limit;
      total_known = some (length all_tables);
      truncated = ltb (saturating_add offset limit) (length all_tables);
    })

unfoldable pub list_from :
    Databases
    → Sources
    → String
    → Option (String × TableSource)
    → (offset limit : ℕ) → Result TableListError ListSourceTablesResult
list_from databases sources name (some (alias, source)) offset limit =
    list_from_database databases name source offset limit
list_from databases sources name none offset limit =
    list_from_metadata name (sources.metadata name) offset limit

unfoldable pub list_source_tables :
    Databases → Sources → ListSourceTablesRequest → Result TableListError ListSourceTablesResult
list_source_tables databases sources request =
    list_from databases sources request.name
      (find_database_registration sources.databases request.name) (unwrap_or request.offset 0)
      (page_limit request.limit)
