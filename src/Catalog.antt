-- ===== src/Catalog.antt =====
-- The catalog and the table registry of the engine, qsql-core/src/engine.rs: what is registered under
-- which name, and what goes when a source is removed. Providers of tables are parameters.
mod Registry
mod Removal
mod Guards
mod Tests
use Prim.Native.String.{◌++◌ as push_str}
use quiver_sql.Base.{
  ℕ, String, Bool, true, false, not, ◌&&◌, ◌||◌, Option, none, some, List, [], ◌∷◌, length, is_some,
  ◌==◌, str_eq, if◌then◌else◌,
}
use quiver_sql.Models.{
  SourceKind, csv, parquet, json, ndjson, sqlite, fixed_width, postgres, mysql, mariadb,
}
use quiver_sql.Sessions.Maps.{get, insert, remove}

pub record RegisteredTableRef : Type 0 where
  pub schema : Option String
  pub table : String

abbrev pub bare : String → RegisteredTableRef
bare table = record { schema = none; table = table }

abbrev pub partial : String → String → RegisteredTableRef
partial schema table = record { schema = some schema; table = table }

unfoldable pub same_schema : Option String → Option String → Bool
same_schema none none = true
same_schema none (some t) = false
same_schema (some s) none = false
same_schema (some s) (some t) = str_eq s t

unfoldable pub same_ref : RegisteredTableRef → RegisteredTableRef → Bool
same_ref r q = same_schema r.schema q.schema && str_eq r.table q.table

-- The fields of a `CatalogSource` that the engine reads here.
pub record CatalogSource : Type 0 where
  pub name : String
  pub kind : SourceKind
  pub tables : Option (List String)

abbrev is_database_kind : SourceKind → Bool
is_database_kind sqlite = true
is_database_kind postgres = true
is_database_kind mysql = true
is_database_kind mariadb = true
is_database_kind _ = false

unfoldable pub is_database_source : CatalogSource → Bool
is_database_source source = is_database_kind source.kind && is_some source.tables

abbrev pub is_database : Option CatalogSource → Bool
is_database none = false
is_database (some source) = is_database_source source

-- A provider as it was given, or within a `GuardedTableProvider` of that name.
pub data TableProvider (Provider : Type 0) : Type 0 where
  plain : Provider → TableProvider Provider
  guarded : (name : String) → Provider → TableProvider Provider

abbrev pub Entries : Type 0 → Type 0
Entries Provider = List (RegisteredTableRef × TableProvider Provider)

pub record QsqlEngine (Provider : Type 0) : Type 0 where
  pub catalog : List (String × CatalogSource)
  pub table_registry : Entries Provider

module _ {Provider : Type 0} where
  unfoldable pub get_table : RegisteredTableRef → Entries Provider → Option (TableProvider Provider)
  get_table r [] = none
  get_table r ((q, p) ∷ entries) =
      let rest = get_table r entries in if same_ref r q then some p else rest

  unfoldable pub retain : (RegisteredTableRef → Bool) → Entries Provider → Entries Provider
  retain keep [] = []
  retain keep ((q, p) ∷ entries) =
      let rest = retain keep entries in if keep q then (q, p) ∷ rest else rest

  unfoldable pub get_source_metadata : QsqlEngine Provider → String → Option CatalogSource
  get_source_metadata engine name = get name engine.catalog

  unfoldable pub catalog_source : CatalogSource → QsqlEngine Provider → QsqlEngine Provider
  catalog_source source engine = record engine {
    catalog = insert source.name source engine.catalog;
  }

  unfoldable pub table_registered_in_schema : QsqlEngine Provider → (schema table : String) → Bool
  table_registered_in_schema engine schema table =
      is_some (get_table (partial schema table) engine.table_registry)

  unfoldable pub register_table_entry :
      RegisteredTableRef → TableProvider Provider → QsqlEngine Provider → QsqlEngine Provider
  register_table_entry r provider engine = record engine {
    table_registry = (r, provider) ∷ retain (λ q. not (same_ref r q)) engine.table_registry;
  }

  unfoldable pub register_table : String → Provider → QsqlEngine Provider → QsqlEngine Provider
  register_table table provider engine = register_table_entry (bare table) (plain provider) engine

  -- A table that is registered stays as it is.
  unfoldable pub register_schema_table :
      (schema table : String) → Provider → QsqlEngine Provider → QsqlEngine Provider
  register_schema_table schema table provider engine =
      if table_registered_in_schema engine schema table
      then engine
      else register_table_entry (partial schema table)
          (guarded (push_str schema (push_str "." table)) provider) engine

  unfoldable pub deregister_schema : String → QsqlEngine Provider → Bool × QsqlEngine Provider
  deregister_schema schema engine =
      let kept = retain (λ q. not (same_schema q.schema (some schema))) engine.table_registry in
      (not (length engine.table_registry == length kept), record engine { table_registry = kept })

  unfoldable pub deregister_table : String → QsqlEngine Provider → Bool × QsqlEngine Provider
  deregister_table table engine = (
    is_some (get_table (bare table) engine.table_registry),
    record engine {
      table_registry = retain (λ q. not (same_ref (bare table) q)) engine.table_registry;
    },
  )

  abbrev pub uncatalog : String → Bool × QsqlEngine Provider → Bool × QsqlEngine Provider
  uncatalog name (deregistered, engine) = (
    deregistered || is_some (get name engine.catalog),
    record engine { catalog = remove name engine.catalog },
  )

  unfoldable pub remove_source : String → QsqlEngine Provider → Bool × QsqlEngine Provider
  remove_source name engine = uncatalog name (
      if is_database (get_source_metadata engine name)
      then deregister_schema name engine
      else deregister_table name engine)
