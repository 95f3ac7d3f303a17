-- ===== src/Catalog/Removal.antt =====
-- What `remove_source` of qsql-core/src/engine.rs takes away, and what it leaves.
use quiver_sql.Base.{
  Bool, true, false, not, none, some, String, if◌then◌else◌, ◌≡◌, ◌≢◌, refl, ap, ◌∙◌, Bool-cases,
  inl, inr,
}
use quiver_sql.Sessions.Maps.{get, remove, get-remove_same, get-remove_other}
use quiver_sql.Catalog.{
  RegisteredTableRef, bare, same_schema, same_ref, QsqlEngine, get_table, get_source_metadata,
  is_database, deregister_schema, deregister_table, uncatalog, remove_source,
}
use quiver_sql.Catalog.Registry.{get_table-retain}

-- The tables of a source: those in the schema of that name for a database, else the table of that
-- name.
unfoldable pub belongs : (database : Bool) → String → RegisteredTableRef → Bool
belongs true name r = same_schema r.schema (some name)
belongs false name r = same_ref (bare name) r

if_not : {A : Type 0} (b : Bool) (x y : A) → (if not b then x else y) ≡ (if b then y else x)
if_not true x y = refl
if_not false x y = refl

module _ {Provider : Type 0} (name : String) (engine : QsqlEngine Provider) where
  abbrev removed : QsqlEngine Provider
  removed = (remove_source name engine).1

  removed_by :
      (database : Bool)
      → is_database (get_source_metadata engine name) ≡ database
      → removed
        ≡ (uncatalog name
            (if database then deregister_schema name engine else deregister_table name engine)).1
  unfolding remove_source
  removed_by database h =
      ap
        (λ (b : Bool).
          (uncatalog name
            (if b then deregister_schema name engine else deregister_table name engine)).1)
        h

  catalog_after : removed.catalog ≡ remove name engine.catalog
  unfolding remove_source deregister_schema deregister_table
  catalog_after = elim (Bool-cases (is_database (get_source_metadata engine name))) [
    | inl h ↦ rw h refl
    | inr h ↦ rw h refl
  ]

  tables_after :
      (r : RegisteredTableRef) (database : Bool)
      → is_database (get_source_metadata engine name) ≡ database
      → get_table r removed.table_registry
        ≡ (if belongs database name r then none else get_table r engine.table_registry)
  unfolding deregister_schema deregister_table belongs
  tables_after r true h =
      ap (λ e. get_table r e.table_registry) (removed_by true h)
      ∙ (get_table-retain r (λ q. not (same_schema q.schema (some name))) engine.table_registry
          ∙ if_not (same_schema r.schema (some name)) _ _)
  tables_after r false h =
      ap (λ e. get_table r e.table_registry) (removed_by false h)
      ∙ (get_table-retain r (λ q. not (same_ref (bare name) q)) engine.table_registry
          ∙ if_not (same_ref (bare name) r) _ _)

  -- A removed source is out of the catalog, with all its tables: those of its schema for a database,
  -- the table of its name for any other source; every other source and every other table stays as
  -- it was.
  pub remove_source-removed :
      (get_source_metadata removed name ≡ none)
      × ((other : String)
          → other ≢ name
          → get_source_metadata removed other ≡ get_source_metadata engine other)
      × ((r : RegisteredTableRef)
          → get_table r removed.table_registry ≡ (
              if belongs (is_database (get_source_metadata engine name)) name r
              then none
              else get_table r engine.table_registry))
  unfolding get_source_metadata
  remove_source-removed = (
    ap (get name) catalog_after ∙ get-remove_same name engine.catalog,
    (λ other h. ap (get other) catalog_after ∙ get-remove_other other name engine.catalog h),
    (λ r. tables_after r (is_database (get_source_metadata engine name)) refl),
  )
