-- ===== src/Catalog/Tests.antt =====
-- The catalog of qsql-core/src/engine.rs at concrete sources; a provider is its number.
use quiver_sql.Base.{ℕ, String, none, some, List, [], ◌∷◌, if◌then◌else◌, ◌≡◌, ◌≢◌, refl}
use quiver_sql.Models.{postgres}
use quiver_sql.Sessions.Maps.{get, remove}
use quiver_sql.Catalog.{
  RegisteredTableRef, bare, partial, same_schema, same_ref, CatalogSource, is_database_source,
  is_database, plain, guarded, QsqlEngine, get_table, retain, get_source_metadata,
  register_table_entry, register_table, register_schema_table, table_registered_in_schema,
  deregister_schema, deregister_table, remove_source,
}
use quiver_sql.Catalog.Guards.{
  Call, on_table, on_schema_table, on_remove, apply, after, qualified, after-IsGuarded,
}
use quiver_sql.Catalog.Removal.{belongs, remove_source-removed}

abbrev shop : CatalogSource
shop = record { name = "shop"; kind = postgres; tables = some ("orders" ∷ []) }

abbrev engine : QsqlEngine ℕ
engine = record {
  catalog = ("shop", shop) ∷ [];
  table_registry = (bare "shop", plain 1) ∷ (partial "shop" "orders", guarded "shop.orders" 2) ∷ [];
}

orders_gone :
    get_table (partial "shop" "orders") (remove_source "shop" engine).1.table_registry ≡ none
unfolding remove_source get_source_metadata get is_database_source deregister_schema retain
    get_table same_schema same_ref
orders_gone = refl

bare_table_stays :
    get_table (bare "shop") (remove_source "shop" engine).1.table_registry ≡ some (plain 1)
unfolding remove_source get_source_metadata get is_database_source deregister_schema retain
    get_table same_schema same_ref
bare_table_stays = refl

registered_twice : register_schema_table "shop" "orders" 3 engine ≡ engine
unfolding register_schema_table table_registered_in_schema get_table same_ref same_schema
registered_twice = refl

remove_source-removed_example :
    (get_source_metadata (remove_source "shop" engine).1 "shop" ≡ none)
    × ((other : String)
        → other ≢ "shop"
        → get_source_metadata (remove_source "shop" engine).1 other
          ≡ get_source_metadata engine other)
    × ((r : RegisteredTableRef)
        → get_table r (remove_source "shop" engine).1.table_registry ≡ (
            if belongs (is_database (get_source_metadata engine "shop")) "shop" r
            then none
            else get_table r engine.table_registry))
remove_source-removed_example = remove_source-removed "shop" engine

abbrev calls : List (Call ℕ)
calls = on_table "shop" 1 ∷ on_schema_table "shop" "orders" 2 ∷ on_remove "shop" ∷ []

orders_registered :
    get_table (partial "shop" "orders") (after calls).table_registry
    ≡ some (guarded "shop.orders" 2)
unfolding after apply register_table register_schema_table register_table_entry
    table_registered_in_schema remove_source get_source_metadata get remove deregister_table retain
    get_table same_ref same_schema
orders_registered = refl

after-IsGuarded_example :
    (q : ℕ) × (guarded "shop.orders" 2 ≡ guarded (qualified "shop" "orders") q)
after-IsGuarded_example =
    after-IsGuarded calls "shop" "orders" (guarded "shop.orders" 2) orders_registered
