-- ===== src/SchemaCache/Tests.antt =====
-- The schema cache, the registrations and the lists of tables of qsql-daemon/src/lib.rs at concrete
-- values; a schema is its number.
use quiver_sql.Base.{
  ℕ, ◌+◌, String, none, some, List, [], ◌∷◌, length, max, take, ltb, ok, arith, ◌≡◌, refl, ◌↔◌, ◌⊎◌,
  max,
}
use quiver_sql.Sessions.Maps.{get}
use quiver_sql.SchemaCache.{
  SchemaCacheKey, schema_cache_ttl, same_key, get_entry, retain, is_fresh, answer_cached,
  cached_schema, cache_schema, clear_schema_cache_for_source, find_database_registration, listed,
  table_list_limit, list_tables_with_truncation,
}
use quiver_sql.SchemaCache.Views.{
  Operation, store, look_up, clear, after, last_stored, unexpired, cached_schema-last_stored,
}
use quiver_sql.SchemaCache.Sources.{
  Unknown, IsFirst, list_tables_with_truncation-exact, find_database_registration_lem,
}

abbrev orders : SchemaCacheKey
orders = record { alias = "pg"; generation = 1; table_name = "orders" }

abbrev history : List (Operation ℕ)
history = look_up 20 orders ∷ store 10 orders 7 ∷ clear "pg" ∷ store 5 orders 6 ∷ []

answers : (cached_schema 30 orders (after history)).0 ≡ some 7
unfolding cached_schema after cache_schema answer_cached is_fresh get_entry same_key retain
    clear_schema_cache_for_source
answers = refl

expires : (cached_schema (schema_cache_ttl + 11) orders (after history)).0 ≡ none
unfolding cached_schema after cache_schema answer_cached is_fresh get_entry same_key retain
    clear_schema_cache_for_source
expires = refl

cached_schema-last_stored_example :
    (cached_schema 30 orders (after history)).0 ≡ unexpired 30 (last_stored orders history)
cached_schema-last_stored_example =
    cached_schema-last_stored 30 orders history (omega arith, (tt, (tt, (tt, tt))))

abbrev two_tables : List String
two_tables = "orders" ∷ "users" ∷ []

list_tables_with_truncation-exact_example :
    list_tables_with_truncation (λ limit. listed (ok (take (max limit 1) two_tables))) "timed out"
    ≡ ok (take table_list_limit two_tables, ltb table_list_limit (length two_tables))
list_tables_with_truncation-exact_example =
    list_tables_with_truncation-exact two_tables
      (λ limit. listed (ok (take (max limit 1) two_tables))) "timed out" (λ limit. refl)

abbrev registered : List (String × ℕ)
registered = ("pg", 1) ∷ ("files", 2) ∷ []

find_database_registration_lem_example :
    ((find_database_registration registered "pg" ≡ none) ↔ Unknown "pg" registered)
    × ((r : ℕ)
        → get "pg" registered ≡ some r
        → find_database_registration registered "pg" ≡ some ("pg", r))
    × ((k : String) (r : ℕ)
        → find_database_registration registered "pg" ≡ some (k, r)
        → ((k ≡ "pg") × (get "pg" registered ≡ some r))
          ⊎ ((get "pg" registered ≡ none) × IsFirst "pg" registered k r))
find_database_registration_lem_example = find_database_registration_lem "pg" registered
