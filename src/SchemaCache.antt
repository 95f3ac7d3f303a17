-- ===== src/SchemaCache.antt =====
-- What the daemon (qsql-daemon/src/lib.rs) remembers of its sources: the schema cache with its time to
-- live, the lookup of a registration by its alias, and the capped list of the tables of a source.
pub mod Names
pub mod Lookups
pub mod Views
pub mod Sources
pub mod Tests
use quiver_sql.Base.{
  ℕ, ◌+◌, ◌-◌, ◌*◌, ◌^◌, String, Bool, true, false, ◌&&◌, not, Option, none, some, List, [], ◌∷◌,
  length, take, ltb, leb, ◌==◌, str_eq, if◌then◌else◌, Result, ok, err, ◌>>=◌,
}
use quiver_sql.Sessions.Maps.{get}
use quiver_sql.SchemaCache.Names.{eq_ignore_ascii_case}

pub record SchemaCacheKey : Type 0 where
  pub alias : String
  pub generation : ℕ
  pub table_name : String

unfoldable pub same_key : SchemaCacheKey → SchemaCacheKey → Bool
same_key j k =
    str_eq j.alias k.alias && ((j.generation == k.generation) && str_eq j.table_name k.table_name)

-- An `Instant` is a number of nanoseconds.
pub record SchemaCacheEntry (Schema : Type 0) : Type 0 where
  pub schema : Schema
  pub cached_at : ℕ

-- `SCHEMA_CACHE_TTL`, 300 seconds.
abbrev pub schema_cache_ttl : ℕ
schema_cache_ttl = 300 * 10 ^ 9

-- `TABLE_LIST_LIMIT`.
abbrev pub table_list_limit : ℕ
table_list_limit = 5000

abbrev pub Cache : Type 0 → Type 0
Cache Schema = List (SchemaCacheKey × SchemaCacheEntry Schema)

module _ {Schema : Type 0} where
  unfoldable pub get_entry : SchemaCacheKey → Cache Schema → Option (SchemaCacheEntry Schema)
  get_entry key [] = none
  get_entry key ((k, e) ∷ cache) =
      let rest = get_entry key cache in if same_key key k then some e else rest

  -- `retain`.
  unfoldable pub retain : (SchemaCacheKey → Bool) → Cache Schema → Cache Schema
  retain keep [] = []
  retain keep ((k, e) ∷ cache) =
      let rest = retain keep cache in if keep k then (k, e) ∷ rest else rest

  abbrev pub remove_entry : SchemaCacheKey → Cache Schema → Cache Schema
  remove_entry key = retain (λ k. not (same_key key k))

  -- `now.duration_since(cached_at)`, which is zero for an earlier `now`.
  unfoldable pub is_fresh : (now : ℕ) → SchemaCacheEntry Schema → Bool
  is_fresh now entry = leb (now - entry.cached_at) schema_cache_ttl

  unfoldable pub answer_cached :
      (now : ℕ)
      → SchemaCacheKey
      → Cache Schema
      → Option (SchemaCacheEntry Schema)
      → Option Schema × Cache Schema
  answer_cached now key cache none = (none, cache)
  answer_cached now key cache (some entry) =
      if is_fresh now entry then (some entry.schema, cache) else (none, remove_entry key cache)

  unfoldable pub cached_schema :
      (now : ℕ) → SchemaCacheKey → Cache Schema → Option Schema × Cache Schema
  cached_schema now key cache = answer_cached now key cache (get_entry key cache)

  unfoldable pub cache_schema : (now : ℕ) → SchemaCacheKey → Schema → Cache Schema → Cache Schema
  cache_schema now key schema cache =
      (key, record { schema = schema; cached_at = now }) ∷ remove_entry key cache

  unfoldable pub clear_schema_cache_for_source : (alias : String) → Cache Schema → Cache Schema
  clear_schema_cache_for_source alias cache = retain (λ k. not (str_eq k.alias alias)) cache

-- `state.database_sources`, in the order of its iterator.
module _ {Registration : Type 0} where
  unfoldable pub find_ignoring_case :
      String → List (String × Registration) → Option (String × Registration)
  find_ignoring_case alias [] = none
  find_ignoring_case alias ((k, r) ∷ sources) =
      let rest = find_ignoring_case alias sources in
      if eq_ignore_ascii_case k alias then some (k, r) else rest

  abbrev pub exact_or :
      String → Option Registration → Option (String × Registration) → Option (String × Registration)
  exact_or alias (some r) other = some (alias, r)
  exact_or alias none other = other

  unfoldable pub find_database_registration :
      List (String × Registration) → String → Option (String × Registration)
  find_database_registration sources alias =
      exact_or alias (get alias sources) (find_ignoring_case alias sources)

-- What the connector answers to `list_tables`, or that it took too long.
pub data Listing : Type 0 where
  timed_out : Listing
  listed : Result String (List String) → Listing

unfoldable pub truncate_tables : List String → List String × Bool
truncate_tables tables =
    let truncated = ltb table_list_limit (length tables) in
    ((if truncated then take table_list_limit tables else tables), truncated)

unfoldable pub answer_listing :
    (timeout_message : String) → Listing → Result String (List String × Bool)
answer_listing timeout_message timed_out = err timeout_message
answer_listing timeout_message (listed outcome) = outcome >>= λ tables. ok (truncate_tables tables)

unfoldable pub list_tables_with_truncation :
    (list_tables : (limit : ℕ) → Listing)
    → (timeout_message : String) → Result String (List String × Bool)
list_tables_with_truncation list_tables timeout_message =
    answer_listing timeout_message (list_tables (table_list_limit + 1))
