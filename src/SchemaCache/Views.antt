-- ===== src/SchemaCache/Views.antt =====
-- The schema cache of qsql-daemon/src/lib.rs as a client sees it, compared with the history of what
-- was done to it.
use quiver_sql.Base.{
  ℕ, ◌-◌, ◌≤◌, String, false, not, Option, none, some, List, [], ◌∷◌, All, leb, str_eq,
  if◌then◌else◌, arith, ◌≡◌, refl, sym, ap, ◌∙◌, Bool-cases, inl, inr,
}
use quiver_sql.SchemaCache.{
  SchemaCacheKey, SchemaCacheEntry, schema_cache_ttl, same_key, Cache, get_entry, is_fresh,
  answer_cached, cached_schema, cache_schema, clear_schema_cache_for_source,
}
use quiver_sql.SchemaCache.Lookups.{same_key_iff, same_key-sym, get_entry-retain}

-- An operation on the cache and its time: a schema is stored, a schema is looked up, the schemas of a
-- source are dropped.
pub data Operation (Schema : Type 0) : Type 0 where
  store : (at : ℕ) → SchemaCacheKey → Schema → Operation Schema
  look_up : (at : ℕ) → SchemaCacheKey → Operation Schema
  clear : (alias : String) → Operation Schema

module _ {Schema : Type 0} where
  -- The cache after a history, whose latest operation stands first.
  unfoldable pub after : List (Operation Schema) → Cache Schema
  after [] = []
  after (store at key schema ∷ earlier) = cache_schema at key schema (after earlier)
  after (look_up at key ∷ earlier) = (cached_schema at key (after earlier)).1
  after (clear alias ∷ earlier) = clear_schema_cache_for_source alias (after earlier)

  -- The last schema that was stored under the key and not dropped with its source.
  unfoldable pub last_stored :
      SchemaCacheKey → List (Operation Schema) → Option (SchemaCacheEntry Schema)
  last_stored key [] = none
  last_stored key (store at k schema ∷ earlier) =
      let rest = last_stored key earlier in
      if same_key key k then some (record { schema = schema; cached_at = at }) else rest
  last_stored key (look_up at k ∷ earlier) = last_stored key earlier
  last_stored key (clear alias ∷ earlier) =
      let rest = last_stored key earlier in if str_eq key.alias alias then none else rest

  -- The schema of an entry that is not older than the time to live.
  abbrev pub unexpired : (now : ℕ) → Option (SchemaCacheEntry Schema) → Option Schema
  unexpired now none = none
  unexpired now (some entry) =
      if leb (now - entry.cached_at) schema_cache_ttl then some entry.schema else none

  abbrev pub Before : ℕ → Operation Schema → Type 0
  Before now (store at key schema) = Unit
  Before now (look_up at key) = at ≤ now
  Before now (clear alias) = Unit

  answer_cached-unexpired :
      (now : ℕ) (key : SchemaCacheKey) (cache : Cache Schema) (o : Option (SchemaCacheEntry Schema))
      → (answer_cached now key cache o).0 ≡ unexpired now o
  unfolding answer_cached is_fresh
  answer_cached-unexpired now key cache none = refl
  answer_cached-unexpired now key cache (some entry) =
      elim (Bool-cases (leb (now - entry.cached_at) schema_cache_ttl)) [
        | inl h ↦ rw h refl
        | inr h ↦ rw h refl
      ]

  -- A look-up drops only what has expired.
  look_up_keeps :
      (now at : ℕ) (key k : SchemaCacheKey) (cache : Cache Schema)
      (o : Option (SchemaCacheEntry Schema))
      → get_entry k cache ≡ o
      → at ≤ now
      → unexpired now (get_entry key (answer_cached at k cache o).1)
        ≡ unexpired now (get_entry key cache)
  unfolding answer_cached is_fresh
  look_up_keeps now at key k cache none e h = refl
  look_up_keeps now at key k cache (some entry) e h =
      elim (Bool-cases (leb (at - entry.cached_at) schema_cache_ttl)) [
        | inl young ↦ rw young refl
        | inr old ↦
            let still_old : leb (now - entry.cached_at) schema_cache_ttl ≡ false = ground arith in
            rw (old, get_entry-retain key (λ j. not (same_key k j)) cache)
              (elim (Bool-cases (same_key k key)) [
                | inl same ↦
                    let found : get_entry key cache ≡ some entry =
                      ap (λ j. get_entry j cache) (sym ((same_key_iff k key).0 same)) ∙ e in
                    rw (same, found, still_old) refl
                | inr other ↦ rw other refl
              ])
      ]

  after-last_stored :
      (now : ℕ) (key : SchemaCacheKey) (history : List (Operation Schema))
      → All (Before now) history
      → unexpired now (get_entry key (after history)) ≡ unexpired now (last_stored key history)
  unfolding after last_stored get_entry cache_schema cached_schema clear_schema_cache_for_source
  after-last_stored now key [] h = refl
  after-last_stored now key (store at k schema ∷ earlier) h =
      let ih = after-last_stored now key earlier h.1 in
      elim (Bool-cases (same_key key k)) [
        | inl same ↦ rw same refl
        | inr other ↦
            let kept : same_key k key ≡ false = sym (same_key-sym key k) ∙ other in
            rw (other, get_entry-retain key (λ j. not (same_key k j)) (after earlier), kept) ih
      ]
  after-last_stored now key (look_up at k ∷ earlier) h =
      look_up_keeps now at key k (after earlier) (get_entry k (after earlier)) refl h.0
      ∙ after-last_stored now key earlier h.1
  after-last_stored now key (clear alias ∷ earlier) h =
      let ih = after-last_stored now key earlier h.1 in
      rw (get_entry-retain key (λ j. not (str_eq j.alias alias)) (after earlier))
        (elim (Bool-cases (str_eq key.alias alias)) [
          | inl same ↦ rw same refl
          | inr other ↦ rw other ih
        ])

  -- Whatever was done to the cache before, a look-up answers with the schema that was last stored
  -- under the key, if the schemas of its source were not dropped since and it is not older than the
  -- time to live, and with nothing otherwise; the earlier look-ups were not later than this one.
  pub cached_schema-last_stored :
      (now : ℕ) (key : SchemaCacheKey) (history : List (Operation Schema))
      → All (Before now) history
      → (cached_schema now key (after history)).0 ≡ unexpired now (last_stored key history)
  unfolding cached_schema
  cached_schema-last_stored now key history h =
      answer_cached-unexpired now key (after history) (get_entry key (after history))
      ∙ after-last_stored now key history h
