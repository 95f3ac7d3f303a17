-- ===== src/SchemaCache/Lookups.antt =====
-- Lookups in the schema cache of qsql-daemon/src/lib.rs after each of its operations.
use quiver_sql.Base.{
  Bool, true, false, Option, none, [], ◌∷◌, eq_iff, ==_iff, if◌then◌else◌, arith, ◌≡◌, refl, ap,
  Bool-cases, inl, inr, ◌↔◌,
}
use quiver_sql.SchemaCache.{SchemaCacheKey, SchemaCacheEntry, same_key, Cache, get_entry, retain}

pub same_key_iff : (j k : SchemaCacheKey) → (same_key j k ≡ true) ↔ (j ≡ k)
unfolding same_key
same_key_iff j k = ground (
  arith,
  eq_iff j.alias k.alias,
  ==_iff j.generation k.generation,
  eq_iff j.table_name k.table_name,
)

pub same_key-sym : (j k : SchemaCacheKey) → same_key j k ≡ same_key k j
unfolding same_key
same_key-sym j k = ground (
  arith,
  eq_iff j.alias k.alias,
  eq_iff k.alias j.alias,
  eq_iff j.table_name k.table_name,
  eq_iff k.table_name j.table_name,
)

module _ {Schema : Type 0} where
  -- Entries are kept or dropped by their keys.
  pub get_entry-retain :
      (key : SchemaCacheKey) (keep : SchemaCacheKey → Bool) (cache : Cache Schema)
      → get_entry key (retain keep cache) ≡ (if keep key then get_entry key cache else none)
  unfolding get_entry retain
  get_entry-retain key keep [] = none_twice (keep key)
    where
      none_twice :
          (b : Bool) → ◌≡◌ {A = Option (SchemaCacheEntry Schema)} none (if b then none else none)
      none_twice true = refl
      none_twice false = refl
  get_entry-retain key keep ((k, e) ∷ cache) =
      let ih = get_entry-retain key keep cache in
      elim (Bool-cases (same_key key k)) [
        | inl same ↦
            let alike : keep key ≡ keep k = ap keep ((same_key_iff key k).0 same) in ground arith
        | inr other ↦ ground arith
      ]
