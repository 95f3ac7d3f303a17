-- ===== src/Catalog/Registry.antt =====
-- Lookups in the table registry of qsql-core/src/engine.rs.
use quiver_sql.Base.{
  Bool, true, Option, none, some, [], ◌∷◌, String, eq_iff, if◌then◌else◌, arith, ◌≡◌, refl, ap, ◌↔◌,
  Bool-cases, inl, inr,
}
use quiver_sql.Catalog.{RegisteredTableRef, same_schema, same_ref, Entries, get_table, retain}

pub same_schema_iff : (s t : Option String) → (same_schema s t ≡ true) ↔ (s ≡ t)
unfolding same_schema
same_schema_iff none none = ((λ e. refl), (λ e. refl))
same_schema_iff none (some t) = ((λ e. cc), (λ e. cc))
same_schema_iff (some s) none = ((λ e. cc), (λ e. cc))
same_schema_iff (some s) (some t) = ground (arith, eq_iff s t)

pub same_ref_iff : (r q : RegisteredTableRef) → (same_ref r q ≡ true) ↔ (r ≡ q)
unfolding same_ref
same_ref_iff r q = ground (arith, same_schema_iff r.schema q.schema, eq_iff r.table q.table)

module _ {Provider : Type 0} where
  pub get_table-retain :
      (r : RegisteredTableRef) (keep : RegisteredTableRef → Bool) (entries : Entries Provider)
      → get_table r (retain keep entries) ≡ (if keep r then get_table r entries else none)
  unfolding get_table retain
  get_table-retain r keep [] = ground arith
  get_table-retain r keep ((q, p) ∷ entries) =
      let ih = get_table-retain r keep entries in
      elim (Bool-cases (same_ref r q)) [
        | inl same ↦
            let alike : keep r ≡ keep q = ap keep ((same_ref_iff r q).0 same) in ground arith
        | inr other ↦ ground arith
      ]
