-- ===== src/Catalog/Guards.antt =====
-- Every table of a schema in the registry of qsql-core/src/engine.rs stands behind the scan guard.
use mathlib.Core.Path.{subst}
use Prim.Native.String.{◌++◌ as push_str}
use quiver_sql.Base.{
  String, Bool, Option, some, List, [], ◌∷◌, All, if◌then◌else◌, if_elim, ◌≡◌, refl, sym, ap, ◌∙◌,
  Bool-cases, inl, inr,
}
use quiver_sql.Catalog.{
  RegisteredTableRef, partial, same_ref, CatalogSource, TableProvider, guarded, Entries, QsqlEngine,
  get_table, retain, get_source_metadata, catalog_source, is_database, register_table_entry,
  register_table, register_schema_table, table_registered_in_schema, deregister_schema,
  deregister_table, uncatalog, remove_source,
}
use quiver_sql.Catalog.Registry.{same_ref_iff}

abbrev pub qualified : String → String → String
qualified schema table = push_str schema (push_str "." table)

-- A call of the engine.
pub data Call (Provider : Type 0) : Type 0 where
  on_table : String → Provider → Call Provider
  on_schema_table : (schema table : String) → Provider → Call Provider
  on_catalog : CatalogSource → Call Provider
  on_remove : String → Call Provider

module _ {Provider : Type 0} where
  abbrev pub no_tables : QsqlEngine Provider
  no_tables = record { catalog = []; table_registry = [] }

  unfoldable pub apply : Call Provider → QsqlEngine Provider → QsqlEngine Provider
  apply (on_table table provider) engine = register_table table provider engine
  apply (on_schema_table schema table provider) engine =
      register_schema_table schema table provider engine
  apply (on_catalog source) engine = catalog_source source engine
  apply (on_remove name) engine = (remove_source name engine).1

  -- The engine after calls, of which the latest stands first.
  unfoldable pub after : List (Call Provider) → QsqlEngine Provider
  after [] = no_tables
  after (call ∷ calls) = apply call (after calls)

  -- A provider in a schema is the guard of its qualified name.
  abbrev pub IsGuarded : RegisteredTableRef → TableProvider Provider → Type 0
  IsGuarded r p =
      (schema : String)
      → r.schema ≡ some schema
      → (q : Provider) × (p ≡ guarded (qualified schema r.table) q)

  abbrev AllGuarded : Entries Provider → Type 0
  AllGuarded = All (λ (e : RegisteredTableRef × TableProvider Provider). IsGuarded e.0 e.1)

  retain-AllGuarded :
      (keep : RegisteredTableRef → Bool) (entries : Entries Provider)
      → AllGuarded entries
      → AllGuarded (retain keep entries)
  unfolding retain
  retain-AllGuarded keep [] h = tt
  retain-AllGuarded keep ((q, p) ∷ entries) (g, h) =
      let rest = retain-AllGuarded keep entries h in
      if_elim AllGuarded (keep q) (λ e. (g, rest)) (λ e. rest)

  some-inj :
      {x y : TableProvider Provider}
      → ◌≡◌ {A = Option (TableProvider Provider)} (some x) (some y)
      → x ≡ y
  some-inj e = cc

  get_table-IsGuarded :
      (r : RegisteredTableRef) (entries : Entries Provider) (p : TableProvider Provider)
      → AllGuarded entries
      → get_table r entries ≡ some p
      → IsGuarded r p
  unfolding get_table
  get_table-IsGuarded r [] p h e = cc
  get_table-IsGuarded r ((q, p') ∷ entries) p (g, h) e = elim (Bool-cases (same_ref r q)) [
    | inl same ↦
        let found = sym (ap (λ (b : Bool). if b then some p' else get_table r entries) same) ∙ e in
        subst (λ t. IsGuarded r t) (some-inj found)
          (subst (λ t. IsGuarded t p') (sym ((same_ref_iff r q).0 same)) g)
    | inr other ↦
        get_table-IsGuarded r entries p h
          (sym (ap (λ (b : Bool). if b then some p' else get_table r entries) other) ∙ e)
  ]

  apply-AllGuarded :
      (call : Call Provider) (engine : QsqlEngine Provider)
      → AllGuarded engine.table_registry
      → AllGuarded (apply call engine).table_registry
  unfolding apply register_table register_schema_table register_table_entry catalog_source
      remove_source deregister_schema deregister_table
  apply-AllGuarded (on_table table provider) engine h =
      ((λ schema e. cc), retain-AllGuarded _ engine.table_registry h)
  apply-AllGuarded (on_schema_table schema table provider) engine h =
      if_elim (λ (e : QsqlEngine Provider). AllGuarded e.table_registry)
        (table_registered_in_schema engine schema table) (λ e. h)
        (λ e. (
          (λ s same. (provider, ap (λ (t : String). guarded (qualified t table) provider) (cc))),
          retain-AllGuarded _ engine.table_registry h,
        ))
  apply-AllGuarded (on_catalog source) engine h = h
  apply-AllGuarded (on_remove name) engine h =
      if_elim (λ (r : Bool × QsqlEngine Provider). AllGuarded (uncatalog name r).1.table_registry)
        (is_database (get_source_metadata engine name))
        (λ e. retain-AllGuarded _ engine.table_registry h)
        (λ e. retain-AllGuarded _ engine.table_registry h)

  after-AllGuarded : (calls : List (Call Provider)) → AllGuarded (after calls).table_registry
  unfolding after
  after-AllGuarded [] = tt
  after-AllGuarded (call ∷ calls) = apply-AllGuarded call (after calls) (after-AllGuarded calls)

  -- After any calls of the engine, whatever is registered under a schema and a table is the guard of
  -- that qualified name, never a bare provider.
  pub after-IsGuarded :
      (calls : List (Call Provider)) (schema table : String) (p : TableProvider Provider)
      → get_table (partial schema table) (after calls).table_registry ≡ some p
      → (q : Provider) × (p ≡ guarded (qualified schema table) q)
  after-IsGuarded calls schema table p e =
      get_table-IsGuarded (partial schema table) (after calls).table_registry p
        (after-AllGuarded calls) e schema refl
