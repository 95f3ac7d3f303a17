-- ===== src/Explain/Names/Tests.antt =====
-- The list of names of qsql-core/src/broadcast.rs, read by qsql-daemon/src/explain.rs, at a plan with
-- two tables.
use mathlib.Core.Path.{subst}
use quiver_sql.Base.{String, true, ◌≡◌, refl, inl, inr, ◌↔◌}
use quiver_sql.SqlText.{is_whitespace, is_blank}
use quiver_sql.SqlTypes.Text.{trim, trim_start, trim_end}
use quiver_sql.Broadcast.{
  DataFusion, LogicalPlan, table_scan, extension, no_plans, plan, describe_subtree,
}
use quiver_sql.Explain.Texts.{comma_list_contains}
use quiver_sql.Explain.Names.{NoComma, Listable, HasTable, comma_list_contains-describe_subtree}

abbrev bare_plans : DataFusion
bare_plans = record {
  Scalar = Unit {0};
  Predicate = Unit {0};
  Schema = Unit {0};
  Operator = Unit {0};
  Target = Unit {0};
  Other = Unit {0};
}

abbrev federated : LogicalPlan bare_plans
federated = extension tt (plan (table_scan "pg.a" true) (plan (table_scan "pg.b" true) no_plans))

pg_a_there : HasTable bare_plans federated "pg.a"
unfolding HasTable
pg_a_there = inl refl

pg_a_keeps : Listable "pg.a"
unfolding NoComma trim trim_start trim_end is_whitespace is_blank
pg_a_keeps = ((refl, (refl, (refl, (refl, tt)))), refl)

pg_b_keeps : Listable "pg.b"
unfolding NoComma trim trim_start trim_end is_whitespace is_blank
pg_b_keeps = ((refl, (refl, (refl, (refl, tt)))), refl)

names_keep : (n : String) → HasTable bare_plans federated n → Listable n
unfolding HasTable
names_keep n (inl a) = subst Listable a pg_a_keeps
names_keep n (inr (inl b)) = subst Listable b pg_b_keeps
names_keep n (inr (inr e)) = elim e [ ]

comma_list_contains-describe_subtree_example :
    (comma_list_contains (describe_subtree bare_plans (λ p. "") federated) "pg.b" ≡ true)
    ↔ HasTable bare_plans federated "pg.b"
comma_list_contains-describe_subtree_example =
    comma_list_contains-describe_subtree bare_plans (λ p. "") federated "pg.a" "pg.b" pg_a_there
      names_keep
