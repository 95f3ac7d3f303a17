-- ===== src/TableRefs/Walk.antt =====
-- Every `collect_` function adds the references that its part of the query makes, in order.
use quiver_sql.Base.{
  String, Option, none, some, ◌≡◌, refl, ap, ◌∙◌, inl, inr, Bool-cases, List, [], ◌∷◌, ◌++◌, any,
  if◌then◌else◌, if_elim,
}
use quiver_sql.TableRefs.{
  Collected, key_eq, contains, add_schema_table, identifiers, add_parts, add_object_name, add_table,
  insert_ctes, Query, query, Ctes, no_ctes, cte, SetExpr, select, subquery_body, set_operation,
  table, other_body, Tables, no_tables, with_joins, Factors, no_factors, factor, TableFactor, named,
  derived, nested_join, other_factor, SelectItems, no_items, unnamed_expr, expr_with_alias,
  other_item, OptExpr, absent, present, Exprs, no_exprs, expr, Conditions, no_conditions, condition,
  Expr, in_subquery, exists, subquery, binary_op, is_distinct_from, is_not_distinct_from, unary_op,
  nested, is_false, is_not_false, is_true, is_not_true, is_null, is_not_null, is_unknown,
  is_not_unknown, in_list, between, like, ilike, similar_to, rlike, case_of, tuple, other_expr,
  Statement, query_statement, other_statement, collect_query, collect_ctes, collect_set_expr,
  collect_tables, collect_factors, collect_table_factor, collect_select_items, collect_opt_expr,
  collect_exprs, collect_conditions, collect_expr, collect_statement, collect_statements,
}
use quiver_sql.TableRefs.Spec.{
  visible, visible_parts, visible_table, in_query, in_ctes, in_body, in_tables, in_factors,
  in_factor, in_items, in_opt, in_exprs, in_conditions, in_expr, in_statements,
}

-- A reference is added unless it is there.
unfoldable pub add_key : String × String → Collected → Collected
add_key (s, t) c = if any (λ k. key_eq k (s, t)) c.seen then c else record {
  refs = c.refs ++ record { alias = s; table_name = t } ∷ [];
  seen = (s, t) ∷ c.seen;
}

unfoldable pub add_all : List (String × String) → Collected → Collected
add_all [] c = c
add_all (k ∷ ks) c = add_all ks (add_key k c)

add_all-append :
    (xs ys : List (String × String)) (c : Collected)
    → add_all ys (add_all xs c) ≡ add_all (xs ++ ys) c
unfolding add_all
add_all-append [] ys c = refl
add_all-append (x ∷ xs) ys c = add_all-append xs ys (add_key x c)

add_visible :
    (s t : String) (ctes : List String) (c : Collected)
    → add_schema_table s t ctes c ≡ add_all (visible ctes s t) c
unfolding add_schema_table add_all add_key
add_visible s t ctes c = elim (Bool-cases (contains ctes s)) [
  | inl h ↦ rw h refl
  | inr h ↦ rw h refl
]

add_visible_parts :
    (parts ctes : List String) (c : Collected)
    → add_parts parts ctes c ≡ add_all (visible_parts parts ctes) c
unfolding add_all
add_visible_parts [] ctes c = refl
add_visible_parts (s ∷ []) ctes c = refl
add_visible_parts (s ∷ t ∷ []) ctes c =
    if_elim (λ x. x ≡ add_all (visible ctes s t) c) (contains ctes s) (λ h. rw h refl)
      (λ h. add_visible s t ctes c)
add_visible_parts (s ∷ t ∷ u ∷ parts) ctes c = refl

add_visible_table :
    (s t : Option String) (ctes : List String) (c : Collected)
    → add_table s t ctes c ≡ add_all (visible_table s t ctes) c
unfolding add_all
add_visible_table none t ctes c = refl
add_visible_table (some s) none ctes c = refl
add_visible_table (some s) (some t) ctes c = add_visible s t ctes c

-- Two walks one after the other.
walk_both :
    (xs ys : List (String × String)) (f g : Collected → Collected) (c : Collected)
    → f c ≡ add_all xs c
    → ((d : Collected) → g d ≡ add_all ys d)
    → g (f c) ≡ add_all (xs ++ ys) c
walk_both xs ys f g c p q = ap g p ∙ q (add_all xs c) ∙ add_all-append xs ys c

mutual
  unfolding collect_query in_query add_all add_object_name

  pub collect_query-eq :
      (q : Query) (ctes : List String) (c : Collected)
      → collect_query q ctes c ≡ add_all (in_query q ctes) c
  collect_query-eq (query with_list body order_by) ctes c =
      walk_both (in_ctes with_list (insert_ctes with_list ctes))
        (in_body body (insert_ctes with_list ctes))
        (collect_ctes with_list (insert_ctes with_list ctes))
        (collect_set_expr body (insert_ctes with_list ctes)) c
        (collect_ctes-eq with_list (insert_ctes with_list ctes) c)
        (λ d. collect_set_expr-eq body (insert_ctes with_list ctes) d)

  collect_ctes-eq :
      (w : Ctes) (ctes : List String) (c : Collected)
      → collect_ctes w ctes c ≡ add_all (in_ctes w ctes) c
  collect_ctes-eq no_ctes ctes c = refl
  collect_ctes-eq (cte alias q rest) ctes c =
      walk_both (in_query q ctes) (in_ctes rest ctes) (collect_query q ctes)
        (collect_ctes rest ctes) c (collect_query-eq q ctes c) (λ d. collect_ctes-eq rest ctes d)

  collect_set_expr-eq :
      (b : SetExpr) (ctes : List String) (c : Collected)
      → collect_set_expr b ctes c ≡ add_all (in_body b ctes) c
  collect_set_expr-eq (select from projection selection group_by having) ctes c =
      walk_both (in_tables from ctes)
        (in_items projection ctes ++ (in_opt selection ctes ++ in_opt having ctes))
        (collect_tables from ctes)
        (λ d.
          collect_opt_expr having ctes
            (collect_opt_expr selection ctes (collect_select_items projection ctes d)))
        c (collect_tables-eq from ctes c)
        (λ d.
          walk_both (in_items projection ctes) (in_opt selection ctes ++ in_opt having ctes)
            (collect_select_items projection ctes)
            (λ z. collect_opt_expr having ctes (collect_opt_expr selection ctes z)) d
            (collect_select_items-eq projection ctes d)
            (λ z.
              walk_both (in_opt selection ctes) (in_opt having ctes)
                (collect_opt_expr selection ctes) (collect_opt_expr having ctes) z
                (collect_opt_expr-eq selection ctes z) (λ y. collect_opt_expr-eq having ctes y)))
  collect_set_expr-eq (subquery_body q) ctes c = collect_query-eq q ctes c
  collect_set_expr-eq (set_operation left right) ctes c =
      walk_both (in_body left ctes) (in_body right ctes) (collect_set_expr left ctes)
        (collect_set_expr right ctes) c (collect_set_expr-eq left ctes c)
        (λ d. collect_set_expr-eq right ctes d)
  collect_set_expr-eq (table s t) ctes c = add_visible_table s t ctes c
  collect_set_expr-eq (other_body es) ctes c = refl

  collect_tables-eq :
      (ts : Tables) (ctes : List String) (c : Collected)
      → collect_tables ts ctes c ≡ add_all (in_tables ts ctes) c
  collect_tables-eq no_tables ctes c = refl
  collect_tables-eq (with_joins relation joins rest) ctes c =
      walk_both (in_factor relation ctes) (in_factors joins ctes ++ in_tables rest ctes)
        (collect_table_factor relation ctes)
        (λ d. collect_tables rest ctes (collect_factors joins ctes d)) c
        (collect_table_factor-eq relation ctes c)
        (λ d.
          walk_both (in_factors joins ctes) (in_tables rest ctes) (collect_factors joins ctes)
            (collect_tables rest ctes) d (collect_factors-eq joins ctes d)
            (λ z. collect_tables-eq rest ctes z))

  collect_factors-eq :
      (fs : Factors) (ctes : List String) (c : Collected)
      → collect_factors fs ctes c ≡ add_all (in_factors fs ctes) c
  collect_factors-eq no_factors ctes c = refl
  collect_factors-eq (factor f on rest) ctes c =
      walk_both (in_factor f ctes) (in_factors rest ctes) (collect_table_factor f ctes)
        (collect_factors rest ctes) c (collect_table_factor-eq f ctes c)
        (λ d. collect_factors-eq rest ctes d)

  collect_table_factor-eq :
      (f : TableFactor) (ctes : List String) (c : Collected)
      → collect_table_factor f ctes c ≡ add_all (in_factor f ctes) c
  collect_table_factor-eq (named name) ctes c = add_visible_parts (identifiers name) ctes c
  collect_table_factor-eq (derived q) ctes c = collect_query-eq q ctes c
  collect_table_factor-eq (nested_join relation joins) ctes c =
      walk_both (in_factor relation ctes) (in_factors joins ctes)
        (collect_table_factor relation ctes) (collect_factors joins ctes) c
        (collect_table_factor-eq relation ctes c) (λ d. collect_factors-eq joins ctes d)
  collect_table_factor-eq (other_factor es) ctes c = refl

  collect_select_items-eq :
      (is : SelectItems) (ctes : List String) (c : Collected)
      → collect_select_items is ctes c ≡ add_all (in_items is ctes) c
  collect_select_items-eq no_items ctes c = refl
  collect_select_items-eq (unnamed_expr e rest) ctes c =
      walk_both (in_expr e ctes) (in_items rest ctes) (collect_expr e ctes)
        (collect_select_items rest ctes) c (collect_expr-eq e ctes c)
        (λ d. collect_select_items-eq rest ctes d)
  collect_select_items-eq (expr_with_alias e rest) ctes c =
      walk_both (in_expr e ctes) (in_items rest ctes) (collect_expr e ctes)
        (collect_select_items rest ctes) c (collect_expr-eq e ctes c)
        (λ d. collect_select_items-eq rest ctes d)
  collect_select_items-eq (other_item rest) ctes c = collect_select_items-eq rest ctes c

  collect_opt_expr-eq :
      (o : OptExpr) (ctes : List String) (c : Collected)
      → collect_opt_expr o ctes c ≡ add_all (in_opt o ctes) c
  collect_opt_expr-eq absent ctes c = refl
  collect_opt_expr-eq (present e) ctes c = collect_expr-eq e ctes c

  collect_exprs-eq :
      (es : Exprs) (ctes : List String) (c : Collected)
      → collect_exprs es ctes c ≡ add_all (in_exprs es ctes) c
  collect_exprs-eq no_exprs ctes c = refl
  collect_exprs-eq (expr e rest) ctes c =
      walk_both (in_expr e ctes) (in_exprs rest ctes) (collect_expr e ctes)
        (collect_exprs rest ctes) c (collect_expr-eq e ctes c) (λ d. collect_exprs-eq rest ctes d)

  collect_conditions-eq :
      (cs : Conditions) (ctes : List String) (c : Collected)
      → collect_conditions cs ctes c ≡ add_all (in_conditions cs ctes) c
  collect_conditions-eq no_conditions ctes c = refl
  collect_conditions-eq (condition test result rest) ctes c =
      walk_both (in_expr test ctes) (in_expr result ctes ++ in_conditions rest ctes)
        (collect_expr test ctes) (λ d. collect_conditions rest ctes (collect_expr result ctes d)) c
        (collect_expr-eq test ctes c)
        (λ d.
          walk_both (in_expr result ctes) (in_conditions rest ctes) (collect_expr result ctes)
            (collect_conditions rest ctes) d (collect_expr-eq result ctes d)
            (λ z. collect_conditions-eq rest ctes z))

  collect_expr-eq :
      (e : Expr) (ctes : List String) (c : Collected)
      → collect_expr e ctes c ≡ add_all (in_expr e ctes) c
  collect_expr-eq (in_subquery e q) ctes c =
      walk_both (in_expr e ctes) (in_query q ctes) (collect_expr e ctes) (collect_query q ctes) c
        (collect_expr-eq e ctes c) (λ d. collect_query-eq q ctes d)
  collect_expr-eq (exists q) ctes c = collect_query-eq q ctes c
  collect_expr-eq (subquery q) ctes c = collect_query-eq q ctes c
  collect_expr-eq (binary_op l r) ctes c =
      walk_both (in_expr l ctes) (in_expr r ctes) (collect_expr l ctes) (collect_expr r ctes) c
        (collect_expr-eq l ctes c) (λ d. collect_expr-eq r ctes d)
  collect_expr-eq (is_distinct_from l r) ctes c =
      walk_both (in_expr l ctes) (in_expr r ctes) (collect_expr l ctes) (collect_expr r ctes) c
        (collect_expr-eq l ctes c) (λ d. collect_expr-eq r ctes d)
  collect_expr-eq (is_not_distinct_from l r) ctes c =
      walk_both (in_expr l ctes) (in_expr r ctes) (collect_expr l ctes) (collect_expr r ctes) c
        (collect_expr-eq l ctes c) (λ d. collect_expr-eq r ctes d)
  collect_expr-eq (unary_op e) ctes c = collect_expr-eq e ctes c
  collect_expr-eq (nested e) ctes c = collect_expr-eq e ctes c
  collect_expr-eq (is_false e) ctes c = collect_expr-eq e ctes c
  collect_expr-eq (is_not_false e) ctes c = collect_expr-eq e ctes c
  collect_expr-eq (is_true e) ctes c = collect_expr-eq e ctes c
  collect_expr-eq (is_not_true e) ctes c = collect_expr-eq e ctes c
  collect_expr-eq (is_null e) ctes c = collect_expr-eq e ctes c
  collect_expr-eq (is_not_null e) ctes c = collect_expr-eq e ctes c
  collect_expr-eq (is_unknown e) ctes c = collect_expr-eq e ctes c
  collect_expr-eq (is_not_unknown e) ctes c = collect_expr-eq e ctes c
  collect_expr-eq (in_list e list) ctes c =
      walk_both (in_expr e ctes) (in_exprs list ctes) (collect_expr e ctes)
        (collect_exprs list ctes) c (collect_expr-eq e ctes c) (λ d. collect_exprs-eq list ctes d)
  collect_expr-eq (between e low high) ctes c =
      walk_both (in_expr e ctes) (in_expr low ctes ++ in_expr high ctes) (collect_expr e ctes)
        (λ d. collect_expr high ctes (collect_expr low ctes d)) c (collect_expr-eq e ctes c)
        (λ d.
          walk_both (in_expr low ctes) (in_expr high ctes) (collect_expr low ctes)
            (collect_expr high ctes) d (collect_expr-eq low ctes d)
            (λ z. collect_expr-eq high ctes z))
  collect_expr-eq (like e pat) ctes c =
      walk_both (in_expr e ctes) (in_expr pat ctes) (collect_expr e ctes) (collect_expr pat ctes) c
        (collect_expr-eq e ctes c) (λ d. collect_expr-eq pat ctes d)
  collect_expr-eq (ilike e pat) ctes c =
      walk_both (in_expr e ctes) (in_expr pat ctes) (collect_expr e ctes) (collect_expr pat ctes) c
        (collect_expr-eq e ctes c) (λ d. collect_expr-eq pat ctes d)
  collect_expr-eq (similar_to e pat) ctes c =
      walk_both (in_expr e ctes) (in_expr pat ctes) (collect_expr e ctes) (collect_expr pat ctes) c
        (collect_expr-eq e ctes c) (λ d. collect_expr-eq pat ctes d)
  collect_expr-eq (rlike e pat) ctes c =
      walk_both (in_expr e ctes) (in_expr pat ctes) (collect_expr e ctes) (collect_expr pat ctes) c
        (collect_expr-eq e ctes c) (λ d. collect_expr-eq pat ctes d)
  collect_expr-eq (case_of operand cs last) ctes c =
      walk_both (in_opt operand ctes) (in_conditions cs ctes ++ in_opt last ctes)
        (collect_opt_expr operand ctes)
        (λ d. collect_opt_expr last ctes (collect_conditions cs ctes d)) c
        (collect_opt_expr-eq operand ctes c)
        (λ d.
          walk_both (in_conditions cs ctes) (in_opt last ctes) (collect_conditions cs ctes)
            (collect_opt_expr last ctes) d (collect_conditions-eq cs ctes d)
            (λ z. collect_opt_expr-eq last ctes z))
  collect_expr-eq (tuple es) ctes c = collect_exprs-eq es ctes c
  collect_expr-eq (other_expr es) ctes c = refl

-- The references of the statements, in order.
pub collect_statements-eq :
    (sts : List Statement) (c : Collected)
    → collect_statements sts c ≡ add_all (in_statements sts) c
unfolding collect_statements collect_statement in_statements add_all
collect_statements-eq [] c = refl
collect_statements-eq (query_statement q ∷ rest) c =
    walk_both (in_query q []) (in_statements rest) (collect_query q []) (collect_statements rest) c
      (collect_query-eq q [] c) (λ d. collect_statements-eq rest d)
collect_statements-eq (other_statement ∷ rest) c = collect_statements-eq rest c
