-- ===== src/TableRefs/Hiding.antt =====
-- Nothing that a common table expression hides is collected.
use quiver_sql.Base.{
  String, Option, none, some, true, false, ◌≡◌, refl, List, [], ◌∷◌, ◌++◌, eq_iff, arith, All,
  All-append, if_elim, Result, ok, append-nil,
}
use quiver_sql.TableRefs.{
  DatabaseTableReference, extract_database_table_refs, contains, identifiers, insert_ctes, Query,
  query, Ctes, no_ctes, cte, SetExpr, select, subquery_body, set_operation, table, other_body,
  Tables, no_tables, with_joins, Factors, no_factors, factor, TableFactor, named, derived,
  nested_join, other_factor, SelectItems, no_items, unnamed_expr, expr_with_alias, other_item,
  OptExpr, absent, present, Exprs, no_exprs, expr, Conditions, no_conditions, condition, Expr,
  in_subquery, exists, subquery, binary_op, is_distinct_from, is_not_distinct_from, unary_op,
  nested, is_false, is_not_false, is_true, is_not_true, is_null, is_not_null, is_unknown,
  is_not_unknown, in_list, between, like, ilike, similar_to, rlike, case_of, tuple, other_expr,
  Statement, query_statement,
}
use quiver_sql.TableRefs.Spec.{
  visible, visible_parts, visible_table, in_query, in_ctes, in_body, in_tables, in_factors,
  in_factor, in_items, in_opt, in_exprs, in_conditions, in_expr, in_statements,
}
use quiver_sql.TableRefs.Laws.{refers, mentions, extract_database_table_refs_lem}

-- The qualifier is no name in scope.
abbrev pub IsVisible : List String → String × String → Type 0
IsVisible ctes k = contains ctes k.0 ≡ false

visible-IsVisible : (s t : String) (ctes : List String) → All (IsVisible ctes) (visible ctes s t)
visible-IsVisible s t ctes =
    if_elim (All (IsVisible ctes)) (contains ctes s) (λ h. tt) (λ h. (h, tt))

visible_parts-IsVisible :
    (parts ctes : List String) → All (IsVisible ctes) (visible_parts parts ctes)
visible_parts-IsVisible [] ctes = tt
visible_parts-IsVisible (s ∷ []) ctes = tt
visible_parts-IsVisible (s ∷ t ∷ []) ctes = visible-IsVisible s t ctes
visible_parts-IsVisible (s ∷ t ∷ u ∷ parts) ctes = tt

visible_table-IsVisible :
    (s t : Option String) (ctes : List String) → All (IsVisible ctes) (visible_table s t ctes)
visible_table-IsVisible none t ctes = tt
visible_table-IsVisible (some s) none ctes = tt
visible_table-IsVisible (some s) (some t) ctes = visible-IsVisible s t ctes

-- A `WITH` list only adds names.
contains-insert_ctes :
    (w : Ctes) (ctes : List String) (n : String)
    → contains (insert_ctes w ctes) n ≡ false
    → contains ctes n ≡ false
unfolding insert_ctes
contains-insert_ctes no_ctes ctes n h = h
contains-insert_ctes (cte alias q rest) ctes n h =
    ground (arith, contains-insert_ctes rest (alias ∷ ctes) n h)

All-outer :
    (w : Ctes) (ctes : List String) (ks : List (String × String))
    → All (IsVisible (insert_ctes w ctes)) ks
    → All (IsVisible ctes) ks
All-outer w ctes [] h = tt
All-outer w ctes (k ∷ ks) h = (contains-insert_ctes w ctes k.0 h.0, All-outer w ctes ks h.1)

mutual
  unfolding in_query insert_ctes

  in_query-IsVisible : (q : Query) (ctes : List String) → All (IsVisible ctes) (in_query q ctes)
  in_query-IsVisible (query w body order_by) ctes =
      let inner = insert_ctes w ctes in
      All-outer w ctes (in_ctes w inner ++ in_body body inner) (
        All-append (IsVisible inner) (in_ctes w inner) (in_body body inner)
          (in_ctes-IsVisible w inner) (in_body-IsVisible body inner))

  in_ctes-IsVisible : (w : Ctes) (ctes : List String) → All (IsVisible ctes) (in_ctes w ctes)
  in_ctes-IsVisible no_ctes ctes = tt
  in_ctes-IsVisible (cte alias q rest) ctes =
      All-append (IsVisible ctes) (in_query q ctes) (in_ctes rest ctes) (in_query-IsVisible q ctes)
        (in_ctes-IsVisible rest ctes)

  in_body-IsVisible : (b : SetExpr) (ctes : List String) → All (IsVisible ctes) (in_body b ctes)
  in_body-IsVisible (select from projection selection group_by having) ctes =
      All-append (IsVisible ctes) (in_tables from ctes)
        (in_items projection ctes ++ (in_opt selection ctes ++ in_opt having ctes))
        (in_tables-IsVisible from ctes)
        (All-append (IsVisible ctes) (in_items projection ctes)
          (in_opt selection ctes ++ in_opt having ctes) (in_items-IsVisible projection ctes)
          (All-append (IsVisible ctes) (in_opt selection ctes) (in_opt having ctes)
            (in_opt-IsVisible selection ctes) (in_opt-IsVisible having ctes)))
  in_body-IsVisible (subquery_body q) ctes = in_query-IsVisible q ctes
  in_body-IsVisible (set_operation left right) ctes =
      All-append (IsVisible ctes) (in_body left ctes) (in_body right ctes)
        (in_body-IsVisible left ctes) (in_body-IsVisible right ctes)
  in_body-IsVisible (table s t) ctes = visible_table-IsVisible s t ctes
  in_body-IsVisible (other_body es) ctes = tt

  in_tables-IsVisible :
      (ts : Tables) (ctes : List String) → All (IsVisible ctes) (in_tables ts ctes)
  in_tables-IsVisible no_tables ctes = tt
  in_tables-IsVisible (with_joins relation joins rest) ctes =
      All-append (IsVisible ctes) (in_factor relation ctes)
        (in_factors joins ctes ++ in_tables rest ctes) (in_factor-IsVisible relation ctes)
        (All-append (IsVisible ctes) (in_factors joins ctes) (in_tables rest ctes)
          (in_factors-IsVisible joins ctes) (in_tables-IsVisible rest ctes))

  in_factors-IsVisible :
      (fs : Factors) (ctes : List String) → All (IsVisible ctes) (in_factors fs ctes)
  in_factors-IsVisible no_factors ctes = tt
  in_factors-IsVisible (factor f on rest) ctes =
      All-append (IsVisible ctes) (in_factor f ctes) (in_factors rest ctes)
        (in_factor-IsVisible f ctes) (in_factors-IsVisible rest ctes)

  in_factor-IsVisible :
      (f : TableFactor) (ctes : List String) → All (IsVisible ctes) (in_factor f ctes)
  in_factor-IsVisible (named name) ctes = visible_parts-IsVisible (identifiers name) ctes
  in_factor-IsVisible (derived q) ctes = in_query-IsVisible q ctes
  in_factor-IsVisible (nested_join relation joins) ctes =
      All-append (IsVisible ctes) (in_factor relation ctes) (in_factors joins ctes)
        (in_factor-IsVisible relation ctes) (in_factors-IsVisible joins ctes)
  in_factor-IsVisible (other_factor es) ctes = tt

  in_items-IsVisible :
      (is : SelectItems) (ctes : List String) → All (IsVisible ctes) (in_items is ctes)
  in_items-IsVisible no_items ctes = tt
  in_items-IsVisible (unnamed_expr e rest) ctes =
      All-append (IsVisible ctes) (in_expr e ctes) (in_items rest ctes) (in_expr-IsVisible e ctes)
        (in_items-IsVisible rest ctes)
  in_items-IsVisible (expr_with_alias e rest) ctes =
      All-append (IsVisible ctes) (in_expr e ctes) (in_items rest ctes) (in_expr-IsVisible e ctes)
        (in_items-IsVisible rest ctes)
  in_items-IsVisible (other_item rest) ctes = in_items-IsVisible rest ctes

  in_opt-IsVisible : (o : OptExpr) (ctes : List String) → All (IsVisible ctes) (in_opt o ctes)
  in_opt-IsVisible absent ctes = tt
  in_opt-IsVisible (present e) ctes = in_expr-IsVisible e ctes

  in_exprs-IsVisible : (es : Exprs) (ctes : List String) → All (IsVisible ctes) (in_exprs es ctes)
  in_exprs-IsVisible no_exprs ctes = tt
  in_exprs-IsVisible (expr e rest) ctes =
      All-append (IsVisible ctes) (in_expr e ctes) (in_exprs rest ctes) (in_expr-IsVisible e ctes)
        (in_exprs-IsVisible rest ctes)

  in_conditions-IsVisible :
      (cs : Conditions) (ctes : List String) → All (IsVisible ctes) (in_conditions cs ctes)
  in_conditions-IsVisible no_conditions ctes = tt
  in_conditions-IsVisible (condition test result rest) ctes =
      All-append (IsVisible ctes) (in_expr test ctes)
        (in_expr result ctes ++ in_conditions rest ctes) (in_expr-IsVisible test ctes)
        (All-append (IsVisible ctes) (in_expr result ctes) (in_conditions rest ctes)
          (in_expr-IsVisible result ctes) (in_conditions-IsVisible rest ctes))

  in_expr-IsVisible : (e : Expr) (ctes : List String) → All (IsVisible ctes) (in_expr e ctes)
  in_expr-IsVisible (in_subquery e q) ctes =
      All-append (IsVisible ctes) (in_expr e ctes) (in_query q ctes) (in_expr-IsVisible e ctes)
        (in_query-IsVisible q ctes)
  in_expr-IsVisible (exists q) ctes = in_query-IsVisible q ctes
  in_expr-IsVisible (subquery q) ctes = in_query-IsVisible q ctes
  in_expr-IsVisible (binary_op l r) ctes =
      All-append (IsVisible ctes) (in_expr l ctes) (in_expr r ctes) (in_expr-IsVisible l ctes)
        (in_expr-IsVisible r ctes)
  in_expr-IsVisible (is_distinct_from l r) ctes =
      All-append (IsVisible ctes) (in_expr l ctes) (in_expr r ctes) (in_expr-IsVisible l ctes)
        (in_expr-IsVisible r ctes)
  in_expr-IsVisible (is_not_distinct_from l r) ctes =
      All-append (IsVisible ctes) (in_expr l ctes) (in_expr r ctes) (in_expr-IsVisible l ctes)
        (in_expr-IsVisible r ctes)
  in_expr-IsVisible (unary_op e) ctes = in_expr-IsVisible e ctes
  in_expr-IsVisible (nested e) ctes = in_expr-IsVisible e ctes
  in_expr-IsVisible (is_false e) ctes = in_expr-IsVisible e ctes
  in_expr-IsVisible (is_not_false e) ctes = in_expr-IsVisible e ctes
  in_expr-IsVisible (is_true e) ctes = in_expr-IsVisible e ctes
  in_expr-IsVisible (is_not_true e) ctes = in_expr-IsVisible e ctes
  in_expr-IsVisible (is_null e) ctes = in_expr-IsVisible e ctes
  in_expr-IsVisible (is_not_null e) ctes = in_expr-IsVisible e ctes
  in_expr-IsVisible (is_unknown e) ctes = in_expr-IsVisible e ctes
  in_expr-IsVisible (is_not_unknown e) ctes = in_expr-IsVisible e ctes
  in_expr-IsVisible (in_list e list) ctes =
      All-append (IsVisible ctes) (in_expr e ctes) (in_exprs list ctes) (in_expr-IsVisible e ctes)
        (in_exprs-IsVisible list ctes)
  in_expr-IsVisible (between e low high) ctes =
      All-append (IsVisible ctes) (in_expr e ctes) (in_expr low ctes ++ in_expr high ctes)
        (in_expr-IsVisible e ctes)
        (All-append (IsVisible ctes) (in_expr low ctes) (in_expr high ctes)
          (in_expr-IsVisible low ctes) (in_expr-IsVisible high ctes))
  in_expr-IsVisible (like e pat) ctes =
      All-append (IsVisible ctes) (in_expr e ctes) (in_expr pat ctes) (in_expr-IsVisible e ctes)
        (in_expr-IsVisible pat ctes)
  in_expr-IsVisible (ilike e pat) ctes =
      All-append (IsVisible ctes) (in_expr e ctes) (in_expr pat ctes) (in_expr-IsVisible e ctes)
        (in_expr-IsVisible pat ctes)
  in_expr-IsVisible (similar_to e pat) ctes =
      All-append (IsVisible ctes) (in_expr e ctes) (in_expr pat ctes) (in_expr-IsVisible e ctes)
        (in_expr-IsVisible pat ctes)
  in_expr-IsVisible (rlike e pat) ctes =
      All-append (IsVisible ctes) (in_expr e ctes) (in_expr pat ctes) (in_expr-IsVisible e ctes)
        (in_expr-IsVisible pat ctes)
  in_expr-IsVisible (case_of operand cs last) ctes =
      All-append (IsVisible ctes) (in_opt operand ctes) (in_conditions cs ctes ++ in_opt last ctes)
        (in_opt-IsVisible operand ctes)
        (All-append (IsVisible ctes) (in_conditions cs ctes) (in_opt last ctes)
          (in_conditions-IsVisible cs ctes) (in_opt-IsVisible last ctes))
  in_expr-IsVisible (tuple es) ctes = in_exprs-IsVisible es ctes
  in_expr-IsVisible (other_expr es) ctes = tt

-- Two equal keys have one qualifier.
not_mentioned :
    (names : List String) (ks : List (String × String)) (k : String × String)
    → All (IsVisible names) ks
    → contains names k.0 ≡ true
    → mentions ks k ≡ false
not_mentioned names [] k h e = refl
not_mentioned names ((s, t) ∷ ks) (u, v) (h, hs) e =
    ground (arith, not_mentioned names ks (u, v) hs e, eq_iff s u)

-- In a query with a `WITH` list, no table is collected that is qualified by the name of one of the
-- list's expressions, whatever the query says of it.
pub extract-hides :
    (parse_sql : String → Result String (List Statement)) (sql : String) (w : Ctes) (body : SetExpr)
    (order_by : Exprs) (k : String × String)
    → parse_sql sql ≡ ok (query_statement (query w body order_by) ∷ [])
    → contains (insert_ctes w []) k.0 ≡ true
    → (refs : List DatabaseTableReference) × (extract_database_table_refs parse_sql sql ≡ ok refs)
      × (refers refs k ≡ false)
unfolding in_statements in_query
extract-hides parse_sql sql w body order_by k parsed hidden =
    let (refs, done, exact, distinct) = extract_database_table_refs_lem parse_sql sql _ parsed in
    let inner = insert_ctes w [] in
    let ks = in_ctes w inner ++ in_body body inner in
    let seen : All (IsVisible inner) ks =
      All-append (IsVisible inner) (in_ctes w inner) (in_body body inner)
        (in_ctes-IsVisible w inner) (in_body-IsVisible body inner) in
    (refs, done, rw (exact k, append-nil) (not_mentioned inner ks k seen hidden))
