-- ===== src/Broadcast/Sides.antt =====
-- Why the replacement of one join in qsql-core/src/broadcast.rs keeps its rows.
use mathlib.Core.Path.{subst}
use quiver_sql.Base.{
  ℕ, ◌<◌, Bool, true, false, ◌&&◌, ◌||◌, Option, some, List, [], ◌∷◌, any, All, length, Bool-cases,
  inl, inr, ◌≡◌, refl, sym, ap, ◌∙◌,
}
use quiver_sql.Broadcast.{
  DataFusion, Expr, column, cast, alias, other, JoinOn, inner, null_equals_nothing, LogicalPlan,
  join, column_of, Column,
}
use quiver_sql.Broadcast.Keys.{Planner, collected}
use quiver_sql.Broadcast.Joins.{Sides}
use quiver_sql.Broadcast.Views.{Splits, replaced}
use quiver_sql.Broadcast.Meaning.{
  Meanings, Among, filter_rows, key_value, keys_match, joins_with, passes_filter, inner_rows,
  join_rows, is_in, eval, all_keys,
}
use quiver_sql.Broadcast.Filters.{inner_rows-filter_right, inner_rows-filter_left, inner_rows-none}
use quiver_sql.Broadcast.Values.{DebugInjective}

not_true : (b : Bool) → (b ≡ true → ⊥) → b ≡ false
not_true true h = absurd (h refl)
not_true false h = refl

module _ (d : DataFusion) (planner : Planner d) (m : Meanings d) where
  open d use {Scalar}
  open planner use {key_query, is_null}
  open m use {Row, value, sql_eq}

  -- What DataFusion does with what the rewrite asks of it: a query for distinct keys that stays below
  -- its limit finds the key of every row, `Debug` shows all of a scalar, a null equals nothing, and
  -- equality is symmetric.
  pub record Faithful : Type 0 where
    pub keys_complete :
        (p : LogicalPlan d) (c : Column) (fetch : ℕ) (bs : List _)
        → key_query p c fetch ≡ collected bs
        → length (all_keys bs) < fetch
        → (row : Row) → Among row (eval d m p)
        → Among (value c row) (all_keys bs)
    pub debug_injective : DebugInjective d planner
    pub null_equals_nothing_lem : (s t : Scalar) → is_null s ≡ true → sql_eq s t ≡ false
    pub sql_eq_comm : (s t : Scalar) → sql_eq s t ≡ sql_eq t s

  -- A key without a cast.
  abbrev pub PlainKey : Expr d → Type 0
  PlainKey (column c) = Unit
  PlainKey (cast e t) = ⊥
  PlainKey (alias e n) = PlainKey e
  PlainKey (other o) = Unit

  -- An inner join by SQL's equality, with keys that have no cast.
  abbrev pub PlainJoin : JoinOn d → Type 0
  PlainJoin j =
      (j.join_type ≡ inner → j.null_equality ≡ null_equals_nothing)
      × All (λ k. PlainKey k.0 × PlainKey k.1) j.on

  key_value-column :
      (e : Expr d) (c : Column)
      → PlainKey e
      → column_of d e ≡ some c
      → (row : Row) → key_value d m e row ≡ value c row
  unfolding column_of key_value
  key_value-column (column c') c h e row = ap (λ k. value k row) (some-inj e)
    where
      some-inj : ◌≡◌ {A = Option Column} (some c') (some c) → c' ≡ c
      some-inj q = cc
  key_value-column (cast e t) c h q row = absurd h
  key_value-column (alias e n) c h q row = key_value-column e c h q row
  key_value-column (other o) c h q row = cc

  any-Among :
      (v : Scalar) (vs : List Scalar) (test : Scalar → Bool)
      → Among v vs
      → test v ≡ true
      → any test vs ≡ true
  any-Among v [] test h e = absurd h
  any-Among v (w ∷ vs) test (inl same) e =
      let here : test w ≡ true = ap test (sym same) ∙ e in rw here refl
  any-Among v (w ∷ vs) test (inr later) e =
      rw (any-Among v vs test later e) (or_true_right (test w))
    where
      or_true_right : (b : Bool) → b || true ≡ true
      or_true_right true = refl
      or_true_right false = refl

  and_left : (a b c : Bool) → (a && b) && c ≡ true → a ≡ true
  and_left true b c e = refl
  and_left false b c e = e

  joins_with-key :
      (j : JoinOn d) (lk rk : Expr d) (l r : Row)
      → j.on ≡ (lk, rk) ∷ []
      → joins_with d m j l r ≡ true
      → sql_eq (key_value d m lk l) (key_value d m rk r) ≡ true
  unfolding joins_with keys_match
  joins_with-key j lk rk l r on e =
      and_left (sql_eq (key_value d m lk l) (key_value d m rk r)) true
        (passes_filter d m j.filter (m.merge l r))
        (subst (λ o. keys_match d m o l r && passes_filter d m j.filter (m.merge l r) ≡ true) on e)

  -- The values cover the keys of the local side, the nulls apart.
  abbrev pub CoversKeys : Sides d planner → List Scalar → Type 0
  CoversKeys s vs =
      (row : Row)
      → Among row (eval d m s.local_input)
      → is_null (value s.local_col row) ≡ false
      → Among (value s.local_col row) vs

  module _ (faithful : Faithful) where
    open faithful use {null_equals_nothing_lem, sql_eq_comm}

    -- A remote row that equals a local row in the key passes the filter.
    matched-is_in :
        (s : Sides d planner) (vs : List Scalar)
        → CoversKeys s vs
        → (local remote : Row) → Among local (eval d m s.local_input)
        → sql_eq (value s.local_col local) (value s.remote_col remote) ≡ true
        → is_in d m s.remote_col vs remote ≡ true
    matched-is_in s vs covers local remote among e =
        let v = value s.local_col local in
        let w = value s.remote_col remote in
        elim (Bool-cases (is_null v)) [
          | inl null ↦ let differs = null_equals_nothing_lem v w null in cc
          | inr visible ↦
              any-Among v vs (sql_eq w) (covers local among visible) (sql_eq_comm w v ∙ e)
        ]

    join_rows-inner :
        (j : JoinOn d) (ls rs : List Row)
        → PlainJoin j
        → j.join_type ≡ inner
        → join_rows d m j.join_type j.null_equality j ls rs
          ≡ inner_rows d m (joins_with d m j) ls rs
    join_rows-inner j ls rs plain e = rw (plain.0 e, e) refl

    plain_keys :
        (j : JoinOn d) (lk rk : Expr d)
        → PlainJoin j
        → j.on ≡ (lk, rk) ∷ []
        → PlainKey lk × PlainKey rk
    plain_keys j lk rk plain on = (subst (All (λ k. PlainKey k.0 × PlainKey k.1)) on plain.1).0

    module _ (j : JoinOn d) (l r : LogicalPlan d) (s : Sides d planner) (vs : List Scalar)
        (plain : PlainJoin j) (covers : CoversKeys s vs) where
      -- The local side is the left one.
      left_is_in :
          (lk rk : Expr d)
          → j.on ≡ (lk, rk) ∷ []
          → s.local_input ≡ l
          → column_of d lk ≡ some s.local_col
          → column_of d rk ≡ some s.remote_col
          → (a b : Row) → Among a (eval d m l)
          → joins_with d m j a b ≡ true
          → is_in d m s.remote_col vs b ≡ true
      left_is_in lk rk on local el er a b among t =
          let (pl, pr) = plain_keys j lk rk plain on in
          let e = joins_with-key j lk rk a b on t in
          let ka = key_value-column lk s.local_col pl el a in
          let kb = key_value-column rk s.remote_col pr er b in
          let same : sql_eq (value s.local_col a) (value s.remote_col b) ≡ true = cc in
          matched-is_in s vs covers a b (subst (λ p. Among a (eval d m p)) (sym local) among) same

      right_is_in :
          (lk rk : Expr d)
          → j.on ≡ (lk, rk) ∷ []
          → s.local_input ≡ r
          → column_of d rk ≡ some s.local_col
          → column_of d lk ≡ some s.remote_col
          → (a b : Row) → Among b (eval d m r)
          → joins_with d m j a b ≡ true
          → is_in d m s.remote_col vs a ≡ true
      right_is_in lk rk on local er el a b among t =
          let (pl, pr) = plain_keys j lk rk plain on in
          let e = joins_with-key j lk rk a b on t in
          let ka = key_value-column lk s.remote_col pl el a in
          let kb = key_value-column rk s.local_col pr er b in
          let swap = sql_eq_comm (value s.local_col b) (value s.remote_col a) in
          let same : sql_eq (value s.local_col b) (value s.remote_col a) ≡ true = cc in
          matched-is_in s vs covers b a (subst (λ p. Among b (eval d m p)) (sym local) among) same

    -- Where the values cover the keys of the local side, the replacement has the rows of the join.
    pub eval-replaced :
        (j : JoinOn d) (l r : LogicalPlan d) (s : Sides d planner) (vs : List Scalar)
        → PlainJoin j
        → Splits d planner j l r s
        → CoversKeys s vs
        → eval d m (replaced d planner j l r s vs) ≡ eval d m (join j l r)
    unfolding eval
    eval-replaced j l r s [] plain (is_inner, lk, rk, on, inl (flag, local, remote, el, er))
          covers =
        sym (
          join_rows-inner j (eval d m l) (eval d m r) plain is_inner
          ∙ inner_rows-none d m (joins_with d m j) (eval d m l) (eval d m r) (λ a b in_l in_r.
            not_true _ (λ t.
              let e = left_is_in j l r s [] plain covers lk rk on local el er a b in_l t in cc)))
    eval-replaced j l r s [] plain (is_inner, lk, rk, on, inr (flag, local, remote, er, el))
          covers =
        sym (
          join_rows-inner j (eval d m l) (eval d m r) plain is_inner
          ∙ inner_rows-none d m (joins_with d m j) (eval d m l) (eval d m r) (λ a b in_l in_r.
            not_true _ (λ t.
              let e = right_is_in j l r s [] plain covers lk rk on local er el a b in_r t in cc)))
    eval-replaced j l r s (v ∷ vs) plain (is_inner, lk, rk, on, inl (flag, local, remote, el, er))
          covers =
        rw (flag, remote)
          (join_rows-inner j (eval d m l)
              (filter_rows (is_in d m s.remote_col (v ∷ vs)) (eval d m r)) plain is_inner
            ∙ inner_rows-filter_right d m (joins_with d m j) (is_in d m s.remote_col (v ∷ vs))
                (eval d m l) (eval d m r)
                (λ a b in_l t.
                  left_is_in j l r s (v ∷ vs) plain covers lk rk on local el er a b in_l t)
            ∙ sym (join_rows-inner j (eval d m l) (eval d m r) plain is_inner))
    eval-replaced j l r s (v ∷ vs) plain (is_inner, lk, rk, on, inr (flag, local, remote, er, el))
          covers =
        rw (flag, remote)
          (join_rows-inner j (filter_rows (is_in d m s.remote_col (v ∷ vs)) (eval d m l))
              (eval d m r) plain is_inner
            ∙ inner_rows-filter_left d m (joins_with d m j) (is_in d m s.remote_col (v ∷ vs))
                (eval d m l) (eval d m r)
                (λ a b in_r dropped. not_true _ (λ t.
                  let e =
                    right_is_in j l r s (v ∷ vs) plain covers lk rk on local er el a b in_r t in
                  cc))
            ∙ sym (join_rows-inner j (eval d m l) (eval d m r) plain is_inner))
