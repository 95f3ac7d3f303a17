-- ===== src/Broadcast/Views.antt =====
-- What `try_rewrite_join` of qsql-core/src/broadcast.rs can end with, as a view that the theorems
-- share: an error, a skipped join, or an applied rewrite with all that led to it.
use quiver_sql.Base.{
  ap, ℕ, Bool, true, false, Option, none, some, List, [], ◌∷◌, ◌++◌, length, Result, ok, err, ◌>>=◌,
  ◌==◌, ==_iff, if_elim, inl, inr, ◌⊎◌, ◌≡◌, refl, ap, String,
}
use quiver_sql.Broadcast.{
  BroadcastRewriteConfig, BroadcastApplication, BroadcastRewriteInfo, SkipReason,
  is_supported_key_type, JoinType, inner, left, right, full, left_semi, right_semi, left_anti,
  right_anti, left_mark, right_mark, Column, DataFusion, Expr, JoinOn, LogicalPlan, empty_relation,
  filter_in, column_of, KeyType,
}
use quiver_sql.Broadcast.Keys.{
  KeyBatch, Materialization, values, was_cancelled, exceeded_rows, exceeded_bytes, error, Planner,
  materialize_distinct_keys, collect_distinct_scalars,
}
use quiver_sql.Broadcast.Joins.{
  is_inner, considered_one, Outcome, applied_with, Sides, checked, application, new_join,
  with_values, collected_values, with_key_type, with_materialization, with_kinds, with_columns,
  with_keys, try_rewrite_join,
}

module _ (d : DataFusion) (planner : Planner d) where
  open d use {Scalar}
  open planner use {key_type, accepts}

  -- The plan that the values lead to.
  abbrev pub replaced :
      JoinOn d → (l r : LogicalPlan d) → Sides d planner → List Scalar → LogicalPlan d
  replaced j l r s [] = empty_relation j.schema
  replaced j l r s (v ∷ vs) =
      new_join d planner j l r s (filter_in s.remote_col (v ∷ vs) s.remote_input)

  -- Why a join is replaced: no row on the local side, or its distinct values.
  abbrev pub Replaces :
      JoinOn d
      → (l r : LogicalPlan d) → Sides d planner
      → List (KeyBatch Scalar)
      → (rows bytes : ℕ) → BroadcastApplication
      → LogicalPlan d
      → Type 0
  Replaces j l r s batches rows bytes app p =
      ((rows ≡ 0) × (p ≡ empty_relation j.schema) × (app ≡ application d planner s 0 0 0))
      ⊎ ((ty : KeyType) × (vs : List Scalar) × (collect_distinct_scalars d planner batches ty
            ≡ ok vs)
          × (p ≡ replaced j l r s vs)
          × (app ≡ application d planner s rows bytes (length vs)))

  -- The sides of the join: exactly one is local, and both keys lead to columns.
  abbrev pub Splits : JoinOn d → (l r : LogicalPlan d) → Sides d planner → Type 0
  Splits j l r s =
      (j.join_type ≡ inner)
      × (left_key : Expr d) × (right_key : Expr d) × (j.on ≡ (left_key, right_key) ∷ [])
      × (((s.local_is_left ≡ true)
            × (s.local_input ≡ l)
            × (s.remote_input ≡ r)
            × (column_of d left_key ≡ some s.local_col)
            × (column_of d right_key ≡ some s.remote_col))
          ⊎ ((s.local_is_left ≡ false)
              × (s.local_input ≡ r)
              × (s.remote_input ≡ l)
              × (column_of d right_key ≡ some s.local_col)
              × (column_of d left_key ≡ some s.remote_col)))

  -- An applied rewrite, with the sides and the materialization that it comes from.
  abbrev pub Applies :
      BroadcastRewriteConfig
      → JoinOn d
      → (l r : LogicalPlan d) → BroadcastApplication
      → LogicalPlan d
      → Type 0
  Applies config j l r app p =
      (s : Sides d planner) × (batches : List (KeyBatch Scalar)) × (rows : ℕ) × (bytes : ℕ) × Splits
        j l r s
      × (materialize_distinct_keys d planner s.local_input s.local_col config
          ≡ values batches rows bytes)
      × Replaces j l r s batches rows bytes app p

  -- DataFusion refuses a plan with this error.
  abbrev pub Refused : String → Type 0
  Refused e = (p : LogicalPlan d) × (accepts p ≡ err e)

  -- The report has one entry more: an application that is as it should be, or a reason.
  abbrev pub Ends :
      (BroadcastApplication → LogicalPlan d → Type 0)
      → BroadcastRewriteInfo
      → Outcome d planner
      → Type 0
  Ends Good info (err e) = Refused e
  Ends Good info (ok (none, info')) =
      (reason : SkipReason) × (info' ≡ record info { skipped = info.skipped ++ reason ∷ [] })
  Ends Good info (ok (some p, info')) =
      (app : BroadcastApplication) × (info' ≡ record info { applied = info.applied ++ app ∷ [] })
      × Good app p

  pub checked-err :
      (m : Result String (Unit {0})) (p : LogicalPlan d) (e : String)
      → err e ≡ (m >>= λ u. ok p)
      → m ≡ err e
  checked-err (ok u) p e same = cc
  checked-err (err x) p e same = cc

  checked-inv :
      (m : Result String (Unit {0})) (p q : LogicalPlan d) → ok q ≡ (m >>= λ u. ok p) → q ≡ p
  checked-inv (ok u) p q e = cc
  checked-inv (err x) p q e = cc

  module _ (config : BroadcastRewriteConfig) (info : BroadcastRewriteInfo) (j : JoinOn d)
      (l r : LogicalPlan d) (plain : j.join_type ≡ inner) where
    abbrev Done : Outcome d planner → Type 0
    Done = Ends (Applies config j l r) info

    module _ (s : Sides d planner) (split : Splits j l r s) (batches : List (KeyBatch Scalar))
        (rows bytes : ℕ)
        (made : materialize_distinct_keys d planner s.local_input s.local_col config
          ≡ values batches rows bytes) where
      filtered-Done :
          (ty : KeyType) (v : Scalar) (vs : List Scalar) (m : Result String (LogicalPlan d))
          → collect_distinct_scalars d planner batches ty ≡ ok (v ∷ vs)
          → m ≡ checked d planner (filter_in s.remote_col (v ∷ vs) s.remote_input)
          → Done (
              m >>= λ filtered.
              applied_with d planner info
                (application d planner s rows bytes (length (v ∷ vs)))
                (new_join d planner j l r s filtered))
      filtered-Done ty v vs (err e) h same =
          let refused = filter_in s.remote_col (v ∷ vs) s.remote_input in
          (refused, checked-err (accepts refused) refused e same)
      filtered-Done ty v vs (ok q) h same =
          let e =
            checked-inv (accepts (filter_in s.remote_col (v ∷ vs) s.remote_input))
              (filter_in s.remote_col (v ∷ vs) s.remote_input) q same in
          (
            application d planner s rows bytes (length (v ∷ vs)),
            refl,
            (
              s,
              batches,
              rows,
              bytes,
              split,
              made,
              inr (ty, v ∷ vs, h, ap (new_join d planner j l r s) e, refl),
            ),
          )

      collected-Done :
          (ty : KeyType) (m : Result String (List Scalar))
          → collect_distinct_scalars d planner batches ty ≡ m
          → Done (collected_values d planner info j l r s rows bytes m)
      unfolding with_values
      collected-Done ty (err e) h = (_, refl)
      collected-Done ty (ok []) h = (
        application d planner s rows bytes 0,
        refl,
        (s, batches, rows, bytes, split, made, inr (ty, [], h, refl, refl)),
      )
      collected-Done ty (ok (v ∷ vs)) h =
          filtered-Done ty v vs (checked d planner (filter_in s.remote_col (v ∷ vs) s.remote_input))
            h refl

      keyed-Done :
          (m : Result String KeyType)
          → Done (with_key_type d planner info j l r s batches rows bytes m)
      unfolding with_key_type
      keyed-Done (err e) = (_, refl)
      keyed-Done (ok ty) =
          if_elim Done (is_supported_key_type ty)
            (λ h. collected-Done ty (collect_distinct_scalars d planner batches ty) refl)
            (λ h. (_, refl))

    materialized-Done :
        (s : Sides d planner)
        → Splits j l r s
        → (m : Materialization Scalar)
        → materialize_distinct_keys d planner s.local_input s.local_col config ≡ m
        → Done (with_materialization d planner info j l r s m)
    unfolding with_materialization
    materialized-Done s split was_cancelled h = (_, refl)
    materialized-Done s split (exceeded_rows rows most) h = (_, refl)
    materialized-Done s split (exceeded_bytes bytes most) h = (_, refl)
    materialized-Done s split (error why) h = (_, refl)
    materialized-Done s split (values batches rows bytes) h =
        if_elim Done (rows == 0)
          (λ e. (
            application d planner s 0 0 0,
            refl,
            (s, batches, rows, bytes, split, h, inl ((==_iff rows 0).0 e, refl, refl)),
          ))
          (λ e. keyed-Done s split batches rows bytes h (key_type s.local_input s.local_col))

    kinds-Done :
        (left_key right_key : Expr d) (left_col right_col : Column)
        → j.on ≡ (left_key, right_key) ∷ []
        → column_of d left_key ≡ some left_col
        → column_of d right_key ≡ some right_col
        → (left_kind right_kind : Bool)
        → Done (with_kinds d planner config info j l r left_col right_col left_kind right_kind)
    unfolding with_kinds
    kinds-Done lk rk lc rc on el er false true =
        materialized-Done _ (plain, lk, rk, on, inl (refl, refl, refl, el, er)) _ refl
    kinds-Done lk rk lc rc on el er true false =
        materialized-Done _ (plain, lk, rk, on, inr (refl, refl, refl, er, el)) _ refl
    kinds-Done lk rk lc rc on el er false false = (_, refl)
    kinds-Done lk rk lc rc on el er true true = (_, refl)

    columns-Done :
        (left_key right_key : Expr d)
        → j.on ≡ (left_key, right_key) ∷ []
        → (lc rc : Option Column) → column_of d left_key ≡ lc
        → column_of d right_key ≡ rc
        → Done (with_columns d planner config info j l r lc rc)
    unfolding with_columns
    columns-Done lk rk on none rc el er = (_, refl)
    columns-Done lk rk on (some lc) none el er = (_, refl)
    columns-Done lk rk on (some lc) (some rc) el er = kinds-Done lk rk lc rc on el er _ _

    keys-Done :
        (on : List (Expr d × Expr d)) → j.on ≡ on → Done (with_keys d planner config info j l r on)
    unfolding with_keys
    keys-Done [] e = (_, refl)
    keys-Done ((lk, rk) ∷ []) e = columns-Done lk rk e _ _ refl refl
    keys-Done ((lk, rk) ∷ second ∷ rest) e = (_, refl)

  is_inner-true : (t : JoinType) → is_inner t ≡ true → t ≡ inner
  is_inner-true inner e = refl
  is_inner-true left e = cc
  is_inner-true right e = cc
  is_inner-true full e = cc
  is_inner-true left_semi e = cc
  is_inner-true right_semi e = cc
  is_inner-true left_anti e = cc
  is_inner-true right_anti e = cc
  is_inner-true left_mark e = cc
  is_inner-true right_mark e = cc

  -- A call of `try_rewrite_join` fails, or skips the join with a reason, or applies a rewrite.
  pub try_rewrite_join-Ends :
      (config : BroadcastRewriteConfig) (j : JoinOn d) (l r : LogicalPlan d)
      (info : BroadcastRewriteInfo)
      → Ends
          (Applies config j l r)
          (considered_one info)
          (try_rewrite_join d planner config j l r info)
  unfolding try_rewrite_join
  try_rewrite_join-Ends config j l r info =
      if_elim (Ends (Applies config j l r) (considered_one info)) (is_inner j.join_type)
        (λ e. keys-Done config (considered_one info) j l r (is_inner-true j.join_type e) j.on refl)
        (λ e. (_, refl))
