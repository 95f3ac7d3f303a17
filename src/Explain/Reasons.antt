-- ===== src/Explain/Reasons.antt =====
-- What the badges of the plan graph of qsql-daemon/src/explain.rs say of the captured statements.
use quiver_sql.Base.{
  String, Bool, true, false, ◌&&◌, Option, none, some, List, [], ◌∷◌, All, ◌≤◌, length,
  if◌then◌else◌, arith, ◌≡◌, refl, ap, ◌↔◌, inl, inr, Bool-cases,
}
use quiver_sql.Sessions.Maps.{get}
use quiver_sql.Explain.{
  qualified_table_name, TableScan, Attributes, LogicalPlan, RemoteSqlInfo, RemoteSqlMap,
}
use quiver_sql.Explain.Texts.{sql_contains_order_by}
use quiver_sql.Explain.Substrings.{Contains, contains_text_iff}
use quiver_sql.Explain.Badges.{
  collect_scans, ordered_remotely, visit_scan, visit_scans, sort_was_pushed_to_every_scan,
}

module _ (to_uppercase : String → String) (remote_sqls : RemoteSqlMap) where
  -- A statement was captured for the table of the scan, and its text in upper case has ORDER BY in it.
  abbrev pub SortsRemotely : TableScan → Type 0
  SortsRemotely s =
      (info : RemoteSqlInfo) × (get (qualified_table_name s.table_name) remote_sqls ≡ some info)
      × Contains (to_uppercase info.sql) "ORDER BY"

  ordered_remotely_iff :
      (o : Option RemoteSqlInfo)
      → (ordered_remotely to_uppercase o ≡ true)
        ↔ ((info : RemoteSqlInfo) × (o ≡ some info) × Contains (to_uppercase info.sql) "ORDER BY")
  unfolding ordered_remotely sql_contains_order_by
  ordered_remotely_iff none = ((λ e. cc), (λ h. cc (h.1)))
  ordered_remotely_iff (some info) = (
    (λ e. (info, refl, (contains_text_iff (to_uppercase info.sql) "ORDER BY").0 e)),
    (λ (info', same, e).
        let other = (contains_text_iff (to_uppercase info'.sql) "ORDER BY").1 e in cc),
  )

  if_same : (c : Bool) → (if c then false else false) ≡ false
  if_same true = refl
  if_same false = refl

  after_failure :
      (ss : List TableScan) → visit_scans to_uppercase remote_sqls ss (true, false) ≡ (true, false)
  unfolding visit_scans visit_scan
  after_failure [] = refl
  after_failure (s ∷ ss) =
      rw
        (if_same
          (ordered_remotely to_uppercase (get (qualified_table_name s.table_name) remote_sqls)))
        (after_failure ss)

  seen_stays :
      (ss : List TableScan) (b : Bool)
      → (visit_scans to_uppercase remote_sqls ss (true, b)).0 ≡ true
  unfolding visit_scans visit_scan
  seen_stays [] b = refl
  seen_stays (s ∷ ss) b = seen_stays ss _

  visit_next :
      (s : TableScan) (ss : List TableScan) (c : Bool)
      → ordered_remotely to_uppercase (get (qualified_table_name s.table_name) remote_sqls) ≡ c
      → visit_scans to_uppercase remote_sqls (s ∷ ss) (true, true)
        ≡ visit_scans to_uppercase remote_sqls ss (true, (if c then true else false))
  unfolding visit_scans visit_scan
  visit_next s ss c e =
      ap (λ (b : Bool). visit_scans to_uppercase remote_sqls ss (true, (if b then true else false)))
        e

  visit_scans_iff :
      (ss : List TableScan)
      → ((visit_scans to_uppercase remote_sqls ss (true, true)).1 ≡ true) ↔ All SortsRemotely ss
  unfolding visit_scans
  visit_scans_iff [] = ((λ e. tt), (λ h. refl))
  visit_scans_iff (s ∷ ss) =
      let captured = get (qualified_table_name s.table_name) remote_sqls in
      let meaning = ordered_remotely_iff captured in
      let rest = visit_scans_iff ss in
      elim (Bool-cases (ordered_remotely to_uppercase captured)) [
        | inl h ↦
            rw (visit_next s ss true h) ((λ e. (meaning.0 h, rest.0 e)), (λ (x, all). rest.1 all))
        | inr h ↦
            rw (visit_next s ss false h, after_failure ss)
              ((λ e. cc), (λ (x, all). cc (meaning.1 x)))
      ]

  visits_iff :
      (ss : List TableScan)
      → ((let seen = visit_scans to_uppercase remote_sqls ss (false, true) in seen.0 && seen.1)
          ≡ true)
        ↔ ((1 ≤ length ss) × All SortsRemotely ss)
  unfolding visit_scans visit_scan
  visits_iff [] = ((λ e. cc), (λ (h, all). absurd (omega arith)))
  visits_iff (s ∷ ss) =
      let iff = visit_scans_iff (s ∷ ss) in
      rw (seen_stays (s ∷ ss) true) ((λ e. (omega arith, iff.0 e)), (λ (h, all). iff.1 all))

  pub sort_was_pushed_iff :
      (p : LogicalPlan)
      → (sort_was_pushed_to_every_scan to_uppercase p remote_sqls ≡ true)
        ↔ ((1 ≤ length (collect_scans p)) × All SortsRemotely (collect_scans p))
  unfolding sort_was_pushed_to_every_scan
  sort_was_pushed_iff p = visits_iff (collect_scans p)
