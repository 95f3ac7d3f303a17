-- ===== src/SchemaCache/Sources.antt =====
-- The lookup of a registration and the capped list of tables of qsql-daemon/src/lib.rs.
use quiver_sql.Base.{
  ℕ, ◌+◌, String, Bool, true, false, Option, none, some, List, [], ◌∷◌, length, length-take, max,
  ◌++◌, take-take, take, take_all, All, ltb, lt→ltb, ltb→lt, ltb-false→le, str_eq, eq_iff,
  if◌then◌else◌, ok, arith, ◌≡◌, refl, sym, ap, ◌∙◌, Bool-cases, inl, inr, ◌↔◌, ◌⊎◌,
}
use quiver_sql.Sessions.Maps.{get}
use quiver_sql.SchemaCache.Names.{eq_ignore_ascii_case, eq_ignore_ascii_case_refl}
use quiver_sql.SchemaCache.{
  find_ignoring_case, exact_or, find_database_registration, Listing, listed, table_list_limit,
  truncate_tables, answer_listing, list_tables_with_truncation,
}

cut-take :
    (cap : ℕ) (tables : List String)
    → ltb cap (length (take (cap + 1) tables)) ≡ ltb cap (length tables)
cut-take cap tables =
    let n = length-take (cap + 1) tables in
    elim (Bool-cases (ltb cap (length tables))) [
      | inl h ↦ lt→ltb _ _ (omega (arith, ltb→lt _ _ h)) ∙ sym h
      | inr h ↦ ground (arith, n)
    ]

short :
    (cap : ℕ) (tables : List String)
    → (if ltb cap (length tables) then take cap tables else tables) ≡ take cap tables
short cap tables = elim (Bool-cases (ltb cap (length tables))) [
  | inl h ↦ rw h refl
  | inr h ↦ rw h (sym (take_all cap tables (ltb-false→le _ _ h)))
]

cap_tables : ℕ → List String → List String × Bool
cap_tables cap tables =
    ((if ltb cap (length tables) then take cap tables else tables), ltb cap (length tables))

cap_tables-take :
    (cap : ℕ) (tables : List String)
    → cap_tables cap (take (cap + 1) tables) ≡ (take cap tables, ltb cap (length tables))
unfolding cap_tables
cap_tables-take cap tables =
    ap (λ (l : List String). (l, ltb cap (length (take (cap + 1) tables))))
      (short cap (take (cap + 1) tables) ∙ take-take cap (cap + 1) tables (omega arith))
    ∙ ap (λ (b : Bool). (take cap tables, b)) (cut-take cap tables)

-- From a connector that lists as many of its tables as it is asked for, and at least one, the daemon
-- takes the first 5000, and says that the list is truncated exactly if there are more.
pub list_tables_with_truncation-exact :
    (tables : List String) (list_tables : ℕ → Listing) (timeout_message : String)
    → ((limit : ℕ) → list_tables limit ≡ listed (ok (take (max limit 1) tables)))
    → list_tables_with_truncation list_tables timeout_message
      ≡ ok (take table_list_limit tables, ltb table_list_limit (length tables))
unfolding list_tables_with_truncation answer_listing truncate_tables cap_tables
list_tables_with_truncation-exact tables list_tables timeout_message lists =
    ap (answer_listing timeout_message) (lists (table_list_limit + 1))
    ∙ ap ok (cap_tables-take table_list_limit tables)

module _ {Registration : Type 0} where
  -- No registered alias is the same but for its case.
  abbrev pub Unknown : String → List (String × Registration) → Type 0
  Unknown alias = All (λ (e : String × Registration). eq_ignore_ascii_case e.0 alias ≡ false)

  find_ignoring_case_iff :
      (alias : String) (sources : List (String × Registration))
      → (find_ignoring_case alias sources ≡ none) ↔ Unknown alias sources
  unfolding find_ignoring_case
  find_ignoring_case_iff alias [] = ((λ e. tt), (λ h. refl))
  find_ignoring_case_iff alias ((k, r) ∷ sources) =
      let ih = find_ignoring_case_iff alias sources in
      elim (Bool-cases (eq_ignore_ascii_case k alias)) [
        | inl h ↦ rw h ((λ e. cc), (λ (f, rest). cc))
        | inr h ↦ rw h ((λ e. (refl, ih.0 e)), (λ (f, rest). ih.1 rest))
      ]

  get-Unknown :
      (alias : String) (sources : List (String × Registration))
      → Unknown alias sources
      → get alias sources ≡ none
  unfolding get
  get-Unknown alias [] unknown = refl
  get-Unknown alias ((k, r) ∷ sources) (f, rest) = elim (Bool-cases (str_eq alias k)) [
    | inl h ↦
        let e : eq_ignore_ascii_case k alias ≡ true =
          ap (λ j. eq_ignore_ascii_case j alias) (sym ((eq_iff alias k).0 h))
          ∙ eq_ignore_ascii_case_refl alias in
        cc
    | inr h ↦ rw h (get-Unknown alias sources rest)
  ]

  exact_or-none :
      (alias : String) (exact : Option Registration) (other : Option (String × Registration))
      → exact_or alias exact other ≡ none
      → (exact ≡ none) × (other ≡ none)
  exact_or-none alias none other e = (refl, e)
  exact_or-none alias (some r) other e = cc

  -- The first entry whose alias is the same but for its case.
  abbrev pub IsFirst : String → List (String × Registration) → String → Registration → Type 0
  IsFirst alias sources k r =
      (before : List (String × Registration)) × (after : List (String × Registration)) × (sources
        ≡ before ++ (k, r) ∷ after)
      × Unknown alias before
      × (eq_ignore_ascii_case k alias ≡ true)

  pair-inj :
      {k j : String} {r q : Registration}
      → ◌≡◌ {A = Option (String × Registration)} (some (k, r)) (some (j, q))
      → (k ≡ j) × (r ≡ q)
  pair-inj e = (cc, cc)

  find_ignoring_case-IsFirst :
      (alias : String) (sources : List (String × Registration)) (k : String) (r : Registration)
      → find_ignoring_case alias sources ≡ some (k, r)
      → IsFirst alias sources k r
  unfolding find_ignoring_case
  find_ignoring_case-IsFirst alias [] k r e = cc
  find_ignoring_case-IsFirst alias ((j, q) ∷ sources) k r e =
      elim (Bool-cases (eq_ignore_ascii_case j alias)) [
        | inl h ↦
            let hit = pair-inj (
              sym (ap (λ (b : Bool). if b then some (j, q) else find_ignoring_case alias sources) h)
              ∙ e) in
            (
              [],
              sources,
              rw (hit.0, hit.1) refl,
              tt,
              ap (λ n. eq_ignore_ascii_case n alias) (sym hit.0) ∙ h,
            )
        | inr h ↦
            let (before, after, same, unknown, alike) =
              find_ignoring_case-IsFirst alias sources k r (
                sym
                  (ap (λ (b : Bool). if b then some (j, q) else find_ignoring_case alias sources) h)
                ∙ e) in
            ((j, q) ∷ before, after, ap (λ l. (j, q) ∷ l) same, (h, unknown), alike)
      ]

  exact_or-IsFirst :
      (alias : String) (sources : List (String × Registration)) (exact : Option Registration)
      (k : String) (r : Registration)
      → exact_or alias exact (find_ignoring_case alias sources) ≡ some (k, r)
      → ((k ≡ alias) × (exact ≡ some r)) ⊎ ((exact ≡ none) × IsFirst alias sources k r)
  exact_or-IsFirst alias sources none k r e =
      inr (refl, find_ignoring_case-IsFirst alias sources k r e)
  exact_or-IsFirst alias sources (some q) k r e =
      let same = pair-inj e in inl (sym same.0, ap some same.1)

  -- A registration is found exactly if some registered alias is the same but for its ASCII case. The
  -- registration of the exact alias is found where there is one, under that alias, and otherwise
  -- that of the first alias that is the same but for its case, under the alias that it is
  -- registered with.
  pub find_database_registration_lem :
      (alias : String) (sources : List (String × Registration))
      → ((find_database_registration sources alias ≡ none) ↔ Unknown alias sources)
        × ((r : Registration)
            → get alias sources ≡ some r
            → find_database_registration sources alias ≡ some (alias, r))
        × ((k : String) (r : Registration)
            → find_database_registration sources alias ≡ some (k, r)
            → ((k ≡ alias) × (get alias sources ≡ some r))
              ⊎ ((get alias sources ≡ none) × IsFirst alias sources k r))
  unfolding find_database_registration
  find_database_registration_lem alias sources = (
    (
      (λ e.
          (find_ignoring_case_iff alias sources).0
            (exact_or-none alias (get alias sources) (find_ignoring_case alias sources) e).1),
      (λ unknown.
          rw (get-Unknown alias sources unknown)
            ((find_ignoring_case_iff alias sources).1 unknown)),
    ),
    (λ r e. rw e refl),
    (λ k r e. exact_or-IsFirst alias sources (get alias sources) k r e),
  )
