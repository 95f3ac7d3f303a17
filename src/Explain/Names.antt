-- ===== src/Explain/Names.antt =====
-- The badges of qsql-daemon/src/explain.rs find the tables that the report of the broadcast rewrite
-- (qsql-core/src/broadcast.rs) names: its lists of names are read back.
mod Tests
use Prim.Native.Char.{Char, code}
use Prim.Native.String.{[], ◌∷◌, ◌++◌}
use Prim.Native.String.append as Append
use quiver_sql.Base.{
  String, Bool, true, false, ◌||◌, List, [] as nil, ◌∷◌ as cons, any, All, ◌==◌, str_eq,
  ◌++◌ as list_append, if◌then◌else◌, eq_iff, arith, ◌≡◌, refl, sym, ap, ◌∙◌, ◌↔◌, ◌⊎◌, inl, inr,
  Bool-cases,
}
use quiver_sql.SqlTypes.Text.{trim}
use quiver_sql.TableRefs.{contains}
use quiver_sql.Broadcast.{
  DataFusion, LogicalPlan, table_scan, empty_relation, join, filter_in, extension, operator,
  LogicalPlans, no_plans, plan, join_names, collect_table_names, collect_all_table_names,
  describe_subtree,
}
use quiver_sql.Explain.Texts.{add_to_first, split_commas, comma_list_contains}

-- A text without a comma.
unfoldable pub NoComma : String → Type 0
NoComma [] = Unit
NoComma (c ∷ s) = ((code c == b',') ≡ false) × NoComma s

-- A name that a list with commas keeps: it has none, and no blanks around it.
abbrev pub Listable : String → Type 0
Listable s = NoComma s × (trim s ≡ s)

split_commas-one : (s : String) → NoComma s → split_commas s ≡ cons s nil
unfolding split_commas NoComma
split_commas-one [] h = refl
split_commas-one (c ∷ s) (h, rest) = rw (h, split_commas-one s rest) refl

split_commas-append :
    (s t : String) → NoComma s → split_commas (s ++ ("," ++ t)) ≡ cons s (split_commas t)
unfolding split_commas NoComma
split_commas-append [] t h =
    let comma : Char = "," in
    rw (Append.nil (comma ∷ [] ++ t), Append.cons comma [] t, Append.nil t) refl
split_commas-append (c ∷ s) t (h, rest) =
    rw (Append.cons c s ("," ++ t), h, split_commas-append s t rest) refl

split_commas-join_names :
    (d : DataFusion) (shown name : String) (names : List String)
    → All Listable (cons name names)
    → split_commas (join_names d shown (cons name names)) ≡ cons name names
split_commas-join_names d shown name nil (h, t) = split_commas-one name h.0
split_commas-join_names d shown name (cons m names) (h, rest) =
    split_commas-append name (join_names d shown (cons m names)) h.0
    ∙ ap (cons name) (split_commas-join_names d shown m names rest)

any-trimmed :
    (needle : String) (names : List String)
    → All Listable names
    → any (λ item. str_eq (trim item) needle) names ≡ any (λ item. str_eq item needle) names
any-trimmed needle nil h = refl
any-trimmed needle (cons name names) (h, rest) = rw (h.1, any-trimmed needle names rest) refl

-- A plan has a table of this name.
unfoldable mutual
  pub HasTable : (d : DataFusion) → LogicalPlan d → String → Type 0
  HasTable d (table_scan m guarded) n = m ≡ n
  HasTable d (empty_relation s) n = ⊥
  HasTable d (join j l r) n = HasTable d l n ⊎ HasTable d r n
  HasTable d (filter_in c vs p) n = HasTable d p n
  HasTable d (extension o ps) n = OneHasTable d ps n
  HasTable d (operator o ps) n = OneHasTable d ps n

  pub OneHasTable : (d : DataFusion) → LogicalPlans d → String → Type 0
  OneHasTable d no_plans n = ⊥
  OneHasTable d (plan p ps) n = HasTable d p n ⊎ OneHasTable d ps n

contains-append :
    (names : List String) (m n : String)
    → (contains (list_append names (cons m nil)) n ≡ true) ↔ ((contains names n ≡ true) ⊎ (m ≡ n))
contains-append nil m n = elim (Bool-cases (str_eq m n)) [
  | inl h ↦ rw h ((λ e. inr ((eq_iff m n).0 h)), (λ e. refl))
  | inr h ↦ rw h ((λ e. cc), (λ e. elim e [ inl x ↦ cc | inr same ↦ sym h ∙ (eq_iff m n).1 same ]))
]
contains-append (cons k names) m n = elim (Bool-cases (str_eq k n)) [
  | inl h ↦ rw h ((λ e. inl refl), (λ e. refl))
  | inr h ↦ rw h (contains-append names m n)
]

-- Two walks one after the other.
either_walk : {A B C D E : Type 0} → A ↔ (B ⊎ E) → B ↔ (C ⊎ D) → A ↔ (C ⊎ (D ⊎ E))
either_walk second first = (
  (λ a. elim (second.0 a) [
    | inl b ↦ elim (first.0 b) [ inl c ↦ inl c | inr x ↦ inr (inl x) ]
    | inr y ↦ inr (inr y)
  ]),
  (λ u. elim u [
    | inl c ↦ second.1 (inl (first.1 (inl c)))
    | inr v ↦ elim v [ inl x ↦ second.1 (inl (first.1 (inr x))) | inr y ↦ second.1 (inr y) ]
  ]),
)

only_left : {A : Type 0} → A ↔ (A ⊎ ⊥)
only_left = (inl, (λ u. elim u [ inl a ↦ a | inr e ↦ elim e [ ] ]))

mutual
  unfolding collect_table_names collect_all_table_names HasTable OneHasTable

  collect_table_names_iff :
      (d : DataFusion) (p : LogicalPlan d) (out : List String) (n : String)
      → (contains (collect_table_names d p out) n ≡ true)
        ↔ ((contains out n ≡ true) ⊎ HasTable d p n)
  collect_table_names_iff d (table_scan m guarded) out n = contains-append out m n
  collect_table_names_iff d (empty_relation s) out n = only_left
  collect_table_names_iff d (join j l r) out n =
      either_walk (collect_table_names_iff d r (collect_table_names d l out) n)
        (collect_table_names_iff d l out n)
  collect_table_names_iff d (filter_in c vs p) out n = collect_table_names_iff d p out n
  collect_table_names_iff d (extension o ps) out n = collect_all_table_names_iff d ps out n
  collect_table_names_iff d (operator o ps) out n = collect_all_table_names_iff d ps out n

  collect_all_table_names_iff :
      (d : DataFusion) (ps : LogicalPlans d) (out : List String) (n : String)
      → (contains (collect_all_table_names d ps out) n ≡ true)
        ↔ ((contains out n ≡ true) ⊎ OneHasTable d ps n)
  collect_all_table_names_iff d no_plans out n = only_left
  collect_all_table_names_iff d (plan p ps) out n =
      either_walk (collect_all_table_names_iff d ps (collect_table_names d p out) n)
        (collect_table_names_iff d p out n)

listed_iff :
    (d : DataFusion) (p : LogicalPlan d) (n : String)
    → (contains (collect_table_names d p nil) n ≡ true) ↔ HasTable d p n
listed_iff d p n =
    let iff = collect_table_names_iff d p nil n in
    ((λ e. elim (iff.0 e) [ inl x ↦ absurd cc | inr h ↦ h ]), (λ h. iff.1 (inr h)))

All-contained :
    {P : String → Type 0} (names : List String)
    → ((n : String) → contains names n ≡ true → P n)
    → All P names
All-contained nil each = tt
All-contained (cons m names) each =
    let same : str_eq m m ≡ true = (eq_iff m m).1 refl in
    (each m (rw same refl), All-contained names (λ n h. each n (ground arith)))

-- If a plan has a table, and the names of its tables have no commas and no blanks around them, then
-- the list that describes the plan, read back, has exactly the names of the tables of the plan.
pub comma_list_contains-describe_subtree :
    (d : DataFusion) (display : LogicalPlan d → String) (p : LogicalPlan d) (first needle : String)
    → HasTable d p first
    → ((n : String) → HasTable d p n → Listable n)
    → (comma_list_contains (describe_subtree d display p) needle ≡ true) ↔ HasTable d p needle
unfolding comma_list_contains describe_subtree
comma_list_contains-describe_subtree d display p first needle has keeps =
    rw
      (listed (collect_table_names d p nil) ((listed_iff d p first).1 has)
        (All-contained (collect_table_names d p nil) (λ n h. keeps n ((listed_iff d p n).0 h))))
      (listed_iff d p needle)
  where
    listed :
        (names : List String)
        → contains names first ≡ true
        → All Listable names
        → any (λ item. str_eq (trim item) needle) (split_commas (join_names d (display p) names))
          ≡ contains names needle
    listed nil some_name h = absurd cc
    listed (cons name names) some_name h =
        rw (split_commas-join_names d (display p) name names h)
          (any-trimmed needle (cons name names) h)
