-- ===== src/Sessions/Maps.antt =====
-- `HashMap<String, V>` as the daemon (qsql-daemon/src/lib.rs) uses it: one entry for each key.
use quiver_sql.Base.{
  String, false, Option, none, some, List, [], ◌∷◌, str_eq, eq_iff, eq_refl, if◌then◌else◌, if_elim,
  Bool-cases, inl, inr, ◌≡◌, ◌≢◌, refl, sym, ap, ◌∙◌,
}

different : (j k : String) → j ≢ k → str_eq j k ≡ false
different j k h = elim (Bool-cases (str_eq j k)) [
  | inl e ↦ absurd (h ((eq_iff j k).0 e))
  | inr e ↦ e
]

module _ {V : Type 0} where
  unfoldable pub get : String → List (String × V) → Option V
  get k [] = none
  get k ((k', v) ∷ m) = let rest = get k m in if str_eq k k' then some v else rest

  unfoldable pub remove : String → List (String × V) → List (String × V)
  remove k [] = []
  remove k ((k', v) ∷ m) = let rest = remove k m in if str_eq k k' then rest else (k', v) ∷ rest

  unfoldable pub insert : String → V → List (String × V) → List (String × V)
  insert k v m = (k, v) ∷ remove k m

  pub get-remove_same : (k : String) (m : List (String × V)) → get k (remove k m) ≡ none
  unfolding get remove
  get-remove_same k [] = refl
  get-remove_same k ((k', v) ∷ m) =
      if_elim (λ l. get k l ≡ none) (str_eq k k') (λ e. get-remove_same k m)
        (λ e. rw e (get-remove_same k m))

  pub get-remove_other :
      (j k : String) (m : List (String × V)) → j ≢ k → get j (remove k m) ≡ get j m
  unfolding get remove
  get-remove_other j k [] h = refl
  get-remove_other j k ((k', v) ∷ m) h =
      let rest = get-remove_other j k m h in
      if_elim (λ l. get j l ≡ (if str_eq j k' then some v else get j m)) (str_eq k k')
        (λ e.
          let same : k ≡ k' = (eq_iff k k').0 e in
          let d : str_eq j k' ≡ false = different j k' (λ q. h (q ∙ sym same)) in rw d rest)
        (λ e. ap (λ o. if str_eq j k' then some v else o) rest)

  pub get-insert_same : (k : String) (v : V) (m : List (String × V)) → get k (insert k v m) ≡ some v
  unfolding get insert
  get-insert_same k v m = rw (eq_refl k) refl

  pub get-insert_other :
      (j k : String) (v : V) (m : List (String × V)) → j ≢ k → get j (insert k v m) ≡ get j m
  unfolding get insert
  get-insert_other j k v m h = rw (different j k h) (get-remove_other j k m h)
