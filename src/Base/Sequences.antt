-- ===== src/Base/Sequences.antt =====
-- `sequence` and windows of a list of outcomes.
use Prim.Native.Nat.{ℕ, zero, suc}
use mathlib.Core.Path.{◌≡◌, refl, ap}
use mathlib.Core.List.{List, [], ◌∷◌}
use quiver_sql.Base.Lists.{length, take, drop}
use quiver_sql.Base.Results.{Result, ok, err, ◌>>=◌, sequence}

module _ {ℓ κ} {E : Type ℓ} {A : Type κ} where
  -- The values of a sequence without an error.
  sequence-inv :
      (a : A) (r : Result E (List A)) {l : List A}
      → (r >>= λ xs. ok (a ∷ xs)) ≡ ok l
      → (xs : List A) × (r ≡ ok xs) × (l ≡ a ∷ xs)
  sequence-inv a (ok xs) e = (xs, refl, cc)
  sequence-inv a (err x) e = cc

  pub length-sequence :
      (rs : List (Result E A)) {l : List A} → sequence rs ≡ ok l → length rs ≡ length l
  length-sequence [] e = cc
  length-sequence (err x ∷ rs) e = cc
  length-sequence (ok a ∷ rs) e =
      let (xs, s, same) = sequence-inv a (sequence rs) e in rw same (ap suc (length-sequence rs s))

  pub sequence-take :
      (n : ℕ) (rs : List (Result E A)) {l : List A}
      → sequence rs ≡ ok l
      → sequence (take n rs) ≡ ok (take n l)
  sequence-take zero rs e = refl
  sequence-take (suc n) [] e = ap (λ r. r >>= λ l. ok (take (suc n) l)) e
  sequence-take (suc n) (err x ∷ rs) e = cc
  sequence-take (suc n) (ok a ∷ rs) e =
      let (xs, s, same) = sequence-inv a (sequence rs) e in rw (same, sequence-take n rs s) refl

  pub sequence-drop :
      (n : ℕ) (rs : List (Result E A)) {l : List A}
      → sequence rs ≡ ok l
      → sequence (drop n rs) ≡ ok (drop n l)
  sequence-drop zero rs e = e
  sequence-drop (suc n) [] e = ap (λ r. r >>= λ l. ok (drop (suc n) l)) e
  sequence-drop (suc n) (err x ∷ rs) e = cc
  sequence-drop (suc n) (ok a ∷ rs) e =
      let (xs, s, same) = sequence-inv a (sequence rs) e in rw same (sequence-drop n rs s)
