-- ===== src/Base/Results.antt =====
-- `Result<A, E>` of the source: a value or an error.
use mathlib.Core.Path.{◌≡◌, refl}
use mathlib.Core.List.{List, [], ◌∷◌, ◌++◌}

pub data Result {ℓ κ} (E : Type ℓ) (A : Type κ) : Type (ℓ ⊔ κ) where
  ok : A → Result E A
  err : E → Result E A

infixl 5 ◌>>=◌ ◌>>◌
abbrev pub ◌>>=◌ {ℓ κ μ} :
    {E : Type ℓ} {A : Type κ} {B : Type μ} → Result E A → (A → Result E B) → Result E B
ok a >>= f = f a
err e >>= f = err e

abbrev pub ◌>>◌ {ℓ κ μ} :
    {E : Type ℓ} {A : Type κ} {B : Type μ} → Result E A → Result E B → Result E B
m >> k = m >>= λ _. k

abbrev pub map_err {ℓ κ μ} :
    {E : Type ℓ} {F : Type κ} {A : Type μ} → (E → F) → Result E A → Result F A
map_err f (ok a) = ok a
map_err f (err e) = err (f e)

-- `Result::is_ok`.
abbrev pub IsOk {ℓ κ} : {E : Type ℓ} {A : Type κ} → Result E A → Type 0
IsOk (ok a) = Unit
IsOk (err e) = ⊥

-- `collect::<Result<Vec<_>, _>>`: the first error, or all the values.
abbrev pub sequence {ℓ κ} : {E : Type ℓ} {A : Type κ} → List (Result E A) → Result E (List A)
sequence [] = ok []
sequence (err e ∷ rs) = err e
sequence (ok a ∷ rs) = sequence rs >>= λ l. ok (a ∷ l)

module _ {ℓ κ} {E : Type ℓ} {A : Type κ} where
  -- What `rows.extend(first?)` followed by `rows.extend(second?)` returns.
  abbrev pub append_ok : Result E (List A) → Result E (List A) → Result E (List A)
  append_ok r s = r >>= λ xs. s >>= λ ys. ok (xs ++ ys)

  cons-append_ok :
      (a : A) (r s : Result E (List A))
      → (append_ok r s >>= λ l. ok (a ∷ l)) ≡ append_ok (r >>= λ l. ok (a ∷ l)) s
  cons-append_ok a (ok xs) (ok ys) = refl
  cons-append_ok a (ok xs) (err e) = refl
  cons-append_ok a (err e) s = refl

  nil-append_ok : (s : Result E (List A)) → s ≡ append_ok (ok []) s
  nil-append_ok (ok ys) = refl
  nil-append_ok (err e) = refl

  pub sequence-append :
      (xs ys : List (Result E A)) → sequence (xs ++ ys) ≡ append_ok (sequence xs) (sequence ys)
  sequence-append [] ys = nil-append_ok (sequence ys)
  sequence-append (err e ∷ xs) ys = refl
  sequence-append (ok a ∷ xs) ys =
      rw (sequence-append xs ys) (cons-append_ok a (sequence xs) (sequence ys))
