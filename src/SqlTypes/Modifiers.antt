-- ===== src/SqlTypes/Modifiers.antt =====
-- What the modifier and the length of a type name do in `sql_type_to_arrow` of
-- `qsql-core/src/sql_types.rs`.
use Prim.Native.Char.{Char, code}
use Prim.Native.String.{String, [], ◌∷◌, ◌++◌, count}
use Prim.Native.String.append as Append
use Prim.Native.String.count as Count
use quiver_sql.Base.{
  suc, ◌+◌, true, false, some, ◌==◌, str_eq, eq_iff, eq_refl, arith, if_elim, ◌≡◌, refl, ap,
}
use quiver_sql.SqlTypes.{without_modifier, base_name, named_type, answer, sql_type_to_arrow}
use quiver_sql.SqlTypes.Text.{trim, before_suffix, before_char}

count-append : (s t : String) → count (s ++ t) ≡ count s + count t
count-append [] t = rw (Append.nil t, Count.nil) (omega arith)
count-append (c ∷ s) t =
    rw (Append.cons c s t, Count.cons c (s ++ t), Count.cons c s, count-append s t) (omega arith)

longer_differs : (c : Char) (s t : String) → c ∷ (s ++ t) ≡ t → ⊥
longer_differs c s t e =
    let counts : count (c ∷ (s ++ t)) ≡ count t = ap count e in
    let one : count (c ∷ (s ++ t)) ≡ suc (count (s ++ t)) = Count.cons c (s ++ t) in
    let sum = count-append s t in absurd (omega arith)

before_suffix_self : (t : String) → before_suffix t t ≡ some []
unfolding before_suffix
before_suffix_self [] = refl
before_suffix_self (c ∷ t) = rw (eq_refl (c ∷ t)) refl

before_suffix-append : (s t : String) → before_suffix t (s ++ t) ≡ some s
unfolding before_suffix
before_suffix-append [] t = rw (Append.nil t) (before_suffix_self t)
before_suffix-append (c ∷ s) t =
    let rest = before_suffix-append s t in
    rw (Append.cons c s t) (
      if_elim (λ x. x ≡ some (c ∷ s)) (str_eq (c ∷ (s ++ t)) t)
        (λ same. absurd (longer_differs c s t ((eq_iff (c ∷ (s ++ t)) t).0 same)))
        (λ differs. rw rest refl))

-- The text has no such character.
unfoldable pub Lacks : Char → String → Type 0
Lacks d [] = Unit
Lacks d (c ∷ s) = ((code c == code d) ≡ false) × Lacks d s

before_char-append :
    (d : Char) (s t : String)
    → Lacks d s
    → (code d == code d) ≡ true
    → before_char d (s ++ (d ∷ t)) ≡ s
unfolding before_char Lacks
before_char-append d [] t h e = rw (Append.nil (d ∷ t), e) refl
before_char-append d (c ∷ s) t h e =
    rw (Append.cons c s (d ∷ t), h.0, before_char-append d s t h.1 e) refl

without_modifier-unsigned : (s : String) → without_modifier (s ++ " UNSIGNED") ≡ (s, true)
unfolding without_modifier
without_modifier-unsigned s = rw (before_suffix-append s " UNSIGNED") refl

-- A type name that is, trimmed and in upper case, a name with a length or precision in parentheses
-- and the modifier UNSIGNED has the unsigned type that the table gives for the name alone, whatever
-- stands in the parentheses, and is refused with the name as given if the table has none.
pub sql_type_to_arrow-unsigned :
    (to_uppercase : String → String) (sql_type name args : String)
    → to_uppercase (trim sql_type) ≡ (name ++ ("(" ∷ args)) ++ " UNSIGNED"
    → Lacks "(" name
    → sql_type_to_arrow to_uppercase sql_type ≡ answer sql_type (named_type (trim name) true)
unfolding sql_type_to_arrow base_name
sql_type_to_arrow-unsigned to_uppercase sql_type name args e h =
    rw
      (e, without_modifier-unsigned (name ++ ("(" ∷ args)), before_char-append "(" name args h refl)
      refl
