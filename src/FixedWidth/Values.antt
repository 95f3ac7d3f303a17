-- ===== src/FixedWidth/Values.antt =====
-- The parsers of Rust's standard library that `build_column` of `qsql-core/src/fixed_width.rs` calls
-- for integers, and the lower case comparison of its Booleans.
use Prim.Native.Char.{code}
use Prim.Native.String.{String, [], ◌∷◌}
use quiver_sql.Base.{
  ℕ, ◌+◌, ◌-◌, ◌*◌, Bool, true, false, ◌&&◌, ◌||◌, Option, none, some, leb, ◌==◌, if◌then◌else◌,
}
use quiver_sql.Errors.{ℤ, pos, neg}

-- `FromStr` of the integer types: a sign, then digits, then the range.
unfoldable pub digits : ℕ → String → Option ℕ
digits n [] = some n
digits n (c ∷ s) =
    let rest = digits (n * 10 + (code c - 48)) s in
    if leb 48 (code c) && leb (code c) 57 then rest else none

abbrev pub magnitude : String → Option ℕ
magnitude [] = none
magnitude (c ∷ s) = digits 0 (c ∷ s)

abbrev pub in_range : ℕ → (ℕ → ℤ) → Option ℕ → Option ℤ
in_range most sign none = none
in_range most sign (some n) = if leb n most then some (sign n) else none

-- The largest and, without its sign, the smallest value of the type.
unfoldable pub parse_integer : (most least : ℕ) (signed : Bool) → String → Option ℤ
parse_integer most least signed [] = none
parse_integer most least signed (c ∷ s) =
    if code c == b'+'
    then in_range most pos (magnitude s)
    else if signed && (code c == b'-')
    then in_range least neg (magnitude s)
    else in_range most pos (digits 0 (c ∷ s))

-- `v.to_ascii_lowercase()` is this lower case text.
unfoldable pub lower_is : String → String → Bool
lower_is [] [] = true
lower_is [] (d ∷ t) = false
lower_is (c ∷ s) [] = false
lower_is (c ∷ s) (d ∷ t) =
    let rest = lower_is s t in
    (if leb 65 (code c) && leb (code c) 90 then code c + 32 == code d else code c == code d) && rest

-- `trim_end_matches(['\r', '\n'])`: the text without the line breaks at its end.
only_newlines : String → Bool
only_newlines [] = true
only_newlines (c ∷ s) = let rest = only_newlines s in (code c == 13 || code c == 10) && rest

unfoldable pub trim_newlines : String → String
unfolding only_newlines
trim_newlines [] = []
trim_newlines (c ∷ s) = let rest = trim_newlines s in if only_newlines (c ∷ s) then [] else c ∷ rest
