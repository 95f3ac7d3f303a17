-- ===== src/SqlTypes/Text.antt =====
-- The operations of Rust's `str` that `qsql-core/src/sql_types.rs` uses.
use Prim.Native.Char.{Char, code}
use Prim.Native.String.{String, [], ◌∷◌}
use quiver_sql.Base.{Option, none, some, ◌==◌, str_eq, if◌then◌else◌}
use quiver_sql.SqlText.{is_whitespace, is_blank}

unfoldable pub trim_start : String → String
trim_start [] = []
trim_start (c ∷ s) = let rest = trim_start s in if is_whitespace c then rest else c ∷ s

unfoldable pub trim_end : String → String
trim_end [] = []
trim_end (c ∷ s) = let rest = trim_end s in if is_blank (c ∷ s) then [] else c ∷ rest

unfoldable pub trim : String → String
trim s = trim_end (trim_start s)

abbrev pub prefix_map : Char → Option String → Option String
prefix_map c none = none
prefix_map c (some s) = some (c ∷ s)

-- `s.ends_with(suffix)`, and then the text in front of the suffix, `&s[..s.len() - suffix.len()]`.
unfoldable pub before_suffix : String → String → Option String
before_suffix suffix [] = if str_eq [] suffix then some [] else none
before_suffix suffix (c ∷ s) =
    let rest = before_suffix suffix s in
    if str_eq (c ∷ s) suffix then some [] else prefix_map c rest

-- The text in front of the first such character: `s.find(c)` and `&s[..idx]`; the whole text if there
-- is none.
unfoldable pub before_char : Char → String → String
before_char d [] = []
before_char d (c ∷ s) = let rest = before_char d s in if code c == code d then [] else c ∷ rest
