-- ===== src/SchemaCache/Names.antt =====
-- `eq_ignore_ascii_case`, by which qsql-daemon/src/lib.rs compares aliases.
use Prim.Native.Char.{Char, code}
use Prim.Native.String.{[], ◌∷◌}
use quiver_sql.Base.{
  ℕ, ◌+◌, String, Bool, true, false, ◌&&◌, leb, ◌==◌, ==_iff, if◌then◌else◌, ◌≡◌, refl,
}

unfoldable pub to_ascii_lowercase : Char → ℕ
to_ascii_lowercase c = let n = code c in if leb b'A' n && leb n b'Z' then n + 32 else n

unfoldable pub eq_ignore_ascii_case : String → String → Bool
eq_ignore_ascii_case [] [] = true
eq_ignore_ascii_case [] (d ∷ t) = false
eq_ignore_ascii_case (c ∷ s) [] = false
eq_ignore_ascii_case (c ∷ s) (d ∷ t) =
    to_ascii_lowercase c == to_ascii_lowercase d && eq_ignore_ascii_case s t

pub eq_ignore_ascii_case_refl : (s : String) → eq_ignore_ascii_case s s ≡ true
unfolding eq_ignore_ascii_case
eq_ignore_ascii_case_refl [] = refl
eq_ignore_ascii_case_refl (c ∷ s) =
    rw ((==_iff (to_ascii_lowercase c) (to_ascii_lowercase c)).1 refl) (eq_ignore_ascii_case_refl s)
