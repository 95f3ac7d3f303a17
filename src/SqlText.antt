-- ===== src/SqlText.antt =====
-- `qsql-connectors/src/sql.rs`: the dialects, and the quoting of identifiers and of literals in the
-- SQL that the connectors send to a source.
mod Reader
mod Tests
use Prim.Native.Char.{Char, code}
use Prim.Native.String.{String, [], ◌∷◌, ◌++◌}
use quiver_sql.Base.{
  ℕ, Bool, true, false, ◌||◌, ◌&&◌, Option, none, some, leb, ◌==◌, if◌then◌else◌, not,
}

pub data SqlDialectKind : Type 0 where
  sqlite : SqlDialectKind
  postgres : SqlDialectKind
  mysql : SqlDialectKind
  mariadb : SqlDialectKind

unfoldable pub quote_char : SqlDialectKind → Char
quote_char sqlite = "`"
quote_char postgres = "\""
quote_char mysql = "`"
quote_char mariadb = "`"

-- `s.replace(q, "qq")`.
unfoldable pub double : Char → String → String
double q [] = []
double q (c ∷ s) = let rest = double q s in if code c == code q then q ∷ (q ∷ rest) else c ∷ rest

-- `format!("{quote}{escaped}{quote}")`.
unfoldable pub quoted : Char → String → String
quoted q s = q ∷ (double q s ++ (q ∷ []))

unfoldable pub quote_identifier : String → SqlDialectKind → String
quote_identifier identifier dialect = quoted (quote_char dialect) identifier

unfoldable pub sql_literal : String → String
sql_literal value = quoted "'" value

pub record SqlTableRef : Type 0 where
  schema : Option String
  table : String

unfoldable pub bare : String → SqlTableRef
bare t = record { schema = none; table = t }

unfoldable pub with_schema : String → String → SqlTableRef
with_schema s t = record { schema = some s; table = t }

-- `char::is_whitespace`: the characters of Unicode's White_Space property.
unfoldable pub is_whitespace : Char → Bool
is_whitespace c =
    leb 9 (code c) && leb (code c) 13
    || code c == 32
    || code c == 133
    || code c == 160
    || code c == 5760
    || leb 8192 (code c) && leb (code c) 8202
    || code c == 8232
    || code c == 8233
    || code c == 8239
    || code c == 8287
    || code c == 12288

-- `s.trim().is_empty()`.
unfoldable pub is_blank : String → Bool
is_blank [] = true
is_blank (c ∷ s) = is_whitespace c && is_blank s

unfoldable pub to_sql : SqlTableRef → SqlDialectKind → String
to_sql table_ref dialect = elim table_ref.schema [
  | some s ↦
      if not (is_blank s)
      then quote_identifier s dialect ++ ("." ++ quote_identifier table_ref.table dialect)
      else quote_identifier table_ref.table dialect
  | none ↦ quote_identifier table_ref.table dialect
]

unfoldable pub native_select_all_sql : SqlTableRef → SqlDialectKind → String
native_select_all_sql table_ref dialect = "SELECT * FROM " ++ to_sql table_ref dialect
