-- ===== src/Explain/Texts.antt =====
-- What qsql-daemon/src/explain.rs asks of texts: substrings, lists with commas, and the clauses of a
-- SQL text. Upper case is a parameter.
use Prim.Native.Char.{Char, code}
use Prim.Native.String.{[], ◌∷◌}
use quiver_sql.Base.{
  String, Bool, true, false, ◌&&◌, ◌||◌, List, ◌==◌, any, str_eq, if◌then◌else◌, [] as nil,
  ◌∷◌ as cons,
}
use quiver_sql.SqlTypes.Text.{trim}

-- `s.starts_with(prefix)`, arguments swapped.
unfoldable pub starts_with : String → String → Bool
starts_with [] s = true
starts_with (p ∷ ps) [] = false
starts_with (p ∷ ps) (c ∷ s) = code p == code c && starts_with ps s

-- `s.contains(needle)`.
unfoldable pub contains_text : String → String → Bool
contains_text [] needle = starts_with needle []
contains_text (c ∷ s) needle = starts_with needle (c ∷ s) || contains_text s needle

abbrev pub add_to_first : Char → List String → List String
add_to_first c nil = cons (c ∷ []) nil
add_to_first c (cons item items) = cons (c ∷ item) items

-- `list.split(',')`.
unfoldable pub split_commas : String → List String
split_commas [] = cons [] nil
split_commas (c ∷ s) =
    let rest = split_commas s in if code c == b',' then cons [] rest else add_to_first c rest

unfoldable pub comma_list_contains : String → String → Bool
comma_list_contains list needle = any (λ item. str_eq (trim item) needle) (split_commas list)

module _ (to_uppercase : String → String) where
  unfoldable pub sql_contains_order_by : String → Bool
  sql_contains_order_by sql = contains_text (to_uppercase sql) "ORDER BY"

  unfoldable pub sql_has_where_or_limit : String → Bool
  sql_has_where_or_limit sql =
      contains_text (to_uppercase sql) " WHERE "
      || contains_text (to_uppercase sql) " LIMIT "
      || contains_text (to_uppercase sql) " FETCH FIRST "

unfoldable pub guess_executor_from_sql : String → String
guess_executor_from_sql sql =
    if contains_text sql "`" then "mysql" else if contains_text sql "\"" then "postgres" else "sql"
