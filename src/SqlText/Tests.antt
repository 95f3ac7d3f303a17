-- ===== src/SqlText/Tests.antt =====
-- Quoting at concrete texts.
use quiver_sql.Base.{some, ◌≡◌, refl}
use quiver_sql.SqlText.{
  sqlite, postgres, mysql, with_schema, to_sql, quote_identifier, quoted, double,
  native_select_all_sql, is_blank, is_whitespace, quote_char,
}
use quiver_sql.SqlText.Reader.{read_table_ref, without_blank_schema, read_table_ref-to_sql}

quotes_reserved_and_mixed_case : quote_identifier "we`ird" mysql ≡ "`we``ird`"
unfolding quote_identifier quoted double quote_char
quotes_reserved_and_mixed_case = refl

native_select_all :
    native_select_all_sql (with_schema "sales" "Orders") postgres
    ≡ "SELECT * FROM \"sales\".\"Orders\""
unfolding native_select_all_sql to_sql with_schema is_blank is_whitespace quote_identifier quoted
    double quote_char
native_select_all = refl

read_table_ref-to_sql_example :
    read_table_ref sqlite (to_sql (with_schema "a`b" "c.d") sqlite)
    ≡ some (without_blank_schema (with_schema "a`b" "c.d"))
read_table_ref-to_sql_example = read_table_ref-to_sql (with_schema "a`b" "c.d") sqlite
