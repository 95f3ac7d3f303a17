-- ===== src/TableLists/Paging.antt =====
-- What `list_source_tables` of qsql-daemon/src/lib.rs answers.
use quiver_sql.Base.{ℕ, ◌+◌, String, Option, some, List, length, take, drop, ltb, ok, ◌≡◌}
use quiver_sql.TableLists.{ListSourceTablesResult, TableQuery, Databases}

-- The window of a page in a list of tables.
unfoldable pub window :
    (name : String) → List String → (offset limit : ℕ) → Option ℕ → ListSourceTablesResult
window name tables offset limit total = record {
  name = name;
  tables = take limit (drop offset tables);
  offset = offset;
  limit = limit;
  total_known = total;
  truncated = ltb (offset + limit) (length tables);
}

-- The database at a path or a connection string has these tables: it gives as many of them, in
-- their order, as the limit of a statement says, after as many as its offset says.
abbrev pub Lists : Databases → String → TableQuery → List String → Type 0
Lists databases target query tables =
    (limit offset : ℕ)
    → databases target (record { query = query; limit = limit; offset = offset })
      ≡ some (ok (take limit (drop offset tables)))
