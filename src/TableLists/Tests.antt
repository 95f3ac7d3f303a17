-- ===== src/TableLists/Tests.antt =====
-- `list_source_tables` of qsql-daemon/src/lib.rs at concrete sources.
use quiver_sql.Base.{String, none, some, List, [], ◌∷◌, take, drop, false, ok}
use quiver_sql.Models.{postgres}
use quiver_sql.TableLists.{Databases, ListSourceTablesRequest, TableSource, Sources}

abbrev three_tables : List String
three_tables = "items" ∷ "orders" ∷ "users" ∷ []

-- A database of three tables: the answer to a statement.
abbrev list_three : Databases
list_three target statement = some (ok (take statement.limit (drop statement.offset three_tables)))

abbrev shop : TableSource
shop = record {
  kind = postgres;
  db_path = none;
  connection_string = some "host=shop";
  schema = none;
  tables = three_tables;
  tables_truncated = false;
}

abbrev with_database : Sources
with_database = record { databases = ("shop", shop) ∷ []; metadata = λ name. none }

abbrev with_file : Sources
with_file = record { databases = []; metadata = λ name. some (some three_tables) }

abbrev second_page : ListSourceTablesRequest
second_page = record { name = "shop"; offset = some 1; limit = some 1 }
