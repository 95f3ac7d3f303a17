-- ===== src/Arrow/Rows/Fields.antt =====
-- What the object of a row holds: `record_batch_to_json_rows` of qsql-core/src/engine.rs.
use quiver_sql.Base.{String, Bool, List}
use quiver_sql.Arrow.Rows.{ArrayCell, JsonValue}

module _ {Float : Type 0} (is_finite : Float → Bool) where
  abbrev Columns : Type 0
  Columns = List (String × ArrayCell Float)

  abbrev Object : Type 0
  Object = List (String × JsonValue Float)
