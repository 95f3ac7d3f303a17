-- ===== src/Arrow/Rows/Tests.antt =====
-- Rows of qsql-core/src/engine.rs as JSON.
use quiver_sql.Base.{Bool, true, false, [], ◌∷◌, ok, ◌≡◌, refl}
use quiver_sql.Errors.{pos}
use quiver_sql.Sessions.Maps.{insert, remove}
use quiver_sql.Arrow.Rows.{
  ArrayCell, chars, null, int64, utf8, float64, typed_value_to_json, array_value_to_json,
  json_object,
}

-- Every float is finite but the only one.
abbrev finite : Unit {0} → Bool
finite x = false

abbrev id : ArrayCell (Unit {0})
id = record { is_null = false; value = int64 (pos 7) }

abbrev name : ArrayCell (Unit {0})
name = record { is_null = false; value = utf8 "ann" }

abbrev missing : ArrayCell (Unit {0})
missing = record { is_null = true; value = utf8 "" }

-- Of two columns with one name, the object keeps the second.
same_names :
    json_object finite (("id", id) ∷ ("id", name) ∷ ("note", missing) ∷ []) []
    ≡ ok (("note", null) ∷ ("id", chars "ann") ∷ [])
unfolding json_object array_value_to_json typed_value_to_json insert remove
same_names = refl

not_a_number : typed_value_to_json finite (float64 tt) ≡ ok null
unfolding typed_value_to_json
not_a_number = refl
