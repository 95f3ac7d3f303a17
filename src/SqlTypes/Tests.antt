-- ===== src/SqlTypes/Tests.antt =====
-- Type names of SQL and their Arrow types.
use Prim.Native.String.{String}
use quiver_sql.Base.{true, ok, err, ◌≡◌, refl}
use quiver_sql.SqlTypes.{
  answer, unrecognised, uint8, int32, named_type, sql_type_to_arrow, without_modifier, base_name,
}
use quiver_sql.SqlTypes.Text.{trim, trim_start, trim_end, before_suffix, before_char}
use quiver_sql.SqlTypes.Modifiers.{Lacks, sql_type_to_arrow-unsigned}
use quiver_sql.SqlText.{is_blank, is_whitespace}

-- What upper case is for texts that have no lower case letter.
abbrev upper : String → String
upper s = s

tinyint : sql_type_to_arrow upper " TINYINT(1) UNSIGNED " ≡ ok uint8
unfolding sql_type_to_arrow without_modifier base_name trim trim_start trim_end before_suffix
    before_char named_type answer is_blank is_whitespace
tinyint = refl

signed : sql_type_to_arrow upper "INT SIGNED" ≡ ok int32
unfolding sql_type_to_arrow without_modifier base_name trim trim_start trim_end before_suffix
    before_char named_type answer is_blank is_whitespace
signed = refl

unknown : sql_type_to_arrow upper "NONSENSE" ≡ err (unrecognised "NONSENSE")
unfolding sql_type_to_arrow without_modifier base_name trim trim_start trim_end before_suffix
    before_char named_type answer is_blank is_whitespace
unknown = refl

sql_type_to_arrow-unsigned_example :
    sql_type_to_arrow upper "TINYINT(1) UNSIGNED"
    ≡ answer "TINYINT(1) UNSIGNED" (named_type (trim "TINYINT") true)
unfolding Lacks trim trim_start trim_end is_blank is_whitespace
sql_type_to_arrow-unsigned_example =
    sql_type_to_arrow-unsigned upper "TINYINT(1) UNSIGNED" "TINYINT" "1)" refl
      (refl, (refl, (refl, (refl, (refl, (refl, (refl, tt)))))))
