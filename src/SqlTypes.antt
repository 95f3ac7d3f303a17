-- ===== src/SqlTypes.antt =====
-- `sql_type_to_arrow` and `schema_from_fields` of `qsql-core/src/sql_types.rs`: the Arrow type of a
-- type name of SQL.
pub mod Text
mod Modifiers
mod Tests
use quiver_sql.Base.{
  ℕ, Bool, true, false, String, List, [], ◌∷◌, map, any, Option, none, some, Result, ok, err, ◌>>=◌,
  sequence, str_eq, if◌then◌else◌,
}
use quiver_sql.SqlTypes.Text.{trim, before_suffix, before_char}

-- The types of Arrow that the table names. Times, timestamps and durations are in microseconds.
pub data DataType : Type 0 where
  boolean : DataType
  int8 : DataType
  int16 : DataType
  int32 : DataType
  int64 : DataType
  uint8 : DataType
  uint16 : DataType
  uint32 : DataType
  uint64 : DataType
  float32 : DataType
  float64 : DataType
  date32 : DataType
  time64 : DataType
  timestamp : Option String → DataType
  duration : DataType
  binary : DataType
  utf8 : DataType

abbrev one_of : List String → String → Bool
one_of names base = any (str_eq base) names

-- The two modifiers: the text in front of one, and whether it is UNSIGNED, which is tried first.
abbrev pub modifier : String → Option String → Option String → String × Bool
modifier upper (some front) signed = (front, true)
modifier upper none (some front) = (front, false)
modifier upper none none = (upper, false)

unfoldable pub without_modifier : String → String × Bool
without_modifier upper =
    modifier upper (before_suffix " UNSIGNED" upper) (before_suffix " SIGNED" upper)

-- The name without modifier and without length.
unfoldable pub base_name : String → String
base_name front = trim (before_char "(" front)

-- The table, one line for each arm of the `match`.
unfoldable pub named_type : String → Bool → Option DataType
named_type base unsigned =
    if one_of ("BOOL" ∷ "BOOLEAN" ∷ []) base
    then some boolean
    else if one_of ("TINYINT" ∷ "INT1" ∷ []) base
    then some (if unsigned then uint8 else int8)
    else if one_of ("SMALLINT" ∷ "INT2" ∷ "SMALLSERIAL" ∷ "SERIAL2" ∷ []) base
    then some (if unsigned then uint16 else int16)
    else if one_of ("MEDIUMINT" ∷ "INT" ∷ "INTEGER" ∷ "INT4" ∷ "SERIAL" ∷ "SERIAL4" ∷ []) base
    then some (if unsigned then uint32 else int32)
    else if one_of ("BIGINT" ∷ "INT8" ∷ "BIGSERIAL" ∷ "SERIAL8" ∷ []) base
    then some (if unsigned then uint64 else int64)
    else if one_of ("YEAR" ∷ []) base
    then some int16
    else if one_of ("OID" ∷ "XID" ∷ "XID8" ∷ "CID" ∷ "REGCLASS" ∷ "REGTYPE" ∷ "REGPROC" ∷ []) base
    then some uint32
    else if one_of ("REAL" ∷ "FLOAT" ∷ "FLOAT4" ∷ []) base
    then some float32
    else if one_of ("DOUBLE" ∷ "DOUBLE PRECISION" ∷ "FLOAT8" ∷ []) base
    then some float64
    else if one_of ("NUMERIC" ∷ "DECIMAL" ∷ "DEC" ∷ "MONEY" ∷ []) base
    then some float64
    else if one_of ("DATE" ∷ []) base
    then some date32
    else if one_of ("TIME" ∷ "TIME WITHOUT TIME ZONE" ∷ "TIMETZ" ∷ "TIME WITH TIME ZONE" ∷ []) base
    then some time64
    else if one_of ("TIMESTAMP" ∷ "TIMESTAMP WITHOUT TIME ZONE" ∷ "DATETIME" ∷ []) base
    then some (timestamp none)
    else if one_of ("TIMESTAMP WITH TIME ZONE" ∷ "TIMESTAMPTZ" ∷ []) base
    then some (timestamp (some "UTC"))
    else if one_of ("INTERVAL" ∷ []) base
    then some duration
    else if one_of
        ("BYTEA" ∷ "BINARY" ∷ "VARBINARY" ∷ "TINYBLOB" ∷ "BLOB" ∷ "MEDIUMBLOB" ∷ "LONGBLOB" ∷ "BIT"
          ∷ "VARBIT" ∷ "BIT VARYING" ∷ [])
        base
    then some binary
    else if one_of
        ("TEXT" ∷ "TINYTEXT" ∷ "MEDIUMTEXT" ∷ "LONGTEXT" ∷ "CHAR" ∷ "VARCHAR" ∷ "CHARACTER VARYING"
          ∷ "CHARACTER" ∷ "NCHAR" ∷ "NVARCHAR" ∷ "JSON" ∷ "JSONB" ∷ "JSONPATH" ∷ "UUID" ∷ "INET"
          ∷ "CIDR" ∷ "MACADDR" ∷ "MACADDR8" ∷ "XML" ∷ "TSVECTOR" ∷ "TSQUERY" ∷ "ENUM" ∷ "SET"
          ∷ "PG_LSN" ∷ "PG_SNAPSHOT" ∷ [])
        base
    then some utf8
    else if one_of
        ("GEOMETRY" ∷ "POINT" ∷ "LINESTRING" ∷ "POLYGON" ∷ "MULTIPOINT" ∷ "MULTILINESTRING"
          ∷ "MULTIPOLYGON" ∷ "GEOMETRYCOLLECTION" ∷ "LINE" ∷ "LSEG" ∷ "BOX" ∷ "PATH" ∷ "CIRCLE"
          ∷ [])
        base
    then some binary
    else if one_of ("" ∷ []) base
    then some utf8
    else none

-- The error of a name that the table does not have, with the name as it was given.
pub data TypeError : Type 0 where
  unrecognised : String → TypeError

pub record Field : Type 0 where
  pub name : String
  pub data_type : DataType
  pub nullable : Bool

-- The last arm: a name that the table does not have is refused as it was given.
unfoldable pub answer : String → Option DataType → Result TypeError DataType
answer sql_type (some t) = ok t
answer sql_type none = err (unrecognised sql_type)

-- `str::to_uppercase` goes by Unicode's tables and is a parameter.
module _ (to_uppercase : String → String) where
  unfoldable pub sql_type_to_arrow : String → Result TypeError DataType
  sql_type_to_arrow sql_type =
      let (front, unsigned) = without_modifier (to_uppercase (trim sql_type)) in
      answer sql_type (named_type (base_name front) unsigned)

  abbrev pub field_of : String × (String × Bool) → Result TypeError Field
  field_of (name, (sql_type, nullable)) = sql_type_to_arrow sql_type >>= λ t.
      ok (record { name = name; data_type = t; nullable = nullable })

  unfoldable pub schema_from_fields :
      List (String × (String × Bool)) → Result TypeError (List Field)
  schema_from_fields fields = sequence (map field_of fields)
