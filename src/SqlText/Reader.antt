-- ===== src/SqlText/Reader.antt =====
-- Quoted text read back, as the SQL of a source reads it: a reader written independently of the
-- quoting of `qsql-connectors/src/sql.rs`, and the round trips.
use Prim.Native.Char.{Char, code}
use Prim.Native.String.{String, [], ◌∷◌, ◌++◌}
use Prim.Native.String.append as Append
use text.Mathlib.TextEquality.{Char-path}
use quiver_sql.Base.{
  ℕ, true, false, Option, none, some, Option-cases, ◌==◌, ==_iff, if◌then◌else◌, if_elim, not, ◌≡◌,
  refl, ap, sym, Bool-cases, inl, inr,
}
use quiver_sql.SqlText.{
  SqlDialectKind, sqlite, postgres, mysql, mariadb, quote_char, double, quoted, quote_identifier,
  SqlTableRef, bare, with_schema, is_blank, to_sql,
}

-- What stands in front of the closing quote, and what follows it. A doubled quote stands for one.
abbrev cons_read : Char → Option (String × String) → Option (String × String)
cons_read c none = none
cons_read c (some (s, rest)) = some (c ∷ s, rest)

unfoldable mutual
  pub read_body : Char → String → Option (String × String)
  read_body q [] = none
  read_body q (c ∷ s) =
      let rest = read_body q s in
      let closed = read_closed q s in if code c == code q then closed else cons_read c rest

  pub read_closed : Char → String → Option (String × String)
  read_closed q [] = some ([], [])
  read_closed q (c ∷ s) =
      let rest = read_body q s in if code c == code q then cons_read q rest else some ([], c ∷ s)

unfoldable pub read_quoted : Char → String → Option (String × String)
read_quoted q [] = none
read_quoted q (c ∷ s) = let rest = read_body q s in if code c == code q then rest else none

-- The text does not begin with this character.
unfoldable pub Stops : Char → String → Type 0
Stops q [] = Unit
Stops q (c ∷ s) = (code c == code q) ≡ false

==-same : (n : ℕ) → (n == n) ≡ true
==-same n = (==_iff n n).1 refl

read_closed-Stops : (q : Char) (rest : String) → Stops q rest → read_closed q rest ≡ some ([], rest)
unfolding read_closed Stops
read_closed-Stops q [] h = refl
read_closed-Stops q (c ∷ s) h = rw h refl

read_body-double :
    (q : Char) (s rest : String)
    → Stops q rest
    → read_body q (double q s ++ (q ∷ rest)) ≡ some (s, rest)
unfolding read_body read_closed double
read_body-double q [] rest h =
    rw (Append.nil (q ∷ rest), ==-same (code q)) (read_closed-Stops q rest h)
read_body-double q (c ∷ s) rest h =
    let rest_read = read_body-double q s rest h in
    if_elim (λ x. read_body q (x ++ (q ∷ rest)) ≡ some (c ∷ s, rest)) (code c == code q)
      (λ same.
        let e : q ≡ c = sym (Char-path c q ((==_iff (code c) (code q)).0 same)) in
        rw
          (
            Append.cons q (q ∷ double q s) (q ∷ rest),
            Append.cons q (double q s) (q ∷ rest),
            ==-same (code q),
            rest_read,
          )
          (ap (λ d. some (d ∷ s, rest)) e))
      (λ differs. rw (Append.cons c (double q s) (q ∷ rest), differs, rest_read) refl)

append_assoc : (s t u : String) → (s ++ t) ++ u ≡ s ++ (t ++ u)
append_assoc [] t u = rw (Append.nil t, Append.nil (t ++ u)) refl
append_assoc (c ∷ s) t u =
    rw (Append.cons c s t, Append.cons c (s ++ t) u, Append.cons c s (t ++ u), append_assoc s t u)
      refl

pub read_quoted-quoted :
    (q : Char) (s rest : String)
    → Stops q rest
    → read_quoted q (quoted q s ++ rest) ≡ some (s, rest)
unfolding read_quoted quoted
read_quoted-quoted q s rest h =
    rw
      (
        Append.cons q (double q s ++ (q ∷ [])) rest,
        append_assoc (double q s) (q ∷ []) rest,
        Append.cons q [] rest,
        Append.nil rest,
        ==-same (code q),
      )
      (read_body-double q s rest h)

-- The table that a reference written in SQL names: one identifier, or two with a dot between them.
abbrev second_part : String → Option (String × String) → Option SqlTableRef
second_part s none = none
second_part s (some (t, [])) = some (with_schema s t)
second_part s (some (t, c ∷ rest)) = none

abbrev first_part : Char → Option (String × String) → Option SqlTableRef
first_part q none = none
first_part q (some (t, [])) = some (bare t)
first_part q (some (s, c ∷ rest)) =
    let rest_read = read_quoted q rest in
    if code c == code "." then second_part s rest_read else none

-- What stands around an identifier in the SQL of a dialect.
unfoldable pub delimiter : SqlDialectKind → Char
delimiter postgres = "\""
delimiter sqlite = "`"
delimiter mysql = "`"
delimiter mariadb = "`"

unfoldable pub read_table_ref : SqlDialectKind → String → Option SqlTableRef
read_table_ref dialect sql = let q = delimiter dialect in first_part q (read_quoted q sql)

-- A blank schema counts as none.
unfoldable pub without_blank_schema : SqlTableRef → SqlTableRef
without_blank_schema table_ref = elim table_ref.schema [
  | some s ↦ if not (is_blank s) then table_ref else bare table_ref.table
  | none ↦ bare table_ref.table
]

append-nil_text : (s : String) → s ++ [] ≡ s
append-nil_text [] = rw (Append.nil []) refl
append-nil_text (c ∷ s) = rw (Append.cons c s [], append-nil_text s) refl

read_quoted-all : (q : Char) (s : String) → read_quoted q (quoted q s) ≡ some (s, [])
unfolding Stops
read_quoted-all q s =
    let e = read_quoted-quoted q s [] tt in let n = append-nil_text (quoted q s) in cc

quote-Stops-dot : (d : SqlDialectKind) (t : String) → Stops (quote_char d) ("." ++ t)
unfolding Stops quote_char
quote-Stops-dot sqlite t = rw (Append.cons "." [] t) refl
quote-Stops-dot postgres t = rw (Append.cons "." [] t) refl
quote-Stops-dot mysql t = rw (Append.cons "." [] t) refl
quote-Stops-dot mariadb t = rw (Append.cons "." [] t) refl

delimiter-quote_char : (d : SqlDialectKind) → delimiter d ≡ quote_char d
unfolding delimiter quote_char
delimiter-quote_char sqlite = refl
delimiter-quote_char postgres = refl
delimiter-quote_char mysql = refl
delimiter-quote_char mariadb = refl

read_bare :
    (t : String) (d : SqlDialectKind) → read_table_ref d (quote_identifier t d) ≡ some (bare t)
unfolding read_table_ref quote_identifier
read_bare t d = rw (delimiter-quote_char d, read_quoted-all (quote_char d) t) refl

read_qualified :
    (s t : String) (d : SqlDialectKind)
    → read_table_ref d (quote_identifier s d ++ ("." ++ quote_identifier t d))
      ≡ some (with_schema s t)
unfolding read_table_ref quote_identifier
read_qualified s t d =
    let q = quote_char d in
    rw
      (
        delimiter-quote_char d,
        read_quoted-quoted q s ("." ++ quoted q t) (quote-Stops-dot d (quoted q t)),
        Append.cons "." [] (quoted q t),
        Append.nil (quoted q t),
        read_quoted-all q t,
      )
      refl

-- A table reference written in the SQL of any dialect reads back as the table it names, whatever
-- characters its names hold, the dialect's own quote character included; a blank schema is read back
-- as no schema.
pub read_table_ref-to_sql :
    (table_ref : SqlTableRef) (dialect : SqlDialectKind)
    → read_table_ref dialect (to_sql table_ref dialect) ≡ some (without_blank_schema table_ref)
unfolding to_sql without_blank_schema with_schema
read_table_ref-to_sql table_ref dialect =
    let t = table_ref.table in
    elim (Option-cases table_ref.schema) [
      | inl e ↦ rw e (read_bare t dialect)
      | inr (s, e) ↦ rw e (elim (Bool-cases (is_blank s)) [
        | inl blank ↦ rw blank (read_bare t dialect)
        | inr visible ↦ rw visible (read_qualified s t dialect)
      ])
    ]
