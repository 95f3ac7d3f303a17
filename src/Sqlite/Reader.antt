-- ===== src/Sqlite/Reader.antt =====
-- The conditions of qsql-connectors/src/sqlite.rs as SQL tokens, and a reader of them with SQLite's
-- precedence: `NOT` binds looser than `IS NULL`. Its fuel is a bound on the nesting.
use Prim.Native.Char.{Char, code}
use Prim.Native.String.{◌++◌ as push_str, [] as nil, ◌∷◌ as cons}
use quiver_sql.Base.{
  ℕ, zero, suc, String, true, false, Option, none, some, List, [], ◌∷◌, ◌++◌, ◌==◌, if◌then◌else◌,
}
use quiver_sql.Sqlite.{
  ScalarValue, null, boolean, number, utf8, unsupported_value, Operator, eq, not_eq, lt, lt_eq, gt,
  gt_eq, and, or, unsupported_operator, PhysicalExpr, column, literal, binary, is_null, is_not_null,
  not_expr, dynamic_filter, unsupported_expr,
}

-- A name or a literal is one token.
pub data Token : Type 0 where
  name : String → Token
  value : ScalarValue → Token
  operator : Operator → Token
  open_paren close_paren not_word is_null_words is_not_null_words : Token

unfoldable pub tokens : PhysicalExpr → List Token
tokens (column n) = name n ∷ []
tokens (literal v) = value v ∷ []
tokens (binary l o r) = open_paren ∷ (tokens l ++ (operator o ∷ (tokens r ++ (close_paren ∷ []))))
tokens (is_null e) = tokens e ++ (is_null_words ∷ [])
tokens (is_not_null e) = tokens e ++ (is_not_null_words ∷ [])
tokens (not_expr e) = not_word ∷ open_paren ∷ (tokens e ++ (close_paren ∷ []))
tokens dynamic_filter = []
tokens unsupported_expr = []

-- How SQL writes operators, with blanks around them; values; and a text or a name between quotes,
-- which are doubled within.
unfoldable pub operator_word : Operator → Option String
operator_word eq = some " = "
operator_word not_eq = some " <> "
operator_word lt = some " < "
operator_word lt_eq = some " <= "
operator_word gt = some " > "
operator_word gt_eq = some " >= "
operator_word and = some " AND "
operator_word or = some " OR "
operator_word unsupported_operator = none

unfoldable pub doubled : ℕ → String → String
doubled quote nil = nil
doubled quote (cons c s) =
    let rest = doubled quote s in if code c == quote then cons c (cons c rest) else cons c rest

abbrev pub between : Char → String → String
between quote s = cons quote (push_str (doubled (code quote) s) (cons quote nil))

unfoldable pub value_word : ScalarValue → Option String
value_word null = some "NULL"
value_word (boolean true) = some "TRUE"
value_word (boolean false) = some "FALSE"
value_word (number digits) = some digits
value_word (utf8 s) = some (between "'" s)
value_word unsupported_value = none

-- The text of a token.
unfoldable pub token_text : Token → Option String
token_text (name n) = some (between "`" n)
token_text (value v) = value_word v
token_text (operator o) = operator_word o
token_text open_paren = some "("
token_text close_paren = some ")"
token_text not_word = some "NOT "
token_text is_null_words = some " IS NULL"
token_text is_not_null_words = some " IS NOT NULL"

abbrev pub push_some : Option String → Option String → Option String
push_some none t = none
push_some (some s) none = none
push_some (some s) (some t) = some (push_str s t)

unfoldable pub text : List Token → Option String
text [] = some ""
text (t ∷ ts) = push_some (token_text t) (text ts)

abbrev pub Read : Type 0
Read = Option (PhysicalExpr × List Token)

unfoldable pub postfix : PhysicalExpr → List Token → PhysicalExpr × List Token
postfix e (is_null_words ∷ ts) = postfix (is_null e) ts
postfix e (is_not_null_words ∷ ts) = postfix (is_not_null e) ts
postfix e [] = (e, [])
postfix e (name n ∷ ts) = (e, name n ∷ ts)
postfix e (value v ∷ ts) = (e, value v ∷ ts)
postfix e (operator o ∷ ts) = (e, operator o ∷ ts)
postfix e (open_paren ∷ ts) = (e, open_paren ∷ ts)
postfix e (close_paren ∷ ts) = (e, close_paren ∷ ts)
postfix e (not_word ∷ ts) = (e, not_word ∷ ts)

abbrev pub negated : Read → Read
negated none = none
negated (some (e, ts)) = some (not_expr e, ts)

-- After the second operand.
abbrev pub closed : PhysicalExpr → Operator → Read → Read
closed l o none = none
closed l o (some (r, close_paren ∷ ts)) = some (postfix (binary l o r) ts)
closed l o (some (r, _)) = none

-- After the first expression in parentheses.
abbrev pub enclosed : (List Token → Read) → Read → Read
enclosed next none = none
enclosed next (some (e, close_paren ∷ ts)) = some (postfix e ts)
enclosed next (some (e, operator o ∷ ts)) = closed e o (next ts)
enclosed next (some (e, _)) = none

unfoldable pub read : (fuel : ℕ) → List Token → Read
read zero ts = none
read (suc fuel) (name n ∷ ts) = some (postfix (column n) ts)
read (suc fuel) (value v ∷ ts) = some (postfix (literal v) ts)
read (suc fuel) (not_word ∷ ts) = negated (read fuel ts)
read (suc fuel) (open_paren ∷ ts) = enclosed (read fuel) (read fuel ts)
read (suc fuel) _ = none
