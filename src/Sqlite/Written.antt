-- ===== src/Sqlite/Written.antt =====
-- The text of the tokens of a condition is the condition that qsql-connectors/src/sqlite.rs writes.
use Prim.Native.String.append as Append
use Prim.Native.String.{◌++◌ as push_str, [] as nil, ◌∷◌ as cons}
use Prim.Native.Char.{Char, code}
use package.text.Mathlib.TextEquality.{Char-path}
use package.text.Mathlib.TextLemmas.{append-nil as text_nil, append_assoc as text_assoc}
use quiver_sql.Base.{
  true, false, ◌==◌, arith, Bool-cases, inl, inr, String, Option, none, some, List, [], ◌∷◌, ◌++◌,
  ◌≡◌, refl, sym, ap, ◌∙◌,
}
use quiver_sql.SqlText.{double, quoted, quote_char, quote_identifier, sql_literal, sqlite}
use quiver_sql.Sqlite.{
  ScalarValue, null, boolean, number, utf8, unsupported_value, Operator, eq, not_eq, lt, lt_eq, gt,
  gt_eq, and, or, unsupported_operator, scalar_value_to_sql, PhysicalExpr, column, literal, binary,
  is_null, is_not_null, not_expr, dynamic_filter, unsupported_expr, operator_to_sql, map_some,
  infix_text, physical_expr_to_sql,
}
use quiver_sql.Sqlite.Reader.{
  Token, name, value, operator, close_paren, is_null_words, is_not_null_words, tokens,
  operator_word, doubled, between, value_word, token_text, push_some, text,
}
use quiver_sql.Sqlite.RoundTrip.{Writable}

push_some-empty : (o : Option String) → push_some o (some "") ≡ o
push_some-empty none = refl
push_some-empty (some s) = ap some (text_nil s)

push_empty : (o : Option String) → push_some (some "") o ≡ o
push_empty none = refl
push_empty (some s) = ap some (Append.nil s)

push_some_assoc :
    (a b c : Option String) → push_some (push_some a b) c ≡ push_some a (push_some b c)
push_some_assoc none b c = refl
push_some_assoc (some a) none c = refl
push_some_assoc (some a) (some b) none = refl
push_some_assoc (some a) (some b) (some c) = ap some (text_assoc a b c)

pub text-append : (xs ys : List Token) → text (xs ++ ys) ≡ push_some (text xs) (text ys)
unfolding text
text-append [] ys = sym (push_empty (text ys))
text-append (t ∷ ts) ys =
    ap (push_some (token_text t)) (text-append ts ys)
    ∙ sym (push_some_assoc (token_text t) (text ts) (text ys))

pub text-one : (t : Token) → text (t ∷ []) ≡ token_text t
unfolding text
text-one t = push_some-empty (token_text t)

infix_pieces :
    (l r o : Option String)
    → push_some (some "(") (
        push_some l
          (push_some (map_some (λ t. push_str " " (push_str t " ")) o) (push_some r (some ")"))))
      ≡ infix_text l r o
infix_pieces none r o = refl
infix_pieces (some l) none none = refl
infix_pieces (some l) none (some o) = refl
infix_pieces (some l) (some r) none = refl
infix_pieces (some l) (some r) (some o) =
    ap (λ t. some (push_str "(" (push_str l t)))
      (text_assoc " " (push_str o " ") (push_str r ")")
        ∙ ap (push_str " ") (text_assoc o " " (push_str r ")")))

pub last_piece :
    (o : Option String) (s : String) → push_some o (some s) ≡ map_some (λ t. push_str t s) o
last_piece none s = refl
last_piece (some t) s = refl

negated_pieces :
    (o : Option String)
    → push_some (some "NOT ") (push_some (some "(") (push_some o (some ")")))
      ≡ map_some (λ t. push_str "NOT (" (push_str t ")")) o
negated_pieces none = refl
negated_pieces (some t) = ap some (sym (text_assoc "NOT " "(" (push_str t ")")))

operator_word-operator_to_sql :
    (o : Operator)
    → operator_word o ≡ map_some (λ t. push_str " " (push_str t " ")) (operator_to_sql o)
unfolding operator_word operator_to_sql
operator_word-operator_to_sql eq = refl
operator_word-operator_to_sql not_eq = refl
operator_word-operator_to_sql lt = refl
operator_word-operator_to_sql lt_eq = refl
operator_word-operator_to_sql gt = refl
operator_word-operator_to_sql gt_eq = refl
operator_word-operator_to_sql and = refl
operator_word-operator_to_sql or = refl
operator_word-operator_to_sql unsupported_operator = refl

doubled-double : (q : Char) (s : String) → doubled (code q) s ≡ double q s
unfolding doubled double
doubled-double q nil = refl
doubled-double q (cons c s) = elim (Bool-cases (code c == code q)) [
  | inl h ↦
      let same : c ≡ q = Char-path c q (ground arith) in
      rw (h, doubled-double q s) (ap (λ x. cons x (cons x (double q s))) same)
  | inr h ↦ rw (h, doubled-double q s) refl
]

between-quoted : (q : Char) (s : String) → between q s ≡ quoted q s
unfolding quoted
between-quoted q s = ap (λ t. cons q (push_str t (cons q nil))) (doubled-double q s)

value_word-scalar_value_to_sql : (v : ScalarValue) → value_word v ≡ scalar_value_to_sql v
unfolding value_word scalar_value_to_sql sql_literal
value_word-scalar_value_to_sql null = refl
value_word-scalar_value_to_sql (boolean true) = refl
value_word-scalar_value_to_sql (boolean false) = refl
value_word-scalar_value_to_sql (number digits) = refl
value_word-scalar_value_to_sql (utf8 s) = ap some (between-quoted "'" s)
value_word-scalar_value_to_sql unsupported_value = refl

name_written : (n : String) → between "`" n ≡ quote_identifier n sqlite
unfolding quote_identifier quote_char
name_written n = between-quoted "`" n

pub text-tokens : (e : PhysicalExpr) → Writable e → text (tokens e) ≡ physical_expr_to_sql e
unfolding Writable tokens token_text physical_expr_to_sql text
text-tokens (column n) w = text-one (name n) ∙ ap some (name_written n)
text-tokens (literal v) w = text-one (value v) ∙ value_word-scalar_value_to_sql v
text-tokens (binary l o r) (wl, wr) =
    ap (push_some (some "(")) (
      text-append (tokens l) (operator o ∷ (tokens r ++ (close_paren ∷ [])))
      ∙ ap (λ t. push_some (text (tokens l)) (push_some (token_text (operator o)) t))
          (text-append (tokens r) (close_paren ∷ [])
            ∙ ap (push_some (text (tokens r))) (text-one close_paren)))
    ∙ ap
        (λ word.
          push_some (some "(")
            (push_some (text (tokens l)) (push_some word (push_some (text (tokens r)) (some ")")))))
        (operator_word-operator_to_sql o)
    ∙ infix_pieces (text (tokens l)) (text (tokens r)) (operator_to_sql o)
    ∙ rw (text-tokens l wl, text-tokens r wr) refl
text-tokens (is_null e) (p, w) =
    text-append (tokens e) (is_null_words ∷ [])
    ∙ ap (push_some (text (tokens e))) (text-one is_null_words)
    ∙ last_piece (text (tokens e)) " IS NULL"
    ∙ ap (map_some (λ t. push_str t " IS NULL")) (text-tokens e w)
text-tokens (is_not_null e) (p, w) =
    text-append (tokens e) (is_not_null_words ∷ [])
    ∙ ap (push_some (text (tokens e))) (text-one is_not_null_words)
    ∙ last_piece (text (tokens e)) " IS NOT NULL"
    ∙ ap (map_some (λ t. push_str t " IS NOT NULL")) (text-tokens e w)
text-tokens (not_expr e) w =
    ap (λ t. push_some (some "NOT ") (push_some (some "(") t))
      (text-append (tokens e) (close_paren ∷ [])
        ∙ ap (push_some (text (tokens e))) (text-one close_paren))
    ∙ negated_pieces (text (tokens e))
    ∙ ap (map_some (λ t. push_str "NOT (" (push_str t ")"))) (text-tokens e w)
text-tokens dynamic_filter w = elim w [ ]
text-tokens unsupported_expr w = elim w [ ]
