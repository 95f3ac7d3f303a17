-- ===== src/Sqlite/Precedence.antt =====
-- What SQLite reads in the conditions of qsql-connectors/src/sqlite.rs.
use Prim.Native.String.{◌++◌ as push_str}
use quiver_sql.Base.{
  ℕ, zero, suc, ◌≤◌, some, [], ◌∷◌, append_assoc, append-nil, arith, ◌≡◌, refl, sym, ap, ◌∙◌,
}
use quiver_sql.Sqlite.{
  PhysicalExpr, column, literal, binary, is_null, is_not_null, not_expr, dynamic_filter,
  unsupported_expr, physical_expr_to_sql, map_some,
}
use quiver_sql.Sqlite.Reader.{
  close_paren, is_null_words, tokens, token_text, text, push_some, postfix, read,
}
use quiver_sql.Sqlite.RoundTrip.{nesting, Writable, Follows, Follows-close, read-tokens}
use quiver_sql.Sqlite.Written.{text-tokens, text-append, text-one, last_piece}

Follows-nil : (e : PhysicalExpr) → Follows e []
Follows-nil (not_expr e) = tt
Follows-nil (column n) = tt
Follows-nil (literal v) = tt
Follows-nil (binary l o r) = tt
Follows-nil (is_null e) = tt
Follows-nil (is_not_null e) = tt
Follows-nil dynamic_filter = tt
Follows-nil unsupported_expr = tt

-- For an expression without a test for null straight above a negation, and without the kinds that
-- the code refuses, the condition is the text of tokens that read as the expression, whatever its
-- nesting, with fuel for that nesting.
pub physical_expr_to_sql-read :
    (e : PhysicalExpr) (fuel : ℕ)
    → Writable e
    → nesting e ≤ fuel
    → (physical_expr_to_sql e ≡ text (tokens e)) × (read fuel (tokens e) ≡ some (e, []))
unfolding postfix
physical_expr_to_sql-read e fuel w h = (
  sym (text-tokens e w),
  ap (read fuel) (sym (append-nil (tokens e))) ∙ read-tokens e [] fuel w h (Follows-nil e),
)

-- A test for null above a negation is written without parentheses, and reads as the negation of the
-- test.
pub physical_expr_to_sql-misread :
    (e : PhysicalExpr) (fuel : ℕ)
    → Writable e
    → nesting (not_expr e) ≤ fuel
    → (physical_expr_to_sql (is_null (not_expr e)) ≡ text (tokens (is_null (not_expr e))))
      × (read fuel (tokens (is_null (not_expr e))) ≡ some (not_expr (is_null e), []))
unfolding nesting Writable tokens token_text read postfix physical_expr_to_sql
physical_expr_to_sql-misread e zero w h = absurd (omega arith)
physical_expr_to_sql-misread e (suc zero) w h = absurd (omega arith)
physical_expr_to_sql-misread e (suc (suc fuel)) w h = (
  sym (
      text-append (tokens (not_expr e)) (is_null_words ∷ [])
      ∙ ap (push_some (text (tokens (not_expr e)))) (text-one is_null_words)
      ∙ last_piece (text (tokens (not_expr e))) " IS NULL"
      ∙ ap (map_some (λ t. push_str t " IS NULL")) (text-tokens (not_expr e) w)),
  rw
      (
        append_assoc (tokens e) (close_paren ∷ []) (is_null_words ∷ []),
        read-tokens e (close_paren ∷ is_null_words ∷ []) fuel w (omega arith)
            (Follows-close e close_paren (is_null_words ∷ []) tt),
      )
      refl,
)
