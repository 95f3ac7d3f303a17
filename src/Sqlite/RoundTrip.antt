-- ===== src/Sqlite/RoundTrip.antt =====
-- A condition of qsql-connectors/src/sqlite.rs is read back as the expression that it was written for.
use quiver_sql.Base.{
  ℕ, zero, suc, ◌+◌, ◌≤◌, some, List, [], ◌∷◌, ◌++◌, append_assoc, arith, ◌≡◌, refl,
}
use quiver_sql.Sqlite.{
  PhysicalExpr, column, literal, binary, is_null, is_not_null, not_expr, dynamic_filter,
  unsupported_expr,
}
use quiver_sql.Sqlite.Reader.{
  Token, name, value, operator, open_paren, close_paren, not_word, is_null_words, is_not_null_words,
  tokens, postfix, read,
}

-- A bound on the fuel that the reader takes.
unfoldable pub nesting : PhysicalExpr → ℕ
nesting (binary l o r) = suc (nesting l + nesting r)
nesting (is_null e) = nesting e
nesting (is_not_null e) = nesting e
nesting (not_expr e) = suc (suc (nesting e))
nesting _ = 1

-- Not a negation.
abbrev pub Positive : PhysicalExpr → Type 0
Positive (not_expr e) = ⊥
Positive _ = Unit

-- Nothing that the code refuses, and no test for null straight above a negation.
unfoldable pub Writable : PhysicalExpr → Type 0
Writable (column n) = Unit
Writable (literal v) = Unit
Writable (binary l o r) = Writable l × Writable r
Writable (is_null e) = Positive e × Writable e
Writable (is_not_null e) = Positive e × Writable e
Writable (not_expr e) = Writable e
Writable dynamic_filter = ⊥
Writable unsupported_expr = ⊥

-- The tokens after a negation do not go on with a test for null.
abbrev pub Ends : List Token → Type 0
Ends (is_null_words ∷ ts) = ⊥
Ends (is_not_null_words ∷ ts) = ⊥
Ends _ = Unit

abbrev pub Follows : PhysicalExpr → List Token → Type 0
Follows (not_expr e) ts = Ends ts
Follows _ ts = Unit

postfix-Ends : (e : PhysicalExpr) (ts : List Token) → Ends ts → postfix e ts ≡ (e, ts)
unfolding postfix
postfix-Ends e (is_null_words ∷ ts) h = elim h [ ]
postfix-Ends e (is_not_null_words ∷ ts) h = elim h [ ]
postfix-Ends e [] h = refl
postfix-Ends e (name n ∷ ts) h = refl
postfix-Ends e (value v ∷ ts) h = refl
postfix-Ends e (operator o ∷ ts) h = refl
postfix-Ends e (open_paren ∷ ts) h = refl
postfix-Ends e (close_paren ∷ ts) h = refl
postfix-Ends e (not_word ∷ ts) h = refl

pub Follows-close :
    (e : PhysicalExpr) (t : Token) (ts : List Token) → Ends (t ∷ ts) → Follows e (t ∷ ts)
Follows-close (not_expr e) t ts h = h
Follows-close (column n) t ts h = tt
Follows-close (literal v) t ts h = tt
Follows-close (binary l o r) t ts h = tt
Follows-close (is_null e) t ts h = tt
Follows-close (is_not_null e) t ts h = tt
Follows-close dynamic_filter t ts h = tt
Follows-close unsupported_expr t ts h = tt

Follows-Positive : (e : PhysicalExpr) (ts : List Token) → Positive e → Follows e ts
Follows-Positive (not_expr e) ts h = elim h [ ]
Follows-Positive (column n) ts h = tt
Follows-Positive (literal v) ts h = tt
Follows-Positive (binary l o r) ts h = tt
Follows-Positive (is_null e) ts h = tt
Follows-Positive (is_not_null e) ts h = tt
Follows-Positive dynamic_filter ts h = tt
Follows-Positive unsupported_expr ts h = tt

pub read-tokens :
    (e : PhysicalExpr) (rest : List Token) (fuel : ℕ)
    → Writable e
    → nesting e ≤ fuel
    → Follows e rest
    → read fuel (tokens e ++ rest) ≡ some (postfix e rest)
unfolding Writable nesting tokens read postfix
read-tokens (column n) rest zero w h f = absurd (omega arith)
read-tokens (column n) rest (suc fuel) w h f = refl
read-tokens (literal v) rest zero w h f = absurd (omega arith)
read-tokens (literal v) rest (suc fuel) w h f = refl
read-tokens (binary l o r) rest zero w h f = absurd (omega arith)
read-tokens (binary l o r) rest (suc fuel) (wl, wr) h f =
    let right =
      read-tokens r (close_paren ∷ rest) fuel wr (omega arith)
        (Follows-close r close_paren rest tt) in
    let left =
      read-tokens l (operator o ∷ (tokens r ++ (close_paren ∷ rest))) fuel wl (omega arith)
        (Follows-close l (operator o) (tokens r ++ (close_paren ∷ rest)) tt) in
    rw
      (
        append_assoc (tokens l) (operator o ∷ (tokens r ++ (close_paren ∷ []))) rest,
        append_assoc (tokens r) (close_paren ∷ []) rest,
        left,
        right,
      )
      refl
read-tokens (is_null e) rest fuel (p, w) h f =
    rw (append_assoc (tokens e) (is_null_words ∷ []) rest)
      (read-tokens e (is_null_words ∷ rest) fuel w h (Follows-Positive e _ p))
read-tokens (is_not_null e) rest fuel (p, w) h f =
    rw (append_assoc (tokens e) (is_not_null_words ∷ []) rest)
      (read-tokens e (is_not_null_words ∷ rest) fuel w h (Follows-Positive e _ p))
read-tokens (not_expr e) rest zero w h f = absurd (omega arith)
read-tokens (not_expr e) rest (suc zero) w h f = absurd (omega arith)
read-tokens (not_expr e) rest (suc (suc fuel)) w h f =
    let inner =
      read-tokens e (close_paren ∷ rest) fuel w (omega arith)
        (Follows-close e close_paren rest tt) in
    rw
      (
        append_assoc (tokens e) (close_paren ∷ []) rest,
        inner,
        postfix-Ends e rest f,
        postfix-Ends (not_expr e) rest f,
      )
      refl
read-tokens dynamic_filter rest fuel w h f = elim w [ ]
read-tokens unsupported_expr rest fuel w h f = elim w [ ]
