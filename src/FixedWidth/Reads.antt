-- ===== src/FixedWidth/Reads.antt =====
-- The reading loop of `next_batch` (`qsql-core/src/fixed_width.rs`): the lines that it takes from the
-- file, and those that a scan with a limit still owes.
use quiver_sql.Base.{
  ℕ, zero, suc, ◌+◌, ◌-◌, ◌≤◌, ◌<◌, true, String, List, [], ◌∷◌, ◌++◌, Option, none, some, Result,
  ok, err, ◌>>=◌, IsOk, All, length, take, drop, take_all, take-append, take-append-drop,
  length-take, str_eq, if◌then◌else◌, Bool-cases, inl, inr, arith, ◌≡◌, refl, sym, ap, ◌∙◌,
}
use quiver_sql.FixedWidth.Values.{trim_newlines}
use quiver_sql.FixedWidth.Columns.{FixedWidthError}
use quiver_sql.FixedWidth.Stream.{Reader, Lines, add_line, read_lines, Scan, StreamState, remaining}

-- The lines of a file: without their line breaks, and without the empty ones.
unfoldable pub data_lines : Reader → List String
data_lines [] = []
data_lines (err e ∷ reader) = []
data_lines (ok buf ∷ reader) =
    let rest = data_lines reader in
    if str_eq (trim_newlines buf) "" then rest else trim_newlines buf ∷ rest

-- What reading `n` lines has to end with, where `all` are the lines of the file.
abbrev pub Reads : ℕ → List String → Result FixedWidthError Lines → Type 0
Reads n all (err e) = ⊥
Reads n all (ok (lines, (eof, reader))) =
    (lines ≡ take n all)
    × (data_lines reader ≡ drop n all)
    × All IsOk reader
    × (eof ≡ true → data_lines reader ≡ [])

pub add_line-Reads :
    (n : ℕ) (all : List String) (line : String) (m : Result FixedWidthError Lines)
    → Reads n all m
    → Reads (suc n) (line ∷ all) (m >>= λ l. ok (add_line line l))
add_line-Reads n all line (err e) h = h
add_line-Reads n all line (ok (lines, (eof, reader))) (same, rest, clean, ended) =
    (ap (λ l. line ∷ l) same, rest, clean, ended)

pub read_lines-Reads :
    (n : ℕ) (reader : Reader) → All IsOk reader → Reads n (data_lines reader) (read_lines n reader)
unfolding read_lines data_lines
read_lines-Reads zero reader h = (refl, refl, h, (λ e. cc))
read_lines-Reads (suc n) [] h = (refl, refl, tt, (λ e. refl))
read_lines-Reads (suc n) (err e ∷ reader) h = absurd h.0
read_lines-Reads (suc n) (ok buf ∷ reader) h =
    let skipped = read_lines-Reads (suc n) reader h.1 in
    let more = read_lines-Reads n reader h.1 in
    elim (Bool-cases (str_eq (trim_newlines buf) "")) [
      | inl blank ↦ rw blank skipped
      | inr full ↦
          rw full
            (add_line-Reads n (data_lines reader) (trim_newlines buf) (read_lines n reader) more)
    ]

-- What is left of some lines under a limit, once some rows were emitted.
abbrev pub within : Option ℕ → ℕ → List String → List String
within none rows all = all
within (some l) rows all = take (l - rows) all

-- The lines whose rows a scan still owes.
unfoldable pub pending : Scan → StreamState → List String
pending scan s = if s.done then [] else within scan.limit s.rows_emitted (data_lines s.reader)

pub take-split :
    (most n : ℕ) (all : List String)
    → n ≤ most
    → take most all ≡ take n all ++ take (most - length (take n all)) (drop n all)
take-split most n all h =
    let count = length-take n all in
    let whole : take most (take n all) ≡ take n all = take_all most (take n all) (omega arith) in
    ap (take most) (sym (take-append-drop n all))
    ∙ take-append most (take n all) (drop n all)
    ∙ ap (λ l. l ++ take (most - length (take n all)) (drop n all)) whole

pub within-nil : (limit : Option ℕ) (rows : ℕ) → within limit rows [] ≡ []
within-nil none rows = refl
within-nil (some l) rows = take_all (l - rows) [] (omega arith)

pub within-split :
    (limit : Option ℕ) (rows n : ℕ) (all : List String)
    → n ≤ remaining limit rows
    → within limit rows all ≡ take n all ++ within limit (rows + length (take n all)) (drop n all)
within-split none rows n all h = sym (take-append-drop n all)
within-split (some l) rows n all h =
    let e : (l - rows) - length (take n all) ≡ l - (rows + length (take n all)) = omega arith in
    rw (← e) (take-split (l - rows) n all h)

pub within-exhausted :
    (limit : Option ℕ) (rows : ℕ) (all : List String)
    → remaining limit rows ≡ 0
    → within limit rows all ≡ []
within-exhausted none rows all z = absurd (omega arith)
within-exhausted (some l) rows all z = let e : l - rows ≡ 0 = z in rw e refl

pub within-chunk :
    (limit : Option ℕ) (rows n : ℕ) (all chunk rest : List String)
    → n ≤ remaining limit rows
    → chunk ≡ take n all
    → rest ≡ drop n all
    → within limit rows all ≡ chunk ++ within limit (rows + length chunk) rest
within-chunk limit rows n all chunk rest h same after =
    rw (same, after) (within-split limit rows n all h)

pub take-nil : (n : ℕ) (all : List String) → 0 < n → [] ≡ take n all → all ≡ []
take-nil zero all pos e = absurd (omega arith)
take-nil (suc n) [] pos e = refl
take-nil (suc n) (x ∷ xs) pos e = cc
