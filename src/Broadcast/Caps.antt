-- ===== src/Broadcast/Caps.antt =====
-- The caps of qsql-core/src/broadcast.rs on what is materialized, and what they say of the keys.
use quiver_sql.Base.{
  ℕ, ◌+◌, ◌≤◌, ◌<◌, min, List, [], ◌∷◌, length, length-append, usize_max, saturating_add, arith,
  ◌≡◌, ap, ◌∙◌, sym,
}
use quiver_sql.Broadcast.{BroadcastRewriteConfig}
use quiver_sql.Broadcast.Keys.{
  KeyBatch, KeyQuery, not_run, cancelled, collected, values, fetch_limit, total_rows, within_caps,
  materialize,
}
use quiver_sql.Broadcast.Meaning.{all_keys}

module _ {Scalar : Type 0} where
  total_rows-eq :
      (rows : ℕ) (bs : List (KeyBatch Scalar))
      → rows ≤ usize_max
      → total_rows rows bs ≡ min (rows + length (all_keys bs)) usize_max
  unfolding total_rows saturating_add
  total_rows-eq rows [] h = omega arith
  total_rows-eq rows (b ∷ bs) h =
      let rest = total_rows-eq (min (rows + length b.keys) usize_max) bs (omega arith) in
      omega (arith, length-append b.keys (all_keys bs))

  within_caps-inv :
      (config : BroadcastRewriteConfig) (bs' bs : List (KeyBatch Scalar))
      (rows' bytes' rows bytes : ℕ)
      → within_caps config bs' rows' bytes' ≡ values bs rows bytes
      → (bs' ≡ bs)
        × (rows' ≡ rows)
        × (bytes' ≡ bytes)
        × (rows ≤ config.max_local_rows)
        × (bytes ≤ config.max_local_bytes)
  unfolding within_caps
  within_caps-inv config bs' bs rows' bytes' rows bytes e = ground arith

  -- What is known of a query for keys whose values are used.
  abbrev pub Capped :
      BroadcastRewriteConfig → KeyQuery Scalar → List (KeyBatch Scalar) → (rows bytes : ℕ) → Type 0
  Capped config q bs rows bytes =
      (q ≡ collected bs)
      × (rows ≡ total_rows 0 bs)
      × (rows ≤ config.max_local_rows)
      × (bytes ≤ config.max_local_bytes)

  pub materialize-Capped :
      (config : BroadcastRewriteConfig) (q : KeyQuery Scalar) (bs : List (KeyBatch Scalar))
      (rows bytes : ℕ)
      → materialize config q ≡ values bs rows bytes
      → Capped config q bs rows bytes
  unfolding materialize
  materialize-Capped config (not_run why) bs rows bytes e = cc
  materialize-Capped config cancelled bs rows bytes e = cc
  materialize-Capped config (collected bs') bs rows bytes e =
      let (same, r, b, few, small) = within_caps-inv config bs' bs _ _ rows bytes e in
      (ap collected same, sym r ∙ ap (total_rows 0) same, few, small)

  -- Below the cap, the count of rows is the number of keys, and the query did not reach its limit.
  pub capped_count :
      (config : BroadcastRewriteConfig) (bs : List (KeyBatch Scalar)) (rows : ℕ)
      → config.max_local_rows < usize_max
      → rows ≡ total_rows 0 bs
      → rows ≤ config.max_local_rows
      → (rows ≡ length (all_keys bs)) × (length (all_keys bs) < fetch_limit config)
  unfolding fetch_limit
  capped_count config bs rows room e few =
      let total = total_rows-eq 0 bs (omega arith) in (omega arith, omega arith)
