-- ===== src/ResultHandle/Agreement.antt =====
-- Streaming a page and cutting it from the complete result give the same page.
use quiver_sql.Base.{
  ℕ, ◌*◌, ◌<◌, ◌≡◌, sym, ◌∙◌, ◌↔◌, Option, Bool, true, length, drop, ok, usize_max, sequence-take,
  sequence-drop, length-sequence, Result,
}
use quiver_sql.Models.{QueryPage, QueryExecutionResult, build_query_page}
use quiver_sql.Models.Pages.{build_query_page_window}
use quiver_sql.Arrow.{Arrow, SliceLaws}
use quiver_sql.Windows.{json, canonicalise_result_format}
use quiver_sql.ResultHandle.{QueryResultHandle, BufferLimits}
use quiver_sql.ResultHandle.Pages.{PageRequest, page_with_format, collect_all}
use quiver_sql.ResultHandle.Reading.{IsConsistent, all_cells}
use quiver_sql.ResultHandle.Paging.{page_with_format-Shows, collect_all_complete}

ok-injective {ℓ κ} :
    {E : Type ℓ} {A : Type κ} {x y : A} → ◌≡◌ {A = Result E A} (ok x) (ok y) → x ≡ y
ok-injective e = cc

module _ (a : Arrow) (limits : BufferLimits) (laws : SliceLaws a)
    (room : limits.max_rows < usize_max) where
  -- From one consistent handle: if the streaming page and the complete result are both returned
  -- without an error, then the page cut from the complete result (shorter than `usize::MAX`) has
  -- the same rows, and the two agree on whether it is the last one.
  pub page_with_format-build_query_page :
      (h h' : QueryResultHandle a) (r : PageRequest) (p : QueryPage a.Json)
      (result : QueryExecutionResult a.Json) (is_cancelled : Bool) (timeout_ms : Option ℕ)
      (elapsed : ℕ)
      → IsConsistent a limits h
      → canonicalise_result_format r.result_format ≡ ok json
      → page_with_format a limits h r ≡ (ok p, h')
      → collect_all a limits h is_cancelled timeout_ms elapsed ≡ ok result
      → length result.rows < usize_max
      → (p.page_data
          ≡ (build_query_page r.query_id result r.page_index r.page_size r.warning).page_data)
        × ((p.is_last ≡ true) ↔ (
            (build_query_page r.query_id result r.page_index r.page_size r.warning).is_last ≡ true))
  page_with_format-build_query_page h h' r p result is_cancelled timeout_ms elapsed c format e f
        fits =
      let shown = page_with_format-Shows a limits laws room h h' r p c format e in
      let whole =
        collect_all_complete a limits laws room h is_cancelled timeout_ms elapsed result c f in
      let (rows, last) =
        build_query_page_window r.query_id result r.page_index r.page_size r.warning fits in
      let same_length = length-sequence (all_cells a h) whole in
      let window =
        sequence-take r.page_size (drop (r.page_index * r.page_size) (all_cells a h))
          (sequence-drop (r.page_index * r.page_size) (all_cells a h) whole) in
      (
        ok-injective (sym shown.window ∙ window) ∙ sym rows,
        (
          (λ t. last.1 (rw (← same_length) (shown.last.0 t))),
          (λ t. shown.last.1 (rw same_length (last.0 t))),
        ),
      )
