-- ===== src/Sessions/Runs.antt =====
-- Any sequence of query requests to the daemon (qsql-daemon/src/lib.rs): no id is given twice, and no
-- session belongs to a cancelled query.
use mathlib.Core.Path.{subst}
use quiver_sql.Base.{
  ℕ, ◌+◌, ◌^◌, ◌<◌, ◌≤◌, String, false, Option, none, some, Option-cases, List, [], ◌∷◌, any, All,
  str_eq, eq_iff, Bool-cases, inl, inr, ◌⊎◌, ok, err, ◌≡◌, ◌≢◌, refl, sym, ap, ◌∙◌, arith,
}
use quiver_sql.Models.{QueryPage}
use quiver_sql.Arrow.{Arrow}
use quiver_sql.Sessions.{
  Daemon, QuerySession, QueryStartRequest, QueryPageRequest, QueryCancelRequest, Params, Answered,
  fetch_add_one, get, remove, get-remove_same, get-remove_other, query_start, query_page,
  query_cancel, cancel_found,
}
use quiver_sql.Sessions.Starts.{State, StartsIfOk, query_start-StartsIfOk}
use quiver_sql.Sessions.Pages.{SameSettings, Serves, query_page-Serves}

-- A request, with the permits that are taken and the time that passes while it is served.
pub data Request : Type 0 where
  start_request : (active elapsed : ℕ) → Params QueryStartRequest → Request
  page_request : (active elapsed : ℕ) → Params QueryPageRequest → Request
  cancel_request : Params QueryCancelRequest → Request

module _ (a : Arrow) (daemon : Daemon a) where
  open a use {Json}
  open daemon use {display}

  abbrev pub serve : State a daemon → Request → State a daemon
  serve s (start_request active elapsed params) = (query_start a daemon active elapsed s params).1
  serve s (page_request active elapsed params) = (query_page a daemon active elapsed s params).1
  serve s (cancel_request params) = (query_cancel a daemon s params).1

  abbrev pub run : List Request → State a daemon → State a daemon
  run [] s = s
  run (r ∷ rs) s = run rs (serve s r)

  -- The id was given before the counter stood at `next`.
  abbrev pub Issued : ℕ → String → Type 0
  Issued next id = (n : ℕ) × (n < next) × (id ≡ display n)

  pub record IsWellFormed (s : State a daemon) : Type 0 where
    pub sessions_issued :
        (j : String) (q : QuerySession a daemon)
        → get j s.sessions ≡ some q
        → Issued s.next_query_id j × (any (str_eq j) s.cancelled ≡ false)
    pub cancelled_issued : All (Issued s.next_query_id) s.cancelled

  Issued-le : (m n : ℕ) (j : String) → m ≤ n → Issued m j → Issued n j
  Issued-le m n j h (k, less, e) = (k, omega arith, e)

  All-Issued-le : (m n : ℕ) (js : List String) → m ≤ n → All (Issued m) js → All (Issued n) js
  All-Issued-le m n [] h all = tt
  All-Issued-le m n (j ∷ js) h all = (Issued-le m n j h all.0, All-Issued-le m n js h all.1)

  -- `Display` writes different numbers differently.
  abbrev pub Injective : Type 0
  Injective = (m n : ℕ) → display m ≡ display n → m ≡ n

  not-Issued : Injective → (n : ℕ) → Issued n (display n) → ⊥
  not-Issued inj n (k, less, e) = let same = inj n k e in absurd (omega arith)

  not_among :
      Injective
      → (n : ℕ) (js : List String) → All (Issued n) js
      → any (str_eq (display n)) js ≡ false
  not_among inj n [] all = refl
  not_among inj n (j ∷ js) all = elim (Bool-cases (str_eq (display n) j)) [
    | inl e ↦ absurd (not-Issued inj n (subst (Issued n) (sym ((eq_iff (display n) j).0 e)) all.0))
    | inr e ↦ rw e (not_among inj n js all.1)
  ]

  pub fresh_id :
      Injective
      → (s : State a daemon) → IsWellFormed s
      → get (display s.next_query_id) s.sessions ≡ none
  fresh_id inj s w = elim (Option-cases (get (display s.next_query_id) s.sessions)) [
    | inl e ↦ e
    | inr (q, e) ↦
        absurd (not-Issued inj s.next_query_id (w.sessions_issued (display s.next_query_id) q e).0)
  ]

  pub fetch_add_one-eq : (n : ℕ) → n + 1 < 2 ^ 64 → fetch_add_one n ≡ n + 1
  unfolding fetch_add_one
  fetch_add_one-eq n h = omega arith

  -- A state whose sessions are old ones, or new under an id that is issued and not cancelled.
  keeps :
      (s s' : State a daemon)
      → IsWellFormed s
      → s.next_query_id ≤ s'.next_query_id
      → s'.cancelled ≡ s.cancelled
      → ((j : String) (q : QuerySession a daemon)
          → get j s'.sessions ≡ some q
          → ((p : QuerySession a daemon) × (get j s.sessions ≡ some p))
            ⊎ (Issued s'.next_query_id j × (any (str_eq j) s.cancelled ≡ false)))
      → IsWellFormed s'
  keeps s s' w later same old = record {
    sessions_issued = λ j q e. elim (old j q e) [
      | inl (p, found) ↦
          let (issued, free) = w.sessions_issued j p found in
          (
            Issued-le s.next_query_id s'.next_query_id j later issued,
            ap (any (str_eq j)) same ∙ free,
          )
      | inr (issued, free) ↦ (issued, ap (any (str_eq j)) same ∙ free)
    ];
    cancelled_issued =
        rw same
          (All-Issued-le s.next_query_id s'.next_query_id s.cancelled later w.cancelled_issued);
  }

  started-IsWellFormed :
      Injective
      → (s : State a daemon) → IsWellFormed s
      → s.next_query_id + 1 < 2 ^ 64
      → (answered : Answered a daemon (QueryPage Json)) → StartsIfOk a daemon s answered
      → IsWellFormed answered.1
  started-IsWellFormed inj s w room (err e, s') (same, cancelled, counter) =
      keeps s s' w
        (elim counter [
          | inl e ↦ omega arith
          | inr e ↦ let one = fetch_add_one-eq s.next_query_id room in omega arith
        ])
        cancelled (λ j q found. inl (q, sym (same j) ∙ found))
  started-IsWellFormed inj s w room (ok p, s') (new, same, cancelled, counter) =
      let id = display s.next_query_id in
      let one = fetch_add_one-eq s.next_query_id room in
      keeps s s' w (omega arith) cancelled (λ j q found. elim (Bool-cases (str_eq j id)) [
        | inl e ↦
            let here : j ≡ id = (eq_iff j id).0 e in
            inr (
              (s.next_query_id, omega arith, here),
              ap (λ k. any (str_eq k) s.cancelled) here
                  ∙ not_among inj s.next_query_id s.cancelled w.cancelled_issued,
            )
        | inr e ↦
            let other : j ≢ id = λ x. let t = (eq_iff j id).1 x in cc in
            inl (q, sym (same j other) ∙ found)
      ])

  settled :
      (o o' : Option (QuerySession a daemon)) (q : QuerySession a daemon)
      → SameSettings a daemon o o'
      → o' ≡ some q
      → (p : QuerySession a daemon) × (o ≡ some p)
  settled none none q same e = cc
  settled none (some t) q same e = absurd same
  settled (some p) o' q same e = (p, refl)

  served-IsWellFormed :
      (id : String) (s : State a daemon)
      → IsWellFormed s
      → (answered : Answered a daemon (QueryPage Json)) → Serves a daemon id s answered
      → IsWellFormed answered.1
  served-IsWellFormed id s w (answer, s') (others, own, cancelled, counter) =
      keeps s s' w (omega arith) cancelled (λ j q found. elim (Bool-cases (str_eq j id)) [
        | inl e ↦
            let here : j ≡ id = (eq_iff j id).0 e in
            let (p, old) =
              settled (get id s.sessions) (get id s'.sessions) q own
                (ap (λ k. get k s'.sessions) (sym here) ∙ found) in
            inl (p, ap (λ k. get k s.sessions) here ∙ old)
        | inr e ↦
            let other : j ≢ id = λ x. let t = (eq_iff j id).1 x in cc in
            inl (q, sym (others j other) ∙ found)
      ])

  cancelled-IsWellFormed :
      (s : State a daemon) (r : QueryCancelRequest) (o : Option (QuerySession a daemon))
      → IsWellFormed s
      → get r.query_id s.sessions ≡ o
      → IsWellFormed (cancel_found a daemon r s o).1
  cancelled-IsWellFormed s r none w e = w
  cancelled-IsWellFormed s r (some session) w e = record {
    sessions_issued = λ j q found. elim (Bool-cases (str_eq j r.query_id)) [
      | inl same ↦
          let here : j ≡ r.query_id = (eq_iff j r.query_id).0 same in
          let gone =
            ap (λ k. get k (remove r.query_id s.sessions)) here
            ∙ get-remove_same r.query_id s.sessions in
          cc
      | inr differs ↦
          let other : j ≢ r.query_id = λ x. let t = (eq_iff j r.query_id).1 x in cc in
          let (issued, free) =
            w.sessions_issued j q (sym (get-remove_other j r.query_id s.sessions other) ∙ found) in
          (issued, rw (differs, free) refl)
    ];
    cancelled_issued = ((w.sessions_issued r.query_id session e).0, w.cancelled_issued);
  }

  pub serve-IsWellFormed :
      Injective
      → (s : State a daemon) (r : Request) → IsWellFormed s
      → s.next_query_id + 1 < 2 ^ 64
      → IsWellFormed (serve s r)
  unfolding query_cancel query_page
  serve-IsWellFormed inj s (start_request active elapsed params) w room =
      started-IsWellFormed inj s w room (query_start a daemon active elapsed s params)
        (query_start-StartsIfOk a daemon active elapsed s params (fresh_id inj s w))
  serve-IsWellFormed inj s (page_request active elapsed none) w room = w
  serve-IsWellFormed inj s (page_request active elapsed (some (err e))) w room = w
  serve-IsWellFormed inj s (page_request active elapsed (some (ok r))) w room =
      served-IsWellFormed r.query_id s w (query_page a daemon active elapsed s (some (ok r)))
        (query_page-Serves a daemon active elapsed s r)
  serve-IsWellFormed inj s (cancel_request none) w room = w
  serve-IsWellFormed inj s (cancel_request (some (err e))) w room = w
  serve-IsWellFormed inj s (cancel_request (some (ok r))) w room =
      cancelled-IsWellFormed s r (get r.query_id s.sessions) w refl
