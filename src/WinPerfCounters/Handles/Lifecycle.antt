-- ===== src/WinPerfCounters/Handles/Lifecycle.antt =====
-- `Open` and `Close` (performance_query.go) keep account of the handle.
use mathlib.Core.List.{Perm}
use mathlib.Core.List.Perm
use win_perf_counters.Pdh.Api.{Pdh}
use win_perf_counters.Pdh.Codes.{error_success}
use win_perf_counters.Prelude.{
  ℕ, ◌≡◌, refl, ◌≢◌, sym, subst, ap, inl, inr, Bool-cases, Bool, true, false, some, List, [], ◌∷◌,
  ◌++◌, ◌==◌, if◌then◌else◌, arith,
}
use win_perf_counters.Query.Buffer.{new_pdh_error}
use win_perf_counters.Query.{Query, close, open_fresh, after_close, open_query}
use win_perf_counters.Result.{uninitialized_query, pdh, Result, ok, err, panic, out_of_fuel}
use win_perf_counters.Text.{Text}
use win_perf_counters.WinPerfCounters.Handles.{Keeps}

-- What is documented of pdh.dll: `PdhOpenQuery` opens a query, `PdhCloseQuery` closes the one that it
-- is given, each if it reports a success, and nothing else touches the queries that are open.
pub record PdhHandles {W T D : Type 0} (api : Pdh W T D) (live : W → List ℕ) : Type 0 where
  pub opened :
      (w : W)
      → (api.open_query w).0.0 ≡ error_success
      → ((api.open_query w).0.1 ≢ 0)
        × Perm (live (api.open_query w).1) ((api.open_query w).0.1 ∷ live w)
  pub not_opened :
      (w : W) → (api.open_query w).0.0 ≢ error_success → live (api.open_query w).1 ≡ live w
  pub closed :
      (h : ℕ) (hs : List ℕ) (w : W)
      → Perm (live w) (h ∷ hs)
      → (api.close_query h w).0 ≡ error_success
      → Perm (live (api.close_query h w).1) hs
  pub not_closed :
      (h : ℕ) (w : W)
      → (api.close_query h w).0 ≢ error_success
      → live (api.close_query h w).1 ≡ live w
  pub added : (h : ℕ) (path : Text) (w : W) → live (api.add_counter h path w).1 ≡ live w
  pub added_english :
      (call : ℕ → Text → W → (ℕ × ℕ) × W) (h : ℕ) (path : Text) (w : W)
      → api.add_english_counter ≡ some call
      → live (call h path w).1 ≡ live w
  pub collected : (h : ℕ) (w : W) → live (api.collect_query_data h w).1 ≡ live w
  pub collected_with_time : (h : ℕ) (w : W) → live (api.collect_query_data_with_time h w).1 ≡ live w
  pub path_read : (c size : ℕ) (w : W) → live (api.get_counter_info c size w).1 ≡ live w
  pub path_expanded :
      (path : Text) (size : ℕ) (w : W) → live (api.expand_wild_card_path path size w).1 ≡ live w
  pub raw_value : (c : ℕ) (w : W) → live (api.get_raw_value c w).1 ≡ live w
  pub double_value : (c : ℕ) (w : W) → live (api.get_formatted_double c w).1 ≡ live w
  pub raw_array : (c size : ℕ) (w : W) → live (api.get_raw_array c size w).1 ≡ live w
  pub double_array : (c size : ℕ) (w : W) → live (api.get_array_double c size w).1 ≡ live w
  pub now : (w : W) → live (api.now w).1 ≡ live w

-- A query holds its handle, if it has one.
abbrev pub handle_of : Query → List ℕ
handle_of q = if q.query_handle == 0 then [] else q.query_handle ∷ []

module _ {W T D : Type 0} (api : Pdh W T D) (live : W → List ℕ) (laws : PdhHandles api live) where
  abbrev pub IsKept : {R : Type 0} → (Query → W → R × Query × W) → Type 0
  IsKept method = Keeps live handle_of method

  -- The outcome of a method, where it is known.
  along :
      {R : Type 0} (others : List ℕ) (x o : R × Query × W)
      → x ≡ o
      → Perm (live o.2) (handle_of o.1 ++ others)
      → Perm (live x.2) (handle_of x.1 ++ others)
  along others x o e p = subst (λ y. Perm (live y.2) (handle_of y.1 ++ others)) (sym e) p

  abbrev is_success : ℕ → Bool
  is_success ret = ret == error_success

  holds_none : (q : Query) → (q.query_handle == 0) ≡ true → handle_of q ≡ []
  holds_none q shut = rw shut refl

  holds_one : (q : Query) → (q.query_handle == 0) ≡ false → handle_of q ≡ q.query_handle ∷ []
  holds_one q in_use = rw in_use refl

  pub close-Keeps : IsKept (close api)
  unfolding close
  close-Keeps others q w p = elim (Bool-cases (q.query_handle == 0)) [
    | inl shut ↦ along others (close api q w) (err uninitialized_query, q, w) (ground arith) p
    | inr in_use ↦
        let w' : W = (api.close_query q.query_handle w).1 in
        let ret : ℕ = (api.close_query q.query_handle w).0 in
        let one : Perm (live w) (q.query_handle ∷ others) =
          subst (λ l. Perm (live w) (l ++ others)) (holds_one q in_use) p in
        elim (Bool-cases (is_success ret)) [
          | inl done ↦
              along others (close api q w) (ok tt, record q { query_handle = 0 }, w') (ground arith)
                (laws.closed q.query_handle others w one (ground arith))
          | inr failed ↦
              along others (close api q w) (err (pdh (new_pdh_error api.format_message ret)), q, w')
                (ground arith)
                (subst (λ l. Perm l (handle_of q ++ others))
                  (sym (laws.not_closed q.query_handle w (λ e. ground arith))) p)
        ]
  ]

  open_fresh-Keeps :
      (others : List ℕ) (q : Query) (w : W)
      → handle_of q ≡ []
      → Perm (live w) others
      → Perm (live (open_fresh api q w).2) (handle_of (open_fresh api q w).1 ++ others)
  unfolding open_fresh
  open_fresh-Keeps others q w nothing p =
      let w' : W = (api.open_query w).1 in
      let (ret, handle) = (api.open_query w).0 in
      elim (Bool-cases (is_success ret)) [
        | inl done ↦
            let (nonzero, opened) = laws.opened w (ground arith) in
            let q' : Query = record q { query_handle = handle } in
            along others (open_fresh api q w) (ok tt, q', w') (ground arith)
              (subst (λ l. Perm (live w') (l ++ others)) (sym (holds_one q' (ground arith)))
                (Perm.trans opened (Perm.cons _ p)))
        | inr failed ↦
            along others (open_fresh api q w)
              (err (pdh (new_pdh_error api.format_message ret)), q, w') (ground arith)
              (subst (λ l. Perm l (handle_of q ++ others))
                (sym (laws.not_opened w (λ e. ground arith)))
                (subst (λ l. Perm (live w) (l ++ others)) (sym nothing) p))
      ]

  pub close_releases :
      (q : Query) (w : W) → (close api q w).0 ≡ ok tt → handle_of (close api q w).1 ≡ []
  unfolding close
  close_releases q w done = ground arith

  after_close-Keeps :
      (others : List ℕ) (q : Query) (w : W) (o : Result (Unit {0}) × Query × W)
      → close api q w ≡ o
      → Perm (live o.2) (handle_of o.1 ++ others)
      → Perm (live (after_close api o).2) (handle_of (after_close api o).1 ++ others)
  after_close-Keeps others q w (ok u, q', w') e p =
      let nothing : handle_of q' ≡ [] =
        subst (λ o. handle_of o.1 ≡ []) e (close_releases q w (ap (λ o. o.0) e)) in
      open_fresh-Keeps others q' w' nothing (subst (λ l. Perm (live w') (l ++ others)) nothing p)
  after_close-Keeps others q w (err x, q', w') e p = p
  after_close-Keeps others q w (panic, q', w') e p = p
  after_close-Keeps others q w (out_of_fuel, q', w') e p = p

  pub open_query-Keeps : IsKept (open_query api)
  unfolding open_query
  open_query-Keeps others q w p = elim (Bool-cases (q.query_handle == 0)) [
    | inl shut ↦ along others (open_query api q w) (open_fresh api q w) (rw shut refl) (
        open_fresh-Keeps others q w (holds_none q shut)
          (subst (λ l. Perm (live w) (l ++ others)) (holds_none q shut) p))
    | inr in_use ↦
        along others (open_query api q w) (after_close api (close api q w)) (rw in_use refl)
          (after_close-Keeps others q w (close api q w) refl (close-Keeps others q w p))
  ]
