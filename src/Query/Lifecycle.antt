-- ===== src/Query/Lifecycle.antt =====
-- The handle of a query over its life: what is open in the system is what the query holds.
use win_perf_counters.Pdh.Api.{Pdh}
use win_perf_counters.Pdh.Codes.{error_success}
use win_perf_counters.Prelude.{
  ℕ, ◌≡◌, refl, ◌≢◌, inl, inr, Bool-cases, List, [], ◌∷◌, ◌==◌, if◌then◌else◌, arith,
}
use win_perf_counters.Query.{Query, close, open_fresh, after_close, open_query}
use win_perf_counters.Result.{Result, ok, err, panic, out_of_fuel}

-- What the documentation of pdh.dll promises of handles. `live` are the queries that are open.
pub record HandleLaws {W T D : Type 0} (api : Pdh W T D) (live : W → List ℕ) : Type 0 where
  pub opened :
      (w : W)
      → (api.open_query w).0.0 ≡ error_success
      → ((api.open_query w).0.1 ≢ 0) × (live (api.open_query w).1 ≡ (api.open_query w).0.1 ∷ live w)
  pub not_opened :
      (w : W) → (api.open_query w).0.0 ≢ error_success → live (api.open_query w).1 ≡ live w
  pub closed :
      (h : ℕ) (hs : List ℕ) (w : W)
      → live w ≡ h ∷ hs
      → (api.close_query h w).0 ≡ error_success
      → live (api.close_query h w).1 ≡ hs
  pub not_closed :
      (h : ℕ) (w : W)
      → (api.close_query h w).0 ≢ error_success
      → live (api.close_query h w).1 ≡ live w

-- What a client does with its query.
pub data Call : Type 0 where
  opens closes : Call

-- The queries of others, and that of `q` if it is open.
abbrev pub held : Query → List ℕ → List ℕ
held q others = if q.query_handle == 0 then others else q.query_handle ∷ others

module _ {W T D : Type 0} (api : Pdh W T D) where
  -- A query that was closed without an error has no handle.
  close_clears :
      (q : Query) (w : W) (q' : Query) (w' : W) (u : Unit {0})
      → close api q w ≡ (ok u, q', w')
      → q'.query_handle ≡ 0
  unfolding close
  close_clears q w q' w' u e = ground arith

module _ {W T D : Type 0} (api : Pdh W T D) (live : W → List ℕ) (laws : HandleLaws api live) where
  -- What is open is what the query holds, beside the queries of others.
  abbrev pub Owns : List ℕ → Query × W → Type 0
  Owns others s = live s.1 ≡ held s.0 others

  -- `Close` keeps to that, on success and after an error.
  pub close-Owns :
      (others : List ℕ) (q : Query) (w : W)
      → Owns others (q, w)
      → Owns others ((close api q w).1, (close api q w).2)
  unfolding close
  close-Owns others q w own =
      ground (arith, laws.closed q.query_handle others w, laws.not_closed q.query_handle w)

  open_fresh-Owns :
      (others : List ℕ) (q : Query) (w : W)
      → q.query_handle ≡ 0
      → Owns others (q, w)
      → Owns others ((open_fresh api q w).1, (open_fresh api q w).2)
  unfolding open_fresh
  open_fresh-Owns others q w fresh own = ground (arith, laws.opened w, laws.not_opened w)

  after_close-Owns :
      (others : List ℕ) (q : Query) (w : W) (o : Result (Unit {0}) × Query × W)
      → close api q w ≡ o
      → Owns others (o.1, o.2)
      → Owns others ((after_close api o).1, (after_close api o).2)
  after_close-Owns others q w (ok u, q', w') e h =
      open_fresh-Owns others q' w' (close_clears api q w q' w' u e) h
  after_close-Owns others q w (err x, q', w') e h = h
  after_close-Owns others q w (panic, q', w') e h = h
  after_close-Owns others q w (out_of_fuel, q', w') e h = h

  -- `Open` keeps to it too: the query that was open is closed before its handle is replaced,
  -- so no handle is leaked.
  pub open_query-Owns :
      (others : List ℕ) (q : Query) (w : W)
      → Owns others (q, w)
      → Owns others ((open_query api q w).1, (open_query api q w).2)
  unfolding open_query
  open_query-Owns others q w own = elim (Bool-cases (q.query_handle == 0)) [
    | inl shut ↦ rw shut (open_fresh-Owns others q w (ground arith) own)
    | inr in_use ↦
        rw in_use (after_close-Owns others q w (close api q w) refl (close-Owns others q w own))
  ]

  -- A client's calls of `Open` and `Close`; what they return is not looked at.
  pub perform : List Call → Query × W → Query × W
  perform [] s = s
  perform (opens ∷ calls) (q, w) = perform calls ((open_query api q w).1, (open_query api q w).2)
  perform (closes ∷ calls) (q, w) = perform calls ((close api q w).1, (close api q w).2)

  -- If exactly the query's own handle is open beside the handles of others (none if it is 0), then
  -- that is so after any calls of `Open` and `Close`, failed ones included, on a system whose calls
  -- open and close what they report.
  pub perform-Owns :
      (calls : List Call) (others : List ℕ) (q : Query) (w : W)
      → Owns others (q, w)
      → Owns others (perform calls (q, w))
  unfolding perform
  perform-Owns [] others q w own = own
  perform-Owns (opens ∷ calls) others q w own =
      perform-Owns calls others (open_query api q w).1 (open_query api q w).2
        (open_query-Owns others q w own)
  perform-Owns (closes ∷ calls) others q w own =
      perform-Owns calls others (close api q w).1 (close api q w).2 (close-Owns others q w own)
