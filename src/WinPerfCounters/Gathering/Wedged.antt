-- ===== src/WinPerfCounters/Gathering/Wedged.antt =====
-- A collector that can no longer refresh.
use win_perf_counters.Prelude.{
  ℕ, ◌≡◌, refl, ◌≢◌, Bool, false, List, if◌then◌else◌, none, ◌∙◌, sym, ap, subst,
}
use win_perf_counters.Result.{Result, ok}
use win_perf_counters.Text.{Text}
use win_perf_counters.WinPerfCounters.Ensures.{Preserves, keeping}
use win_perf_counters.WinPerfCounters.Gathering.Repeated.{gathers-Preserves}
use win_perf_counters.WinPerfCounters.Gathering.{
  is_refresh_due, refresh, gather_data, prime_hosts, mark_refreshed, gather, gathers,
}
use win_perf_counters.WinPerfCounters.Hosts.Cleaning.{
  keys, HasUnopened, clean_queries-HasUnopened, continue_stops,
}
use win_perf_counters.WinPerfCounters.Hosts.{clean_queries, parse_config}
use win_perf_counters.WinPerfCounters.Implementation.{QueryLaws}
use win_perf_counters.WinPerfCounters.Model.{State, PerformanceQuery, System, continue, pure, ◌>>=◌}

module _ {W Q T D : Type 0} (queries : PerformanceQuery W Q T D) (system : System W T)
    (is_open : Q → Bool) (laws : QueryLaws queries is_open) where
  -- The first refresh has not succeeded, and some host's query is not open.
  pub record IsWedged (s : State W Q T D) : Type 0 where
    pub not_refreshed : s.last_refreshed ≡ none
    pub unopened : HasUnopened queries system is_open laws s.host_counters

  -- Before the first refresh `Gather` begins with one.
  pub gather_first :
      (s : State W Q T D)
      → s.last_refreshed ≡ none
      → gather queries system s
        ≡ continue
            (refresh queries system s)
            (λ go_on. if go_on then gather_data queries system else pure tt)
  unfolding gather is_refresh_due
  gather_first s e = rw e refl

  refresh-IsWedged :
      (s : State W Q T D)
      → IsWedged s
      → let (r, s') = refresh queries system s in
        ((b : Bool) → r ≢ ok b) × (IsWedged s' × (keys s'.host_counters ≡ keys s.host_counters))
  unfolding refresh
  refresh-IsWedged s v =
      let (bad, still, same_keys, same) =
        clean_queries-HasUnopened queries system is_open laws s v.unopened in
      let parse = λ (u : Unit {0}). parse_config queries system in
      let (bad', same') = continue_stops (clean_queries queries system s) parse (λ u. bad) in
      let prime = λ (u : Unit {0}).
        (prime_hosts queries system >>= λ go_on.
        if go_on then mark_refreshed queries system else pure false) in
      let (bad'', same'') =
        continue_stops (continue (clean_queries queries system s) parse) prime bad' in
      let cleaned : IsWedged (clean_queries queries system s).1 = record {
        not_refreshed = same ∙ v.not_refreshed;
        unopened = still;
      } in
      (
        bad'',
        subst (λ t. IsWedged t × (keys t.host_counters ≡ keys s.host_counters))
            (sym (same'' ∙ same')) (cleaned, same_keys),
      )

  gather-IsWedged :
      (s : State W Q T D)
      → IsWedged s
      → let (r, s') = gather queries system s in
        (r ≢ ok tt) × (IsWedged s' × (keys s'.host_counters ≡ keys s.host_counters))
  gather-IsWedged s v =
      let (bad, wedged) = refresh-IsWedged s v in
      let rest = λ (go_on : Bool). if go_on then gather_data queries system else pure tt in
      let (bad', same) = continue_stops (refresh queries system s) rest bad in
      let first = gather_first s v.not_refreshed in
      (
        rw first (bad' tt),
        subst (λ t. IsWedged t × (keys t.host_counters ≡ keys s.host_counters))
            (sym (ap (λ (o : Result (Unit {0}) × State W Q T D). o.1) first ∙ same)) wedged,
      )

  -- The same hosts, and one of them without an open query.
  abbrev WedgedWith : List Text → State W Q T D → Type 0
  WedgedWith ks s = IsWedged s × (keys s.host_counters ≡ ks)

  gathers-WedgedWith :
      (ks : List Text) (n : ℕ) → Preserves (WedgedWith ks) (gathers queries system n)
  gathers-WedgedWith ks n =
      gathers-Preserves queries system (WedgedWith ks)
        (keeping (WedgedWith ks) (gather queries system)
          (λ s v. let (bad, (wedged, same)) = gather-IsWedged s v.0 in (wedged, same ∙ v.1)))
        n

  -- If some host's query is not open before the first refresh has succeeded, then `Gather` never
  -- succeeds again, however often it is called and whatever the system answers; the map keeps the
  -- same hosts, and some host in it whose query is not open.
  pub gather_never_succeeds :
      (n : ℕ) (s : State W Q T D)
      → IsWedged s
      → let s' = (gathers queries system n s).1 in
        ((gather queries system s').0 ≢ ok tt)
        × HasUnopened queries system is_open laws s'.host_counters
        × (keys s'.host_counters ≡ keys s.host_counters)
  gather_never_succeeds n s v =
      let (wedged, same) = ((gathers-WedgedWith (keys s.host_counters) n).outcome s (v, refl)).1 in
      ((gather-IsWedged (gathers queries system n s).1 wedged).0, wedged.unopened, same)
