-- ===== src/WinPerfCounters/Gathering/First.antt =====
-- A collector whose first host cannot be opened when `Gather` is called for the first time.
use win_perf_counters.Dict.{lookup}
use win_perf_counters.Errors.{check_error}
use win_perf_counters.Prelude.{
  ℕ, ◌≡◌, ◌≢◌, refl, inl, inr, Bool, true, false, none, Option-cases, List, [], if◌then◌else◌,
}
use win_perf_counters.Result.{Error, Result, ok, err, panic, out_of_fuel}
use win_perf_counters.Text.{Text}
use win_perf_counters.WinPerfCounters.Ensures.{Preserves}
use win_perf_counters.WinPerfCounters.Gathering.Invariant.{ignored_state}
use win_perf_counters.WinPerfCounters.Gathering.Wedged.{
  IsWedged, gather_first, gather_never_succeeds,
}
use win_perf_counters.WinPerfCounters.Gathering.{
  ignore_checked, prime_hosts, mark_refreshed, refresh, gather_data, gather, gathers,
}
use win_perf_counters.WinPerfCounters.Hosts.Broken.{IsUnopened-HasUnopened}
use win_perf_counters.WinPerfCounters.Hosts.Cleaning.{loop-HasUnopened}
use win_perf_counters.WinPerfCounters.Hosts.First.{
  IsFirst, CannotOpen, parse_config_first-IsUnopened,
}
use win_perf_counters.WinPerfCounters.Hosts.Invariants.{parse_config-Preserves}
use win_perf_counters.WinPerfCounters.Hosts.{each_host, close_hosts, clean_queries, parse_config}
use win_perf_counters.WinPerfCounters.Implementation.{QueryLaws}
use win_perf_counters.WinPerfCounters.Items.Invariants.{add_item-Preserves}
use win_perf_counters.WinPerfCounters.Items.Unopened.{new_query}
use win_perf_counters.WinPerfCounters.Model.{
  State, PerformanceQuery, System, Action, continue, pure, ◌>>=◌,
}

module _ {W Q T D : Type 0} (queries : PerformanceQuery W Q T D) (system : System W T)
    (is_open : Q → Bool) (laws : QueryLaws queries is_open) where
  -- Parsing the configuration does not mark the collector as refreshed.
  abbrev IsUnrefreshed : State W Q T D → Type 0
  IsUnrefreshed s = s.last_refreshed ≡ none

  parse_config-IsUnrefreshed : Preserves IsUnrefreshed (parse_config queries system)
  parse_config-IsUnrefreshed =
      parse_config-Preserves queries system IsUnrefreshed
        (λ path c args.
          add_item-Preserves queries system c
            (record {
              cached = λ s name i. i;
              queried = λ s h q w e i. i;
              created = λ s tag i. i;
              appended = λ s h item e n i. i;
            })
            path args)
        (λ s sources i. i)

  ignored_not_true :
      (ignored : List Text) (o : Result (Unit {0}) × State W Q T D)
      → o.0 ≢ ok tt
      → (ignore_checked queries system ignored o).0 ≢ ok true
  ignored_not_true ignored (ok u, s) h = λ e. h refl
  ignored_not_true ignored (err x, s) h = elim (Option-cases (check_error ignored x)) [
    | inl dropped ↦ rw (dropped, ignore_checked) (λ e. cc)
    | inr (x', kept) ↦ rw (kept, ignore_checked) (λ e. cc)
  ]
  ignored_not_true ignored (panic, s) h = λ e. cc
  ignored_not_true ignored (out_of_fuel, s) h = λ e. cc

  -- What follows the parsing in a refresh.
  abbrev behind_parse : Unit {0} → Action W Q T D Bool
  behind_parse u = prime_hosts queries system >>= λ go_on.
      if go_on then mark_refreshed queries system else pure false

  abbrev Spoiled : Result Bool × State W Q T D → Type 0
  Spoiled o = (o.0 ≢ ok true) × IsWedged queries system is_open laws o.1

  prime-Spoiled :
      (s : State W Q T D)
      → IsWedged queries system is_open laws s
      → Spoiled (prime_hosts queries system s)
  unfolding prime_hosts
  prime-Spoiled s v =
      let (failed, still) =
        loop-HasUnopened queries system is_open laws queries.collect_data laws.collect_unopened
          s.host_counters s.world v.unopened in
      (
        ignored_not_true s.config.ignored_errors _ failed,
        rw (ignored_state queries system s.config.ignored_errors _)
            (record { not_refreshed = v.not_refreshed; unopened = still }),
      )

  marked-Spoiled :
      (o : Result Bool × State W Q T D)
      → Spoiled o
      → Spoiled (continue o (λ go_on. if go_on then mark_refreshed queries system else pure false))
  marked-Spoiled (ok true, s) v = absurd (v.0 refl)
  marked-Spoiled (ok false, s) v = v
  marked-Spoiled (err e, s) v = v
  marked-Spoiled (panic, s) v = v
  marked-Spoiled (out_of_fuel, s) v = v

  primed-Spoiled :
      (o : Result (Unit {0}) × State W Q T D)
      → IsWedged queries system is_open laws o.1
      → Spoiled (continue o behind_parse)
  primed-Spoiled (ok u, s) v = marked-Spoiled _ (prime-Spoiled s v)
  primed-Spoiled (err e, s) v = (λ x. cc, v)
  primed-Spoiled (panic, s) v = (λ x. cc, v)
  primed-Spoiled (out_of_fuel, s) v = (λ x. cc, v)

  gathered-IsWedged :
      (o : Result Bool × State W Q T D)
      → Spoiled o
      → IsWedged queries system is_open laws
          (continue o (λ go_on. if go_on then gather_data queries system else pure tt)).1
  gathered-IsWedged (ok true, s) v = absurd (v.0 refl)
  gathered-IsWedged (ok false, s) v = v.1
  gathered-IsWedged (err e, s) v = v.1
  gathered-IsWedged (panic, s) v = v.1
  gathered-IsWedged (out_of_fuel, s) v = v.1

  -- Without hosts `cleanQueries` has nothing to close.
  refresh_first :
      (s : State W Q T D)
      → s.host_counters ≡ []
      → refresh queries system s
        ≡ continue (parse_config queries system (record s { host_counters = [] })) behind_parse
  unfolding refresh clean_queries close_hosts each_host
  refresh_first s e = rw e refl

  first-IsWedged :
      (c : Text) (s : State W Q T D)
      → s.host_counters ≡ []
      → s.last_refreshed ≡ none
      → IsFirst queries system is_open laws s.config c
      → (e : Error)
      → (queries.open_query (new_query queries system is_open laws c s) s.world).0 ≡ err e
      → IsWedged queries system is_open laws (gather queries system s).1
  first-IsWedged c s no_hosts unrefreshed f e failed =
      let s' : State W Q T D = record s { host_counters = [] } in
      let x : CannotOpen queries system is_open laws c s' = record {
        error = e;
        absent = unfold lookup in refl;
        failed = failed;
      } in
      let parsed = parse_config queries system s' in
      let wedged : IsWedged queries system is_open laws parsed.1 = record {
        not_refreshed = (parse_config-IsUnrefreshed.outcome s' unrefreshed).1;
        unopened =
            IsUnopened-HasUnopened queries system is_open laws c parsed.1.host_counters
              (parse_config_first-IsUnopened queries system is_open laws c s' f x);
      } in
      rw (gather_first queries system is_open laws s unrefreshed, refresh_first s no_hosts)
        (gathered-IsWedged _ (primed-Spoiled parsed wedged))

  -- If the query of the first host that is configured cannot be opened when `Gather` is called for
  -- the first time, then no later `Gather` succeeds, however often it is called and whatever the
  -- system answers then.
  pub first_open_failure_lasts :
      (n : ℕ) (c : Text) (s : State W Q T D) (e : Error)
      → s.host_counters ≡ []
      → s.last_refreshed ≡ none
      → IsFirst queries system is_open laws s.config c
      → (queries.open_query (new_query queries system is_open laws c s) s.world).0 ≡ err e
      → (gather queries system (gathers queries system n (gather queries system s).1).1).0 ≢ ok tt
  first_open_failure_lasts n c s e no_hosts unrefreshed f failed =
      (gather_never_succeeds queries system is_open laws n (gather queries system s).1
        (first-IsWedged c s no_hosts unrefreshed f e failed)).0
