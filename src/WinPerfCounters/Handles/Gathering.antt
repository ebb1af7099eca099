-- ===== src/WinPerfCounters/Handles/Gathering.antt =====
-- `Gather` loses no handle (win_perf_counters.go), and neither does the command (cmd/main.go).
use mathlib.Core.List.{Perm}
use win_perf_counters.Int.{ℤ}
use win_perf_counters.Prelude.{
  ℕ, ◌≡◌, refl, sym, subst, Bool, true, false, ◌&&◌, Option, none, some, List, [], ◌∷◌, ◌++◌,
  either_branch, arith,
}
use win_perf_counters.Result.{Result, ok, err, panic, out_of_fuel}
use win_perf_counters.Text.{Text}
use win_perf_counters.WinPerfCounters.Ensures.{
  Preserves, keeping, bind-Preserves, pure-Preserves, if-Ensures,
}
use win_perf_counters.WinPerfCounters.Gathering.Invariant.{ignored_state}
use win_perf_counters.WinPerfCounters.Gathering.Repeated.{gathers-Preserves}
use win_perf_counters.WinPerfCounters.Gathering.{
  is_positive, due_since, is_refresh_due, prime_hosts, mark_refreshed, refresh, collect_host,
  collect_hosts, gather_samples, gather_data, gather, gathers,
}
use win_perf_counters.WinPerfCounters.Handles.Hosts.{handles_of, each_host-Keeps}
use win_perf_counters.WinPerfCounters.Handles.Items.{Owns, parse_config-Owns}
use win_perf_counters.WinPerfCounters.Handles.Reading.{gather_hosts-Keeps}
use win_perf_counters.WinPerfCounters.Handles.{Keeps, HandleKeeping, IsApart}
use win_perf_counters.WinPerfCounters.Hosts.{
  each_host, in_hosts, on_host, close_hosts, forget_hosts, clean_queries,
}
use win_perf_counters.WinPerfCounters.Model.{
  Config, HostCountersInfo, Hosts, State, PerformanceQuery, System, continue,
}

module _ {W Q T D : Type 0} (queries : PerformanceQuery W Q T D) (system : System W T)
    (live : W → List ℕ) (holds : Q → List ℕ) (handles : HandleKeeping queries live holds)
    (apart : IsApart system live) (others : List ℕ) where
  abbrev pub Owned : State W Q T D → Type 0
  Owned = Owns queries system live holds handles others

  -- A change of the system that leaves the open queries alone.
  moved : {l : List ℕ} {w w' : W} → live w' ≡ live w → Perm (live w) l → Perm (live w') l
  moved {l} e p = subst (λ m. Perm m l) (sym e) p

  due_since_apart :
      (last : Option T) (interval : ℤ) (w : W)
      → live (due_since queries system last interval w).1 ≡ live w
  due_since_apart none interval w = refl
  due_since_apart (some last) interval w =
      either_branch {A = Bool × W} (λ o. live o.1 ≡ live w) (is_positive queries system interval)
        (apart.now w) refl

  is_refresh_due-Owned : Preserves Owned (is_refresh_due queries system)
  unfolding is_refresh_due
  is_refresh_due-Owned =
      keeping Owned _ (λ s p.
        moved (due_since_apart s.last_refreshed s.config.counters_refresh_interval s.world) p)

  on_host-Keeps :
      (method : Q → W → Result (Unit {0}) × Q × W)
      → Keeps live holds method
      → (more : List ℕ) (h : HostCountersInfo Q T) (w : W) → Perm (live w) (holds h.query ++ more)
      → Perm
          (live (on_host queries system method h w).2)
          (holds (on_host queries system method h w).1.query ++ more)
  on_host-Keeps method keeps more h w p = keeps more h.query w p

  prime_hosts-Owned : Preserves Owned (prime_hosts queries system)
  unfolding prime_hosts
  prime_hosts-Owned = keeping Owned _ (λ s p.
      rw (ignored_state queries system s.config.ignored_errors _) (
        each_host-Keeps live holds _ (on_host-Keeps queries.collect_data handles.collected)
          s.host_counters others s.world p))

  mark_refreshed-Owned : Preserves Owned (mark_refreshed queries system)
  unfolding mark_refreshed
  mark_refreshed-Owned =
      keeping Owned _ (λ s p. moved (apart.sleep _) (moved (apart.now s.world) p))

  collect_host-Keeps :
      (config : Config) (more : List ℕ) (h : HostCountersInfo Q T) (w : W)
      → Perm (live w) (holds h.query ++ more)
      → Perm
          (live (collect_host queries system config h w).2)
          (holds (collect_host queries system config h w).1.query ++ more)
  unfolding collect_host
  collect_host-Keeps config more h w p =
      either_branch {A = Result (Unit {0}) × HostCountersInfo Q T × W}
        (λ o. Perm (live o.2) (holds o.1.query ++ more))
        (config.use_perf_counter_time && queries.is_vista_or_newer)
        (handles.collected_with_time more h.query w p)
        (handles.collected more h.query (system.now w).1 (moved (apart.now w) p))

  collect_hosts-Owned : Preserves Owned (collect_hosts queries system)
  unfolding collect_hosts
  collect_hosts-Owned = keeping Owned _ (λ s p.
      each_host-Keeps live holds _ (collect_host-Keeps s.config) s.host_counters others s.world p)

  gather_samples-Owned : Preserves Owned (gather_samples queries system)
  unfolding gather_samples
  gather_samples-Owned = keeping Owned _ (λ s p.
      (gather_hosts-Keeps queries system live holds handles s.config s.host_counters others s.world
        p))

  -- The handles of hosts whose queries were all closed.
  each_closed :
      (k : Text) (h : HostCountersInfo Q T) (hosts : Hosts Q T) (w : W) (r : Result (Unit {0}))
      → (queries.close h.query w).0 ≡ r
      → ((w' : W)
          → (each_host (on_host queries system queries.close) hosts w').0 ≡ ok tt
          → handles_of holds (each_host (on_host queries system queries.close) hosts w').1 ≡ [])
      → (each_host (on_host queries system queries.close) ((k, h) ∷ hosts) w).0 ≡ ok tt
      → handles_of holds (each_host (on_host queries system queries.close) ((k, h) ∷ hosts) w).1
        ≡ []
  unfolding each_host
  each_closed k h hosts w (ok u) e rest succeeded =
      let others_closed = rest (queries.close h.query w).2 (rw (e, each_host) at succeeded) in
      rw (e, each_host) (rw (handles.released h.query w e, others_closed) refl)
  each_closed k h hosts w (err x) e rest succeeded =
      absurd (ground (arith, rw (e, each_host) at succeeded))
  each_closed k h hosts w panic e rest succeeded =
      absurd (ground (arith, rw (e, each_host) at succeeded))
  each_closed k h hosts w out_of_fuel e rest succeeded =
      absurd (ground (arith, rw (e, each_host) at succeeded))

  all_closed :
      (hosts : Hosts Q T) (w : W)
      → (each_host (on_host queries system queries.close) hosts w).0 ≡ ok tt
      → handles_of holds (each_host (on_host queries system queries.close) hosts w).1 ≡ []
  all_closed [] w succeeded = unfold each_host in refl
  all_closed ((k, h) ∷ hosts) w succeeded =
      each_closed k h hosts w _ refl (all_closed hosts) succeeded

  -- The map is emptied only behind a loop that closed every query.
  forgotten :
      (s : State W Q T D) (r : Result (Unit {0})) (hosts : Hosts Q T) (w : W)
      → (r ≡ ok tt → handles_of holds hosts ≡ [])
      → Perm (live w) (handles_of holds hosts ++ others)
      → Owned
          (continue (in_hosts queries system (r, hosts, w) s) (λ u. forget_hosts queries system)).1
  forgotten s (ok tt) hosts w closed p = subst (λ l. Perm (live w) (l ++ others)) (closed refl) p
  forgotten s (err e) hosts w closed p = p
  forgotten s panic hosts w closed p = p
  forgotten s out_of_fuel hosts w closed p = p

  clean_queries-Owned : Preserves Owned (clean_queries queries system)
  unfolding clean_queries close_hosts
  clean_queries-Owned = keeping Owned _ (λ s p.
      forgotten s _ _ _ (all_closed s.host_counters s.world) (
        each_host-Keeps live holds _ (on_host-Keeps queries.close handles.closed) s.host_counters
          others s.world p))

  refresh-Owned : Preserves Owned (refresh queries system)
  unfolding refresh
  refresh-Owned =
      bind-Preserves Owned _ _
        (bind-Preserves Owned _ _ clean_queries-Owned
          (λ u. parse_config-Owns queries system live holds handles others))
        (λ u.
          bind-Preserves Owned _ _ prime_hosts-Owned
            (λ go_on. if-Ensures Owned go_on _ _ mark_refreshed-Owned (pure-Preserves Owned false)))

  gather_data-Owned : Preserves Owned (gather_data queries system)
  unfolding gather_data
  gather_data-Owned = bind-Preserves Owned _ _ collect_hosts-Owned (λ u. gather_samples-Owned)

  gather-Owned : Preserves Owned (gather queries system)
  unfolding gather
  gather-Owned = bind-Preserves Owned _ _ is_refresh_due-Owned (λ due.
      bind-Preserves Owned _ _ (if-Ensures Owned due _ _ refresh-Owned (pure-Preserves Owned true))
        (λ go_on. if-Ensures Owned go_on _ _ gather_data-Owned (pure-Preserves Owned tt)))

  -- However often `Gather` is called and whatever fails: if the open queries are those that the hosts
  -- hold and those of others, then that is so afterwards.
  pub gathers-Owned : (n : ℕ) → Preserves Owned (gathers queries system n)
  gathers-Owned n = gathers-Preserves queries system Owned gather-Owned n

  emptied :
      (s : State W Q T D) (r : Result (Unit {0})) (hosts : Hosts Q T) (w : W)
      → (let o =
            continue (in_hosts queries system (r, hosts, w) s) (λ u. forget_hosts queries system) in
          o.0 ≡ ok tt → o.1.host_counters ≡ [])
  emptied s (ok tt) hosts w done = refl
  emptied s (err e) hosts w done = absurd (ground arith)
  emptied s panic hosts w done = absurd (ground arith)
  emptied s out_of_fuel hosts w done = absurd (ground arith)

  -- After a `cleanQueries` that succeeded only the queries of others are open.
  pub clean_queries_closes_all :
      (s : State W Q T D)
      → Owned s
      → (clean_queries queries system s).0 ≡ ok tt
      → Perm (live (clean_queries queries system s).1.world) others
  unfolding clean_queries close_hosts
  clean_queries_closes_all s p done =
      let nothing = emptied s _ _ _ done in
      subst
        (λ hosts.
          Perm (live (clean_queries queries system s).1.world) (handles_of holds hosts ++ others))
        nothing (clean_queries-Owned.outcome s p).1
