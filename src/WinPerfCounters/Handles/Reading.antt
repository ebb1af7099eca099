-- ===== src/WinPerfCounters/Handles/Reading.antt =====
-- `gatherComputerCounters` loses no handle (win_perf_counters.go).
use mathlib.Core.List.{Perm}
use win_perf_counters.Names
use win_perf_counters.Prelude.{ℕ, ◌≡◌, refl, Bool, true, false, List, [], ◌∷◌, ◌++◌, change_both}
use win_perf_counters.Result.{Result, ok, err, panic, out_of_fuel}
use win_perf_counters.WinPerfCounters.Fields.{Gathering}
use win_perf_counters.WinPerfCounters.Gathering.{
  gather_by, gather_counters, gather_computer_counters, gather_hosts,
}
use win_perf_counters.WinPerfCounters.Handles.Hosts.{handles_of}
use win_perf_counters.WinPerfCounters.Handles.{Keeps, HandleKeeping}
use win_perf_counters.WinPerfCounters.Model.{
  Config, HostCountersInfo, Hosts, PerformanceQuery, System,
}

module _ {W Q T D : Type 0} (queries : PerformanceQuery W Q T D) (system : System W T)
    (live : W → List ℕ) (holds : Q → List ℕ) (keeping : HandleKeeping queries live holds) where
  gather_by-Keeps :
      (expansion raw_value : Bool) (metric : Names.Counter) (g : Gathering D)
      → Keeps live holds (gather_by queries system expansion raw_value metric g)
  unfolding gather_by
  gather_by-Keeps true true metric g = keeping.raw_value metric.counter_handle
  gather_by-Keeps true false metric g = keeping.double_value metric.counter_handle
  gather_by-Keeps false true metric g = keeping.raw_array metric.counter_handle
  gather_by-Keeps false false metric g = keeping.double_array metric.counter_handle

  -- The rounds that follow one round, given how it ends.
  gather_next-Keeps :
      (expansion : Bool) (metric : Names.Counter) (metrics : List Names.Counter) (g : Gathering D)
      (others : List ℕ) (q : Q) (w : W) (r : Result (Gathering D))
      → (gather_by queries system expansion metric.use_raw_value metric g q w).0 ≡ r
      → Perm (live w) (holds q ++ others)
      → ((g' : Gathering D)
          → Keeps live holds (gather_counters queries system expansion metrics g'))
      → Perm
          (live (gather_counters queries system expansion (metric ∷ metrics) g q w).2)
          (holds (gather_counters queries system expansion (metric ∷ metrics) g q w).1 ++ others)
  unfolding gather_counters
  gather_next-Keeps expansion metric metrics g others q w (ok g') e p rest =
      rw (e, gather_counters)
        (rest g' others _ _ (gather_by-Keeps expansion metric.use_raw_value metric g others q w p))
  gather_next-Keeps expansion metric metrics g others q w (err x) e p rest =
      rw (e, gather_counters) (gather_by-Keeps expansion metric.use_raw_value metric g others q w p)
  gather_next-Keeps expansion metric metrics g others q w panic e p rest =
      rw (e, gather_counters) (gather_by-Keeps expansion metric.use_raw_value metric g others q w p)
  gather_next-Keeps expansion metric metrics g others q w out_of_fuel e p rest =
      rw (e, gather_counters) (gather_by-Keeps expansion metric.use_raw_value metric g others q w p)

  gather_counters-Keeps :
      (expansion : Bool) (metrics : List Names.Counter) (g : Gathering D)
      → Keeps live holds (gather_counters queries system expansion metrics g)
  gather_counters-Keeps expansion [] g others q w p = unfold gather_counters in p
  gather_counters-Keeps expansion (metric ∷ metrics) g others q w p =
      gather_next-Keeps expansion metric metrics g others q w _ refl p
        (gather_counters-Keeps expansion metrics)

  gather_computer-Keeps :
      (config : Config) (others : List ℕ) (h : HostCountersInfo Q T) (w : W)
      → Perm (live w) (holds h.query ++ others)
      → Perm
          (live (gather_computer_counters queries system config h w).2)
          (holds (gather_computer_counters queries system config h w).1.query ++ others)
  unfolding gather_computer_counters
  gather_computer-Keeps config others h w p =
      gather_counters-Keeps config.use_wildcards_expansion h.counters _ others h.query w p

  pub gather_hosts-Keeps :
      (config : Config) (hosts : Hosts Q T) (others : List ℕ) (w : W)
      → Perm (live w) (handles_of holds hosts ++ others)
      → Perm
          (live (gather_hosts queries system config hosts w).2)
          (handles_of holds (gather_hosts queries system config hosts w).1 ++ others)
  unfolding gather_hosts
  gather_hosts-Keeps config [] others w p = p
  gather_hosts-Keeps config ((k, h) ∷ hosts) others w p =
      let (samples, hosts', w') =
        gather_hosts queries system config hosts
          (gather_computer_counters queries system config h w).2 in
      change_both (holds h.query) _ (handles_of holds hosts) (handles_of holds hosts') others p
        (λ more. gather_computer-Keeps config more h w)
        (λ more. gather_hosts-Keeps config hosts more _)
