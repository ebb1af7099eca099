-- ===== src/Command/Handles.antt =====
-- The queries that are open in the system over a whole run of the command (cmd/main.go).
use mathlib.Core.List.{Perm}
use mathlib.Core.List.Perm
use win_perf_counters.Command.{call_init, run_decoded, run_main}
use win_perf_counters.Pdh.Api.{Pdh}
use win_perf_counters.Prelude.{ℕ, true, Option, none, some, List, ◌++◌}
use win_perf_counters.Query.{Query}
use win_perf_counters.WinPerfCounters.Constructor.{default_config}
use win_perf_counters.WinPerfCounters.Ensures.{keeping, bind-Preserves}
use win_perf_counters.WinPerfCounters.Gathering.Repeated.{ignored_keeps}
use win_perf_counters.WinPerfCounters.Gathering.{gathers, ignoring}
use win_perf_counters.WinPerfCounters.Handles.Gathering.{Owned, gathers-Owned}
use win_perf_counters.WinPerfCounters.Handles.Hosts.{handles_of}
use win_perf_counters.WinPerfCounters.Handles.Implementation.{performance_query-HandleKeeping}
use win_perf_counters.WinPerfCounters.Handles.Lifecycle.{PdhHandles, handle_of}
use win_perf_counters.WinPerfCounters.Handles.{IsApart}
use win_perf_counters.WinPerfCounters.Implementation.{performance_query}
use win_perf_counters.WinPerfCounters.Model.{Config, State, System}

module _ {W T D : Type 0} (api : Pdh W T D) (system : System W T) (live : W → List ℕ)
    (laws : PdhHandles api live) (apart : IsApart system live)
    (decode : Config → Option Config) where
  abbrev IsOwned : List ℕ → State W Query T D → Type 0
  IsOwned others =
      Owned (performance_query api) system live handle_of
        (performance_query-HandleKeeping api live laws) apart others

  run_decoded-Owned :
      (decoded : Option Config) (ticks : ℕ) (others : List ℕ) (s : State W Query T D)
      → IsOwned others s
      → IsOwned others (run_decoded (performance_query api) system decode decoded ticks s).1
  unfolding run_decoded
  run_decoded-Owned none ticks others s p = p
  run_decoded-Owned (some config) ticks others s p =
      ((bind-Preserves (IsOwned others)
          (ignoring (performance_query api) system
            (call_init (performance_query api) system decode))
          (λ u. gathers (performance_query api) system ticks)
          (keeping (IsOwned others) _
            (λ s' i. ignored_keeps (performance_query api) system (IsOwned others) _ i))
          (λ u.
            gathers-Owned (performance_query api) system live handle_of
              (performance_query-HandleKeeping api live laws) apart others ticks)).outcome
        (record s { config = config }) p).1

  -- On a system where PdhOpenQuery and PdhCloseQuery open and close what they report, and nothing else
  -- touches the open queries: however long the command runs, whatever is configured and whatever
  -- fails, the queries that are open at its end are those of the hosts in its map and those that were
  -- open at its start, each once. None is lost.
  pub run_main_loses_no_query :
      (ticks : ℕ) (w : W)
      → let s : State W Query T D = (run_main (performance_query api) system decode ticks w).1 in
        Perm (live s.world) (handles_of handle_of s.host_counters ++ live w)
  unfolding run_main
  run_main_loses_no_query ticks w =
      run_decoded-Owned (decode (default_config true)) ticks (live w) _ (Perm.refl (live w))
