-- ===== src/Tests/HandleExamples.antt =====
-- The handles over a run of the command on the small system.
use mathlib.Core.List.{Perm}
use mathlib.Core.List.Perm
use win_perf_counters.Command.Handles.{run_main_loses_no_query}
use win_perf_counters.Command.{run_main}
use win_perf_counters.Pdh.Codes.{error_success}
use win_perf_counters.Prelude.{
  ℕ, ◌≡◌, ◌≢◌, refl, subst, some, List, [], ◌∷◌, ◌++◌, ltb, ◌==◌, length, Bool-cases, inl, inr,
  arith,
}
use win_perf_counters.Query.{Query}
use win_perf_counters.Tests.Machine.{
  Machine, machine, machine_queries, close_slot, clock, memory, stuck, unopened_host,
}
use win_perf_counters.Query.{close}
use win_perf_counters.Result.{ok}
use win_perf_counters.Text.{codes}
use win_perf_counters.WinPerfCounters.Handles.Gathering.{clean_queries_closes_all}
use win_perf_counters.WinPerfCounters.Handles.Implementation.{performance_query-HandleKeeping}
use win_perf_counters.WinPerfCounters.Hosts.{each_host, close_hosts, clean_queries}
use win_perf_counters.WinPerfCounters.Handles.Hosts.{handles_of}
use win_perf_counters.WinPerfCounters.Handles.Lifecycle.{PdhHandles, handle_of}
use win_perf_counters.WinPerfCounters.Handles.{IsApart}
use win_perf_counters.WinPerfCounters.Model.{State}

abbrev slots : Machine → List ℕ
slots w = w

closed_slot :
    (h : ℕ) (hs : List ℕ) (w : Machine)
    → Perm w (h ∷ hs)
    → (close_slot h w).0 ≡ error_success
    → Perm (close_slot h w).1 hs
closed_slot h hs [] p done = absurd (omega (arith, done))
closed_slot h hs (x ∷ w) p done = elim (Bool-cases (x == h)) [
  | inl same ↦
      let e : x ≡ h = ground (arith, same) in
      rw same (Perm.cons_inv (subst (λ y. Perm (y ∷ w) (h ∷ hs)) e p))
  | inr differ ↦ absurd (ground (arith, rw differ at done))
]

kept_slot : (h : ℕ) (w : Machine) → (close_slot h w).0 ≢ error_success → (close_slot h w).1 ≡ w
kept_slot h [] failed = refl
kept_slot h (x ∷ w) failed = elim (Bool-cases (x == h)) [
  | inl same ↦ absurd (failed (rw same refl))
  | inr differ ↦ rw differ refl
]

machine_handles : PdhHandles machine slots
machine_handles = record {
  opened = λ w done. elim (Bool-cases (ltb (length w) 2)) [
    | inl room ↦ rw room (λ e. omega (arith, e), Perm.refl _)
    | inr full ↦ absurd (ground (arith, rw full at done))
  ];
  not_opened = λ w failed. elim (Bool-cases (ltb (length w) 2)) [
    | inl room ↦ absurd (failed (rw room refl))
    | inr full ↦ rw full refl
  ];
  closed = closed_slot;
  not_closed = kept_slot;
  added = λ h path w. refl;
  added_english = λ call h path w e. absurd (ground arith);
  collected = λ h w. refl;
  collected_with_time = λ h w. refl;
  path_read = λ c size w. refl;
  path_expanded = λ path size w. refl;
  raw_value = λ c w. refl;
  double_value = λ c w. refl;
  raw_array = λ c size w. refl;
  double_array = λ c size w. refl;
  now = λ w. refl;
}

abbrev clock_apart : IsApart clock slots
clock_apart = record { now = λ w. refl; sleep = λ w. refl }

run_main_loses_no_query_example :
    let s : State Machine Query ℕ ℕ =
      (run_main machine_queries clock (λ m. some (record m { object = memory ∷ [] })) 2 []).1 in
    Perm s.world (handles_of handle_of s.host_counters ++ [])
run_main_loses_no_query_example =
    run_main_loses_no_query machine clock slots machine_handles clock_apart
      (λ m. some (record m { object = memory ∷ [] })) 2 []

-- One query is open, that of the host "box".
abbrev one_open : State Machine Query ℕ ℕ
one_open = record stuck {
  host_counters =
      (
        codes "box",
        record unopened_host { query = record { max_buffer_size = 2048; query_handle = 1 } },
      )
      ∷ [];
  world = 1 ∷ [];
}

box_closed : (clean_queries machine_queries clock one_open).0 ≡ ok tt
unfolding clean_queries close_hosts each_host close
box_closed = refl

clean_queries_closes_all_example : Perm (clean_queries machine_queries clock one_open).1.world []
clean_queries_closes_all_example =
    clean_queries_closes_all machine_queries clock slots handle_of
      (performance_query-HandleKeeping machine slots machine_handles) clock_apart [] one_open
      (Perm.refl (1 ∷ [])) box_closed
