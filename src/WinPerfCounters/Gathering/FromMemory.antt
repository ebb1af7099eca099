-- ===== src/WinPerfCounters/Gathering/FromMemory.antt =====
-- From the memory that PDH documents to the calls of the function for the collected data
-- (win_perf_counters.go over performance_query.go and pdh.go).
use win_perf_counters.Names
use win_perf_counters.Pdh.Calls.{pdh_dll}
use win_perf_counters.Pdh.Dll.{Written, Dll, Runtime, pdh_fmt_double_nocap100}
use win_perf_counters.Pdh.Layout.Amd64
use win_perf_counters.Pdh.Layout.Arm64
use win_perf_counters.Pdh.Layout.{Layouts}
use win_perf_counters.Pdh.Reading.Arrays.{memory_of, IsEntry}
use win_perf_counters.Pdh.Reading.Documented.{Value, IsValue, value_bytes, Entry, array_bytes}
use win_perf_counters.Prelude.{
  ℕ, ◌^◌, ◌≤◌, ◌≡◌, ◌⊎◌, refl, true, false, List, [], ◌∷◌, ◌++◌, map, length, All,
}
use win_perf_counters.Query.Buffer.{initial_buffer_size}
use win_perf_counters.Query.Documented.{
  IsNamed, named_values, get_formatted_counter_array_double-Documented,
}
use win_perf_counters.Query.{Query}
use win_perf_counters.Result.{ok}
use win_perf_counters.Text.{Text}
use win_perf_counters.WinPerfCounters.Fields.Assignments.{
  Assignment, latest, assignments_of, field_at,
}
use win_perf_counters.WinPerfCounters.Fields.Unique.{NodupFields}
use win_perf_counters.WinPerfCounters.Fields.{InstanceGrouping, FieldGrouping, with_value}
use win_perf_counters.WinPerfCounters.Gathering.Collected.{
  read_all, gather_computer_counters-latest,
}
use win_perf_counters.WinPerfCounters.Gathering.{sample_of, gather_computer_counters}
use win_perf_counters.WinPerfCounters.Implementation.{performance_query}
use win_perf_counters.WinPerfCounters.Model.{Config, HostCountersInfo, double, System}

-- What PDH writes for one counter: the values of its instances, and the memory behind the addresses
-- of their names.
pub record Answer : Type 0 where
  pub entries : List (Entry Value)
  pub units_at : ℕ → List ℕ
  pub name : Entry Value → List ℕ
  pub after : Entry Value → List ℕ
  pub rest : List ℕ
  pub size : ℕ

abbrev pub IsAnswer : Answer → Type 0
IsAnswer a =
    (length a.entries ≤ 2 ^ 20)
    × All (IsEntry 64 IsValue) a.entries
    × All (IsNamed a.units_at a.name a.after) a.entries

abbrev pub written : Answer → Written
written a = record {
  ret = 0;
  size = a.size;
  count = length a.entries;
  memory = memory_of a.units_at (array_bytes value_bytes 8 a.entries a.rest);
}

module _ {W T D : Type 0} (layouts : Layouts) (go : Runtime W T D) (dll : Dll W)
    (system : System W T) where
  -- PDH answers for each counter, all of them formatted, in the first buffer.
  abbrev pub Answers : List Names.Counter → List Answer → W → W → Type 0
  Answers [] [] w w' = w ≡ w'
  Answers (metric ∷ metrics) (a ∷ answers) w w' =
      (metric.use_raw_value ≡ false)
      × IsAnswer a
      × ((v : W) × (dll.get_formatted_counter_array_w metric.counter_handle pdh_fmt_double_nocap100
              initial_buffer_size w
            ≡ (written a, v))
          × Answers metrics answers v w')
  Answers _ _ w w' = ⊥

  -- The values that count, in the order of the counters and of their instances.
  abbrev pub answered : List Names.Counter → List Answer → List (Assignment D)
  answered (metric ∷ metrics) (a ∷ answers) =
      assignments_of metric
        (map (with_value double) (named_values go.float64_of_bits a.name a.entries))
      ++ answered metrics answers
  answered _ _ = []

  read_all-Answers :
      (metrics : List Names.Counter) (answers : List Answer) (q : Query) (w w' : W)
      → (layouts ≡ Amd64.layouts) ⊎ (layouts ≡ Arm64.layouts)
      → initial_buffer_size ≤ q.max_buffer_size
      → Answers metrics answers w w'
      → read_all (performance_query (pdh_dll layouts go dll)) system false metrics q w
        ≡ (ok (answered metrics answers), q, w')
  unfolding read_all
  read_all-Answers [] [] q w w' known allowed e = rw e refl
  read_all-Answers [] (a ∷ answers) q w w' known allowed e = absurd e
  read_all-Answers (metric ∷ metrics) [] q w w' known allowed e = absurd e
  read_all-Answers (metric ∷ metrics) (a ∷ answers) q w w' known allowed
        (formatted, (short, fits, named), (v, filled, more)) =
      let first =
        get_formatted_counter_array_double-Documented layouts go dll a.units_at a.name a.after
          a.entries a.rest metric.counter_handle a.size q w v known allowed short fits named
          filled in
      rw (formatted, first, read_all-Answers metrics answers q v w' known allowed more) refl

  -- On amd64 and arm64, without expansion, with a function for the collected data and a first buffer
  -- that is allowed: if PDH answers for each counter of the host, all of them formatted, with at most
  -- 2 ^ 20 values as documented, each with a name that a zero ends, then that function is called once
  -- for each group of a list in which no group and no field stands twice, and each field holds the
  -- last value with valid or new data in those answers that counts for it.
  pub gather_computer_counters-Documented :
      (config : Config) (h : HostCountersInfo Query T) (answers : List Answer) (w w' : W)
      → (layouts ≡ Amd64.layouts) ⊎ (layouts ≡ Arm64.layouts)
      → initial_buffer_size ≤ h.query.max_buffer_size
      → config.use_wildcards_expansion ≡ false
      → config.has_collect ≡ true
      → Answers h.counters answers w w'
      → (groups : FieldGrouping D) × (gather_computer_counters
            (performance_query (pdh_dll layouts go dll))
            system
            config
            h
            w
          ≡ (
            ok (map (sample_of (performance_query (pdh_dll layouts go dll)) system h) groups),
            h,
            w',
          ))
        × NodupFields groups
        × ((group : InstanceGrouping) (field : Text)
            → field_at group field groups ≡ latest group field (answered h.counters answers))
  gather_computer_counters-Documented config h answers w w' known allowed arrays collect a =
      gather_computer_counters-latest (performance_query (pdh_dll layouts go dll)) system config h w
        (answered h.counters answers) h.query w' collect
        (rw arrays (read_all-Answers h.counters answers h.query w w' known allowed a))
