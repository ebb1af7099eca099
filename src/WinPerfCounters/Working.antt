-- ===== src/WinPerfCounters/Working.antt =====
-- A system on which the calls for open queries succeed (the interface `PerformanceQuery` of
-- performance_query.go), and actions of the collector that succeed then.
pub mod Arrays
pub mod Implementation
use win_perf_counters.Prelude.{
  ℕ, ◌≡◌, ◌<◌, ◌^◌, sym, subst, ◌∙◌, Bool, true, false, List, [], ◌∷◌, All, if◌then◌else◌,
}
use win_perf_counters.Result.{Result, ok, err, panic, out_of_fuel, Returns}
use win_perf_counters.Text.{Text}
use win_perf_counters.WinPerfCounters.Items.{to_uint32}
use win_perf_counters.WinPerfCounters.Model.{
  PerfObject, HostCountersInfo, Hosts, State, PerformanceQuery, Action, continue, ◌>>=◌, for_each,
}

abbrev pub IsOk : {A : Type 0} → Result A → Type 0
IsOk (ok a) = Unit
IsOk (err e) = ⊥
IsOk panic = ⊥
IsOk out_of_fuel = ⊥

-- From a state with the first property the action succeeds, and leaves one with the second.
pub record Achieves {W Q T D A : Type 0} (I J : State W Q T D → Type 0) (a : Action W Q T D A)
    : Type 0 where
  pub outcome : (s : State W Q T D) → I s → IsOk (a s).0 × J (a s).1

module _ {W Q T D : Type 0} (I J K : State W Q T D → Type 0) where
  continue-Achieves :
      {A B : Type 0} (o : Result A × State W Q T D) (f : A → Action W Q T D B)
      → IsOk o.0 × J o.1
      → ((a : A) → Achieves J K (f a))
      → IsOk (continue o f).0 × K (continue o f).1
  continue-Achieves (ok a, s) f h g = (g a).outcome s h.1
  continue-Achieves (err e, s) f h g = elim h.0 [ ]
  continue-Achieves (panic, s) f h g = elim h.0 [ ]
  continue-Achieves (out_of_fuel, s) f h g = elim h.0 [ ]

  pub bind-Achieves :
      {A B : Type 0} (m : Action W Q T D A) (f : A → Action W Q T D B)
      → Achieves I J m
      → ((a : A) → Achieves J K (f a))
      → Achieves I K (m >>= f)
  bind-Achieves m f h g = record { outcome = λ s i. continue-Achieves (m s) f (h.outcome s i) g }

module _ {W Q T D : Type 0} (I J : State W Q T D → Type 0) where
  pub if-Achieves :
      {A : Type 0} (b : Bool) (m n : Action W Q T D A)
      → Achieves I J m
      → Achieves I J n
      → Achieves I J (if b then m else n)
  if-Achieves true m n h g = h
  if-Achieves false m n h g = g

pub for_each-Achieves :
    {W Q T D A : Type 0} (I : State W Q T D → Type 0) (xs : List A)
    (f : A → Action W Q T D (Unit {0}))
    → ((x : A) → Achieves I I (f x))
    → Achieves I I (for_each xs f)
for_each-Achieves I [] f h = record { outcome = λ s i. (tt, i) }
for_each-Achieves I (x ∷ xs) f h =
    bind-Achieves I I I (f x) (λ u. for_each xs f) (h x) (λ u. for_each-Achieves I xs f h)

abbrev pub AllOpen : {Q T : Type 0} → (Q → Bool) → Hosts Q T → Type 0
AllOpen is_open hosts = All (λ e. is_open e.1.query ≡ true) hosts

module _ {W Q : Type 0} (is_open : Q → Bool) where
  -- On an open query the call succeeds, and the query is still open.
  abbrev pub Works : {A : Type 0} → (Q → W → Result A × Q × W) → Type 0
  Works method =
      (q : Q) (w : W) → is_open q ≡ true → IsOk (method q w).0 × (is_open (method q w).1 ≡ true)

  -- It may also return an error.
  abbrev pub Answers : {A : Type 0} → (Q → W → Result A × Q × W) → Type 0
  Answers method =
      (q : Q) (w : W) → is_open q ≡ true → Returns (method q w).0 × (is_open (method q w).1 ≡ true)

-- New queries with a limit below 2 ^ 31 can be opened, and open ones closed; the calls for open queries that add counters and
-- collect succeed. Reading an array may fail.
pub record IsWorking {W Q T D : Type 0} (queries : PerformanceQuery W Q T D) (is_open : Q → Bool)
    : Type 0 where
  pub opens :
      (computer : Text) (size : ℕ) (w : W)
      → size < 2 ^ 31
      → let o = queries.open_query (queries.new_performance_query computer size) w in
        IsOk o.0 × (is_open o.1 ≡ true)
  pub closes : (q : Q) (w : W) → is_open q ≡ true → IsOk (queries.close q w).0
  pub adds : (path : Text) → Works is_open (queries.add_counter_to_query path)
  pub adds_english :
      queries.is_vista_or_newer ≡ true
      → (path : Text) → Works is_open (queries.add_english_counter_to_query path)
  pub collects : Works is_open queries.collect_data
  pub collects_with_time :
      (q : Q) (w : W)
      → is_open q ≡ true
      → let o = queries.collect_data_with_time q w in IsOk o.0.1 × (is_open o.1 ≡ true)
  pub reads_raw : (handle : ℕ) → Answers is_open (queries.get_raw_counter_array handle)
  pub reads_double :
      (handle : ℕ) → Answers is_open (queries.get_formatted_counter_array_double handle)

-- No expansion, these objects, a limit of the buffers below 2 ^ 31, and every query open.
pub record IsReady {W Q T D : Type 0} (is_open : Q → Bool) (objects : List PerfObject)
    (s : State W Q T D) : Type 0 where
  pub single : s.config.use_wildcards_expansion ≡ false
  pub same_objects : s.config.object ≡ objects
  pub limited : to_uint32 s.config.max_buffer_size < 2 ^ 31
  pub all_open : AllOpen is_open s.host_counters

-- The same with other hosts.
pub moved-IsReady :
    {W Q T D : Type 0} (is_open : Q → Bool) (objects : List PerfObject) (s s' : State W Q T D)
    → s'.config.use_wildcards_expansion ≡ s.config.use_wildcards_expansion
    → s'.config.object ≡ s.config.object
    → s'.config.max_buffer_size ≡ s.config.max_buffer_size
    → AllOpen is_open s'.host_counters
    → IsReady is_open objects s
    → IsReady is_open objects s'
moved-IsReady is_open objects s s' e o m opened i = record {
  single = e ∙ i.single;
  same_objects = o ∙ i.same_objects;
  limited = subst (λ n. to_uint32 n < 2 ^ 31) (sym m) i.limited;
  all_open = opened;
}
