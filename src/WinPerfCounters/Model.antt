-- ===== src/WinPerfCounters/Model.antt =====
-- The data of win_perf_counters.go, and what it calls.
use win_perf_counters.Int.{ℤ}
use win_perf_counters.Names.{Counter}
use win_perf_counters.Prelude.{ℕ, Bool, Option, List, ◌∷◌, []}
use win_perf_counters.Query.{NamedValue}
use win_perf_counters.Result.{Error, Result, ok, err, panic, out_of_fuel}
use win_perf_counters.Text.{Text}

-- `perfObject`
pub record PerfObject : Type 0 where
  pub sources : List Text
  pub object_name : Text
  pub counters : List Text
  pub instances : List Text
  pub measurement : Text
  pub warn_on_missing : Bool
  pub fail_on_missing : Bool
  pub include_total : Bool
  pub use_raw_values : Bool

-- The part of `WinPerfCounters` that is read from the configuration. What only chooses what is
-- logged is left out. `has_collect`: a function for the collected data was given.
pub record Config : Type 0 where
  pub use_perf_counter_time : Bool
  pub object : List PerfObject
  pub counters_refresh_interval : ℤ
  pub use_wildcards_expansion : Bool
  pub localize_wildcards_expansion : Bool
  pub ignored_errors : List Text
  pub max_buffer_size : ℤ
  pub sources : List Text
  pub has_collect : Bool

-- `hostCountersInfo`; `Q` are the queries and `T` the times.
pub record HostCountersInfo (Q T : Type 0) : Type 0 where
  pub computer : Text
  pub tag : Text
  pub counters : List Counter
  pub query : Q
  pub timestamp : T

abbrev pub Hosts : Type 0 → Type 0 → Type 0
Hosts Q T = List (Text × HostCountersInfo Q T)

-- A collected value: `interface{}` over an `int64` or a `float64`.
pub data Value (D : Type 0) : Type 0 where
  raw : ℤ → Value D
  double : D → Value D

-- One call of the function for the collected data.
pub record Sample (T D : Type 0) : Type 0 where
  pub measurement : Text
  pub fields : List (Text × Value D)
  pub tags : List (Text × Text)
  pub timestamp : T

-- `WinPerfCounters` with the system `world` that it runs in. `last_refreshed` is `none` for the zero
-- time. `samples` are the calls of the function for the collected data, the first one first.
pub record State (W Q T D : Type 0) : Type 0 where
  pub config : Config
  pub last_refreshed : Option T
  pub host_counters : Hosts Q T
  pub cached_hostname : Text
  pub samples : List (Sample T D)
  pub world : W

-- The interface `PerformanceQuery` with its creator, as far as win_perf_counters.go calls it.
pub record PerformanceQuery (W Q T D : Type 0) : Type 0 where
  pub new_performance_query : Text → ℕ → Q
  pub open_query : Q → W → Result (Unit {0}) × Q × W
  pub close : Q → W → Result (Unit {0}) × Q × W
  pub add_counter_to_query : Text → Q → W → Result ℕ × Q × W
  pub add_english_counter_to_query : Text → Q → W → Result ℕ × Q × W
  pub get_counter_path : ℕ → Q → W → Result Text × Q × W
  pub expand_wild_card_path : Text → Q → W → Result (List Text) × Q × W
  pub get_raw_counter_value : ℕ → Q → W → Result ℤ × Q × W
  pub get_formatted_counter_value_double : ℕ → Q → W → Result D × Q × W
  pub get_raw_counter_array : ℕ → Q → W → Result (List (NamedValue ℤ)) × Q × W
  pub get_formatted_counter_array_double : ℕ → Q → W → Result (List (NamedValue D)) × Q × W
  pub collect_data : Q → W → Result (Unit {0}) × Q × W
  pub collect_data_with_time : Q → W → (T × Result (Unit {0})) × Q × W
  pub is_vista_or_newer : Bool

-- The clock and the host's name. `passed last interval now`: `last.Add(interval).Before(now)`.
pub record System (W T : Type 0) : Type 0 where
  pub now : W → T × W
  pub zero_time : T
  pub passed : T → ℤ → T → Bool
  pub sleep : W → W
  pub os_hostname : W → Option Text

-- An action on that state; what it changed stays changed after an error.
abbrev pub Action : Type 0 → Type 0 → Type 0 → Type 0 → Type 0 → Type 0
Action W Q T D A = State W Q T D → Result A × State W Q T D

module _ {W Q T D : Type 0} where
  abbrev pub pure : {A : Type 0} → A → Action W Q T D A
  pure a s = (ok a, s)

  abbrev pub fail : {A : Type 0} → Error → Action W Q T D A
  fail e s = (err e, s)

  abbrev pub continue :
      {A B : Type 0} → Result A × State W Q T D → (A → Action W Q T D B) → Result B × State W Q T D
  continue (ok a, s) f = f a s
  continue (err e, s) f = (err e, s)
  continue (panic, s) f = (panic, s)
  continue (out_of_fuel, s) f = (out_of_fuel, s)

  infixl 5 ◌>>=◌ ◌>>◌
  abbrev pub ◌>>=◌ : {A B : Type 0} → Action W Q T D A → (A → Action W Q T D B) → Action W Q T D B
  ◌>>=◌ m f s = continue (m s) f

  abbrev pub ◌>>◌ : {A B : Type 0} → Action W Q T D A → Action W Q T D B → Action W Q T D B
  m >> k = m >>= λ _. k

  abbrev pub for_each :
      {A : Type 0} → List A → (A → Action W Q T D (Unit {0})) → Action W Q T D (Unit {0})
  for_each [] f = pure tt
  for_each (x ∷ xs) f = f x >> for_each xs f
