-- ===== src/WinPerfCounters/Items.antt =====
-- `hostname` and `addItem` (win_perf_counters.go). A host is reached through its key: the source
-- holds a pointer to its entry of the map.
pub mod Changes
pub mod Invariants
pub mod Others
pub mod Unopened
pub mod Grown
pub mod Single
pub mod Working
use win_perf_counters.Dict.{lookup, insert}
use win_perf_counters.Int.{ℤ, pos, negsuc}
use win_perf_counters.Names.{new_counter}
use win_perf_counters.Names
use win_perf_counters.Path.{
  CounterInfo, extract_counter_info, format_path, empty_instance, localhost,
}
use win_perf_counters.Prelude.{
  ℕ, ◌-◌, ◌%◌, ◌^◌, Bool, not, ◌&&◌, Option, none, some, List, [], ◌∷◌, ◌++◌, if◌then◌else◌,
}
use win_perf_counters.Result.{Result, ok, panic}
use win_perf_counters.Text.{Text, codes, text_eq}
use win_perf_counters.WinPerfCounters.Model.{
  Config, HostCountersInfo, Hosts, State, PerformanceQuery, System, Action, pure, continue, ◌>>=◌,
  ◌>>◌, for_each,
}

-- `uint32(m.MaxBufferSize)`
abbrev pub to_uint32 : ℤ → ℕ
to_uint32 (pos n) = n % 2 ^ 32
to_uint32 (negsuc n) = 2 ^ 32 - 1 - n % 2 ^ 32

abbrev pub total_instance : Text
total_instance = codes "_Total"

abbrev pub any_instance : Text
any_instance = codes "*"

-- What `addItem` is called with, less its path and computer.
pub record ItemArgs : Type 0 where
  pub object_name : Text
  pub instance_name : Text
  pub counter_name : Text
  pub measurement : Text
  pub include_total : Bool
  pub use_raw_value : Bool

module _ {W Q T D : Type 0} (queries : PerformanceQuery W Q T D) (system : System W T) where
  abbrev pub Act : Type 0 → Type 0
  Act = Action W Q T D

  abbrev name_or_localhost : Option Text → Text
  name_or_localhost none = localhost
  name_or_localhost (some name) = name

  -- `hostname`
  unfoldable pub hostname : Act Text
  hostname s =
      if not (text_eq s.cached_hostname [])
      then (ok s.cached_hostname, s)
      else let name = name_or_localhost (system.os_hostname s.world) in
        (ok name, record s { cached_hostname = name })

  unfoldable pub source_tag : Text → Act Text
  unfolding hostname
  source_tag computer s = if text_eq computer localhost then hostname s else (ok computer, s)

  abbrev get_host : Hosts Q T → Text → Option (HostCountersInfo Q T)
  get_host hosts computer = lookup text_eq computer hosts

  abbrev pub put_host : Text → HostCountersInfo Q T → State W Q T D → State W Q T D
  put_host computer h s = record s { host_counters = insert text_eq computer h s.host_counters }

  abbrev on_query_of :
      {A : Type 0} → Option (HostCountersInfo Q T) → Text → (Q → W → Result A × Q × W) → Act A
  on_query_of none computer method s = (panic, s)
  on_query_of (some h) computer method s =
      let (r, q, w) = method h.query s.world in
      (r, record (put_host computer (record h { query = q }) s) { world = w })

  -- A method of a host's query; a nil host would be dereferenced.
  unfoldable pub on_query : {A : Type 0} → Text → (Q → W → Result A × Q × W) → Act A
  unfolding lookup insert
  on_query computer method s = on_query_of (get_host s.host_counters computer) computer method s

  abbrev pub new_host : Config → Text → Text → HostCountersInfo Q T
  new_host config computer tag = record {
    computer = computer;
    tag = tag;
    counters = [];
    query = queries.new_performance_query computer (to_uint32 config.max_buffer_size);
    timestamp = system.zero_time;
  }

  abbrev create_if : Option (HostCountersInfo Q T) → Text → Text → Act (Unit {0})
  create_if (some h) computer tag s = (ok tt, s)
  create_if none computer tag s =
      on_query computer queries.open_query (put_host computer (new_host s.config computer tag) s)

  -- A host that is not in the map is put there before its query is opened, and stays there if that
  -- fails.
  unfoldable pub find_or_create_host : Text → Text → Act (Unit {0})
  unfolding on_query lookup
  find_or_create_host computer tag s = create_if (get_host s.host_counters computer) computer tag s

  -- The counter is added by its English name where the system can do that.
  abbrev pub add_counter_by_name : Text → Text → Act ℕ
  add_counter_by_name computer path = on_query computer (
      if not queries.is_vista_or_newer
      then queries.add_counter_to_query path
      else queries.add_english_counter_to_query path)

  abbrev append_to : Option (HostCountersInfo Q T) → Text → Names.Counter → Act (Unit {0})
  append_to none computer c s = (panic, s)
  append_to (some h) computer c s =
      (ok tt, put_host computer (record h { counters = h.counters ++ (c ∷ []) }) s)

  -- `hostCounter.counters = append(hostCounter.counters, newItem)`
  unfoldable pub append_counter : Text → Names.Counter → Act (Unit {0})
  unfolding lookup insert
  append_counter computer c s = append_to (get_host s.host_counters computer) computer c s

  abbrev lift : {A : Type 0} → Result A → Act A
  lift r s = (r, s)

  abbrev pub read_config : Act Config
  read_config s = (ok s.config, s)

  -- An expanded path whose instance is the total, under a wildcard for the instance, is left out
  -- unless the total is included.
  abbrev pub is_skipped_total : ItemArgs → Text → Bool
  is_skipped_total args found =
      text_eq found total_instance
      && text_eq args.instance_name any_instance
      && not args.include_total

  -- The item of one expanded path. With localized expansion it is the path as it was expanded;
  -- otherwise the names of the object and the counter are those of the configuration.
  unfoldable pub expanded_item :
      Text → ItemArgs → CounterInfo → Text → CounterInfo → Act Names.Counter
  unfolding on_query format_path new_counter text_eq
  expanded_item key args orig path found s =
      if not s.config.localize_wildcards_expansion
      then (let english =
            format_path found.computer orig.object
              (if text_eq found.instance_name [] then empty_instance else found.instance_name)
              orig.counter_name in
          continue (on_query key (queries.add_english_counter_to_query english) s) (λ handle. pure (
            new_counter handle english found.computer orig.object found.instance_name
              orig.counter_name args.measurement args.include_total args.use_raw_value)))
      else continue (on_query key (queries.add_counter_to_query path) s) (λ handle. pure (
          new_counter handle path found.computer found.object found.instance_name found.counter_name
            args.measurement args.include_total args.use_raw_value))

  -- One round of the loop over the expanded paths.
  unfoldable pub add_expanded : Text → ItemArgs → CounterInfo → Text → Act (Unit {0})
  unfolding on_query extract_counter_info expanded_item append_counter
  add_expanded key args orig path = do
    unused ← on_query key (queries.add_counter_to_query path)
    found ← lift (extract_counter_info path)
    item ← expanded_item key args orig path found
    if is_skipped_total args found.instance_name then pure tt else append_counter key item

  unfoldable pub add_all_expanded : Text → ItemArgs → CounterInfo → List Text → Act (Unit {0})
  unfolding add_expanded
  add_all_expanded key args orig paths = for_each paths (add_expanded key args orig)

  -- `addItem` with `UseWildcardsExpansion`.
  unfoldable pub add_with_expansion : Text → Text → ItemArgs → ℕ → Act (Unit {0})
  unfolding on_query extract_counter_info add_all_expanded
  add_with_expansion orig_path key args handle = do
    path ← on_query key (queries.get_counter_path handle)
    paths ← on_query key (queries.expand_wild_card_path path)
    orig ← lift (extract_counter_info orig_path)
    add_all_expanded key args orig paths

  -- `addItem` without.
  unfoldable pub add_single : Text → Text → ItemArgs → ℕ → Act (Unit {0})
  unfolding new_counter append_counter
  add_single path key args handle = append_counter key (
      new_counter handle path key args.object_name args.instance_name args.counter_name
        args.measurement args.include_total args.use_raw_value)

  -- `addItem`
  unfoldable pub add_item : Text → Text → ItemArgs → Act (Unit {0})
  unfolding source_tag find_or_create_host on_query add_with_expansion add_single
  add_item path computer args = do
    tag ← source_tag computer
    find_or_create_host computer tag
    handle ← add_counter_by_name computer path
    config ← read_config
    if config.use_wildcards_expansion
        then add_with_expansion path computer args handle
        else add_single path computer args handle
