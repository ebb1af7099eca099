-- ===== src/WinPerfCounters/Hosts/First.antt =====
-- The first item of a configuration whose host cannot be opened.
use win_perf_counters.Dict.{lookup}
use win_perf_counters.Path.{format_path}
use win_perf_counters.Prelude.{Bool, ◌≡◌, refl, sym, subst, none, List, ◌∷◌}
use win_perf_counters.Result.{Error, err}
use win_perf_counters.Text.{Text, text_eq}
use win_perf_counters.WinPerfCounters.Ensures.{for_each_first, for_each-Preserves}
use win_perf_counters.WinPerfCounters.Hosts.Broken.{StaysUnopened, add_any_item-Preserves}
use win_perf_counters.WinPerfCounters.Hosts.Invariants.{
  tolerate_state, parse_instance-Preserves, parse_computer-Preserves, parse_object-Preserves,
}
use win_perf_counters.WinPerfCounters.Hosts.{
  named_computer, item_args, parse_instance, parse_computer, parse_object, computers_of,
  default_sources, parse_objects, parse_config,
}
use win_perf_counters.WinPerfCounters.Implementation.{QueryLaws}
use win_perf_counters.WinPerfCounters.Items.Unopened.{new_query, add_item_failed_open}
use win_perf_counters.WinPerfCounters.Model.{PerfObject, Config, State, PerformanceQuery, System}

module _ {W Q T D : Type 0} (queries : PerformanceQuery W Q T D) (system : System W T)
    (is_open : Q → Bool) (laws : QueryLaws queries is_open) where
  -- The first item that is configured is for the computer `c`.
  pub record IsFirst (config : Config) (c : Text) : Type 0 where
    pub object : PerfObject
    pub objects : List PerfObject
    pub computer : Text
    pub computers : List Text
    pub counter : Text
    pub counters : List Text
    pub inst : Text
    pub insts : List Text
    pub has_object : config.object ≡ object ∷ objects
    pub has_computer :
        computers_of queries system (default_sources queries system config.sources) object.sources
        ≡ computer ∷ computers
    pub has_counter : object.counters ≡ counter ∷ counters
    pub has_inst : object.instances ≡ inst ∷ insts
    pub names : named_computer queries system computer ≡ c

  -- The state in which the host `c` is not in the map, and its query cannot be opened.
  pub record CannotOpen (c : Text) (s : State W Q T D) : Type 0 where
    pub error : Error
    pub absent : lookup text_eq c s.host_counters ≡ none
    pub failed :
        (queries.open_query (new_query queries system is_open laws c s) s.world).0 ≡ err error

  parse_instance-IsUnopened :
      (o : PerfObject) (c counter inst : Text) (s : State W Q T D)
      → CannotOpen c s
      → StaysUnopened queries system is_open laws c
          (parse_instance queries system o c counter inst s).1
  unfolding parse_instance
  parse_instance-IsUnopened o c counter inst s x =
      rw (tolerate_state queries system o.fail_on_missing _)
        (add_item_failed_open queries system is_open laws (format_path c o.object_name inst counter)
          c (item_args queries system o counter inst) s x.error x.absent x.failed).1

  parse_computer-IsUnopened :
      (config : Config) (c : Text) (f : IsFirst config c) (s : State W Q T D)
      → CannotOpen c s
      → StaysUnopened queries system is_open laws c
          (parse_computer queries system f.object f.computer s).1
  unfolding parse_computer
  parse_computer-IsUnopened config c f s x =
      let I = StaysUnopened queries system is_open laws c in
      let items = add_any_item-Preserves queries system is_open laws c in
      let name = named_computer queries system f.computer in
      let first =
        subst (λ n. I (parse_instance queries system f.object n f.counter f.inst s).1) (sym f.names)
          (parse_instance-IsUnopened f.object c f.counter f.inst s x) in
      for_each_first I f.counter f.counters _ s f.has_counter
        (for_each_first I f.inst f.insts _ s f.has_inst first
          (λ i. parse_instance-Preserves queries system I items f.object name f.counter i))
        (λ k.
          for_each-Preserves I f.object.instances _
            (λ i. parse_instance-Preserves queries system I items f.object name k i))

  -- If the query of the first host that is configured cannot be opened, the host is in the map after
  -- `parseConfig`, with a query that is not open.
  pub parse_config_first-IsUnopened :
      (c : Text) (s : State W Q T D)
      → IsFirst s.config c
      → CannotOpen c s
      → StaysUnopened queries system is_open laws c (parse_config queries system s).1
  unfolding parse_config parse_object
  parse_config_first-IsUnopened c s f x =
      let I = StaysUnopened queries system is_open laws c in
      let items = add_any_item-Preserves queries system is_open laws c in
      let common = default_sources queries system s.config.sources in
      let s' : State W Q T D = record s { config = record s.config { sources = common } } in
      let x' : CannotOpen c s' = record { error = x.error; absent = x.absent; failed = x.failed } in
      subst (λ os. I (parse_objects queries system os common s').1) (sym f.has_object)
        (for_each_first I f.object f.objects (parse_object queries system common) s' refl
          (for_each_first I f.computer f.computers _ s' f.has_computer
            (parse_computer-IsUnopened s.config c f s' x')
            (λ k. parse_computer-Preserves queries system I items f.object k))
          (λ o. parse_object-Preserves queries system I items common o))
