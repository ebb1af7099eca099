-- ===== src/WinPerfCounters/Fields.antt =====
-- `shouldIncludeMetric`, `addCounterMeasurement` and `gatherComputerCounters`
-- (win_perf_counters.go). The order of a map's entries is that of their insertion here; in the
-- source it is any.
pub mod Totals
pub mod Groups
pub mod Assignments
pub mod Unique
use win_perf_counters.Dict.{lookup, insert}
use win_perf_counters.Errors.{is_known_counter_data_error}
use win_perf_counters.Int.{ℤ}
use win_perf_counters.Names
use win_perf_counters.Names.{sanitize}
use win_perf_counters.Path.{empty_instance}
use win_perf_counters.Prelude.{
  ℕ, Bool, true, false, not, ◌&&◌, ◌||◌, Option, none, some, List, [], ◌∷◌, ◌++◌, map,
  if◌then◌else◌,
}
use win_perf_counters.Query.{NamedValue}
use win_perf_counters.Result.{Error, wrapped, Result, ok, err, panic, out_of_fuel}
use win_perf_counters.Text.{Text, codes, text_eq, contains, has_prefix}
use win_perf_counters.WinPerfCounters.Items.{total_instance, any_instance}
use win_perf_counters.WinPerfCounters.Model.{
  Config, HostCountersInfo, Value, raw, double, Sample, PerformanceQuery,
}

-- `instanceGrouping`
pub record InstanceGrouping : Type 0 where
  pub name : Text
  pub instance_name : Text
  pub object_name : Text

unfoldable pub same_grouping : InstanceGrouping → InstanceGrouping → Bool
unfolding text_eq
same_grouping a b =
    text_eq a.name b.name
    && text_eq a.instance_name b.instance_name
    && text_eq a.object_name b.object_name

-- `shouldIncludeMetric`
unfoldable pub should_include_metric : Names.Counter → Text → Bool
should_include_metric metric value_name =
    if metric.include_total
    then true
    else if text_eq metric.instance_name any_instance && not (contains value_name total_instance)
    then true
    else if text_eq metric.instance_name value_name
    then true
    else if text_eq metric.instance_name empty_instance
    then true
    else false

-- The name of a value: that of the counter's instance, if the helper cut it off at its number.
unfoldable pub value_name : Names.Counter → Text → Text
unfolding contains has_prefix
value_name metric name =
    if contains metric.instance_name (codes "#") && has_prefix metric.instance_name name
    then metric.instance_name
    else name

-- `fieldGrouping`, over the type of `float64`.
abbrev pub FieldGrouping : Type 0 → Type 0
FieldGrouping D = List (InstanceGrouping × List (Text × Value D))

-- The variables of the loop: `err`, which outlives its round, and `collectedFields`.
pub record Gathering (D : Type 0) : Type 0 where
  pub last_error : Option Error
  pub groups : FieldGrouping D

abbrev pub over_result : {A B : Type 0} → (A → B) → Result A → Result B
over_result f (ok a) = ok (f a)
over_result f (err e) = err e
over_result f panic = panic
over_result f out_of_fuel = out_of_fuel

module _ {D : Type 0} where
  abbrev fields_of : Option (List (Text × Value D)) → List (Text × Value D)
  fields_of none = []
  fields_of (some fields) = fields

  -- `addCounterMeasurement`
  unfoldable pub add_counter_measurement :
      Names.Counter → Text → Value D → FieldGrouping D → FieldGrouping D
  add_counter_measurement metric instance_name value groups =
      let group : InstanceGrouping = record {
        name = metric.measurement;
        instance_name = instance_name;
        object_name = metric.object_name;
      } in
      insert same_grouping group
        (insert text_eq (sanitize metric.counter) value
          (fields_of (lookup same_grouping group groups)))
        groups

  -- The loop over the values of an array.
  unfoldable pub add_values :
      Names.Counter → List (NamedValue (Value D)) → FieldGrouping D → FieldGrouping D
  add_values metric [] groups = groups
  add_values metric (v ∷ vs) groups =
      let name = value_name metric v.name in
      add_values metric vs (
        if should_include_metric metric name
        then add_counter_measurement metric name v.value groups
        else groups)

  -- An error of a counter: known ones are logged and the counter is skipped.
  abbrev pub skip_or_return : Names.Counter → Error → Gathering D → Result (Gathering D)
  skip_or_return metric e g =
      if not (is_known_counter_data_error e) then err (wrapped metric.counter_path e) else ok g

  -- With expansion: one value for the counter.
  abbrev pub after_value : Names.Counter → Gathering D → Result (Value D) → Result (Gathering D)
  after_value metric g (ok v) = ok (record {
    last_error = none;
    groups = add_counter_measurement metric metric.instance_name v g.groups;
  })
  after_value metric g (err e) = skip_or_return metric e (record g { last_error = some e })
  after_value metric g panic = panic
  after_value metric g out_of_fuel = out_of_fuel

  -- Without: the test `err != nil`, then the loop over the values.
  abbrev pub after_array :
      Names.Counter
      → Gathering D
      → List (NamedValue (Value D))
      → Option Error
      → Result (Gathering D)
  after_array metric g values none =
      ok (record { last_error = none; groups = add_values metric values g.groups })
  after_array metric g values (some e) = skip_or_return metric e (record g { last_error = some e })

  -- `GetRawCounterArray` assigns to `err`.
  abbrev pub after_raw_array :
      Names.Counter → Gathering D → Result (List (NamedValue (Value D))) → Result (Gathering D)
  after_raw_array metric g (ok values) = after_array metric g values none
  after_raw_array metric g (err e) = after_array metric g [] (some e)
  after_raw_array metric g panic = panic
  after_raw_array metric g out_of_fuel = out_of_fuel

  -- `GetFormattedCounterArrayDouble` assigns to an `err` of the inner block; the test that follows is
  -- on the outer one, as an earlier round left it.
  abbrev pub after_double_array :
      Names.Counter → Gathering D → Result (List (NamedValue (Value D))) → Result (Gathering D)
  after_double_array metric g (ok values) = after_array metric g values g.last_error
  after_double_array metric g (err e) = after_array metric g [] g.last_error
  after_double_array metric g panic = panic
  after_double_array metric g out_of_fuel = out_of_fuel

  abbrev pub with_value : {V : Type 0} → (V → Value D) → NamedValue V → NamedValue (Value D)
  with_value f v = record { name = v.name; value = f v.value }
