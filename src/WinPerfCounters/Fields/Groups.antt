-- ===== src/WinPerfCounters/Fields/Groups.antt =====
-- The groups of fields that are collected: none is empty, and all names are clean.
use win_perf_counters.Dict.{lookup, insert}
use win_perf_counters.Names
use win_perf_counters.Names.Sanitized.{IsKept, sanitize-All}
use win_perf_counters.Names.{sanitize}
use win_perf_counters.Prelude.{
  ◌≢◌, inl, inr, Option, none, some, List, [], ◌∷◌, All, Bool-cases, arith,
}
use win_perf_counters.Query.{NamedValue}
use win_perf_counters.Result.{Error, Result, ok, err, panic, out_of_fuel, OnOk}
use win_perf_counters.Text.{Text, text_eq}
use win_perf_counters.WinPerfCounters.Fields.{
  InstanceGrouping, FieldGrouping, Gathering, same_grouping, should_include_metric, value_name,
  fields_of, add_counter_measurement, add_values, skip_or_return, after_value, after_array,
  after_raw_array, after_double_array,
}
use win_perf_counters.WinPerfCounters.Model.{Value}

-- The counter's measurement is as `newCounter` makes it.
abbrev pub IsNamed : Names.Counter → Type 0
IsNamed c = All IsKept c.measurement × (c.measurement ≢ [])

module _ {D : Type 0} where
  -- There is a field, and the names of all fields are clean.
  abbrev pub AreFields : List (Text × Value D) → Type 0
  AreFields fields = All (λ f. All IsKept f.0) fields × (fields ≢ [])

  abbrev pub AreGroups : FieldGrouping D → Type 0
  AreGroups = All (λ g. All IsKept g.0.name × (g.0.name ≢ []) × AreFields g.1)

  insert-AreFields :
      (k : Text) (v : Value D) (fields : List (Text × Value D))
      → All IsKept k
      → All (λ f. All IsKept f.0) fields
      → AreFields (insert text_eq k v fields)
  unfolding insert
  insert-AreFields k v [] h a = ((h, tt), λ e. cc)
  insert-AreFields k v ((j, w) ∷ fields) h a = elim (Bool-cases (text_eq j k)) [
    | inl same ↦ rw same ((h, a.1), λ e. cc)
    | inr differ ↦ rw differ ((a.0, (insert-AreFields k v fields h a.1).0), λ e. cc)
  ]

  lookup-AreGroups :
      (key : InstanceGrouping) (groups : FieldGrouping D)
      → AreGroups groups
      → All (λ f. All IsKept f.0) (fields_of (lookup same_grouping key groups))
  unfolding lookup
  lookup-AreGroups key [] a = tt
  lookup-AreGroups key ((j, fields) ∷ groups) a = elim (Bool-cases (same_grouping j key)) [
    | inl same ↦ rw same a.0.2.0
    | inr differ ↦ rw differ (lookup-AreGroups key groups a.1)
  ]

  insert-AreGroups :
      (key : InstanceGrouping) (fields : List (Text × Value D)) (groups : FieldGrouping D)
      → All IsKept key.name
      → key.name ≢ []
      → AreFields fields
      → AreGroups groups
      → AreGroups (insert same_grouping key fields groups)
  unfolding insert
  insert-AreGroups key fields [] h ne f a = ((h, ne, f), tt)
  insert-AreGroups key fields ((j, w) ∷ groups) h ne f a = elim (Bool-cases (same_grouping j key)) [
    | inl same ↦ rw same ((h, ne, f), a.1)
    | inr differ ↦ rw differ (a.0, insert-AreGroups key fields groups h ne f a.1)
  ]

  add_counter_measurement-AreGroups :
      (metric : Names.Counter) (name : Text) (v : Value D) (groups : FieldGrouping D)
      → IsNamed metric
      → AreGroups groups
      → AreGroups (add_counter_measurement metric name v groups)
  unfolding add_counter_measurement
  add_counter_measurement-AreGroups metric name v groups m a =
      insert-AreGroups _ _ groups m.0 m.1
        (insert-AreFields (sanitize metric.counter) v _ (sanitize-All metric.counter)
          (lookup-AreGroups _ groups a))
        a

  add_values-AreGroups :
      (metric : Names.Counter) (values : List (NamedValue (Value D))) (groups : FieldGrouping D)
      → IsNamed metric
      → AreGroups groups
      → AreGroups (add_values metric values groups)
  unfolding add_values
  add_values-AreGroups metric [] groups m a = a
  add_values-AreGroups metric (v ∷ values) groups m a =
      elim (Bool-cases (should_include_metric metric (value_name metric v.name))) [
        | inl included ↦ rw included (
            add_values-AreGroups metric values _ m (
              add_counter_measurement-AreGroups metric (value_name metric v.name) v.value groups m
                a))
        | inr left_out ↦ rw left_out (add_values-AreGroups metric values groups m a)
      ]

  -- The groups that a round leaves.
  abbrev pub Collected : Result (Gathering D) → Type 0
  Collected = OnOk (λ g. AreGroups g.groups)

  skip_or_return-Collected :
      (metric : Names.Counter) (e : Error) (g : Gathering D)
      → AreGroups g.groups
      → Collected (skip_or_return metric e g)
  skip_or_return-Collected metric e g a = ground arith

  pub after_value-Collected :
      (metric : Names.Counter) (g : Gathering D) (r : Result (Value D))
      → IsNamed metric
      → AreGroups g.groups
      → Collected (after_value metric g r)
  after_value-Collected metric g (ok v) m a =
      add_counter_measurement-AreGroups metric metric.instance_name v g.groups m a
  after_value-Collected metric g (err e) m a =
      skip_or_return-Collected metric e (record g { last_error = some e }) a
  after_value-Collected metric g panic m a = tt
  after_value-Collected metric g out_of_fuel m a = tt

  after_array-Collected :
      (metric : Names.Counter) (g : Gathering D) (values : List (NamedValue (Value D)))
      (e : Option Error)
      → IsNamed metric
      → AreGroups g.groups
      → Collected (after_array metric g values e)
  after_array-Collected metric g values none m a = add_values-AreGroups metric values g.groups m a
  after_array-Collected metric g values (some e) m a =
      skip_or_return-Collected metric e (record g { last_error = some e }) a

  pub after_raw_array-Collected :
      (metric : Names.Counter) (g : Gathering D) (r : Result (List (NamedValue (Value D))))
      → IsNamed metric
      → AreGroups g.groups
      → Collected (after_raw_array metric g r)
  after_raw_array-Collected metric g (ok values) m a =
      after_array-Collected metric g values none m a
  after_raw_array-Collected metric g (err e) m a = after_array-Collected metric g [] (some e) m a
  after_raw_array-Collected metric g panic m a = tt
  after_raw_array-Collected metric g out_of_fuel m a = tt

  pub after_double_array-Collected :
      (metric : Names.Counter) (g : Gathering D) (r : Result (List (NamedValue (Value D))))
      → IsNamed metric
      → AreGroups g.groups
      → Collected (after_double_array metric g r)
  after_double_array-Collected metric g (ok values) m a =
      after_array-Collected metric g values g.last_error m a
  after_double_array-Collected metric g (err e) m a =
      after_array-Collected metric g [] g.last_error m a
  after_double_array-Collected metric g panic m a = tt
  after_double_array-Collected metric g out_of_fuel m a = tt
