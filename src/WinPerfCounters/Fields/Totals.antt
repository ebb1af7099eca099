-- ===== src/WinPerfCounters/Fields/Totals.antt =====
-- Under the wildcard for the instance no total is collected, unless it is asked for.
use win_perf_counters.Dict.{insert}
use win_perf_counters.Names
use win_perf_counters.Prelude.{
  ◌≡◌, refl, inl, inr, true, false, List, [], ◌∷◌, All, arith, Bool-cases,
}
use win_perf_counters.Path.{empty_instance}
use win_perf_counters.Query.{NamedValue}
use win_perf_counters.Text.Equality.{text_eq_iff}
use win_perf_counters.Text.{Text, text_eq, contains, has_prefix}
use win_perf_counters.WinPerfCounters.Fields.{
  InstanceGrouping, FieldGrouping, same_grouping, should_include_metric, value_name,
  add_counter_measurement, add_values,
}
use win_perf_counters.WinPerfCounters.Items.{total_instance, any_instance}
use win_perf_counters.WinPerfCounters.Model.{Value}

-- The name of the instance does not hold "_Total".
abbrev pub IsNoTotal : Text → Type 0
IsNoTotal s = contains s total_instance ≡ false

abbrev pub NoTotals : {D : Type 0} → FieldGrouping D → Type 0
NoTotals = All (λ group. IsNoTotal group.0.instance_name)

module _ (metric : Names.Counter) (any : metric.instance_name ≡ any_instance) where
  any-differs : text_eq any_instance empty_instance ≡ false
  unfolding text_eq
  any-differs = refl

  any-IsNoTotal : IsNoTotal any_instance
  unfolding contains has_prefix
  any-IsNoTotal = refl

  should_include_metric-IsNoTotal :
      (name : Text)
      → metric.include_total ≡ false
      → should_include_metric metric name ≡ true
      → IsNoTotal name
  unfolding should_include_metric
  should_include_metric-IsNoTotal name t h =
      ground (arith, any, any-differs, any-IsNoTotal, text_eq_iff any_instance name)

  insert-NoTotals :
      {D : Type 0} (group : InstanceGrouping) (fields : List (Text × Value D))
      (groups : FieldGrouping D)
      → IsNoTotal group.instance_name
      → NoTotals groups
      → NoTotals (insert same_grouping group fields groups)
  unfolding insert
  insert-NoTotals group fields [] h k = (h, tt)
  insert-NoTotals group fields ((j, v) ∷ groups) h k = elim (Bool-cases (same_grouping j group)) [
    | inl same ↦ rw same (h, k.1)
    | inr differ ↦ rw differ (k.0, insert-NoTotals group fields groups h k.1)
  ]

  add_value-NoTotals :
      {D : Type 0} (name : Text) (value : Value D) (groups : FieldGrouping D)
      → IsNoTotal name
      → NoTotals groups
      → NoTotals (add_counter_measurement metric name value groups)
  unfolding add_counter_measurement
  add_value-NoTotals name value groups h k = insert-NoTotals _ _ groups h k

  -- Of a counter with the wildcard "*" as its instance that does not include the total, no value
  -- whose name holds "_Total" is collected: if no such group was there, none is afterwards.
  pub add_values-NoTotals :
      {D : Type 0} (values : List (NamedValue (Value D))) (groups : FieldGrouping D)
      → metric.include_total ≡ false
      → NoTotals groups
      → NoTotals (add_values metric values groups)
  unfolding add_values
  add_values-NoTotals [] groups t k = k
  add_values-NoTotals (v ∷ values) groups t k =
      elim (Bool-cases (should_include_metric metric (value_name metric v.name))) [
        | inr left_out ↦ rw left_out (add_values-NoTotals values groups t k)
        | inl included ↦ rw included (
            add_values-NoTotals values
              (add_counter_measurement metric (value_name metric v.name) v.value groups) t
              (add_value-NoTotals (value_name metric v.name) v.value groups
                (should_include_metric-IsNoTotal (value_name metric v.name) t included) k))
      ]
