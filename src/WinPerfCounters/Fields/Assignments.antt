-- ===== src/WinPerfCounters/Fields/Assignments.antt =====
-- The collected fields as what a sequence of assignments leaves (`addCounterMeasurement` and the
-- loop over the values of an array, win_perf_counters.go).
use win_perf_counters.Dict.Laws.{lookup-insert_all}
use win_perf_counters.Dict.{lookup, insert}
use win_perf_counters.Names
use win_perf_counters.Names.{sanitize}
use win_perf_counters.Path.{empty_instance}
use win_perf_counters.Prelude.{
  ◌≡◌, refl, ◌↔◌, ap, ◌∙◌, Bool, true, false, not, ◌&&◌, ◌||◌, Option, none, some, List, [], ◌∷◌,
  if◌then◌else◌, arith, inl, inr, Bool-cases,
}
use win_perf_counters.Query.{NamedValue}
use win_perf_counters.Text.Equality.{text_eq_iff}
use win_perf_counters.Text.{Text, text_eq, contains}
use win_perf_counters.WinPerfCounters.Fields.{
  InstanceGrouping, FieldGrouping, same_grouping, should_include_metric, value_name, fields_of,
  add_counter_measurement, add_values,
}
use win_perf_counters.WinPerfCounters.Items.{total_instance, any_instance}
use win_perf_counters.WinPerfCounters.Model.{Value}

-- One value for one field of one group.
pub record Assignment (D : Type 0) : Type 0 where
  pub group : InstanceGrouping
  pub field : Text
  pub value : Value D

abbrev pub assigns : {D : Type 0} → InstanceGrouping → Text → Assignment D → Bool
assigns group field a = same_grouping a.group group && text_eq a.field field

-- The value of the last assignment to a field of a group.
abbrev pub latest : {D : Type 0} → InstanceGrouping → Text → List (Assignment D) → Option (Value D)
latest group field [] = none
latest group field (a ∷ later) = elim (latest group field later) [
  | some v ↦ some v
  | none ↦ if assigns group field a then some a.value else none
]

-- Which values of an array count: all of them if totals are wanted or the counter has no instance,
-- that of the counter's own instance, and under "*" those whose name does not hold "_Total".
abbrev pub is_included : Names.Counter → Text → Bool
is_included metric name =
    metric.include_total
    || text_eq metric.instance_name empty_instance
    || text_eq metric.instance_name name
    || (text_eq metric.instance_name any_instance && not (contains name total_instance))

abbrev pub assignment_of : {D : Type 0} → Names.Counter → Text → Value D → Assignment D
assignment_of metric name value = record {
  group = record {
    name = metric.measurement;
    instance_name = name;
    object_name = metric.object_name;
  };
  field = sanitize metric.counter;
  value = value;
}

-- The assignments for the values of an array.
abbrev pub assignments_of :
    {D : Type 0} → Names.Counter → List (NamedValue (Value D)) → List (Assignment D)
assignments_of metric [] = []
assignments_of metric (v ∷ values) =
    if is_included metric (value_name metric v.name)
    then assignment_of metric (value_name metric v.name) v.value ∷ assignments_of metric values
    else assignments_of metric values

-- The group that a value goes to is compared field by field.
pub same_grouping_iff : (a b : InstanceGrouping) → (same_grouping a b ≡ true) ↔ (a ≡ b)
unfolding same_grouping
same_grouping_iff a b = ground (
  arith,
  text_eq_iff a.name b.name,
  text_eq_iff a.instance_name b.instance_name,
  text_eq_iff a.object_name b.object_name,
)

should_include_metric-is_included :
    (metric : Names.Counter) (name : Text)
    → should_include_metric metric name ≡ is_included metric name
unfolding should_include_metric
should_include_metric-is_included metric name = ground arith

module _ {D : Type 0} where
  -- What the groups hold under a field of a group.
  abbrev pub field_at : InstanceGrouping → Text → FieldGrouping D → Option (Value D)
  field_at group field groups = lookup text_eq field (fields_of (lookup same_grouping group groups))

  unfoldable pub assign : Assignment D → FieldGrouping D → FieldGrouping D
  assign a groups =
      insert same_grouping a.group
        (insert text_eq a.field a.value (fields_of (lookup same_grouping a.group groups))) groups

  unfoldable pub assign_all : List (Assignment D) → FieldGrouping D → FieldGrouping D
  unfolding assign
  assign_all [] groups = groups
  assign_all (a ∷ later) groups = assign_all later (assign a groups)

  pub add_counter_measurement-assign :
      (metric : Names.Counter) (name : Text) (value : Value D) (groups : FieldGrouping D)
      → add_counter_measurement metric name value groups
        ≡ assign_all (assignment_of metric name value ∷ []) groups
  unfolding add_counter_measurement assign_all assign
  add_counter_measurement-assign metric name value groups = refl

  pub add_values-assign_all :
      (metric : Names.Counter) (values : List (NamedValue (Value D))) (groups : FieldGrouping D)
      → add_values metric values groups ≡ assign_all (assignments_of metric values) groups
  unfolding add_values assign_all
  add_values-assign_all metric [] groups = refl
  add_values-assign_all metric (v ∷ values) groups =
      elim (Bool-cases (is_included metric (value_name metric v.name))) [
        | inl included ↦
            rw
              (
                should_include_metric-is_included metric (value_name metric v.name),
                included,
                add_counter_measurement-assign metric (value_name metric v.name) v.value groups,
              )
              (add_values-assign_all metric values _)
        | inr left_out ↦
            rw (should_include_metric-is_included metric (value_name metric v.name), left_out)
              (add_values-assign_all metric values groups)
      ]

  field_at-assign :
      (group : InstanceGrouping) (field : Text) (a : Assignment D) (groups : FieldGrouping D)
      → field_at group field (assign a groups)
        ≡ (if assigns group field a then some a.value else field_at group field groups)
  unfolding assign
  field_at-assign group field a groups = elim (Bool-cases (same_grouping a.group group)) [
    | inl here ↦
        rw
          (
            lookup-insert_all same_grouping same_grouping_iff group a.group _ groups,
            here,
            lookup-insert_all text_eq text_eq_iff field a.field a.value _,
            (same_grouping_iff a.group group).0 here,
          )
          refl
    | inr there ↦
        rw (lookup-insert_all same_grouping same_grouping_iff group a.group _ groups, there) refl
  ]

  abbrev pub or_before : Option (Value D) → Option (Value D) → Option (Value D)
  or_before (some v) before = some v
  or_before none before = before

  or_before_last :
      (last : Option (Value D)) (b : Bool) (v : Value D) (before : Option (Value D))
      → or_before last (if b then some v else before)
        ≡ or_before (elim last [ some u ↦ some u | none ↦ if b then some v else none ]) before
  or_before_last (some u) b v before = refl
  or_before_last none true v before = refl
  or_before_last none false v before = refl

  -- After a sequence of assignments a field holds the last value that was assigned to it, and what
  -- it held before if none was.
  pub field_at-assign_all :
      (group : InstanceGrouping) (field : Text) (changes : List (Assignment D))
      (groups : FieldGrouping D)
      → field_at group field (assign_all changes groups)
        ≡ or_before (latest group field changes) (field_at group field groups)
  unfolding assign_all
  field_at-assign_all group field [] groups = refl
  field_at-assign_all group field (a ∷ later) groups =
      field_at-assign_all group field later (assign a groups)
      ∙ (ap (or_before (latest group field later)) (field_at-assign group field a groups)
          ∙ or_before_last (latest group field later) (assigns group field a) a.value
              (field_at group field groups))
