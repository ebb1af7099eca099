-- ===== src/WinPerfCounters/Fields/Unique.antt =====
-- No group of the collected fields stands twice, and no field in a group (`addCounterMeasurement`,
-- win_perf_counters.go).
use win_perf_counters.Dict.Entries.{insert-All}
use win_perf_counters.Dict.Laws.{NodupKeys, insert-NodupKeys}
use win_perf_counters.Dict.{lookup}
use win_perf_counters.Prelude.{List, [], ◌∷◌, All, inl, inr, Bool-cases}
use win_perf_counters.Text.Equality.{text_eq_iff}
use win_perf_counters.Text.{text_eq}
use win_perf_counters.WinPerfCounters.Fields.Assignments.{
  Assignment, same_grouping_iff, assign, assign_all,
}
use win_perf_counters.WinPerfCounters.Fields.{
  InstanceGrouping, FieldGrouping, same_grouping, fields_of,
}

module _ {D : Type 0} where
  -- No group stands twice, and no field in a group.
  abbrev pub NodupFields : FieldGrouping D → Type 0
  NodupFields groups = NodupKeys same_grouping groups × All (λ g. NodupKeys text_eq g.1) groups

  lookup-NodupKeys :
      (group : InstanceGrouping) (groups : FieldGrouping D)
      → All (λ g. NodupKeys text_eq g.1) groups
      → NodupKeys text_eq (fields_of (lookup same_grouping group groups))
  unfolding lookup
  lookup-NodupKeys group [] n = tt
  lookup-NodupKeys group ((j, fields) ∷ groups) n = elim (Bool-cases (same_grouping j group)) [
    | inl here ↦ rw here n.0
    | inr there ↦ rw there (lookup-NodupKeys group groups n.1)
  ]

  assign-NodupFields :
      (a : Assignment D) (groups : FieldGrouping D)
      → NodupFields groups
      → NodupFields (assign a groups)
  unfolding assign
  assign-NodupFields a groups n = (
    insert-NodupKeys same_grouping same_grouping_iff a.group _ groups n.0,
    insert-All same_grouping (NodupKeys text_eq) a.group _ groups
        (insert-NodupKeys text_eq text_eq_iff a.field a.value _
          (lookup-NodupKeys a.group groups n.1))
        n.1,
  )

  pub assign_all-NodupFields :
      (changes : List (Assignment D)) (groups : FieldGrouping D)
      → NodupFields groups
      → NodupFields (assign_all changes groups)
  unfolding assign_all
  assign_all-NodupFields [] groups n = n
  assign_all-NodupFields (a ∷ later) groups n =
      assign_all-NodupFields later (assign a groups) (assign-NodupFields a groups n)
