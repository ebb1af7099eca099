-- ===== src/WinPerfCounters/Gathering/Collected.antt =====
-- What `gatherComputerCounters` (win_perf_counters.go) collects where every call succeeds: the values
-- are read one after the other, and each that counts is assigned.
use win_perf_counters.Dict.{lookup}
use win_perf_counters.Names
use win_perf_counters.Prelude.{
  ◌≡◌, refl, ap, ◌∙◌, Bool, true, false, Option, none, some, List, [], ◌∷◌, ◌++◌, map, arith,
}
use win_perf_counters.Result.{Result, ok, err, panic, out_of_fuel}
use win_perf_counters.Text.{Text}
use win_perf_counters.WinPerfCounters.Fields.Assignments.{
  Assignment, latest, or_before, assignment_of, assignments_of, field_at, assign, assign_all,
  add_counter_measurement-assign, add_values-assign_all, field_at-assign_all,
}
use win_perf_counters.WinPerfCounters.Fields.Unique.{NodupFields, assign_all-NodupFields}
use win_perf_counters.WinPerfCounters.Fields.{
  InstanceGrouping, FieldGrouping, Gathering, over_result, after_value, after_raw_array,
  after_double_array, with_value,
}
use win_perf_counters.WinPerfCounters.Gathering.Errors.{gather_counters-ok}
use win_perf_counters.WinPerfCounters.Gathering.{
  gather_by, gather_counters, no_groups, sample_of, gather_computer_counters,
}
use win_perf_counters.WinPerfCounters.Model.{
  Config, HostCountersInfo, Value, raw, double, PerformanceQuery, System,
}

module _ {D : Type 0} where
  or_before_nothing :
      (group : InstanceGrouping) (field : Text) (last : Option (Value D))
      → or_before last (field_at group field []) ≡ last
  unfolding lookup
  or_before_nothing group field (some v) = refl
  or_before_nothing group field none = refl

  abbrev pub after_changes : List (Assignment D) → FieldGrouping D → Gathering D
  after_changes changes groups = record { last_error = none; groups = assign_all changes groups }

module _ {W Q T D : Type 0} (queries : PerformanceQuery W Q T D) (system : System W T) where
  -- One counter, with the assignments for what the call returns.
  abbrev pub read_one : Bool → Bool → Names.Counter → Q → W → Result (List (Assignment D)) × Q × W
  read_one true true metric q w =
      let (r, q', w') = queries.get_raw_counter_value metric.counter_handle q w in
      (over_result (λ v. assignment_of metric metric.instance_name (raw v) ∷ []) r, q', w')
  read_one true false metric q w =
      let (r, q', w') = queries.get_formatted_counter_value_double metric.counter_handle q w in
      (over_result (λ v. assignment_of metric metric.instance_name (double v) ∷ []) r, q', w')
  read_one false true metric q w =
      let (r, q', w') = queries.get_raw_counter_array metric.counter_handle q w in
      (over_result (λ vs. assignments_of metric (map (with_value raw) vs)) r, q', w')
  read_one false false metric q w =
      let (r, q', w') = queries.get_formatted_counter_array_double metric.counter_handle q w in
      (over_result (λ vs. assignments_of metric (map (with_value double) vs)) r, q', w')

  abbrev before_rest : {A : Type 0} → List A → Result (List A) × Q × W → Result (List A) × Q × W
  before_rest xs (r, q, w) = (over_result (λ ys. xs ++ ys) r, q, w)

  abbrev and_then :
      {A : Type 0}
      → Result (List A) × Q × W
      → (Q → W → Result (List A) × Q × W)
      → Result (List A) × Q × W
  and_then (ok xs, q, w) next = before_rest xs (next q w)
  and_then (err e, q, w) next = (err e, q, w)
  and_then (panic, q, w) next = (panic, q, w)
  and_then (out_of_fuel, q, w) next = (out_of_fuel, q, w)

  -- All counters of a host, one after the other, up to the first error.
  unfoldable pub read_all : Bool → List Names.Counter → Q → W → Result (List (Assignment D)) × Q × W
  read_all expansion [] q w = (ok [], q, w)
  read_all expansion (metric ∷ metrics) q w =
      and_then (read_one expansion metric.use_raw_value metric q w) (read_all expansion metrics)

  abbrev on_result : {A B : Type 0} → (A → B) → A × Q × W → B × Q × W
  on_result f (r, q, w) = (f r, q, w)

  succeeds :
      {V : Type 0} (make : V → List (Assignment D)) (finish : Result V → Result (Gathering D))
      (groups : FieldGrouping D) (changes : List (Assignment D)) (q' : Q) (w' : W)
      → ((v : V) → finish (ok v) ≡ ok (after_changes (make v) groups))
      → (o : Result V × Q × W) → on_result (over_result make) o ≡ (ok changes, q', w')
      → on_result finish o ≡ (ok (after_changes changes groups), q', w')
  succeeds make finish groups changes q' w' each (ok v, q, w) e = ground (arith, each v)
  succeeds make finish groups changes q' w' each (err x, q, w) e = ground arith
  succeeds make finish groups changes q' w' each (panic, q, w) e = ground arith
  succeeds make finish groups changes q' w' each (out_of_fuel, q, w) e = ground arith

  gather_by-read_one :
      (expansion raw_value : Bool) (metric : Names.Counter) (g : Gathering D) (q : Q) (w : W)
      (changes : List (Assignment D)) (q' : Q) (w' : W)
      → g.last_error ≡ none
      → read_one expansion raw_value metric q w ≡ (ok changes, q', w')
      → gather_by queries system expansion raw_value metric g q w
        ≡ (ok (after_changes changes g.groups), q', w')
  unfolding gather_by
  gather_by-read_one true true metric g q w changes q' w' fine e =
      succeeds _ (λ r. after_value metric g (over_result raw r)) g.groups changes q' w'
        (λ v.
          ap (λ l. ok (record { last_error = none; groups = l }))
            (add_counter_measurement-assign metric metric.instance_name (raw v) g.groups))
        (queries.get_raw_counter_value metric.counter_handle q w) e
  gather_by-read_one true false metric g q w changes q' w' fine e =
      succeeds _ (λ r. after_value metric g (over_result double r)) g.groups changes q' w'
        (λ v.
          ap (λ l. ok (record { last_error = none; groups = l }))
            (add_counter_measurement-assign metric metric.instance_name (double v) g.groups))
        (queries.get_formatted_counter_value_double metric.counter_handle q w) e
  gather_by-read_one false true metric g q w changes q' w' fine e =
      succeeds _ (λ r. after_raw_array metric g (over_result (map (with_value raw)) r)) g.groups
        changes q' w'
        (λ vs.
          ap (λ l. ok (record { last_error = none; groups = l }))
            (add_values-assign_all metric (map (with_value raw) vs) g.groups))
        (queries.get_raw_counter_array metric.counter_handle q w) e
  gather_by-read_one false false metric g q w changes q' w' fine e =
      succeeds _ (λ r. after_double_array metric g (over_result (map (with_value double)) r))
        g.groups changes q' w'
        (λ vs. rw fine (
          ap (λ l. ok (record { last_error = none; groups = l }))
            (add_values-assign_all metric (map (with_value double) vs) g.groups)))
        (queries.get_formatted_counter_array_double metric.counter_handle q w) e

  assign_all-append :
      (changes later : List (Assignment D)) (groups : FieldGrouping D)
      → assign_all (changes ++ later) groups ≡ assign_all later (assign_all changes groups)
  unfolding assign_all
  assign_all-append [] later groups = refl
  assign_all-append (a ∷ changes) later groups = assign_all-append changes later (assign a groups)

  -- What `gather_counters` leaves if all calls succeed.
  abbrev Gathers : Bool → List Names.Counter → Type 0
  Gathers expansion metrics =
      (g : Gathering D) (q : Q) (w : W) (changes : List (Assignment D)) (q' : Q) (w' : W)
      → g.last_error ≡ none
      → read_all expansion metrics q w ≡ (ok changes, q', w')
      → gather_counters queries system expansion metrics g q w
        ≡ (ok (after_changes changes g.groups), q', w')

  rest-Gathers :
      (expansion : Bool) (metrics : List Names.Counter) (first : List (Assignment D))
      (groups : FieldGrouping D) (q : Q) (w : W) (changes : List (Assignment D)) (q' : Q) (w' : W)
      (o : Result (List (Assignment D)) × Q × W)
      → Gathers expansion metrics
      → read_all expansion metrics q w ≡ o
      → before_rest first o ≡ (ok changes, q', w')
      → gather_counters queries system expansion metrics (after_changes first groups) q w
        ≡ (ok (after_changes changes groups), q', w')
  rest-Gathers expansion metrics first groups q w changes q' w' (ok later, q₁, w₁) rest r e =
      rest (after_changes first groups) q w later q₁ w₁ refl r
      ∙ ground (arith, assign_all-append first later groups)
  rest-Gathers expansion metrics first groups q w changes q' w' (err x, q₁, w₁) rest r e =
      ground arith
  rest-Gathers expansion metrics first groups q w changes q' w' (panic, q₁, w₁) rest r e =
      ground arith
  rest-Gathers expansion metrics first groups q w changes q' w' (out_of_fuel, q₁, w₁) rest r e =
      ground arith

  first-Gathers :
      (expansion : Bool) (metric : Names.Counter) (metrics : List Names.Counter)
      (o : Result (List (Assignment D)) × Q × W) (g : Gathering D) (q : Q) (w : W)
      (changes : List (Assignment D)) (q' : Q) (w' : W)
      → Gathers expansion metrics
      → g.last_error ≡ none
      → read_one expansion metric.use_raw_value metric q w ≡ o
      → and_then o (read_all expansion metrics) ≡ (ok changes, q', w')
      → gather_counters queries system expansion (metric ∷ metrics) g q w
        ≡ (ok (after_changes changes g.groups), q', w')
  first-Gathers expansion metric metrics (ok first, q₁, w₁) g q w changes q' w' rest fine r e =
      let round =
        gather_by-read_one expansion metric.use_raw_value metric g q w first q₁ w₁ fine r in
      gather_counters-ok queries system expansion metric metrics g _ q w (ap (λ o. o.0) round)
      ∙ rw round (rest-Gathers expansion metrics first g.groups q₁ w₁ changes q' w' _ rest refl e)
  first-Gathers expansion metric metrics (err x, q₁, w₁) g q w changes q' w' rest fine r e =
      ground arith
  first-Gathers expansion metric metrics (panic, q₁, w₁) g q w changes q' w' rest fine r e =
      ground arith
  first-Gathers expansion metric metrics (out_of_fuel, q₁, w₁) g q w changes q' w' rest fine r e =
      ground arith

  gather_counters-Gathers :
      (expansion : Bool) (metrics : List Names.Counter) → Gathers expansion metrics
  unfolding read_all gather_counters assign_all
  gather_counters-Gathers expansion [] g q w changes q' w' fine e = ground arith
  gather_counters-Gathers expansion (metric ∷ metrics) g q w changes q' w' fine e =
      first-Gathers expansion metric metrics _ g q w changes q' w'
        (gather_counters-Gathers expansion metrics) fine refl e

  -- If the call for each counter succeeds, then the calls of the function for the collected data are
  -- one for each group of values that count, with no group twice and no field twice, and each field
  -- holds the last value that was read for it.
  pub gather_computer_counters-latest :
      (config : Config) (h : HostCountersInfo Q T) (w : W) (changes : List (Assignment D)) (q' : Q)
      (w' : W)
      → config.has_collect ≡ true
      → read_all config.use_wildcards_expansion h.counters h.query w ≡ (ok changes, q', w')
      → (groups : FieldGrouping D) × (gather_computer_counters queries system config h w
          ≡ (ok (map (sample_of queries system h) groups), record h { query = q' }, w'))
        × NodupFields groups
        × ((group : InstanceGrouping) (field : Text)
            → field_at group field groups ≡ latest group field changes)
  unfolding gather_computer_counters
  gather_computer_counters-latest config h w changes q' w' collect read =
      let groups = assign_all changes [] in
      (
        groups,
        rw
            (
              gather_counters-Gathers config.use_wildcards_expansion h.counters
                  (no_groups queries system) h.query w changes q' w' refl read,
              collect,
            )
            refl,
        assign_all-NodupFields changes [] (tt, tt),
        λ group field.
            field_at-assign_all group field changes []
            ∙ or_before_nothing group field (latest group field changes),
      )
