-- ===== src/WinPerfCounters/Hosts/Configured.antt =====
-- What a successful `parseConfig` without expansion leaves (win_perf_counters.go): the counters that
-- are configured.
use win_perf_counters.Names
use win_perf_counters.Path.{format_path}
use win_perf_counters.Prelude.{
  ◌≡◌, ap, ◌∙◌, subst, Bool, true, false, List, [], ◌∷◌, ◌++◌, map, All, arith,
}
use win_perf_counters.Result.{Result, ok, err, panic, out_of_fuel}
use win_perf_counters.Text.{Text}
use win_perf_counters.WinPerfCounters.Hosts.{
  tolerate, named_computer, item_args, parse_instance, parse_computer, computers_of, parse_object,
  default_sources, parse_objects, parse_config,
}
use win_perf_counters.WinPerfCounters.Items.Grown.{
  counters_of, shape, item_of, for_computer, Grows, stays, grow_twice, bind_inv,
}
use win_perf_counters.WinPerfCounters.Items.Single.{add_item-Grows}
use win_perf_counters.WinPerfCounters.Model.{
  PerfObject, Config, State, PerformanceQuery, System, Action, for_each,
}

-- The lists for each element, one behind the other.
abbrev pub for_all : {A B : Type 0} → (A → List B) → List A → List B
for_all g [] = []
for_all g (x ∷ xs) = g x ++ for_all g xs

-- Every error of one of its items is an error of `parseConfig`.
abbrev pub IsStrict : PerfObject → Type 0
IsStrict o = o.fail_on_missing ≡ true

module _ {W Q T D : Type 0} (queries : PerformanceQuery W Q T D) (system : System W T) where
  -- The counters of one object on one computer, each instance of the first counter first.
  abbrev pub on_computer : PerfObject → Text → List (Text × Names.Counter)
  on_computer o computer =
      let c = named_computer queries system computer in
      for_all
        (λ counter.
          for_all
            (λ inst.
              (
                c,
                item_of (format_path c o.object_name inst counter) c
                    (item_args queries system o counter inst),
              )
              ∷ [])
            o.instances)
        o.counters

  abbrev pub of_object : List Text → PerfObject → List (Text × Names.Counter)
  of_object common o = for_all (on_computer o) (computers_of queries system common o.sources)

  -- The counters of the whole configuration, each with its computer.
  abbrev pub configured : Config → List (Text × Names.Counter)
  configured config =
      for_all (of_object (default_sources queries system config.sources)) config.object

  abbrev IsSingle : State W Q T D → Type 0
  IsSingle s = s.config.use_wildcards_expansion ≡ false

  -- An action that adds these counters if it succeeds.
  abbrev Adds : List (Text × Names.Counter) → Action W Q T D (Unit {0}) → Type 0
  Adds items a = (s s' : State W Q T D) → IsSingle s → a s ≡ (ok tt, s') → Grows items s s'

  no_expansion_later :
      {items : List (Text × Names.Counter)} (s s' : State W Q T D)
      → Grows items s s'
      → IsSingle s
      → IsSingle s'
  no_expansion_later s s' g single =
      ap (λ (config : Config). config.use_wildcards_expansion) g.same_config ∙ single

  for_each-Adds :
      {A : Type 0} (P : A → Type 0) (items : A → List (Text × Names.Counter))
      (f : A → Action W Q T D (Unit {0}))
      → ((x : A) → P x → Adds (items x) (f x))
      → (xs : List A) → All P xs
      → Adds (for_all items xs) (for_each xs f)
  for_each-Adds P items f each [] p s s' single e = subst (Grows [] s) (ap (λ o. o.1) e) (stays s)
  for_each-Adds P items f each (x ∷ xs) p s s' single e =
      let (u, t, first, rest) = bind_inv (f x s) _ tt s' e in
      let g = each x p.0 s t single first in
      grow_twice (items x) (for_all items xs) s t s' g
        (for_each-Adds P items f each xs p.1 t s' (no_expansion_later s t g single) rest)

  anyone : {A : Type 0} (xs : List A) → All (λ x. Unit {0}) xs
  anyone [] = tt
  anyone (x ∷ xs) = (tt, anyone xs)

  not_tolerated :
      (b : Bool) (o : Result (Unit {0}) × State W Q T D) (s' : State W Q T D)
      → b ≡ true
      → tolerate queries system b o ≡ (ok tt, s')
      → o ≡ (ok tt, s')
  not_tolerated b (ok u, s) s' strict e = e
  not_tolerated true (err x, s) s' strict e = absurd (ground arith)
  not_tolerated false (err x, s) s' strict e = absurd (ground arith)
  not_tolerated b (panic, s) s' strict e = absurd (ground arith)
  not_tolerated b (out_of_fuel, s) s' strict e = absurd (ground arith)

  parse_instance-Adds :
      (o : PerfObject) (c counter inst : Text)
      → IsStrict o
      → Adds
          ((
            c,
            item_of
                (format_path c o.object_name inst counter)
                c
                (item_args queries system o counter inst),
          )
            ∷ [])
          (parse_instance queries system o c counter inst)
  unfolding parse_instance
  parse_instance-Adds o c counter inst strict s s' single e =
      add_item-Grows queries system (format_path c o.object_name inst counter) c
        (item_args queries system o counter inst) s s' single
        (not_tolerated o.fail_on_missing _ s' strict e)

  parse_computer-Adds :
      (o : PerfObject) (computer : Text)
      → IsStrict o
      → Adds (on_computer o computer) (parse_computer queries system o computer)
  unfolding parse_computer
  parse_computer-Adds o computer strict =
      for_each-Adds (λ counter. Unit {0}) _ _
        (λ counter p.
          for_each-Adds (λ inst. Unit {0}) _ _
            (λ inst q.
              parse_instance-Adds o (named_computer queries system computer) counter inst strict)
            o.instances (anyone o.instances))
        o.counters (anyone o.counters)

  parse_object-Adds :
      (common : List Text) (o : PerfObject)
      → IsStrict o
      → Adds (of_object common o) (parse_object queries system common o)
  unfolding parse_object
  parse_object-Adds common o strict =
      for_each-Adds (λ computer. Unit {0}) _ _ (λ computer p. parse_computer-Adds o computer strict)
        (computers_of queries system common o.sources) (anyone _)

  parse_objects-Adds :
      (objects : List PerfObject) (common : List Text)
      → All IsStrict objects
      → Adds (for_all (of_object common) objects) (parse_objects queries system objects common)
  parse_objects-Adds [] common strict s s' single e = absurd (ground arith)
  parse_objects-Adds (o ∷ os) common strict s s' single e =
      for_each-Adds IsStrict (of_object common) _ (parse_object-Adds common) (o ∷ os) strict s s'
        single e

  -- The configuration that `parseConfig` stores.
  abbrev pub with_sources : Config → Config
  with_sources config = record config { sources = default_sources queries system config.sources }

  pub parse_config-Grows :
      (s s' : State W Q T D)
      → s.config.use_wildcards_expansion ≡ false
      → All IsStrict s.config.object
      → parse_config queries system s ≡ (ok tt, s')
      → Grows (configured s.config) (record s { config = with_sources s.config }) s'
  unfolding parse_config
  parse_config-Grows s s' single strict e =
      let common = default_sources queries system s.config.sources in
      parse_objects-Adds s.config.object common strict (record s { config = with_sources s.config })
        s' single e

  -- Without expansion, and with FailOnMissing for every object: if `parseConfig` succeeds, then every
  -- computer has the counters that it had before and behind them exactly those that are configured
  -- for it, one for each object, counter and instance, in that order; the handles that PDH gave
  -- them are left out of account.
  pub parse_config-configured :
      (s s' : State W Q T D)
      → s.config.use_wildcards_expansion ≡ false
      → All IsStrict s.config.object
      → parse_config queries system s ≡ (ok tt, s')
      → (k : Text)
      → map shape (counters_of k s'.host_counters)
        ≡ map shape (counters_of k s.host_counters) ++ for_computer k (configured s.config)
  parse_config-configured s s' single strict e k = (parse_config-Grows s s' single strict e).grown k
