-- ===== src/WinPerfCounters/Items/Invariants.antt =====
-- What `addItem` keeps: any invariant of the state that its four kinds of change keep.
use win_perf_counters.Dict.{lookup}
use win_perf_counters.Names
use win_perf_counters.Names.Counters.{new_counter-All}
use win_perf_counters.Names.{new_counter}
use win_perf_counters.Path.{CounterInfo, extract_counter_info, format_path, empty_instance}
use win_perf_counters.Prelude.{
  ℕ, ◌≡◌, refl, Bool, true, false, not, Option, none, some, List, [], if◌then◌else◌,
}
use win_perf_counters.Result.{Result}
use win_perf_counters.Text.{Text, text_eq}
use win_perf_counters.WinPerfCounters.Ensures.{
  Ensures, Preserves, keeping, bind-Ensures, bind-Preserves, pure-Ensures, pure-Preserves,
  if-Ensures, branch-Ensures, for_each-Preserves,
}
use win_perf_counters.WinPerfCounters.Fields.Groups.{IsNamed}
use win_perf_counters.WinPerfCounters.Items.{
  ItemArgs, is_skipped_total, source_tag, on_query, on_query_of, find_or_create_host, create_if,
  append_counter, append_to, read_config, lift, expanded_item, add_expanded, add_all_expanded,
  add_with_expansion, add_single, add_item,
}
use win_perf_counters.WinPerfCounters.Model.{
  Config, HostCountersInfo, State, PerformanceQuery, System, pure, ◌>>=◌,
}
use win_perf_counters.WinPerfCounters.Items.Changes.{
  source_tag_lem, ItemInvariant, KeptBy, MethodInvariant, method_invariant,
}

module _ {W Q T D : Type 0} (queries : PerformanceQuery W Q T D) (system : System W T) where
  module _ {I : State W Q T D → Type 0} (c : Text) (inv : MethodInvariant queries system I c) where
    source_tag-Preserves : Preserves I (source_tag queries system c)
    source_tag-Preserves = keeping I _ (λ s i.
        let (tag, name, t) = source_tag_lem queries system c s in rw t (inv.cached s name i))

    on_query_of-Preserves :
        {A : Type 0} (found : Option (HostCountersInfo Q T)) (method : Q → W → Result A × Q × W)
        (s : State W Q T D)
        → KeptBy queries system I c method
        → lookup text_eq c s.host_counters ≡ found
        → I s
        → I (on_query_of queries system found c method s).1
    on_query_of-Preserves none method s kept e i = i
    on_query_of-Preserves (some h) method s kept e i = kept s h e i

    on_query-Preserves :
        {A : Type 0} (method : Q → W → Result A × Q × W)
        → KeptBy queries system I c method
        → Preserves I (on_query queries system c method)
    unfolding on_query
    on_query-Preserves method kept =
        keeping I _ (λ s i. on_query_of-Preserves _ method s kept refl i)

    create_if-Preserves :
        (found : Option (HostCountersInfo Q T)) (tag : Text) (s : State W Q T D)
        → lookup text_eq c s.host_counters ≡ found
        → I s
        → I (create_if queries system found c tag s).1
    create_if-Preserves (some h) tag s e i = i
    create_if-Preserves none tag s e i =
        ((on_query-Preserves queries.open_query inv.opened).outcome _ (inv.created s tag e i)).1

    find_or_create_host-Preserves :
        (tag : Text) → Preserves I (find_or_create_host queries system c tag)
    unfolding find_or_create_host
    find_or_create_host-Preserves tag =
        keeping I _ (λ s i. create_if-Preserves (lookup text_eq c s.host_counters) tag s refl i)

    append_to-Preserves :
        (found : Option (HostCountersInfo Q T)) (item : Names.Counter) (s : State W Q T D)
        → lookup text_eq c s.host_counters ≡ found
        → IsNamed item
        → I s
        → I (append_to queries system found c item s).1
    append_to-Preserves none item s e n i = i
    append_to-Preserves (some h) item s e n i = inv.appended s h item e n i

    append_counter-Preserves :
        (item : Names.Counter) → IsNamed item → Preserves I (append_counter queries system c item)
    unfolding append_counter
    append_counter-Preserves item n = keeping I _ (λ s i. append_to-Preserves _ item s refl n i)

    -- The method's handle, made into a counter with a name.
    make_item-Ensures :
        (method : Q → W → Result ℕ × Q × W) (item : ℕ → Names.Counter)
        → KeptBy queries system I c method
        → ((handle : ℕ) → IsNamed (item handle))
        → Ensures I IsNamed (on_query queries system c method >>= (λ handle. pure (item handle)))
    make_item-Ensures method item kept n =
        bind-Ensures I _ _ (on_query-Preserves method kept)
          (λ handle p. pure-Ensures I (item handle) (n handle))

    item-IsNamed :
        (handle : ℕ) (path computer object inst name measurement : Text) (include_total raw : Bool)
        → IsNamed (new_counter handle path computer object inst name measurement include_total raw)
    item-IsNamed handle path computer object inst name measurement include_total raw =
        let (kept, clean, named) =
          new_counter-All handle path computer object inst name measurement include_total raw in
        (clean, named)

    expanded_item-Ensures :
        (args : ItemArgs) (orig : CounterInfo) (path : Text) (found : CounterInfo)
        → Ensures I IsNamed (expanded_item queries system c args orig path found)
    unfolding expanded_item
    expanded_item-Ensures args orig path found =
        let english : Text =
          format_path found.computer orig.object
            (if text_eq found.instance_name [] then empty_instance else found.instance_name)
            orig.counter_name in
        record {
          outcome = λ s i.
              branch-Ensures I IsNamed (not s.config.localize_wildcards_expansion) _ _
                ((make_item-Ensures (queries.add_english_counter_to_query english)
                    (λ handle.
                      new_counter handle english found.computer orig.object found.instance_name
                        orig.counter_name args.measurement args.include_total args.use_raw_value)
                    (inv.added_english english)
                    (λ handle.
                      item-IsNamed handle english found.computer orig.object found.instance_name
                        orig.counter_name args.measurement args.include_total
                        args.use_raw_value)).outcome
                  s i)
                ((make_item-Ensures (queries.add_counter_to_query path)
                    (λ handle.
                      new_counter handle path found.computer found.object found.instance_name
                        found.counter_name args.measurement args.include_total args.use_raw_value)
                    (inv.added path)
                    (λ handle.
                      item-IsNamed handle path found.computer found.object found.instance_name
                        found.counter_name args.measurement args.include_total
                        args.use_raw_value)).outcome
                  s i);
        }

    lift-Preserves : {A : Type 0} (r : Result A) → Preserves I (lift queries system r)
    lift-Preserves r = keeping I _ (λ s i. i)

    add_expanded-Preserves :
        (args : ItemArgs) (orig : CounterInfo) (path : Text)
        → Preserves I (add_expanded queries system c args orig path)
    unfolding add_expanded
    add_expanded-Preserves args orig path =
        bind-Preserves I _ _
          (on_query-Preserves (queries.add_counter_to_query path) (inv.added path))
          (λ unused. bind-Preserves I _ _ (lift-Preserves (extract_counter_info path)) (λ found.
            bind-Ensures I _ _ (expanded_item-Ensures args orig path found) (λ item named.
              if-Ensures I (is_skipped_total queries system args found.instance_name) _ _
                (pure-Preserves I tt) (append_counter-Preserves item named))))

    add_all_expanded-Preserves :
        (args : ItemArgs) (orig : CounterInfo) (paths : List Text)
        → Preserves I (add_all_expanded queries system c args orig paths)
    unfolding add_all_expanded
    add_all_expanded-Preserves args orig paths =
        for_each-Preserves I paths _ (add_expanded-Preserves args orig)

    add_with_expansion-Preserves :
        (path : Text) (args : ItemArgs) (handle : ℕ)
        → Preserves I (add_with_expansion queries system path c args handle)
    unfolding add_with_expansion
    add_with_expansion-Preserves path args handle =
        bind-Preserves I _ _
          (on_query-Preserves (queries.get_counter_path handle) (inv.path_read handle))
          (λ pattern.
            bind-Preserves I _ _
              (on_query-Preserves (queries.expand_wild_card_path pattern)
                (inv.path_expanded pattern))
              (λ paths.
                bind-Preserves I _ _ (lift-Preserves (extract_counter_info path))
                  (λ orig. add_all_expanded-Preserves args orig paths)))

    add_single-Preserves :
        (path : Text) (args : ItemArgs) (handle : ℕ)
        → Preserves I (add_single queries system path c args handle)
    unfolding add_single
    add_single-Preserves path args handle = append_counter-Preserves _ (
        item-IsNamed handle path c args.object_name args.instance_name args.counter_name
          args.measurement args.include_total args.use_raw_value)

    read_config-Preserves : Preserves I (read_config queries system)
    read_config-Preserves = keeping I _ (λ s i. i)

    by_name :
        (b : Bool) (path : Text)
        → KeptBy queries system I c (
            if b
            then queries.add_counter_to_query path
            else queries.add_english_counter_to_query path)
    by_name true path = inv.added path
    by_name false path = inv.added_english path

    -- So `addItem` keeps every such invariant, whether it succeeds, fails or panics.
    pub add_item-Methods :
        (path : Text) (args : ItemArgs) → Preserves I (add_item queries system path c args)
    unfolding add_item
    add_item-Methods path args = bind-Preserves I _ _ source_tag-Preserves (λ tag.
        bind-Preserves I _ _ (find_or_create_host-Preserves tag) (λ unit.
          bind-Preserves I _ _ (on_query-Preserves _ (by_name (not queries.is_vista_or_newer) path))
            (λ handle. bind-Preserves I _ _ read_config-Preserves (λ (config : Config).
              if-Ensures I config.use_wildcards_expansion _ _
                (add_with_expansion-Preserves path args handle)
                (add_single-Preserves path args handle)))))

  pub add_item-Preserves :
      {I : State W Q T D → Type 0} (c : Text)
      → ItemInvariant queries system I c
      → (path : Text) (args : ItemArgs) → Preserves I (add_item queries system path c args)
  add_item-Preserves c inv = add_item-Methods c (method_invariant queries system c inv)
