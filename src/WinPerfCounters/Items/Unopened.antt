-- ===== src/WinPerfCounters/Items/Unopened.antt =====
-- `addItem` on a host whose query cannot be opened, or was not.
use win_perf_counters.Dict.Texts.{lookup-insert}
use win_perf_counters.Dict.{lookup, insert}
use win_perf_counters.Prelude.{
  ℕ, ◌≡◌, refl, inl, inr, Bool, false, none, some, if◌then◌else◌, Bool-cases,
}
use win_perf_counters.Result.{Error, uninitialized_query, Result, ok, err, panic, out_of_fuel}
use win_perf_counters.Text.{Text, text_eq}
use win_perf_counters.WinPerfCounters.Implementation.{QueryLaws}
use win_perf_counters.WinPerfCounters.Items.Changes.{source_tag_lem}
use win_perf_counters.WinPerfCounters.Items.{
  read_config, add_with_expansion, add_single, ItemArgs, source_tag, on_query, find_or_create_host,
  add_item, add_counter_by_name, to_uint32, new_host,
}
use win_perf_counters.WinPerfCounters.Model.{
  HostCountersInfo, Hosts, State, PerformanceQuery, System, Action, continue, ◌>>=◌,
}

module _ {W Q T D : Type 0} (queries : PerformanceQuery W Q T D) (system : System W T)
    (is_open : Q → Bool) (laws : QueryLaws queries is_open) where
  -- The host is in the map, and its query is not open.
  pub record IsUnopened (k : Text) (hosts : Hosts Q T) : Type 0 where
    pub host : HostCountersInfo Q T
    pub found : lookup text_eq k hosts ≡ some host
    pub shut : is_open host.query ≡ false

  -- `addItem` behind the tag of the host.
  add_item_tagged :
      (path c : Text) (args : ItemArgs) (s : State W Q T D) (tag name : Text)
      → source_tag queries system c s ≡ (ok tag, record s { cached_hostname = name })
      → (r : Result (Unit {0})) (s' : State W Q T D)
      → find_or_create_host queries system c tag (record s { cached_hostname = name }) ≡ (r, s')
      → (e : Error) → r ≡ err e
      → add_item queries system path c args s ≡ (err e, s')
  unfolding add_item
  add_item_tagged path c args s tag name t r s' f e g = rw (t, f, g) refl

  -- The query that is made for a new host.
  abbrev pub new_query : Text → State W Q T D → Q
  new_query c s = queries.new_performance_query c (to_uint32 s.config.max_buffer_size)

  find_or_create_host_failed :
      (c tag : Text) (s : State W Q T D) (e : Error)
      → lookup text_eq c s.host_counters ≡ none
      → (queries.open_query (new_query c s) s.world).0 ≡ err e
      → ((find_or_create_host queries system c tag s).0 ≡ err e)
        × IsUnopened c (find_or_create_host queries system c tag s).1.host_counters
  unfolding find_or_create_host on_query
  find_or_create_host_failed c tag s e absent failed =
      let h : HostCountersInfo Q T = new_host queries system s.config c tag in
      let q : Q = (queries.open_query (new_query c s) s.world).1 in
      let there = lookup-insert c h s.host_counters in
      let closed =
        laws.open_failed (new_query c s) s.world e
          (laws.created c (to_uint32 s.config.max_buffer_size)) failed in
      rw (absent, there)
        (
          failed,
          record {
            host = record h { query = q };
            found = lookup-insert c (record h { query = q }) (insert text_eq c h s.host_counters);
            shut = closed;
          },
        )

  -- If the query of a host that is not in the map cannot be opened, `addItem` returns that error, and
  -- the host is in the map all the same, with a query that is not open.
  pub add_item_failed_open :
      (path c : Text) (args : ItemArgs) (s : State W Q T D) (e : Error)
      → lookup text_eq c s.host_counters ≡ none
      → (queries.open_query (new_query c s) s.world).0 ≡ err e
      → ((add_item queries system path c args s).0 ≡ err e)
        × IsUnopened c (add_item queries system path c args s).1.host_counters
  add_item_failed_open path c args s e absent failed =
      let (tag, name, t) = source_tag_lem queries system c s in
      let s' : State W Q T D = record s { cached_hostname = name } in
      let (same, unopened) = find_or_create_host_failed c tag s' e absent failed in
      rw
        (add_item_tagged path c args s tag name t (find_or_create_host queries system c tag s').0
          (find_or_create_host queries system c tag s').1 refl e same)
        (refl, unopened)

  -- A method that leaves the query and the system alone.
  on_query-IsUnopened :
      (c : Text) (method : Q → W → Result ℕ × Q × W) (s : State W Q T D)
      (u : IsUnopened c s.host_counters)
      → method u.host.query s.world ≡ (err uninitialized_query, u.host.query, s.world)
      → let o = on_query queries system c method s in
        (o.0 ≡ err uninitialized_query) × IsUnopened c o.1.host_counters
  unfolding on_query
  on_query-IsUnopened c method s u e =
      rw (u.found, e)
        (
          refl,
          record { host = u.host; found = lookup-insert c u.host s.host_counters; shut = u.shut },
        )

  add_counter-IsUnopened :
      (path c : Text) (s : State W Q T D)
      → IsUnopened c s.host_counters
      → let o = add_counter_by_name queries system c path s in
        (o.0 ≡ err uninitialized_query) × IsUnopened c o.1.host_counters
  unfolding on_query
  add_counter-IsUnopened path c s u = elim (Bool-cases queries.is_vista_or_newer) [
    | inl vista ↦ rw vista (
        on_query-IsUnopened c (queries.add_english_counter_to_query path) s u
          (laws.add_english_unopened u.host.query s.world path u.shut))
    | inr older ↦ rw older (
        on_query-IsUnopened c (queries.add_counter_to_query path) s u
          (laws.add_unopened u.host.query s.world path u.shut))
  ]

  continue_err :
      {A B : Type 0} (o : Result A × State W Q T D) (f : A → Action W Q T D B) (e : Error)
      → o.0 ≡ err e
      → continue o f ≡ (err e, o.1)
  continue_err (ok a, s) f e h = cc
  continue_err (err x, s) f e h = cc
  continue_err (panic, s) f e h = cc
  continue_err (out_of_fuel, s) f e h = cc

  -- `addItem` behind the call that adds the counter.
  abbrev behind_add : Text → Text → ItemArgs → ℕ → Action W Q T D (Unit {0})
  behind_add path c args handle = read_config queries system >>= λ config.
      if config.use_wildcards_expansion
      then add_with_expansion queries system path c args handle
      else add_single queries system path c args handle

  -- While a host's query is not open, `addItem` for that host reports it as not initialized.
  pub add_item-IsUnopened :
      (path c : Text) (args : ItemArgs) (s : State W Q T D)
      → IsUnopened c s.host_counters
      → let o = add_item queries system path c args s in
        (o.0 ≡ err uninitialized_query) × IsUnopened c o.1.host_counters
  unfolding add_item find_or_create_host
  add_item-IsUnopened path c args s u =
      let (tag, name, t) = source_tag_lem queries system c s in
      let s' : State W Q T D = record s { cached_hostname = name } in
      let (failed, still) = add_counter-IsUnopened path c s' u in
      rw (t, u.found)
        (rw
          (continue_err (add_counter_by_name queries system c path s') (behind_add path c args)
            uninitialized_query failed)
          (refl, still))
