-- ===== src/WinPerfCounters/Items/Changes.antt =====
-- The kinds of change that `addItem` makes, and what it means that an invariant survives them.
use win_perf_counters.Dict.{lookup, insert}
use win_perf_counters.Names
use win_perf_counters.Names.{new_counter}
use win_perf_counters.Path.{localhost}
use win_perf_counters.Prelude.{ℕ, ◌≡◌, refl, none, some, inl, inr, Bool-cases, [], ◌∷◌, ◌++◌}
use win_perf_counters.Result.{Result, ok}
use win_perf_counters.Text.{Text, text_eq}
use win_perf_counters.WinPerfCounters.Fields.Groups.{IsNamed}
use win_perf_counters.WinPerfCounters.Items.{
  name_or_localhost, hostname, source_tag, put_host, new_host,
}
use win_perf_counters.WinPerfCounters.Model.{HostCountersInfo, State, PerformanceQuery, System}

module _ {W Q T D : Type 0} (queries : PerformanceQuery W Q T D) (system : System W T) where
  -- The tag is found without a change of the state but that of the cached name.
  pub source_tag_lem :
      (c : Text) (s : State W Q T D)
      → (tag : Text) × (name : Text) × (source_tag queries system c s
          ≡ (ok tag, record s { cached_hostname = name }))
  unfolding source_tag hostname
  source_tag_lem c s = elim (Bool-cases (text_eq c localhost)) [
    | inr remote ↦ (c, s.cached_hostname, rw remote refl)
    | inl local ↦ elim (Bool-cases (text_eq s.cached_hostname [])) [
      | inr cached ↦ (s.cached_hostname, s.cached_hostname, rw (local, cached) refl)
      | inl asked ↦
          let name = name_or_localhost queries system (system.os_hostname s.world) in
          (name, name, rw (local, asked) refl)
    ]
  ]

  -- The invariant is kept by what `addItem` for the computer `c` changes: the cached name of the host,
  -- a query and the system, a new entry of the map, and a counter with a name at the end of an entry.
  pub record ItemInvariant (I : State W Q T D → Type 0) (c : Text) : Type 0 where
    pub cached : (s : State W Q T D) (name : Text) → I s → I (record s { cached_hostname = name })
    pub queried :
        (s : State W Q T D) (h : HostCountersInfo Q T) (q : Q) (w : W)
        → lookup text_eq c s.host_counters ≡ some h
        → I s
        → I (record s {
          host_counters = insert text_eq c (record h { query = q }) s.host_counters;
          world = w;
        })
    pub created :
        (s : State W Q T D) (tag : Text)
        → I s
        → I (put_host queries system c (new_host queries system s.config c tag) s)
    pub appended :
        (s : State W Q T D) (h : HostCountersInfo Q T) (item : Names.Counter)
        → lookup text_eq c s.host_counters ≡ some h
        → IsNamed item
        → I s
        → I (put_host queries system c (record h { counters = h.counters ++ (item ∷ []) }) s)

  -- The same, where what a method does to the query and the system together is looked at.
  abbrev pub KeptBy :
      {A : Type 0} → (State W Q T D → Type 0) → Text → (Q → W → Result A × Q × W) → Type 0
  KeptBy I c method =
      (s : State W Q T D) (h : HostCountersInfo Q T)
      → lookup text_eq c s.host_counters ≡ some h
      → I s
      → I (record s {
        host_counters =
            insert text_eq c (record h { query = (method h.query s.world).1 }) s.host_counters;
        world = (method h.query s.world).2;
      })

  pub record MethodInvariant (I : State W Q T D → Type 0) (c : Text) : Type 0 where
    pub cached : (s : State W Q T D) (name : Text) → I s → I (record s { cached_hostname = name })
    pub created :
        (s : State W Q T D) (tag : Text)
        → lookup text_eq c s.host_counters ≡ none
        → I s
        → I (put_host queries system c (new_host queries system s.config c tag) s)
    pub appended :
        (s : State W Q T D) (h : HostCountersInfo Q T) (item : Names.Counter)
        → lookup text_eq c s.host_counters ≡ some h
        → IsNamed item
        → I s
        → I (put_host queries system c (record h { counters = h.counters ++ (item ∷ []) }) s)
    pub opened : KeptBy I c queries.open_query
    pub added : (path : Text) → KeptBy I c (queries.add_counter_to_query path)
    pub added_english : (path : Text) → KeptBy I c (queries.add_english_counter_to_query path)
    pub path_read : (handle : ℕ) → KeptBy I c (queries.get_counter_path handle)
    pub path_expanded : (path : Text) → KeptBy I c (queries.expand_wild_card_path path)

  pub method_invariant :
      {I : State W Q T D → Type 0} (c : Text) → ItemInvariant I c → MethodInvariant I c
  method_invariant c inv = record {
    cached = inv.cached;
    created = λ s tag e. inv.created s tag;
    appended = inv.appended;
    opened = λ s h. inv.queried s h _ _;
    added = λ path s h. inv.queried s h _ _;
    added_english = λ path s h. inv.queried s h _ _;
    path_read = λ handle s h. inv.queried s h _ _;
    path_expanded = λ path s h. inv.queried s h _ _;
  }
