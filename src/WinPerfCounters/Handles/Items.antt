-- ===== src/WinPerfCounters/Handles/Items.antt =====
-- `addItem` and `parseConfig` lose no handle (win_perf_counters.go).
use mathlib.Core.List.{Perm}
use mathlib.Core.List.Perm
use win_perf_counters.Dict.{lookup}
use win_perf_counters.Prelude.{
  ℕ, ◌≡◌, some, none, List, [], ◌∷◌, ◌++◌, equal-Perm, ap, regroup, ungroup,
}
use win_perf_counters.Text.{Text, text_eq}
use win_perf_counters.WinPerfCounters.Ensures.{Preserves}
use win_perf_counters.WinPerfCounters.Handles.Hosts.{handles_of, Placed, found-Placed, insert_new}
use win_perf_counters.WinPerfCounters.Handles.{Keeps, HandleKeeping}
use win_perf_counters.WinPerfCounters.Hosts.Invariants.{parse_config-Preserves}
use win_perf_counters.WinPerfCounters.Hosts.{parse_config}
use win_perf_counters.WinPerfCounters.Items.Changes.{MethodInvariant}
use win_perf_counters.WinPerfCounters.Items.Invariants.{add_item-Methods}
use win_perf_counters.WinPerfCounters.Items.{put_host, new_host, to_uint32}
use win_perf_counters.WinPerfCounters.Model.{HostCountersInfo, State, PerformanceQuery, System}

module _ {W Q T D : Type 0} (queries : PerformanceQuery W Q T D) (system : System W T)
    (live : W → List ℕ) (holds : Q → List ℕ) (keeping : HandleKeeping queries live holds)
    (others : List ℕ) where
  -- The queries that are open are those that the hosts of the map hold, and those of others.
  abbrev pub Owns : State W Q T D → Type 0
  Owns s = Perm (live s.world) (handles_of holds s.host_counters ++ others)

  -- The host at its place in the map.
  at_place :
      (c : Text) (h : HostCountersInfo Q T) (s : State W Q T D)
      → lookup text_eq c s.host_counters ≡ some h
      → Owns s
      → (placed : Placed holds c h s.host_counters) × Perm
          (live s.world)
          (holds h.query ++ (placed.rest ++ others))
  at_place c h s e p =
      let placed = found-Placed holds c h s.host_counters e in
      (
        placed,
        regroup (holds h.query) placed.rest others
            (Perm.trans p (Perm.append_right others placed.before)),
      )

  back_in_place :
      {c : Text} {h : HostCountersInfo Q T} (s : State W Q T D) (h' : HostCountersInfo Q T) (w : W)
      (placed : Placed holds c h s.host_counters)
      → Perm (live w) (holds h'.query ++ (placed.rest ++ others))
      → Owns (record (put_host queries system c h' s) { world = w })
  back_in_place s h' w placed p =
      Perm.trans (ungroup (holds h'.query) placed.rest others p)
        (Perm.append_right others (Perm.symm (placed.after h')))

  kept :
      {R : Type 0} (c : Text) (method : Q → W → R × Q × W)
      → Keeps live holds method
      → (s : State W Q T D) (h : HostCountersInfo Q T) → lookup text_eq c s.host_counters ≡ some h
      → Owns s
      → Owns
          (record (put_host queries system c (record h { query = (method h.query s.world).1 }) s) {
            world = (method h.query s.world).2;
          })
  kept c method keeps s h e p =
      let (placed, q) = at_place c h s e p in
      back_in_place s (record h { query = (method h.query s.world).1 }) (method h.query s.world).2
        placed (keeps (placed.rest ++ others) h.query s.world q)

  created :
      (c : Text) (s : State W Q T D) (tag : Text)
      → lookup text_eq c s.host_counters ≡ none
      → Owns s
      → Owns (put_host queries system c (new_host queries system s.config c tag) s)
  created c s tag e p =
      let h : HostCountersInfo Q T = new_host queries system s.config c tag in
      let nothing = keeping.created c (to_uint32 s.config.max_buffer_size) in
      Perm.trans p (
        Perm.append_right others (
          Perm.symm (
            Perm.trans (insert_new holds c h s.host_counters e)
              ∣ equal-Perm (ap (λ l. l ++ handles_of holds s.host_counters) nothing) ∣₁)))

  Owns-MethodInvariant : (c : Text) → MethodInvariant queries system Owns c
  Owns-MethodInvariant c = record {
    cached = λ s name p. p;
    created = created c;
    appended = λ s h item e n p.
        let (placed, q) = at_place c h s e p in
        back_in_place s (record h { counters = h.counters ++ (item ∷ []) }) s.world placed q;
    opened = kept c queries.open_query keeping.opened;
    added = λ path. kept c (queries.add_counter_to_query path) (keeping.added path);
    added_english =
        λ path. kept c (queries.add_english_counter_to_query path) (keeping.added_english path);
    path_read = λ handle. kept c (queries.get_counter_path handle) (keeping.path_read handle);
    path_expanded =
        λ path. kept c (queries.expand_wild_card_path path) (keeping.path_expanded path);
  }

  pub parse_config-Owns : Preserves Owns (parse_config queries system)
  parse_config-Owns =
      parse_config-Preserves queries system Owns
        (λ path c args. add_item-Methods queries system c (Owns-MethodInvariant c) path args)
        (λ s sources p. p)
